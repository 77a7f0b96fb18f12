-- ===== src/Server/Arguments/Overrides.antt =====
-- server.cpp: what the arguments say is what the server reads.
use java_io_tserver.Common.{
  ◌≡◌, refl, sym, ap, ◌∙◌, true, false, List, [], ◌∷◌, ◌++◌, append-nil, append_assoc, Option, some,
  ◌==◌, if◌then◌else◌, All,
}
use java_io_tserver.Common.Text.{Bytes, codes, equal, lacks, break_at-append}
use java_io_tserver.Setup.{SetupConfig, is_empty, open_config, set_value, get}
use java_io_tserver.Setup.Table.{IsTable, get-set_value, open_config-IsTable}
use java_io_tserver.Server.Arguments.{
  override_of, parse_loop, parse_arguments, apply_overrides, configured,
}

-- The arguments for overrides.
unfoldable pub param_args : List (Bytes × Bytes) → List Bytes
param_args [] = []
param_args ((id, val) ∷ os) = codes "-p" ∷ (id ++ b'=' ∷ val) ∷ param_args os

-- The value that a list of overrides leaves for a key; one with an empty key does not count.
unfoldable pub overridden : Bytes → List (Bytes × Bytes) → Bytes → Bytes
overridden j [] v = v
overridden j ((id, val) ∷ os) v =
    overridden j os (if is_empty id then v else if equal id j then val else v)

abbrev pub AllKeys : List (Bytes × Bytes) → Type 0
AllKeys = All (λ (o : Bytes × Bytes). lacks b'=' o.0 ≡ true)

override_lem :
    (id val : Bytes) → lacks b'=' id ≡ true → override_of (id ++ b'=' ∷ val) ≡ (id, val) ∷ []
unfolding override_of
override_lem id val h = rw (break_at-append b'=' id val h, override_of) refl

parse_loop-param_args :
    (os done : List (Bytes × Bytes)) (c : Bytes)
    → AllKeys os
    → parse_loop (param_args os) c done ≡ some (c, done ++ os)
unfolding parse_loop param_args override_of equal
parse_loop-param_args [] done c h = ap (λ d. some (c, d)) (sym (append-nil done))
parse_loop-param_args ((id, val) ∷ os) done c h =
    ap (λ o. parse_loop (param_args os) c (done ++ o)) (override_lem id val h.0)
    ∙ parse_loop-param_args os (done ++ (id, val) ∷ []) c h.1
    ∙ ap (λ d. some (c, d)) (append_assoc done ((id, val) ∷ []) os)

get-apply_overrides :
    (os : List (Bytes × Bytes)) (s : SetupConfig) (j : Bytes)
    → IsTable s.items
    → get (apply_overrides os s) j ≡ overridden j os (get s j)
unfolding apply_overrides overridden
get-apply_overrides [] s j h = refl
get-apply_overrides ((id, val) ∷ os) s j h =
    let step = get-set_value s id j val h in
    get-apply_overrides os (set_value id val s).0 j step.0 ∙ ap (overridden j os) step.1

parsed :
    (prog c : Bytes) (os : List (Bytes × Bytes))
    → AllKeys os
    → parse_arguments (prog ∷ codes "-c" ∷ c ∷ param_args os) ≡ some (c, os)
unfolding parse_arguments parse_loop equal
parsed prog c os h = parse_loop-param_args os [] c h

-- Started with a configuration file that holds an entry, and with overrides whose keys have no equals
-- sign, the server reads for each key the last override of the key, or else what the file says.
pub get-configured :
    (files : Bytes → Option Bytes) (prog c : Bytes) (os : List (Bytes × Bytes)) (j : Bytes)
    → AllKeys os
    → ((open_config c (files c)).1 == 0) ≡ false
    → (s : SetupConfig) × (configured files (prog ∷ codes "-c" ∷ c ∷ param_args os) ≡ some s)
      × (get s j ≡ overridden j os (get (open_config c (files c)).0 j))
unfolding configured
get-configured files prog c os j h full =
    let s = (open_config c (files c)).0 in
    (
      apply_overrides os s,
      rw (parsed prog c os h, full) refl,
      get-apply_overrides os s j (open_config-IsTable c (files c)),
    )
