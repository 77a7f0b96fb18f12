-- ===== src/Server/Arguments.antt =====
-- esp8266_decoder/source/server.cpp: parse_arguments, apply_overrides and what main does with them.
-- What is printed is left out; `none` is an end of the program.
pub mod Overrides
use java_io_tserver.Common.{
  ℕ, Bool, true, false, ◌||◌, List, [], ◌∷◌, ◌++◌, Option, none, some, ◌==◌, ◌>>=◌, if◌then◌else◌,
  drop,
}
use java_io_tserver.Common.Text.{Bytes, codes, equal, break_at}
use java_io_tserver.Setup.{SetupConfig, open_config, set_value}

abbrev pub is_config : Bytes → Bool
is_config a = equal a (codes "-c") || equal a (codes "--config")

abbrev pub is_param : Bytes → Bool
is_param a = equal a (codes "-p") || equal a (codes "--param")

-- A parameter without `=` is dropped.
unfoldable pub override_of : Bytes → List (Bytes × Bytes)
override_of param_str = elim (break_at b'=' param_str) [
  | none ↦ []
  | some (id, val) ↦ (id, val) ∷ []
]

-- The loop. An argument that takes a value counts only with one behind it; a call for help and an
-- argument that is not known end the program.
unfoldable pub parse_loop :
    List Bytes → Bytes → List (Bytes × Bytes) → Option (Bytes × List (Bytes × Bytes))
parse_loop [] config_file overrides = some (config_file, overrides)
parse_loop (a ∷ []) config_file overrides = none
parse_loop (a ∷ value ∷ rest) config_file overrides = elim (is_config a) [
  | true ↦ parse_loop rest value overrides
  | false ↦ elim (is_param a) [
    | true ↦ parse_loop rest config_file (overrides ++ override_of value)
    | false ↦ none
  ]
]

unfoldable pub parse_arguments : List Bytes → Option (Bytes × List (Bytes × Bytes))
parse_arguments argv = parse_loop (drop 1 argv) (codes "conf.ini") []

unfoldable pub apply_overrides : List (Bytes × Bytes) → SetupConfig → SetupConfig
apply_overrides [] s = s
apply_overrides ((id, val) ∷ os) s = apply_overrides os (set_value id val s).0

-- `g_setup` as main leaves it for the ports: the file is opened, an empty or absent one ends the
-- program, and the overrides are applied.
unfoldable pub configured : (Bytes → Option Bytes) → List Bytes → Option SetupConfig
configured files argv = do
  (config_file, overrides) ← parse_arguments argv
  let (s, config_lines) = open_config config_file (files config_file)
  if config_lines == 0 then none else some (apply_overrides overrides s)
