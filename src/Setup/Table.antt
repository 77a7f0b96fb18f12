-- ===== src/Setup/Table.antt =====
-- The table of SetupConfig as a map: what `set`, `get` and `open` do to it.
use java_io_tserver.Common.{
  ℕ, ◌≡◌, ◌≢◌, refl, arith, false, List, [], ◌∷◌, Option, none, some, if◌then◌else◌, Bool-cases,
  inl, inr,
}
use java_io_tserver.Common.Int.{pos, negsuc}
use java_io_tserver.Common.Text.{Bytes, equal, equal_iff, lines}
use java_io_tserver.Setup.{
  SetupConfig, put, find_value, set_value, get, is_empty, open_line, open_lines, open_config,
  is_ignored_line, split_line, drop_cr,
}

abbrev pub Items : Type 0
Items = List (Bytes × Bytes)

-- No key is empty, and none stands twice.
abbrev pub IsTable : Items → Type 0
IsTable [] = Unit {0}
IsTable ((k, v) ∷ m) = (k ≢ []) × (find_value k m ≡ none) × IsTable m

pub find_value-put :
    (k j v : Bytes) (m : Items)
    → find_value j (put k v m) ≡ (if equal k j then some v else find_value j m)
unfolding put find_value
find_value-put k j v [] = refl
find_value-put k j v ((i, w) ∷ m) =
    ground (arith, equal_iff k j, equal_iff i k, equal_iff i j, find_value-put k j v m)

pub put-IsTable : (k v : Bytes) (m : Items) → k ≢ [] → IsTable m → IsTable (put k v m)
unfolding put find_value
put-IsTable k v [] ne h = (ne, refl, tt)
put-IsTable k v ((i, w) ∷ m) ne h = elim (Bool-cases (equal i k)) [
  | inl same ↦ rw same h
  | inr other ↦ rw other (
    h.0,
    ground (arith, find_value-put k i v m, equal_iff k i, equal_iff i k),
    put-IsTable k v m ne h.2,
  )
]

empty_iff : (k : Bytes) → is_empty k ≡ false → k ≢ []
empty_iff [] h e = cc
empty_iff (c ∷ k) h e = cc

open_line-IsTable : (l : Bytes) (s : Items × ℕ) → IsTable s.0 → IsTable (open_line l s).0
unfolding open_line
open_line-IsTable l (m, n) h = elim (Bool-cases (is_ignored_line (drop_cr l))) [
  | inl skipped ↦ rw skipped h
  | inr read ↦ elim (Bool-cases (is_empty (split_line (drop_cr l)).0)) [
    | inl no_key ↦ rw (read, no_key) h
    | inr key ↦ rw (read, key) (put-IsTable _ (split_line (drop_cr l)).1 m (empty_iff _ key) h)
  ]
]

pub open_lines-IsTable :
    (ls : List Bytes) (s : Items × ℕ) → IsTable s.0 → IsTable (open_lines ls s).0
unfolding open_lines
open_lines-IsTable [] s h = h
open_lines-IsTable (l ∷ ls) s h = open_lines-IsTable ls (open_line l s) (open_line-IsTable l s h)

-- Whatever the file holds, the table that `open` leaves has no empty key and no key twice.
pub open_config-IsTable :
    (path : Bytes) (file : Option Bytes) → IsTable (open_config path file).0.items
unfolding open_config
open_config-IsTable path none = tt
open_config-IsTable path (some text) = open_lines-IsTable (lines text) ([], 0) tt

-- Independent reading of a file: what one line says of a key, and the last such line.
abbrev pub line_value : Bytes → Bytes → Option Bytes
line_value k raw =
    let line = drop_cr raw in
    if is_ignored_line line
    then none
    else if is_empty (split_line line).0
    then none
    else if equal (split_line line).0 k
    then some (split_line line).1
    else none

abbrev pub or_else : Option Bytes → Option Bytes → Option Bytes
or_else (some v) o = some v
or_else none o = o

abbrev pub last_value : Bytes → List Bytes → Option Bytes
last_value k [] = none
last_value k (l ∷ ls) = or_else (last_value k ls) (line_value k l)

open_line_value :
    (k l : Bytes) (s : Items × ℕ)
    → find_value k (open_line l s).0 ≡ or_else (line_value k l) (find_value k s.0)
unfolding open_line
open_line_value k l (m, n) =
    ground (arith, find_value-put (split_line (drop_cr l)).0 k (split_line (drop_cr l)).1 m)

or_else_assoc : (a b c : Option Bytes) → or_else a (or_else b c) ≡ or_else (or_else a b) c
or_else_assoc none b c = refl
or_else_assoc (some v) b c = refl

pub open_lines_value :
    (k : Bytes) (ls : List Bytes) (s : Items × ℕ)
    → find_value k (open_lines ls s).0 ≡ or_else (last_value k ls) (find_value k s.0)
unfolding open_lines
open_lines_value k [] s = refl
open_lines_value k (l ∷ ls) s =
    rw (open_lines_value k ls (open_line l s), open_line_value k l s)
      (or_else_assoc (last_value k ls) (line_value k l) (find_value k s.0))

or_else_nil : (a : Option Bytes) → or_else a none ≡ a
or_else_nil none = refl
or_else_nil (some v) = refl

-- After `open` of a file that opens, `get` of a key gives the value of the last line that is
-- neither ignored nor without a key and whose key it is; with no such line, the empty text.
pub get-open_config :
    (path text k : Bytes)
    → get (open_config path (some text)).0 k
      ≡ elim (last_value k (lines text)) [ none ↦ [] | some v ↦ v ]
unfolding open_config get find_value
get-open_config path text k =
    ground (arith, open_lines_value k (lines text) ([], 0), or_else_nil (last_value k (lines text)))

-- `set` of a key that is not empty changes what `get` gives for this key and for no other, and
-- the table still has no empty key and no key twice; the empty key is refused with -1, and
-- nothing changes.
pub get-set_value :
    (s : SetupConfig) (id j v : Bytes)
    → IsTable s.items
    → IsTable (set_value id v s).0.items
      × (get (set_value id v s).0 j
          ≡ (if is_empty id then get s j else if equal id j then v else get s j))
      × ((set_value id v s).1 ≡ (if is_empty id then negsuc 0 else pos 1))
unfolding set_value get
get-set_value s [] j v h = (h, refl, refl)
get-set_value s (c ∷ id) j v h = (
  put-IsTable (c ∷ id) v s.items (empty_iff (c ∷ id) refl) h,
  ground (arith, find_value-put (c ∷ id) j v s.items),
  refl,
)
