-- ===== src/Setup.antt =====
-- esp8266_decoder/source/setup.cpp, class SetupConfig: a table of `key = value` lines, in the
-- order in which the keys were first met. A file is its bytes; `none` is a file that does not open.
pub mod Trim
pub mod Table
pub mod RoundTrip
use java_io_tserver.Common.{
  ℕ, zero, suc, ◌+◌, ◌-◌, ◌<◌, Bool, true, false, ◌&&◌, ◌||◌, not, List, [], ◌∷◌, ◌++◌, Option,
  none, some, ltb, leb, ◌==◌, if◌then◌else◌, length, get_or, take, drop,
}
use java_io_tserver.Common.Int.{ℤ, pos, negsuc, leb_ℤ, ◌==ℤ◌}
use java_io_tserver.Common.Text.{Bytes, equal, break_at, lines_from, lines, is_space, skip_space}

pub record SetupConfig : Type 0 where
  pub path : Bytes
  pub items : List (Bytes × Bytes)

abbrev pub blank : ℕ → Bool
blank c = c == b' ' || c == b'\t' || c == b'\r' || c == b'\n'

-- The first loop of `trim`: the number of blanks at the front.
unfoldable pub trim_start : Bytes → ℕ
trim_start [] = 0
trim_start (c ∷ cs) = let rest = suc (trim_start cs) in if blank c then rest else 0

-- The second loop of `trim`, from `end` down to `start`.
unfoldable pub trim_end : Bytes → ℕ → ℕ → ℕ
trim_end text start zero = 0
trim_end text start (suc e) =
    let rest = trim_end text start e in
    if ltb start (suc e) && blank (get_or text e 0) then rest else suc e

unfoldable pub trim : Bytes → Bytes
unfolding trim_start trim_end
trim text =
    let start = trim_start text in
    let end = trim_end text start (length text) in take (end - start) (drop start text)

unfoldable pub starts_ignored : Bytes → Bool
starts_ignored [] = true
starts_ignored (c ∷ cs) = c == b'[' || c == b'#'

unfoldable pub is_ignored_line : Bytes → Bool
unfolding starts_ignored
is_ignored_line text = starts_ignored (trim text)

-- `iss >> key`: the word at the front, and the rest.
unfoldable pub word : Bytes → Bytes × Bytes
word [] = ([], [])
word (c ∷ cs) =
    let (w, rest) = word cs in
    let longer : Bytes × Bytes = (c ∷ w, rest) in if is_space c then ([], c ∷ cs) else longer

-- `std::getline(iss, value)`.
unfoldable pub rest_of_line : Bytes → Bytes
unfolding break_at
rest_of_line s = elim (break_at b'\n' s) [ none ↦ s | some (a, b) ↦ a ]

unfoldable pub split_line : Bytes → Bytes × Bytes
unfolding word rest_of_line skip_space is_space
split_line text =
    let trimmed = trim text in
    elim (break_at b'=' trimmed) [
      | some (k, v) ↦ (trim k, trim v)
      | none ↦ let (k, rest) = word (skip_space trimmed) in (k, trim (rest_of_line rest))
    ]

-- The loop that overwrites the first entry with the key, or appends a new entry.
unfoldable pub put : Bytes → Bytes → List (Bytes × Bytes) → List (Bytes × Bytes)
put k v [] = (k, v) ∷ []
put k v ((j, w) ∷ m) = if equal j k then (j, v) ∷ m else (j, w) ∷ put k v m

unfoldable pub find_value : Bytes → List (Bytes × Bytes) → Option Bytes
find_value k [] = none
find_value k ((j, w) ∷ m) = if equal j k then some w else find_value k m

-- `line.back() == '\r'` and `pop_back`.
unfoldable pub drop_cr : Bytes → Bytes
drop_cr [] = []
drop_cr (c ∷ []) = if c == b'\r' then [] else c ∷ []
drop_cr (c ∷ d ∷ cs) = c ∷ drop_cr (d ∷ cs)

abbrev pub is_empty : Bytes → Bool
is_empty [] = true
is_empty (c ∷ cs) = false

-- One line of `open`: the table and the count behind it.
unfoldable pub open_line : Bytes → List (Bytes × Bytes) × ℕ → List (Bytes × Bytes) × ℕ
open_line raw (m, count) =
    let line = drop_cr raw in
    let (k, v) = split_line line in
    if is_ignored_line line
    then (m, count)
    else if is_empty k
    then (m, count)
    else (put k v m, count + 1)

unfoldable pub open_lines : List Bytes → List (Bytes × Bytes) × ℕ → List (Bytes × Bytes) × ℕ
open_lines [] s = s
open_lines (l ∷ ls) s = open_lines ls (open_line l s)

-- `open` forgets what the table held, also where the file does not open.
unfoldable pub open_config : Bytes → Option Bytes → SetupConfig × ℕ
open_config path none = (record { path = path; items = [] }, 0)
open_config path (some text) =
    let (m, count) = open_lines (lines text) ([], 0) in (record { path = path; items = m }, count)

pub close : SetupConfig → SetupConfig × ℕ
close s = (record { path = []; items = [] }, 0)

unfoldable pub print_items : List (Bytes × Bytes) → Bytes
print_items [] = []
print_items ((k, v) ∷ m) = k ++ (b'=' ∷ (v ++ (b'\n' ∷ print_items m)))

-- `save`: what is written to the file, if anything, and the code returned. `opens` and `written`
-- say whether the file opens for writing and whether all of it is written.
unfoldable pub save : SetupConfig → Bool → Bool → Option Bytes × ℕ
save s opens written =
    if is_empty s.path
    then (none, 0)
    else if not opens
    then (none, 0)
    else (some (print_items s.items), if written then 1 else 0)

unfoldable pub set_value : Bytes → Bytes → SetupConfig → SetupConfig × ℤ
set_value id v s =
    if is_empty id then (s, negsuc 0) else (record s { items = put id v s.items }, pos 1)

-- `get(id)`, with the empty text for a key that is missing.
unfoldable pub get : SetupConfig → Bytes → Bytes
get s id = elim (find_value id s.items) [ none ↦ [] | some v ↦ v ]

-- `get(id, value, max_len)`: the code, and `value` afterwards.
unfoldable pub get_bounded : SetupConfig → Bytes → Bytes → ℤ → ℤ × Bytes
get_bounded s id value max_len = elim (find_value id s.items) [
  | none ↦ (pos 0, value)
  | some v ↦
      if max_len ==ℤ pos 0
      then (pos (length v + 1), value)
      else if leb_ℤ max_len (pos (length v))
      then (negsuc 1, value)
      else (pos (length v + 1), v)
]

unfoldable pub get_defined : SetupConfig → Bytes → ℕ
get_defined s id = elim (find_value id s.items) [ none ↦ 0 | some v ↦ length v + 1 ]

count_lines : List Bytes → ℕ → ℕ
count_lines [] count = count
count_lines (l ∷ ls) count =
    count_lines ls (if is_ignored_line (drop_cr l) then count else count + 1)

-- `length(path)`: the lines of a file that are not ignored.
unfoldable pub length_of_file : Option Bytes → ℕ
unfolding count_lines
length_of_file none = 0
length_of_file (some text) = count_lines (lines text) 0
