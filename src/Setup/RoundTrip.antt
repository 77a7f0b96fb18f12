-- ===== src/Setup/RoundTrip.antt =====
-- What `save` writes, `open` reads back.
use java_io_tserver.Common.{
  ℕ, ◌+◌, ◌≡◌, ◌≢◌, refl, ap, ◌∙◌, arith, true, false, [], ◌∷◌, ◌++◌, none, some, length,
  append-nil, append_assoc, All,
}
use java_io_tserver.Common.Text.{Bytes, equal, equal_iff, break_at-append, lacks, lines_from, lines}
use java_io_tserver.Setup.{
  SetupConfig, starts_ignored, is_ignored_line, split_line, put, find_value, drop_cr, is_empty,
  open_line, open_lines, open_config, print_items, save,
}
use java_io_tserver.Setup.Table.{Items, IsTable}
use java_io_tserver.Setup.Trim.{first_ok, last_ok, IsTrimmed, trim_id, last_ok-append}

-- An entry that a line can hold: a key with no `=` that does not begin as an ignored line does, a
-- value, neither with a line feed nor with a blank at an end.
pub record IsWritable (e : Bytes × Bytes) : Type 0 where
  pub key_kept : starts_ignored e.0 ≡ false
  pub key_no_eq : lacks b'=' e.0 ≡ true
  pub key_one_line : lacks b'\n' e.0 ≡ true
  pub key_trimmed : IsTrimmed e.0
  pub value_one_line : lacks b'\n' e.1 ≡ true
  pub value_trimmed : IsTrimmed e.1

abbrev pub entry_line : Bytes × Bytes → Bytes
entry_line e = e.0 ++ b'=' ∷ e.1

lines_from-append :
    (acc a b : Bytes)
    → lacks b'\n' a ≡ true
    → lines_from acc (a ++ b'\n' ∷ b) ≡ (acc ++ a) ∷ lines b
unfolding lines_from lacks
lines_from-append acc [] b h = rw append-nil
lines_from-append acc (c ∷ a) b h =
    ground (arith, lines_from-append (acc ++ c ∷ []) a b, append_assoc acc (c ∷ []) a)

lacks-append : (c : ℕ) (a b : Bytes) → lacks c a ≡ true → lacks c b ≡ true → lacks c (a ++ b) ≡ true
unfolding lacks
lacks-append c [] b h k = k
lacks-append c (x ∷ a) b h k = ground (arith, lacks-append c a b)

last_ok_value : (v : Bytes) → last_ok v ≡ true → last_ok (b'=' ∷ v) ≡ true
last_ok_value [] h = refl
last_ok_value (c ∷ v) h = h

first_ok_key :
    (k v : Bytes)
    → starts_ignored k ≡ false
    → first_ok k ≡ true
    → (first_ok (k ++ v) ≡ true) × (starts_ignored (k ++ v) ≡ false) × (is_empty k ≡ false)
unfolding starts_ignored
first_ok_key [] v h f = cc
first_ok_key (c ∷ k) v h f = (f, h, refl)

drop_cr_id : (t : Bytes) → last_ok t ≡ true → drop_cr t ≡ t
unfolding drop_cr
drop_cr_id [] h = refl
drop_cr_id (c ∷ []) h = ground arith
drop_cr_id (c ∷ d ∷ t) h = ap (◌∷◌ c) (drop_cr_id (d ∷ t) h)

module _ (e : Bytes × Bytes) (w : IsWritable e) where
  IsTrimmed-line : IsTrimmed (entry_line e)
  IsTrimmed-line = record {
    first = (first_ok_key e.0 (b'=' ∷ e.1) w.key_kept w.key_trimmed.first).0;
    last = last_ok-append e.0 e.1 b'=' (last_ok_value e.1 w.value_trimmed.last);
  }

  kept_line : is_ignored_line (entry_line e) ≡ false
  unfolding is_ignored_line
  kept_line =
      rw (trim_id (entry_line e) IsTrimmed-line)
        (first_ok_key e.0 (b'=' ∷ e.1) w.key_kept w.key_trimmed.first).1

  split_line_entry : split_line (entry_line e) ≡ e
  unfolding split_line
  split_line_entry =
      rw (trim_id (entry_line e) IsTrimmed-line, split_line)
        (rw (break_at-append b'=' e.0 e.1 w.key_no_eq)
          (rw (trim_id e.0 w.key_trimmed, trim_id e.1 w.value_trimmed)))

  lacks_line : lacks b'\n' (entry_line e) ≡ true
  unfolding lacks
  lacks_line = lacks-append b'\n' e.0 (b'=' ∷ e.1) w.key_one_line w.value_one_line

  open_line_entry : (m : Items) (n : ℕ) → open_line (entry_line e) (m, n) ≡ (put e.0 e.1 m, n + 1)
  unfolding open_line
  open_line_entry m n =
      rw (drop_cr_id (entry_line e) IsTrimmed-line.last) (
        rw (kept_line, split_line_entry)
          (rw (first_ok_key e.0 [] w.key_kept w.key_trimmed.first).2))

find_value-append :
    (j k v : Bytes) (p m : Items) → find_value j (p ++ (k, v) ∷ m) ≡ none → equal j k ≡ false
unfolding find_value
find_value-append j k v [] m h = ground (arith, equal_iff k j, equal_iff j k)
find_value-append j k v ((i, w) ∷ p) m h = ground (arith, find_value-append j k v p m)

put-append : (k v : Bytes) (p m : Items) → IsTable (p ++ (k, v) ∷ m) → put k v p ≡ p ++ (k, v) ∷ []
unfolding put
put-append k v [] m h = refl
put-append k v ((i, w) ∷ p) m h = rw (find_value-append i k v p m h.1) (rw (put-append k v p m h.2))

open_lines-print_items :
    (p m : Items) (n : ℕ)
    → IsTable (p ++ m)
    → All IsWritable m
    → open_lines (lines (print_items m)) (p, n) ≡ (p ++ m, n + length m)
unfolding open_lines print_items lines_from
open_lines-print_items p [] n t w = ground (arith, append-nil p)
open_lines-print_items p ((k, v) ∷ m) n t w =
    let rest = lines (print_items m) in
    let here : lines (print_items ((k, v) ∷ m)) ≡ (k ++ b'=' ∷ v) ∷ rest =
      rw (← append_assoc k (b'=' ∷ v) (b'\n' ∷ print_items m))
        (lines_from-append [] (k ++ b'=' ∷ v) (print_items m) (lacks_line (k, v) w.0)) in
    let moved = append_assoc p ((k, v) ∷ []) m in
    ap (λ ls. open_lines ls (p, n)) here
    ∙ ap (open_lines rest) (open_line_entry (k, v) w.0 p n ∙ rw (put-append k v p m t))
    ∙ open_lines-print_items (p ++ (k, v) ∷ []) m (n + 1) (rw moved t) w.1
    ∙ ground (arith, moved)

is_empty_path : (p : Bytes) → p ≢ [] → is_empty p ≡ false
is_empty_path [] ne = absurd (ne refl)
is_empty_path (c ∷ p) ne = refl

-- A configuration of writable entries with no key twice: what `save` writes, where the file
-- opens and takes all of it, is read back by `open` as the same configuration, with every entry
-- counted.
pub open_config-save :
    (s : SetupConfig)
    → s.path ≢ []
    → IsTable s.items
    → All IsWritable s.items
    → (text : Bytes) × (save s true true ≡ (some text, 1))
      × (open_config s.path (some text) ≡ (s, length s.items))
unfolding save open_config
open_config-save s ne t w = (
  print_items s.items,
  rw (is_empty_path s.path ne),
  rw (open_lines-print_items [] s.items 0 t w) (ground arith),
)
