-- ===== src/MachineTime/Device/Report/Names.antt =====
-- MachineTime.cpp, get_names and the list of ids: reading back a text that stands in their JSON.
use java_io_tserver.Common.{
  ℕ, ◌≡◌, ◌≤◌, ◌∙◌, refl, sym, ap, ==_iff, inl, inr, false, [], ◌∷◌, ◌++◌, All, Option, none, some,
  ◌==◌, ltb, if◌then◌else◌, Bool-cases, arith,
}
use java_io_tserver.Common.Text.{Bytes}
use java_io_tserver.MachineTime.Device.Report.{escape}

-- What the character behind a backslash stands for (RFC 8259); four hexadecimal digits behind a `u`
-- are not read.
unfoldable pub escaped_as : ℕ → Option ℕ
escaped_as d =
    if d == b'"'
    then some b'"'
    else if d == b'\\'
    then some b'\\'
    else if d == b'/'
    then some b'/'
    else if d == b'b'
    then some 8
    else if d == b'f'
    then some 12
    else if d == b'n'
    then some 10
    else if d == b'r'
    then some 13
    else if d == b't'
    then some 9
    else none

abbrev pub behind : Option ℕ → Option (Bytes × Bytes) → Option (Bytes × Bytes)
behind none read = none
behind (some c) none = none
behind (some c) (some (a, rest)) = some (c ∷ a, rest)

-- A reader of JSON strings: the text up to the closing quotation mark, and what stands behind it. A
-- control character may not stand in the string.
unfoldable pub read_string : Bytes → Option (Bytes × Bytes)
read_string [] = none
read_string (c ∷ []) = if c == b'"' then some ([], []) else none
read_string (c ∷ d ∷ cs) =
    let escaped = behind (escaped_as d) (read_string cs) in
    let plain = behind (some c) (read_string (d ∷ cs)) in
    if c == b'"'
    then some ([], d ∷ cs)
    else if c == b'\\'
    then escaped
    else if ltb c 0x20
    then none
    else plain

read_plain :
    (c : ℕ) (a rest t : Bytes)
    → (c == b'"') ≡ false
    → (c == b'\\') ≡ false
    → 0x20 ≤ c
    → read_string t ≡ some (a, rest)
    → read_string (c ∷ t) ≡ some (c ∷ a, rest)
unfolding read_string
read_plain c a rest [] q b l h = absurd (ground (arith, h))
read_plain c a rest (d ∷ t) q b l h =
    let large : ltb c 0x20 ≡ false = ground arith in rw (q, b, large, read_string, h) refl

read_escaped :
    (c : ℕ) (a rest t : Bytes)
    → escaped_as c ≡ some c
    → read_string t ≡ some (a, rest)
    → read_string (b'\\' ∷ c ∷ t) ≡ some (c ∷ a, rest)
unfolding read_string
read_escaped c a rest t e h = rw (h, e, read_string) refl

quote_escaped : escaped_as b'"' ≡ some b'"'
unfolding escaped_as
quote_escaped = refl

backslash_escaped : escaped_as b'\\' ≡ some b'\\'
unfolding escaped_as
backslash_escaped = refl

read_quote : (rest : Bytes) → read_string (b'"' ∷ rest) ≡ some ([], rest)
unfolding read_string
read_quote [] = refl
read_quote (c ∷ rest) = refl

-- A text without control characters that escape has written between two quotation marks is read
-- back as it was, whatever follows it.
pub read_string-escape :
    (t rest : Bytes)
    → All (λ c. 0x20 ≤ c) t
    → read_string (escape t ++ b'"' ∷ rest) ≡ some (t, rest)
unfolding escape
read_string-escape [] rest h = read_quote rest
read_string-escape (c ∷ t) rest (l, h) =
    let tail = read_string-escape t rest h in
    elim (Bool-cases (c == b'"')) [
      | inl e ↦ rw e (
          read_escaped b'"' t rest _ quote_escaped tail
          ∙ ap (λ x. some (x ∷ t, rest)) (sym ((==_iff c b'"').0 e)))
      | inr e ↦ elim (Bool-cases (c == b'\\')) [
        | inl f ↦
            rw (e, f)
              (read_escaped b'\\' t rest _ backslash_escaped tail
                ∙ ap (λ x. some (x ∷ t, rest)) (sym ((==_iff c b'\\').0 f)))
        | inr f ↦ rw (e, f) (read_plain c t rest _ e f l tail)
      ]
    ]
