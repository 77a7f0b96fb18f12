-- ===== src/Http/Escape/Decode.antt =====
-- `convert_string` undoes the percent encoding with digits in upper case, and no other.
use java_io_tserver.Common.{
  ℕ, ◌+◌, ◌-◌, ◌*◌, ◌/◌, ◌%◌, ◌≤◌, ◌<◌, ◌≡◌, refl, ap, ◌∙◌, arith, Bool, false, ◌&&◌, not, [], ◌∷◌,
  ◌++◌, ltb, ◌==◌, if◌then◌else◌, All, append_assoc, Bool-cases, inl, inr,
}
use java_io_tserver.Common.Text.{Bytes}
use java_io_tserver.Http.Escape.{hex_value, escaped_byte, space_for_plus, convert_string}

-- The digit of a number below 16, in upper case; and in lower case.
abbrev pub upper_digit : ℕ → ℕ
upper_digit n = if ltb n 10 then b'0' + n else b'A' + (n - 10)

abbrev pub lower_digit : ℕ → ℕ
lower_digit n = if ltb n 10 then b'0' + n else b'a' + (n - 10)

-- Percent encoding (RFC 3986): `keep` chooses the bytes that stand for themselves.
abbrev pub encode_byte : (ℕ → Bool) → ℕ → Bytes
encode_byte keep c =
    if keep c && not (c == b'%') && not (c == b'+')
    then c ∷ []
    else b'%' ∷ upper_digit (c / 16) ∷ upper_digit (c % 16) ∷ []

abbrev pub percent_encode : (ℕ → Bool) → Bytes → Bytes
percent_encode keep [] = []
percent_encode keep (c ∷ cs) = encode_byte keep c ++ percent_encode keep cs

hex_value-upper_digit : (n : ℕ) → n < 16 → hex_value (upper_digit n) ≡ n
unfolding hex_value
hex_value-upper_digit n h = ground arith

convert_escape :
    (a b : ℕ) (rest : Bytes)
    → convert_string (b'%' ∷ a ∷ b ∷ rest) ≡ escaped_byte a b ∷ convert_string rest
unfolding convert_string
convert_escape a b rest = refl

convert_plain :
    (c : ℕ) (rest : Bytes)
    → (c == b'%') ≡ false
    → convert_string (c ∷ rest) ≡ space_for_plus c ∷ convert_string rest
unfolding convert_string
convert_plain c [] h = ground arith
convert_plain c (a ∷ []) h = ground arith
convert_plain c (a ∷ b ∷ rest) h = ground arith

escaped_byte-upper_digit :
    (c : ℕ) → c < 256 → escaped_byte (upper_digit (c / 16)) (upper_digit (c % 16)) ≡ c
unfolding escaped_byte
escaped_byte-upper_digit c h =
    rw (hex_value-upper_digit (c / 16) (omega arith), hex_value-upper_digit (c % 16) (omega arith))
      (omega arith)

convert-encode_byte :
    (keep : ℕ → Bool) (c : ℕ) (rest : Bytes)
    → c < 256
    → convert_string (encode_byte keep c ++ rest) ≡ c ∷ convert_string rest
convert-encode_byte keep c rest h =
    elim (Bool-cases (keep c && not (c == b'%') && not (c == b'+'))) [
      | inl kept ↦ rw kept (convert_plain c rest (ground arith) ∙ ground arith)
      | inr coded ↦ rw coded (convert_escape _ _ rest ∙ rw (escaped_byte-upper_digit c h))
    ]

-- Whatever bytes are left to stand for themselves, `convert_string` gives back what was percent
-- encoded.
pub convert_string-percent_encode :
    (keep : ℕ → Bool) (text rest : Bytes)
    → All (λ c. c < 256) text
    → convert_string (percent_encode keep text ++ rest) ≡ text ++ convert_string rest
convert_string-percent_encode keep [] rest h = refl
convert_string-percent_encode keep (c ∷ cs) rest h =
    rw (append_assoc (encode_byte keep c) (percent_encode keep cs) rest) (
      convert-encode_byte keep c (percent_encode keep cs ++ rest) h.0
      ∙ ap (◌∷◌ c) (convert_string-percent_encode keep cs rest h.1))

-- A digit in lower case is read as another number: where the second digit of an escape is one
-- from `a` to `f`, the byte read is 32 more, modulo 256, than the byte that the escape stands for.
convert_string-lower_digit :
    (hi lo : ℕ) (rest : Bytes)
    → hi < 16
    → 10 ≤ lo
    → lo < 16
    → convert_string (b'%' ∷ upper_digit hi ∷ lower_digit lo ∷ rest)
      ≡ (hi * 16 + lo + 32) % 256 ∷ convert_string rest
unfolding escaped_byte
convert_string-lower_digit hi lo rest h l u =
    convert_escape (upper_digit hi) (lower_digit lo) rest
    ∙ rw (hex_value-upper_digit hi h) (unfold hex_value in ground arith)
