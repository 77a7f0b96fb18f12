-- ===== src/LiraCalc/Cp1251/Letters.antt =====
-- dwnldcnf.cpp, utf_to_cp1251: what it gives for a text in UTF-8, and how much of it.
use java_io_tserver.Common.{
  ℕ, suc, ◌+◌, ◌/◌, ◌%◌, ◌≡◌, ◌<◌, ◌≤◌, refl, ap, ◌∙◌, true, false, Bool-cases, inl, inr, List, [],
  ◌∷◌, ◌++◌, map, All, length, ltb, if◌then◌else◌, if_both, arith,
}
use java_io_tserver.Common.Text.{Bytes}
use java_io_tserver.LiraCalc.Cp1251.{letter, leads_two, unicode, utf_to_cp1251}

-- A character in UTF-8, of one byte or of two.
unfoldable pub utf8 : ℕ → Bytes
utf8 u = if ltb u 0x80 then u ∷ [] else (0xC0 + u / 64) ∷ (0x80 + u % 64) ∷ []

unfoldable pub encode : List ℕ → Bytes
unfolding utf8
encode [] = []
encode (u ∷ us) = utf8 u ++ encode us

-- The byte of a character.
unfoldable pub cp1251 : ℕ → ℕ
cp1251 u = if ltb u 0x80 then u else letter u

one_byte : (c : ℕ) (t : Bytes) → c < 0x80 → utf_to_cp1251 (c ∷ t) ≡ c ∷ utf_to_cp1251 t
unfolding utf_to_cp1251
one_byte c [] h = ground arith
one_byte c (c2 ∷ t) h = let small : ltb c 0x80 ≡ true = ground arith in rw small refl

two_bytes :
    (u : ℕ) (t : Bytes)
    → 0x80 ≤ u
    → u < 0x800
    → utf_to_cp1251 ((0xC0 + u / 64) ∷ (0x80 + u % 64) ∷ t) ≡ letter u ∷ utf_to_cp1251 t
unfolding utf_to_cp1251
two_bytes u t h k =
    let large : ltb (0xC0 + u / 64) 0x80 ≡ false = ground arith in
    let leads : leads_two (0xC0 + u / 64) ≡ true = ground arith in
    let back : unicode (0xC0 + u / 64) (0x80 + u % 64) ≡ u = omega arith in
    rw (large, leads, back) refl

-- A text in UTF-8 of characters below U+0800, none of them 0, becomes one byte for each character:
-- the character itself below 0x80, else the letter of the table.
pub utf_to_cp1251-encode :
    (us : List ℕ) → All (λ u. (0 < u) × (u < 0x800)) us → utf_to_cp1251 (encode us) ≡ map cp1251 us
unfolding encode cp1251 utf_to_cp1251
utf_to_cp1251-encode [] h = refl
utf_to_cp1251-encode (u ∷ us) ((positive, below), h) = elim (Bool-cases (ltb u 0x80)) [
  | inl small ↦
      rw small (one_byte u (encode us) (ground arith) ∙ ap (◌∷◌ u) (utf_to_cp1251-encode us h))
  | inr large ↦ rw large (
      two_bytes u (encode us) (ground arith) below
      ∙ ap (◌∷◌ (letter u)) (utf_to_cp1251-encode us h))
]

-- utf_to_cp1251 gives no more bytes than it is given, so that its buffer, one byte longer than the
-- text, has room for them and the final 0.
length-utf_to_cp1251-le : (t : Bytes) → length (utf_to_cp1251 t) ≤ length t
unfolding utf_to_cp1251
length-utf_to_cp1251-le [] = omega arith
length-utf_to_cp1251-le (c ∷ []) = omega arith
length-utf_to_cp1251-le (c ∷ c2 ∷ rest) =
    let room = suc (suc (length rest)) in
    let one : suc (length (utf_to_cp1251 (c2 ∷ rest))) ≤ room =
      omega (arith, length-utf_to_cp1251-le (c2 ∷ rest)) in
    let two : suc (length (utf_to_cp1251 rest)) ≤ room =
      omega (arith, length-utf_to_cp1251-le rest) in
    if_both (λ (t : Bytes). length t ≤ room) (ltb c 0x80) _ _ one
      (if_both (λ (t : Bytes). length t ≤ room) (leads_two c) _ _ two one)
