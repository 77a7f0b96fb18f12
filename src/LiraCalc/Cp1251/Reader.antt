-- ===== src/LiraCalc/Cp1251/Reader.antt =====
-- dwnldcnf.cpp, utf_to_cp1251: its bytes read with the code page Windows-1251.
use java_io_tserver.Common.{
  ℕ, zero, suc, ◌+◌, ◌-◌, ◌≡◌, ◌<◌, ◌≤◌, refl, ap, ◌∙◌, Bool, true, Bool-cases, inl, inr, List, [],
  ◌∷◌, map, All, ltb, leb, ◌&&◌, ◌||◌, not, ◌==◌, if◌then◌else◌, get_or, arith,
}
use mathlib.Core.Path.{subst}
use java_io_tserver.LiraCalc.Cp1251.{letter_in, letter, utf_to_cp1251}
use java_io_tserver.LiraCalc.Cp1251.Letters.{encode, cp1251, utf_to_cp1251-encode}

-- Windows-1251 from 0x80 to 0xBF; 0x98 stands for no character.
abbrev code_page : List ℕ
code_page =
    0x0402 ∷ 0x0403 ∷ 0x201A ∷ 0x0453 ∷ 0x201E ∷ 0x2026 ∷ 0x2020 ∷ 0x2021 ∷ 0x20AC ∷ 0x2030 ∷ 0x0409
    ∷ 0x2039 ∷ 0x040A ∷ 0x040C ∷ 0x040B ∷ 0x040F ∷ 0x0452 ∷ 0x2018 ∷ 0x2019 ∷ 0x201C ∷ 0x201D
    ∷ 0x2022 ∷ 0x2013 ∷ 0x2014 ∷ 0xFFFD ∷ 0x2122 ∷ 0x0459 ∷ 0x203A ∷ 0x045A ∷ 0x045C ∷ 0x045B
    ∷ 0x045F ∷ 0x00A0 ∷ 0x040E ∷ 0x045E ∷ 0x0408 ∷ 0x00A4 ∷ 0x0490 ∷ 0x00A6 ∷ 0x00A7 ∷ 0x0401
    ∷ 0x00A9 ∷ 0x0404 ∷ 0x00AB ∷ 0x00AC ∷ 0x00AD ∷ 0x00AE ∷ 0x0407 ∷ 0x00B0 ∷ 0x00B1 ∷ 0x0406
    ∷ 0x0456 ∷ 0x0491 ∷ 0x00B5 ∷ 0x00B6 ∷ 0x00B7 ∷ 0x0451 ∷ 0x2116 ∷ 0x0454 ∷ 0x00BB ∷ 0x0458
    ∷ 0x0405 ∷ 0x0455 ∷ 0x0457 ∷ []

-- The character of a byte in Windows-1251: below 0x80 itself, from 0xC0 on a letter from А to я, and
-- between them one of the code page.
unfoldable pub read_letter : ℕ → ℕ
read_letter b =
    if ltb b 0x80 then b else if leb 0xC0 b then b + 0x350 else get_or code_page (b - 0x80) 0xFFFD

-- The characters that are kept: below U+0080, the micro sign, from U+0402 to U+045F all but six, and
-- Ґ and ґ. The six are Ы, ы, ё and three that the code page does not have.
unfoldable pub is_kept : ℕ → Bool
is_kept u =
    ltb u 0x80
    || u == 0x00B5
    || (leb 0x0402 u
        && leb u 0x045F
        && not (
            u == 0x040D || u == 0x042B || u == 0x044B || u == 0x0450 || u == 0x0451 || u == 0x045D))
    || u == 0x0490
    || u == 0x0491

-- From `u` on, the next `n` characters that are kept are read back.
read_back : (u n : ℕ) → Bool
read_back u zero = true
read_back u (suc n) = (not (is_kept u) || read_letter (cp1251 u) == u) && read_back (suc u) n

read_back-all : read_back 0 0x492 ≡ true
unfolding read_back read_letter is_kept cp1251 letter letter_in
read_back-all = refl

read_back-at :
    (u n x : ℕ)
    → read_back u n ≡ true
    → u ≤ x
    → x < u + n
    → is_kept x ≡ true
    → read_letter (cp1251 x) ≡ x
unfolding read_back
read_back-at u zero x h l k kept = absurd (omega arith)
read_back-at u (suc n) x h l k kept = elim (Bool-cases (u == x)) [
  | inl here ↦
      let at : u ≡ x = ground arith in
      let kept_u : is_kept u ≡ true = ap is_kept at ∙ kept in
      let good : read_letter (cp1251 u) ≡ u = ground (arith, h, kept_u) in
      subst (λ z. read_letter (cp1251 z) ≡ z) at good
  | inr later ↦
      read_back-at (suc u) n x (ground (arith, h)) (ground (arith, later)) (omega arith) kept
]

below : (u : ℕ) → is_kept u ≡ true → u < 0x492
unfolding is_kept
below u h = ground (arith, h)

below-All :
    (us : List ℕ) → All (λ u. (0 < u) × (is_kept u ≡ true)) us → All (λ u. (0 < u) × (u < 0x800)) us
below-All [] h = tt
below-All (u ∷ us) ((positive, kept), h) =
    let low = below u kept in ((positive, omega (arith, low)), below-All us h)

map-read_letter :
    (us : List ℕ)
    → All (λ u. (0 < u) × (is_kept u ≡ true)) us
    → map read_letter (map cp1251 us) ≡ us
map-read_letter [] h = refl
map-read_letter (u ∷ us) ((positive, kept), h) =
    rw (read_back-at 0 0x492 u read_back-all (omega arith) (below u kept) kept)
      (ap (◌∷◌ u) (map-read_letter us h))

-- A text in UTF-8 of characters that are kept, none of them 0, is what Windows-1251 reads in the
-- bytes that utf_to_cp1251 gives.
pub read_letter-utf_to_cp1251 :
    (us : List ℕ)
    → All (λ u. (0 < u) × (is_kept u ≡ true)) us
    → map read_letter (utf_to_cp1251 (encode us)) ≡ us
read_letter-utf_to_cp1251 us h =
    ap (map read_letter) (utf_to_cp1251-encode us (below-All us h)) ∙ map-read_letter us h
