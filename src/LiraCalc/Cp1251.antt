-- ===== src/LiraCalc/Cp1251.antt =====
-- servak_na_linux/server/dwnldcnf.cpp, utf_to_cp1251: the texts of a configuration file in the
-- code page of the calculator. A text has no byte 0.
pub mod Letters
pub mod Reader
use java_io_tserver.Common.{
  ℕ, ◌+◌, ◌-◌, ◌*◌, ◌/◌, ◌%◌, Bool, true, false, ◌&&◌, List, [], ◌∷◌, ltb, leb, ◌==◌, if◌then◌else◌,
}
use java_io_tserver.Common.Text.{Bytes}

-- The cases of the `switch`.
abbrev pub letters : List (ℕ × ℕ)
letters =
    (0x0406, 0xB2)
    ∷ (0x0456, 0xB3)
    ∷ (0x0407, 0xAF)
    ∷ (0x0457, 0xBF)
    ∷ (0x0404, 0xAA)
    ∷ (0x0454, 0xBA)
    ∷ (0x0490, 0xA5)
    ∷ (0x0491, 0xB4)
    ∷ (0x0402, 0x80)
    ∷ (0x0403, 0x81)
    ∷ (0x0453, 0x83)
    ∷ (0x0409, 0x8A)
    ∷ (0x040A, 0x8C)
    ∷ (0x040C, 0x8D)
    ∷ (0x040B, 0x8E)
    ∷ (0x040F, 0x8F)
    ∷ (0x0452, 0x90)
    ∷ (0x0459, 0x9A)
    ∷ (0x045A, 0x9C)
    ∷ (0x045C, 0x9D)
    ∷ (0x045B, 0x9E)
    ∷ (0x045F, 0x9F)
    ∷ (0x040E, 0xA1)
    ∷ (0x045E, 0xA2)
    ∷ (0x0408, 0xA3)
    ∷ (0x00B5, 0xB5)
    ∷ (0x0458, 0xBC)
    ∷ (0x0405, 0xBD)
    ∷ (0x0455, 0xBE)
    ∷ (0x042B, b'?')
    ∷ (0x044B, b'?')
    ∷ []

unfoldable pub letter_in : List (ℕ × ℕ) → ℕ → ℕ
letter_in [] u = if leb 0x0410 u && leb u 0x044F then u - 0x0350 else b'?'
letter_in ((k, b) ∷ more) u = let rest = letter_in more u in if u == k then b else rest

unfoldable pub letter : (unicode : ℕ) → ℕ
unfolding letter_in
letter u = letter_in letters u

-- `(c & 0xE0) == 0xC0` of a byte, and the character of two bytes.
abbrev pub leads_two : ℕ → Bool
leads_two c = c / 32 == 6

abbrev pub unicode : (c c2 : ℕ) → ℕ
unicode c c2 = c % 32 * 64 + c2 % 64

unfoldable pub utf_to_cp1251 : Bytes → Bytes
utf_to_cp1251 [] = []
utf_to_cp1251 (c ∷ []) = (if ltb c 0x80 then c else b'?') ∷ []
utf_to_cp1251 (c ∷ c2 ∷ rest) =
    let behind_one = utf_to_cp1251 (c2 ∷ rest) in
    let behind_two = utf_to_cp1251 rest in
    if ltb c 0x80
    then c ∷ behind_one
    else if leads_two c
    then letter (unicode c c2) ∷ behind_two
    else b'?' ∷ behind_one
