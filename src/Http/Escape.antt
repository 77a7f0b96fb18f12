-- ===== src/Http/Escape.antt =====
-- esp8266_decoder/source/http_utils.cpp, convert_string.
pub mod Decode
use java_io_tserver.Common.{
  ℕ, ◌+◌, ◌-◌, ◌*◌, ◌%◌, Bool, true, false, ◌||◌, List, [], ◌∷◌, leb, ◌==◌, if◌then◌else◌,
}
use java_io_tserver.Common.Text.{Bytes}

-- The value of one character behind a percent sign, as a byte: `char` is signed, so a byte from
-- 128 on is negative and stands below '9'. Only the value modulo 256 matters: a difference below 0
-- is taken there, too.
unfoldable pub hex_value : ℕ → ℕ
hex_value c =
    if leb c b'9' || leb 128 c then (c + 256 - b'0') % 256 else (c + 256 - b'A' + 10) % 256

unfoldable pub escaped_byte : ℕ → ℕ → ℕ
unfolding hex_value
escaped_byte a b = (hex_value a * 16 + hex_value b) % 256

abbrev pub space_for_plus : ℕ → ℕ
space_for_plus c = if c == b'+' then b' ' else c

-- A percent sign with fewer than two characters behind it ends the text.
unfoldable pub convert_string : Bytes → Bytes
convert_string [] = []
convert_string (c ∷ []) = if c == b'%' then [] else space_for_plus c ∷ []
convert_string (c ∷ a ∷ []) = elim (c == b'%') [
  | true ↦ []
  | false ↦ space_for_plus c ∷ convert_string (a ∷ [])
]
convert_string (c ∷ a ∷ b ∷ rest) = elim (c == b'%') [
  | true ↦ escaped_byte a b ∷ convert_string rest
  | false ↦ space_for_plus c ∷ convert_string (a ∷ b ∷ rest)
]
