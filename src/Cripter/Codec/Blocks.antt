-- ===== src/Cripter/Codec/Blocks.antt =====
-- Reading back the blocks of four characters that `toBase64` writes.
use java_io_tserver.Common.{
  ℕ, zero, suc, ◌*◌, ◌<◌, ◌≡◌, refl, ap, ◌∙◌, arith, [], ◌∷◌, ◌++◌, map, length, All,
}
use java_io_tserver.Common.Text.{Bytes}
use java_io_tserver.Cripter.Rand.Bounds.{IsByte}
use java_io_tserver.Cripter.Codec.{
  char0, char1, char1_last, char2, char2_last, char3, byte0, byte1, byte2, blocks_from, blocks_of,
  bytes_from, comma_for_backslash, backslash_for_comma,
}
use java_io_tserver.Cripter.Codec.Sextets.{
  char0_eq, char1_eq, char1_last_eq, char2_eq, char2_last_eq, char3_eq, byte0_eq, byte1_eq,
  byte2_eq, IsChar,
}

-- Four characters hold three bytes.
module _ (a b c : ℕ) (p : a < 256) (q : b < 256) (r : c < 256) where
  block_IsChar : IsChar (char0 a) × IsChar (char1 a b) × IsChar (char2 b c) × IsChar (char3 c)
  block_IsChar =
      omega (arith, char0_eq a b p q, char1_eq a b p q, char2_eq b c q r, char3_eq c c r r)

  block_byte0 : byte0 (char0 a) (char1 a b) ≡ a
  block_byte0 = omega (
    arith,
    char0_eq a b p q,
    char1_eq a b p q,
    byte0_eq (char0 a) (char1 a b) (omega (arith, block_IsChar)) (omega (arith, block_IsChar)),
  )

  block_byte1 : byte1 (char1 a b) (char2 b c) ≡ b
  block_byte1 = omega (
    arith,
    char1_eq a b p q,
    char2_eq b c q r,
    byte1_eq (char1 a b) (char2 b c) (omega (arith, block_IsChar)) (omega (arith, block_IsChar)),
  )

  block_byte2 : byte2 (char2 b c) (char3 c) ≡ c
  block_byte2 = omega (
    arith,
    char2_eq b c q r,
    char3_eq c c r r,
    byte2_eq (char2 b c) (char3 c) (omega (arith, block_IsChar)) (omega (arith, block_IsChar)),
  )

  block_read :
      (n : ℕ) (rest : Bytes)
      → bytes_from (suc n) (char0 a ∷ char1 a b ∷ char2 b c ∷ char3 c ∷ rest)
        ≡ a ∷ b ∷ c ∷ bytes_from n rest
  unfolding bytes_from
  block_read n rest = rw (block_byte0, block_byte1, block_byte2)

char1_last-char1 : (a : ℕ) → a < 256 → char1_last a ≡ char1 a 0
char1_last-char1 a p =
    omega (arith, char1_last_eq a 0 p (omega arith), char1_eq a 0 p (omega arith))

char2_last-char2 : (a : ℕ) → a < 256 → char2_last a ≡ char2 a 0
char2_last-char2 a p =
    omega (arith, char2_last_eq a 0 p (omega arith), char2_eq a 0 p (omega arith))

padding_chars : (char2 0 0 ≡ 0x40) × (char3 0 ≡ 0x40)
unfolding char2 char3
padding_chars = (refl, refl)

-- The zeros behind the checksum in the last block.
abbrev pub padding : Bytes → Bytes
padding [] = 0 ∷ 0 ∷ []
padding (a ∷ []) = 0 ∷ []
padding (a ∷ b ∷ []) = []
padding (a ∷ b ∷ c ∷ rest) = padding rest

bytes_from-nil : (n : ℕ) → bytes_from n [] ≡ []
unfolding bytes_from
bytes_from-nil zero = refl
bytes_from-nil (suc n) = refl

abbrev block : ℕ → ℕ → ℕ → Bytes
block a b c = char0 a ∷ char1 a b ∷ char2 b c ∷ char3 c ∷ []

-- The last block is that of the bytes left, the checksum and zeros.
end0 : (n cs : ℕ) → cs < 256 → blocks_from (suc n) [] cs ≡ block cs 0 0
unfolding blocks_from
end0 n cs k = cc (char1_last-char1 cs k, padding_chars.0, padding_chars.1)

end1 : (n a cs : ℕ) → cs < 256 → blocks_from (suc n) (a ∷ []) cs ≡ block a cs 0
unfolding blocks_from
end1 n a cs k = cc (char2_last-char2 cs k, padding_chars.1)

end2 : (n a b cs : ℕ) → blocks_from (suc n) (a ∷ b ∷ []) cs ≡ block a b cs
unfolding blocks_from
end2 n a b cs = refl

end3 :
    (n a b c cs : ℕ) (rest : Bytes)
    → blocks_from (suc n) (a ∷ b ∷ c ∷ rest) cs ≡ block a b c ++ blocks_from n rest cs
unfolding blocks_from
end3 n a b c cs rest = refl

block_bytes :
    (n a b c : ℕ) → a < 256 → b < 256 → c < 256 → bytes_from (suc n) (block a b c) ≡ a ∷ b ∷ c ∷ []
block_bytes n a b c p q r = block_read a b c p q r n [] ∙ rw (bytes_from-nil n)

more_blocks : (n len : ℕ) → suc n ≡ blocks_of (suc (suc (suc len))) → n ≡ blocks_of len
more_blocks n len e = ground arith

-- With the blocks that a text and its checksum need, reading gives both back, then zeros.
pub bytes_from-blocks_from :
    (n : ℕ) (text : Bytes) (cs : ℕ)
    → n ≡ blocks_of (length text)
    → All IsByte text
    → IsByte cs
    → bytes_from n (blocks_from n text cs) ≡ text ++ cs ∷ padding text
bytes_from-blocks_from zero text cs e h k = absurd (ground arith)
bytes_from-blocks_from (suc n) [] cs e h k =
    rw (end0 n cs k) (block_bytes n cs 0 0 k (omega arith) (omega arith))
bytes_from-blocks_from (suc n) (a ∷ []) cs e h k =
    rw (end1 n a cs k) (block_bytes n a cs 0 h.0 k (omega arith))
bytes_from-blocks_from (suc n) (a ∷ b ∷ []) cs e h k =
    rw (end2 n a b cs) (block_bytes n a b cs h.0 h.1.0 k)
bytes_from-blocks_from (suc n) (a ∷ b ∷ c ∷ rest) cs e h k =
    let later = bytes_from-blocks_from n rest cs (more_blocks n (length rest) e) h.1.1.1 k in
    rw (end3 n a b c cs rest)
      (block_read a b c h.0 h.1.0 h.1.1.0 n (blocks_from n rest cs) ∙ ap (λ t. a ∷ b ∷ c ∷ t) later)

-- Every character of the blocks lies from 0x40 to 0x7f, and there are four to a block.
pub blocks_from-IsChar :
    (n : ℕ) (text : Bytes) (cs : ℕ)
    → n ≡ blocks_of (length text)
    → All IsByte text
    → IsByte cs
    → All IsChar (blocks_from n text cs) × (length (blocks_from n text cs) ≡ n * 4)
blocks_from-IsChar zero text cs e h k = absurd (ground arith)
blocks_from-IsChar (suc n) [] cs e h k = rw (end0 n cs k) (ground (arith, block_IsChar cs 0 0 k))
blocks_from-IsChar (suc n) (a ∷ []) cs e h k =
    rw (end1 n a cs k) (ground (arith, block_IsChar a cs 0))
blocks_from-IsChar (suc n) (a ∷ b ∷ []) cs e h k =
    rw (end2 n a b cs) (ground (arith, block_IsChar a b cs))
blocks_from-IsChar (suc n) (a ∷ b ∷ c ∷ rest) cs e h k =
    let later = blocks_from-IsChar n rest cs (more_blocks n (length rest) e) h.1.1.1 k in
    rw (end3 n a b c cs rest) (ground (arith, block_IsChar a b c h.0 h.1.0 h.1.1.0, later))

-- The decoder's pass undoes the encoder's on such characters.
pub commas_back :
    (text : Bytes) → All IsChar text → map backslash_for_comma (map comma_for_backslash text) ≡ text
commas_back [] h = refl
commas_back (c ∷ text) h = ground (arith, commas_back text h.1)
