-- ===== src/Cripter/Codec/Sextets.antt =====
-- The characters and the bytes of the text form as arithmetic: each is a table over a byte.
use java_io_tserver.Common.{
  ℕ, ◌+◌, ◌*◌, ◌/◌, ◌%◌, ◌^◌, ◌≤◌, ◌<◌, ◌≡◌, refl, ◌∙◌, arith, bit_or, bit_and, all_below,
}
use java_io_tserver.Common.Bits.{table}
use java_io_tserver.Cripter.Codec.{
  char0, char1, char1_last, char2, char2_last, char3, byte0, byte1, byte2,
}

module _ (a : ℕ) (h : a < 256) where
  high6 : bit_or 0x40 (bit_and a 0xfc / 2 ^ 2) ≡ 64 + a / 4
  unfolding all_below
  high6 = table 256 (λ x. bit_or 0x40 (bit_and x 0xfc / 2 ^ 2)) (λ x. 64 + x / 4) refl a h

  low2 : bit_or 0x40 (bit_and a 0x03 * 2 ^ 4) ≡ 64 + a % 4 * 16
  unfolding all_below
  low2 = table 256 (λ x. bit_or 0x40 (bit_and x 0x03 * 2 ^ 4)) (λ x. 64 + x % 4 * 16) refl a h

  low4 : bit_or 0x40 (bit_and a 0x0f * 2 ^ 2) ≡ 64 + a % 16 * 4
  unfolding all_below
  low4 = table 256 (λ x. bit_or 0x40 (bit_and x 0x0f * 2 ^ 2)) (λ x. 64 + x % 16 * 4) refl a h

  low6 : bit_or 0x40 (bit_and a 0x3f) ≡ 64 + a % 64
  unfolding all_below
  low6 = table 256 (λ x. bit_or 0x40 (bit_and x 0x3f)) (λ x. 64 + x % 64) refl a h

  high4 : bit_and a 0xf0 / 2 ^ 4 ≡ a / 16
  unfolding all_below
  high4 = table 256 (λ x. bit_and x 0xf0 / 2 ^ 4) (λ x. x / 16) refl a h

  high2 : bit_and a 0xc0 / 2 ^ 6 ≡ a / 64
  unfolding all_below
  high2 = table 256 (λ x. bit_and x 0xc0 / 2 ^ 6) (λ x. x / 64) refl a h

  mask6 : bit_and a 0x3f ≡ a % 64
  unfolding all_below
  mask6 = table 256 (λ x. bit_and x 0x3f) (λ x. x % 64) refl a h

  mask4 : bit_and a 0x0f ≡ a % 16
  unfolding all_below
  mask4 = table 256 (λ x. bit_and x 0x0f) (λ x. x % 16) refl a h

  mask2 : bit_and a 0x03 ≡ a % 4
  unfolding all_below
  mask2 = table 256 (λ x. bit_and x 0x03) (λ x. x % 4) refl a h

  middle2 : bit_and a 0x30 / 2 ^ 4 ≡ a / 16 % 4
  unfolding all_below
  middle2 = table 256 (λ x. bit_and x 0x30 / 2 ^ 4) (λ x. x / 16 % 4) refl a h

  middle4 : bit_and a 0x3c / 2 ^ 2 ≡ a / 4 % 16
  unfolding all_below
  middle4 = table 256 (λ x. bit_and x 0x3c / 2 ^ 2) (λ x. x / 4 % 16) refl a h

-- Two fields side by side.
or_char1_table : (t : ℕ) → t < 64 → bit_or (64 + t / 16 * 16) (t % 16) ≡ 64 + t
unfolding all_below
or_char1_table = table 64 (λ x. bit_or (64 + x / 16 * 16) (x % 16)) (λ x. 64 + x) refl

or_char1 : (hi lo : ℕ) → hi < 4 → lo < 16 → bit_or (64 + hi * 16) lo ≡ 64 + hi * 16 + lo
or_char1 hi lo p q =
    let high : (hi * 16 + lo) / 16 ≡ hi = omega arith in
    let low : (hi * 16 + lo) % 16 ≡ lo = omega arith in
    (rw (high, low) at (or_char1_table (hi * 16 + lo) (omega arith))) ∙ omega arith

or_char2_table : (t : ℕ) → t < 64 → bit_or (64 + t / 4 * 4) (t % 4) ≡ 64 + t
unfolding all_below
or_char2_table = table 64 (λ x. bit_or (64 + x / 4 * 4) (x % 4)) (λ x. 64 + x) refl

or_char2 : (hi lo : ℕ) → hi < 16 → lo < 4 → bit_or (64 + hi * 4) lo ≡ 64 + hi * 4 + lo
or_char2 hi lo p q =
    let high : (hi * 4 + lo) / 4 ≡ hi = omega arith in
    let low : (hi * 4 + lo) % 4 ≡ lo = omega arith in
    (rw (high, low) at (or_char2_table (hi * 4 + lo) (omega arith))) ∙ omega arith

or_byte0_table : (t : ℕ) → t < 256 → bit_or (t / 4 * 4) (t % 4) ≡ t
unfolding all_below
or_byte0_table = table 256 (λ x. bit_or (x / 4 * 4) (x % 4)) (λ x. x) refl

or_byte0 : (hi lo : ℕ) → hi < 64 → lo < 4 → bit_or (hi * 4) lo ≡ hi * 4 + lo
or_byte0 hi lo p q =
    let high : (hi * 4 + lo) / 4 ≡ hi = omega arith in
    let low : (hi * 4 + lo) % 4 ≡ lo = omega arith in
    (rw (high, low) at (or_byte0_table (hi * 4 + lo) (omega arith))) ∙ omega arith

or_byte1_table : (t : ℕ) → t < 256 → bit_or (t / 16 * 16) (t % 16) ≡ t
unfolding all_below
or_byte1_table = table 256 (λ x. bit_or (x / 16 * 16) (x % 16)) (λ x. x) refl

or_byte1 : (hi lo : ℕ) → hi < 16 → lo < 16 → bit_or (hi * 16) lo ≡ hi * 16 + lo
or_byte1 hi lo p q =
    let high : (hi * 16 + lo) / 16 ≡ hi = omega arith in
    let low : (hi * 16 + lo) % 16 ≡ lo = omega arith in
    (rw (high, low) at (or_byte1_table (hi * 16 + lo) (omega arith))) ∙ omega arith

or_byte2_table : (t : ℕ) → t < 256 → bit_or (t / 64 * 64) (t % 64) ≡ t
unfolding all_below
or_byte2_table = table 256 (λ x. bit_or (x / 64 * 64) (x % 64)) (λ x. x) refl

or_byte2 : (hi lo : ℕ) → hi < 4 → lo < 64 → bit_or (hi * 64) lo ≡ hi * 64 + lo
or_byte2 hi lo p q =
    let high : (hi * 64 + lo) / 64 ≡ hi = omega arith in
    let low : (hi * 64 + lo) % 64 ≡ lo = omega arith in
    (rw (high, low) at (or_byte2_table (hi * 64 + lo) (omega arith))) ∙ omega arith

module _ (a b : ℕ) (p : a < 256) (q : b < 256) where
  pub char0_eq : char0 a ≡ 64 + a / 4
  unfolding char0
  char0_eq = high6 a p

  pub char1_eq : char1 a b ≡ 64 + a % 4 * 16 + b / 16
  unfolding char1
  char1_eq = rw (low2 a p, high4 b q) (or_char1 (a % 4) (b / 16) (omega arith) (omega arith))

  pub char1_last_eq : char1_last a ≡ 64 + a % 4 * 16
  unfolding char1_last
  char1_last_eq = low2 a p

  pub char2_eq : char2 a b ≡ 64 + a % 16 * 4 + b / 64
  unfolding char2
  char2_eq = rw (low4 a p, high2 b q) (or_char2 (a % 16) (b / 64) (omega arith) (omega arith))

  pub char2_last_eq : char2_last a ≡ 64 + a % 16 * 4
  unfolding char2_last
  char2_last_eq = low4 a p

  pub char3_eq : char3 a ≡ 64 + a % 64
  unfolding char3
  char3_eq = low6 a p

  pub byte0_eq : byte0 a b ≡ a % 64 * 4 + b / 16 % 4
  unfolding byte0
  byte0_eq =
      rw (mask6 a p, middle2 b q) (or_byte0 (a % 64) (b / 16 % 4) (omega arith) (omega arith))

  pub byte1_eq : byte1 a b ≡ a % 16 * 16 + b / 4 % 16
  unfolding byte1
  byte1_eq =
      rw (mask4 a p, middle4 b q) (or_byte1 (a % 16) (b / 4 % 16) (omega arith) (omega arith))

  pub byte2_eq : byte2 a b ≡ a % 4 * 64 + b % 64
  unfolding byte2
  byte2_eq = rw (mask2 a p, mask6 b q) (or_byte2 (a % 4) (b % 64) (omega arith) (omega arith))

-- A character of the text form before the pass that replaces backslashes.
abbrev pub IsChar : ℕ → Type 0
IsChar c = (64 ≤ c) × (c < 128)
