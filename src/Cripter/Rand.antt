-- ===== src/Cripter/Rand.antt =====
-- class MyRand, built with USE_CHACHA20: a ChaCha20 key stream, read byte by byte.
pub mod Bounds
use java_io_tserver.Common.{
  ℕ, zero, suc, ◌+◌, ◌-◌, ◌*◌, ◌/◌, ◌%◌, ◌^◌, ◌<◌, Bool, List, [], ◌∷◌, ◌++◌, ltb, leb,
  if◌then◌else◌, bit_or, bit_xor, ◌≡◌, refl, get_or, set, length, drop,
}
use java_io_tserver.Common.Text.{Bytes, codes, atoi, to_u32}
use java_io_tserver.Setup.{SetupConfig, get}

-- uint32_t arithmetic.
abbrev pub u32 : ℕ → ℕ
u32 n = n % 2 ^ 32

-- CHACHA_ROL32
unfoldable pub rotl32 : ℕ → ℕ → ℕ
rotl32 x n = bit_or (u32 (x * 2 ^ n)) (x / 2 ^ (32 - n))

abbrev pub at : List ℕ → ℕ → ℕ
at x i = get_or x i 0

unfoldable pub add_at : ℕ → ℕ → List ℕ → List ℕ
add_at i j x = set x i (u32 (at x i + at x j))

unfoldable pub xor_at : ℕ → ℕ → List ℕ → List ℕ
xor_at i j x = set x i (bit_xor (at x i) (at x j))

unfoldable pub rol_at : ℕ → ℕ → List ℕ → List ℕ
rol_at i n x = set x i (rotl32 (at x i) n)

-- One line of CHACHA_QR: (a) += (b); (d) ^= (a); (d) = CHACHA_ROL32(d, n).
unfoldable pub quarter_line : ℕ → ℕ → ℕ → ℕ → List ℕ → List ℕ
quarter_line a b d n x = rol_at d n (xor_at d a (add_at a b x))

-- CHACHA_QR
unfoldable pub quarter_round : ℕ → ℕ → ℕ → ℕ → List ℕ → List ℕ
quarter_round a b c d x =
    quarter_line c d b 7 (quarter_line a b d 8 (quarter_line c d b 12 (quarter_line a b d 16 x)))

-- The body of the loop of `gen_block`: four columns, four diagonals.
unfoldable pub double_round : List ℕ → List ℕ
double_round x =
    let columns =
      quarter_round 3 7 11 15
        (quarter_round 2 6 10 14 (quarter_round 1 5 9 13 (quarter_round 0 4 8 12 x))) in
    quarter_round 3 4 9 14
      (quarter_round 2 7 8 13 (quarter_round 1 6 11 12 (quarter_round 0 5 10 15 columns)))

unfoldable pub rounds : ℕ → List ℕ → List ℕ
rounds zero x = x
rounds (suc n) x = rounds n (double_round x)

pub record MyRand : Type 0 where
  pub state : List ℕ
  pub buf : Bytes
  pub buf_pos : ℕ

-- The bytes of one word, lowest first.
abbrev pub word_bytes : ℕ → Bytes
word_bytes v = v % 256 ∷ v / 2 ^ 8 % 256 ∷ v / 2 ^ 16 % 256 ∷ v / 2 ^ 24 % 256 ∷ []

-- The loop that fills `buf` from the mixed words and the state.
unfoldable pub block_bytes : List ℕ → List ℕ → Bytes
block_bytes (x ∷ xs) (s ∷ ss) = word_bytes (u32 (x + s)) ++ block_bytes xs ss
block_bytes _ _ = []

unfoldable pub gen_block : MyRand → MyRand
gen_block r = record {
  state = set r.state 12 (u32 (at r.state 12 + 1));
  buf = block_bytes (rounds 10 r.state) r.state;
  buf_pos = 0;
}

unfoldable pub rand : MyRand → ℕ × MyRand
rand r =
    let r' = if leb 64 r.buf_pos then gen_block r else r in
    (get_or r'.buf r'.buf_pos 0, record r' { buf_pos = r'.buf_pos + 1 })

abbrev rand_state : MyRand → MyRand
rand_state r = (rand r).1

-- Four bytes are drawn and dropped.
unfoldable pub discard_four : MyRand → MyRand
discard_four r = rand_state (rand_state (rand_state (rand_state r)))

-- The four key words of the configuration.
unfoldable pub key_words : SetupConfig → List ℕ
key_words s =
    to_u32 (atoi (get s (codes "myRandKey1")))
    ∷ to_u32 (atoi (get s (codes "myRandKey2")))
    ∷ to_u32 (atoi (get s (codes "myRandKey3")))
    ∷ to_u32 (atoi (get s (codes "myRandKey4")))
    ∷ []

-- `buf` stays as it is: it is not read before `gen_block` fills it.
unfoldable pub null_rand : SetupConfig → MyRand → MyRand
null_rand s r = record {
  state =
      0x61707865
      ∷ 0x3320646e
      ∷ 0x79622d32
      ∷ 0x6b206574
      ∷ (key_words s ++ (key_words s ++ 0 ∷ 0 ∷ 0 ∷ 0 ∷ []));
  buf = r.buf;
  buf_pos = 64;
}

-- `memcpy` of four bytes into a word, on a little-endian machine.
unfoldable pub read_word : Bytes → ℕ
read_word b = get_or b 0 0 + get_or b 1 0 * 2 ^ 8 + get_or b 2 0 * 2 ^ 16 + get_or b 3 0 * 2 ^ 24

-- The loop of `srand` at word `i`, with the words left and the seed from there on.
unfoldable pub mix_seed : ℕ → ℕ → Bytes → List ℕ → List ℕ
mix_seed zero i seed st = st
mix_seed (suc n) i seed st =
    mix_seed n (i + 1) (drop 4 seed)
      (set st (4 + i % 8) (bit_xor (at st (4 + i % 8)) (read_word seed)))

unfoldable pub srand : SetupConfig → Bytes → MyRand → MyRand
srand s seed r =
    let fresh = null_rand s r in
    let mixed = mix_seed (length seed / 4) 0 seed fresh.state in
    discard_four (record { state = set mixed 12 0; buf = fresh.buf; buf_pos = 64 })

unfoldable pub korr : ℕ → MyRand → MyRand
korr ks r =
    discard_four
      (record { state = set r.state 13 (bit_xor (at r.state 13) ks); buf = r.buf; buf_pos = 64 })

abbrev zero_key : List ℕ
zero_key =
    0x61707865 ∷ 0x3320646e ∷ 0x79622d32 ∷ 0x6b206574 ∷ 0 ∷ 0 ∷ 0 ∷ 0 ∷ 0 ∷ 0 ∷ 0 ∷ 0 ∷ 0 ∷ 0 ∷ 0
    ∷ 0 ∷ []

-- The published first words of the ChaCha20 key stream for a key and a nonce of zeros.
known_block :
    (get_or (block_bytes (rounds 10 zero_key) zero_key) 0 0 ≡ 0x76)
    × (get_or (block_bytes (rounds 10 zero_key) zero_key) 1 0 ≡ 0xb8)
    × (get_or (block_bytes (rounds 10 zero_key) zero_key) 2 0 ≡ 0xe0)
    × (get_or (block_bytes (rounds 10 zero_key) zero_key) 63 0 ≡ 0x86)
unfolding rounds block_bytes double_round quarter_round quarter_line add_at xor_at rol_at rotl32
known_block = (refl, refl, refl, refl)
