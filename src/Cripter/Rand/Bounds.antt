-- ===== src/Cripter/Rand/Bounds.antt =====
-- The generator keeps its shape: sixteen words, sixty-four bytes, a position inside the buffer.
use java_io_tserver.Common.{
  ℕ, zero, suc, ◌+◌, ◌-◌, ◌*◌, ◌/◌, ◌%◌, ◌^◌, ◌≤◌, ◌<◌, ◌≡◌, refl, ◌∙◌, arith, true, List, [], ◌∷◌,
  leb, bit_xor, get_or, set, length, drop, length-set, All, All-set, All-get_or, Bool-cases, inl,
  inr,
}
use java_io_tserver.Common.Int.{pos, negsuc, ℤ}
use java_io_tserver.Common.Bits.{bit_or-lt_pow, bit_xor-lt_pow}
use java_io_tserver.Common.Text.{Bytes, to_u32}
use java_io_tserver.Setup.{SetupConfig}
use java_io_tserver.Cripter.Rand.{
  u32, rotl32, at, add_at, xor_at, rol_at, quarter_line, quarter_round, double_round, rounds,
  MyRand, block_bytes, gen_block, rand, discard_four, key_words, null_rand, read_word, mix_seed,
  srand, korr,
}

abbrev pub IsWord : ℕ → Type 0
IsWord w = w < 2 ^ 32

abbrev pub IsByte : ℕ → Type 0
IsByte b = b < 256

pub record IsWords (x : List ℕ) : Type 0 where
  pub sixteen : length x ≡ 16
  pub fit : All IsWord x

pub record IsRand (r : MyRand) : Type 0 where
  pub words : IsWords r.state
  pub size : length r.buf ≡ 64
  pub bytes : All IsByte r.buf
  pub inside : r.buf_pos ≤ 64

rotl32-lt : (x n : ℕ) → IsWord x → IsWord (rotl32 x n)
unfolding rotl32
rotl32-lt x n h = bit_or-lt_pow 32 (u32 (x * 2 ^ n)) (x / 2 ^ (32 - n)) (omega arith) (grind arith)

module _ (x : List ℕ) (w : IsWords x) where
  at-lt : (i : ℕ) → IsWord (at x i)
  at-lt i = All-get_or IsWord x i 0 w.fit (omega arith)

  pub set-IsWords : (i v : ℕ) → IsWord v → IsWords (set x i v)
  set-IsWords i v h = record {
    sixteen = length-set x i v ∙ w.sixteen;
    fit = All-set IsWord x i v w.fit h;
  }

  add_at-IsWords : (i j : ℕ) → IsWords (add_at i j x)
  unfolding add_at
  add_at-IsWords i j = set-IsWords i _ (omega arith)

  pub xor-IsWord : (i v : ℕ) → IsWord v → IsWord (bit_xor (at x i) v)
  xor-IsWord i v h = bit_xor-lt_pow 32 (at x i) v (at-lt i) h

  xor_at-IsWords : (i j : ℕ) → IsWords (xor_at i j x)
  unfolding xor_at
  xor_at-IsWords i j = set-IsWords i _ (xor-IsWord i (at x j) (at-lt j))

  rol_at-IsWords : (i n : ℕ) → IsWords (rol_at i n x)
  unfolding rol_at
  rol_at-IsWords i n = set-IsWords i _ (rotl32-lt (at x i) n (at-lt i))

quarter_line-IsWords : (a b d n : ℕ) {x : List ℕ} → IsWords x → IsWords (quarter_line a b d n x)
unfolding quarter_line
quarter_line-IsWords a b d n {x} w =
    rol_at-IsWords _ (xor_at-IsWords _ (add_at-IsWords x w a b) d a) d n

quarter_round-IsWords : (a b c d : ℕ) {x : List ℕ} → IsWords x → IsWords (quarter_round a b c d x)
unfolding quarter_round
quarter_round-IsWords a b c d w =
    quarter_line-IsWords c d b 7 (
      quarter_line-IsWords a b d 8
        (quarter_line-IsWords c d b 12 (quarter_line-IsWords a b d 16 w)))

double_round-IsWords : {x : List ℕ} → IsWords x → IsWords (double_round x)
unfolding double_round
double_round-IsWords w =
    let columns = quarter_round-IsWords 3 7 11 15 (
      quarter_round-IsWords 2 6 10 14
        (quarter_round-IsWords 1 5 9 13 (quarter_round-IsWords 0 4 8 12 w))) in
    quarter_round-IsWords 3 4 9 14 (
      quarter_round-IsWords 2 7 8 13
        (quarter_round-IsWords 1 6 11 12 (quarter_round-IsWords 0 5 10 15 columns)))

rounds-IsWords : (n : ℕ) (x : List ℕ) → IsWords x → IsWords (rounds n x)
unfolding rounds
rounds-IsWords zero x w = w
rounds-IsWords (suc n) x w = rounds-IsWords n (double_round x) (double_round-IsWords w)

block_bytes-IsByte : (x s : List ℕ) → All IsByte (block_bytes x s)
unfolding block_bytes
block_bytes-IsByte (x ∷ xs) (s ∷ ss) =
    (omega arith, (omega arith, (omega arith, (omega arith, block_bytes-IsByte xs ss))))
block_bytes-IsByte [] _ = tt
block_bytes-IsByte _ [] = tt

length-block_bytes : (x s : List ℕ) → length x ≡ length s → length (block_bytes x s) ≡ length s * 4
unfolding block_bytes
length-block_bytes [] [] e = refl
length-block_bytes (x ∷ xs) [] e = absurd (omega arith)
length-block_bytes [] (s ∷ ss) e = absurd (omega arith)
length-block_bytes (x ∷ xs) (s ∷ ss) e = omega (arith, length-block_bytes xs ss (omega arith))

pub gen_block-IsRand : (r : MyRand) → IsWords r.state → IsRand (gen_block r)
unfolding gen_block
gen_block-IsRand r w =
    let mixed = rounds-IsWords 10 r.state w in
    record {
      words = set-IsWords r.state w 12 _ (omega arith);
      size =
          omega (arith, length-block_bytes (rounds 10 r.state) r.state, mixed.sixteen, w.sixteen);
      bytes = block_bytes-IsByte (rounds 10 r.state) r.state;
      inside = omega arith;
    }

read-IsRand :
    (r : MyRand)
    → IsRand r
    → r.buf_pos < 64
    → IsRand (record r { buf_pos = r.buf_pos + 1 }) × IsByte (get_or r.buf r.buf_pos 0)
read-IsRand r w h = (
  record { words = w.words; size = w.size; bytes = w.bytes; inside = omega arith },
  All-get_or IsByte r.buf r.buf_pos 0 w.bytes (omega arith),
)

refilled : (r : MyRand) → (gen_block r).buf_pos ≡ 0
unfolding gen_block
refilled r = refl

-- `rand` reads a byte inside the buffer, which it refills first where all of it was read.
pub rand-IsRand : (r : MyRand) → IsRand r → IsRand (rand r).1 × IsByte (rand r).0
unfolding rand
rand-IsRand r w = elim (Bool-cases (leb 64 r.buf_pos)) [
  | inl spent ↦
      rw spent (read-IsRand (gen_block r) (gen_block-IsRand r w.words) (omega (arith, refilled r)))
  | inr left ↦ rw left (read-IsRand r w (ground arith))
]

-- After a reset only the words count: the first draw fills the buffer anew.
fresh_rand-IsRand : (r : MyRand) → IsWords r.state → r.buf_pos ≡ 64 → IsRand (rand r).1
unfolding rand
fresh_rand-IsRand r w e =
    let spent : leb 64 r.buf_pos ≡ true = ground arith in
    rw spent (read-IsRand (gen_block r) (gen_block-IsRand r w) (omega (arith, refilled r))).0

discard_four-IsRand : (r : MyRand) → IsWords r.state → r.buf_pos ≡ 64 → IsRand (discard_four r)
unfolding discard_four
discard_four-IsRand r w e =
    (rand-IsRand _ (rand-IsRand _ (rand-IsRand _ (fresh_rand-IsRand r w e)).0).0).0

to_u32-lt : (z : ℤ) → IsWord (to_u32 z)
to_u32-lt (pos n) = omega arith
to_u32-lt (negsuc n) = omega arith

null_rand-IsWords : (s : SetupConfig) (r : MyRand) → IsWords (null_rand s r).state
unfolding null_rand key_words
null_rand-IsWords s r = record { sixteen = refl; fit = omega (arith, to_u32-lt) }

read_word-lt : (b : Bytes) → All IsByte b → IsWord (read_word b)
unfolding read_word
read_word-lt b h = omega (
  arith,
  All-get_or IsByte b 0 0 h (omega arith),
  All-get_or IsByte b 1 0 h (omega arith),
  All-get_or IsByte b 2 0 h (omega arith),
  All-get_or IsByte b 3 0 h (omega arith),
)

drop-All : (n : ℕ) (b : Bytes) → All IsByte b → All IsByte (drop n b)
drop-All zero b h = h
drop-All (suc n) [] h = h
drop-All (suc n) (x ∷ b) h = drop-All n b h.1

mix_seed-IsWords :
    (n i : ℕ) (seed : Bytes) (st : List ℕ)
    → All IsByte seed
    → IsWords st
    → IsWords (mix_seed n i seed st)
unfolding mix_seed
mix_seed-IsWords zero i seed st h w = w
mix_seed-IsWords (suc n) i seed st h w =
    mix_seed-IsWords n (i + 1) (drop 4 seed) _ (drop-All 4 seed h) (
      set-IsWords st w (4 + i % 8) _
        (xor-IsWord st w (4 + i % 8) (read_word seed) (read_word-lt seed h)))

-- `srand` with a seed of bytes leaves a generator in good shape, whatever shape it had before.
pub srand-IsRand :
    (s : SetupConfig) (seed : Bytes) (r : MyRand) → All IsByte seed → IsRand (srand s seed r)
unfolding srand
srand-IsRand s seed r h =
    discard_four-IsRand _
      (set-IsWords _ (mix_seed-IsWords _ 0 seed _ h (null_rand-IsWords s r)) 12 0 (omega arith))
      refl

pub korr-IsRand : (ks : ℕ) (r : MyRand) → IsByte ks → IsRand r → IsRand (korr ks r)
unfolding korr
korr-IsRand ks r h w =
    discard_four-IsRand _
      (set-IsWords r.state w.words 13 _ (xor-IsWord r.state w.words 13 ks (omega arith))) refl
