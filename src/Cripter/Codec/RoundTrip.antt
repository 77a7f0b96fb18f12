-- ===== src/Cripter/Codec/RoundTrip.antt =====
-- `decodBuf` undoes `codBuf` at the other end of the line, and leaves its generator in step.
use mathlib.Core.List.{map-append}
use java_io_tserver.Common.{
  ℕ, zero, suc, ◌+◌, ◌-◌, ◌*◌, ◌/◌, ◌%◌, ◌^◌, ◌<◌, ◌≡◌, ◌≢◌, refl, ap, ◌∙◌, arith, true, false, [],
  ◌∷◌, ◌++◌, ◌==◌, leb, ltb, map, if◌then◌else◌, length, length-append, get_or, take, take-append,
  append-nil, All, bit_or, bit_and, bit_xor,
}
use java_io_tserver.Common.Bits.{bit_xor_cancel, bit_xor-lt_pow}
use java_io_tserver.Common.Text.{Bytes}
use java_io_tserver.Cripter.Rand.{MyRand, rand, korr}
use java_io_tserver.Cripter.Rand.Bounds.{IsByte, IsRand, rand-IsRand}
use java_io_tserver.Cripter.Codec.{
  blocks_from, blocks_of, reshta_of, bytes_from, comma_for_backslash, backslash_for_comma,
  short_rounds, to_base64, mask, unmask, cod_buf, decod_sized, decod_buf, check_payload,
  payload_size,
}
use java_io_tserver.Cripter.Codec.Sextets.{IsChar}
use java_io_tserver.Cripter.Codec.Blocks.{
  padding, bytes_from-blocks_from, blocks_from-IsChar, commas_back,
}

pub unmask-mask :
    (text : Bytes) (cs : ℕ) (r : MyRand)
    → unmask (mask text cs r).0 cs r ≡ (text, (mask text cs r).1, (mask text cs r).2)
unfolding mask unmask
unmask-mask [] cs r = refl
unmask-mask (d ∷ ds) cs r =
    rw (bit_xor_cancel d (rand r).0) (rw (unmask-mask ds (bit_xor cs d) (rand r).1))

pub mask_bounds :
    (text : Bytes) (cs : ℕ) (r : MyRand)
    → All IsByte text
    → IsByte cs
    → IsRand r
    → (length (mask text cs r).0 ≡ length text)
      × All IsByte (mask text cs r).0
      × IsByte (mask text cs r).1
      × IsRand (mask text cs r).2
unfolding mask
mask_bounds [] cs r h k w = (refl, tt, k, w)
mask_bounds (d ∷ ds) cs r h k w =
    let (w', b) = rand-IsRand r w in
    let later = mask_bounds ds (bit_xor cs d) (rand r).1 h.1 (bit_xor-lt_pow 8 cs d k h.0) w' in
    (ap suc later.0, (bit_xor-lt_pow 8 d (rand r).0 h.0 b, later.1), later.2, later.3)

bytes_from-append :
    (n : ℕ) (a b : Bytes) → length a ≡ n * 4 → bytes_from n (a ++ b) ≡ bytes_from n a
unfolding bytes_from
bytes_from-append zero a b h = refl
bytes_from-append (suc n) (w ∷ x ∷ y ∷ z ∷ a) b h = rw (bytes_from-append n a b (omega arith))
bytes_from-append (suc n) [] b h = absurd (omega arith)
bytes_from-append (suc n) (w ∷ []) b h = absurd (omega arith)
bytes_from-append (suc n) (w ∷ x ∷ []) b h = absurd (omega arith)
bytes_from-append (suc n) (w ∷ x ∷ y ∷ []) b h = absurd (omega arith)

get_or-append : (a b : Bytes) (c : ℕ) → get_or (a ++ c ∷ b) (length a) 0 ≡ c
get_or-append [] b c = refl
get_or-append (x ∷ a) b c = get_or-append a b c

take_all : (t : Bytes) → take (length t) t ≡ t
take_all t = rw append-nil at (take-append t [])

length-map : (f : ℕ → ℕ) (t : Bytes) → length (map f t) ≡ length t
length-map f [] = refl
length-map f (x ∷ t) = ap suc (length-map f t)

-- The last character, which tells how full the last block is.
last_char :
    (q : ℕ)
    → q < 3
    → (backslash_for_comma (bit_or 0x20 q) ≡ bit_or 0x20 q) × (bit_and (bit_or 0x20 q) 0x03 ≡ q)
last_char zero h = (refl, refl)
last_char (suc zero) h = (refl, refl)
last_char (suc (suc zero)) h = (refl, refl)
last_char (suc (suc (suc q))) h = absurd (omega arith)

-- What the decoder makes of whole blocks and a last character.
module _ (n q : ℕ) (b : Bytes) (some_blocks : 0 < n) (q_fits : q < 3) (short : n * 4 + 1 < 2 ^ 15)
    (size : length b ≡ n * 4) (chars : All IsChar b) where
  abbrev frame : Bytes
  frame = map comma_for_backslash b ++ bit_or 0x20 q ∷ []

  frame_size : length frame ≡ n * 4 + 1
  frame_size = omega (
    arith,
    length-append (map comma_for_backslash b) (bit_or 0x20 q ∷ []),
    length-map comma_for_backslash b,
  )

  frame_rounds : short_rounds (length frame) ≡ length frame
  frame_rounds = rw frame_size (ground arith)

  frame_read : map backslash_for_comma (take (length frame) frame) ≡ b ++ bit_or 0x20 q ∷ []
  frame_read = rw (take_all frame) (
      map-append backslash_for_comma (map comma_for_backslash b) (bit_or 0x20 q ∷ [])
      ∙ rw (commas_back b chars, (last_char q q_fits).0))

  frame_last : get_or (b ++ bit_or 0x20 q ∷ []) (n * 4 + 1 - 1) 0 ≡ bit_or 0x20 q
  frame_last =
      let at_end : n * 4 + 1 - 1 ≡ length b = omega arith in
      rw at_end (get_or-append b [] (bit_or 0x20 q))

  decod_sized_lem :
      (r : MyRand)
      → decod_sized (n * 4 + 1) (b ++ bit_or 0x20 q ∷ []) r
        ≡ check_payload (bytes_from n b) (payload_size q n - 1) r
  unfolding decod_sized
  decod_sized_lem r =
      let whole : (n * 4 + 1 - 1) / 4 ≡ n = omega arith in
      let long : ltb (n * 4 + 1) 5 ≡ false = ground arith in
      let even : ((n * 4 + 1 - 1) % 4 == 0) ≡ true = ground arith in
      rw (long, even)
        (rw (frame_last, (last_char q q_fits).1, whole)
          (rw (bytes_from-append n b (bit_or 0x20 q ∷ []) size)))

  pub decod_frame :
      (r : MyRand) → decod_buf frame r ≡ check_payload (bytes_from n b) (payload_size q n - 1) r
  unfolding decod_buf
  decod_frame r = rw frame_rounds (rw frame_read (rw frame_size (decod_sized_lem r)))

module _ (text : Bytes) (cs : ℕ) (r : MyRand) (pad : Bytes) where
  pub check_payload_lem : check_payload (text ++ cs ∷ pad) (length text) r ≡ (
      if (unmask text 0 r).1 == cs
      then ((unmask text 0 r).0, korr (unmask text 0 r).1 (unmask text 0 r).2)
      else ([], (unmask text 0 r).2))
  unfolding check_payload
  check_payload_lem = rw (take-append text (cs ∷ pad)) (rw (get_or-append text pad cs))

not_empty : (n : ℕ) → leb (suc n) 0 ≡ false
not_empty n = ground arith

same : (n : ℕ) → (n == n) ≡ true
same n = ground arith

ne_nil : (a b : Bytes) → b ≢ [] → length a ≡ length b → a ≢ []
ne_nil a [] ne e = absurd (ne refl)
ne_nil [] (x ∷ b) ne e = absurd (omega arith)
ne_nil (y ∷ a) (x ∷ b) ne e = λ p. cc

-- A text of bytes with its checksum, as the decoder receives it.
pub decod_buf-to_base64 :
    (text : Bytes) (cs : ℕ) (r : MyRand)
    → text ≢ []
    → length text < 24573
    → All IsByte text
    → IsByte cs
    → decod_buf (to_base64 text cs) r ≡ check_payload (text ++ cs ∷ padding text) (length text) r
unfolding to_base64
decod_buf-to_base64 [] cs r ne lt h k = absurd (ne refl)
decod_buf-to_base64 (x ∷ xs) cs r ne lt h k =
    let n = blocks_of (length (x ∷ xs)) in
    let q = reshta_of (length (x ∷ xs)) in
    let (chars, size) = blocks_from-IsChar n (x ∷ xs) cs refl h k in
    let fits : short_rounds n ≡ n = ground arith in
    let counted : payload_size q n - 1 ≡ length (x ∷ xs) = ground arith in
    rw (not_empty (length xs), fits)
      (decod_frame n q (blocks_from n (x ∷ xs) cs) (ground arith) (omega arith) (ground arith) size
          chars r
        ∙ rw (bytes_from-blocks_from n (x ∷ xs) cs refl h k, counted))

-- A message of 1 to 24572 bytes, encoded with a generator and decoded with the same generator,
-- comes back, and the generator of the receiver is left as that of the sender.
pub decod_buf-cod_buf :
    (text : Bytes) (r : MyRand)
    → text ≢ []
    → length text < 24573
    → All IsByte text
    → IsRand r
    → decod_buf (cod_buf text r).0 r ≡ (text, (cod_buf text r).1)
unfolding cod_buf
decod_buf-cod_buf [] r ne lt h w = absurd (ne refl)
decod_buf-cod_buf (x ∷ xs) r ne lt h w =
    let m = mask (x ∷ xs) 0 r in
    let fine = mask_bounds (x ∷ xs) 0 r h (omega arith) w in
    let some_text = ne_nil m.0 (x ∷ xs) ne fine.0 in
    rw (not_empty (length xs)) (
      decod_buf-to_base64 m.0 m.1 r some_text (omega (arith, fine.0)) fine.1 fine.2
      ∙ check_payload_lem m.0 m.1 r (padding m.0)
      ∙ rw (unmask-mask (x ∷ xs) 0 r) (rw (same m.1)))
