-- ===== src/Cripter/Session/InStep.antt =====
-- Two ends of a conversation stay in step, and find their way back after a failure.
use java_io_tserver.Common.{
  ℕ, ◌<◌, ◌≡◌, ◌≢◌, refl, ap, arith, true, false, List, [], ◌∷◌, ◌==◌, leb, length, All, Bool-cases,
  inl, inr,
}
use java_io_tserver.Common.Text.{Bytes}
use java_io_tserver.Setup.{SetupConfig}
use java_io_tserver.Cripter.Rand.{MyRand, rand, gen_block, discard_four, null_rand, srand}
use java_io_tserver.Cripter.Rand.Bounds.{IsByte, IsRand, srand-IsRand, korr-IsRand}
use java_io_tserver.Cripter.Codec.{cod_buf}
use java_io_tserver.Cripter.Codec.RoundTrip.{mask_bounds, decod_buf-cod_buf}
use java_io_tserver.Cripter.Session.{MyCripter, encrypt, decrypt, decrypted}

-- A message that can be sent: 1 to 24572 bytes.
pub record IsMessage (text : Bytes) : Type 0 where
  pub some_text : text ≢ []
  pub short : length text < 24573
  pub bytes : All IsByte text

-- A reset generator draws the same, whatever its buffer held.
rand_forgets :
    (st : List ℕ) (b b' : Bytes)
    → rand (record { state = st; buf = b; buf_pos = 64 })
      ≡ rand (record { state = st; buf = b'; buf_pos = 64 })
unfolding rand gen_block
rand_forgets st b b' = refl

discard_forgets :
    (st : List ℕ) (b b' : Bytes)
    → discard_four (record { state = st; buf = b; buf_pos = 64 })
      ≡ discard_four (record { state = st; buf = b'; buf_pos = 64 })
unfolding discard_four
discard_forgets st b b' =
    ap (λ (p : ℕ × MyRand). (rand (rand (rand p.1).1).1).1) (rand_forgets st b b')

-- `srand` forgets all of the generator that it is called on.
pub srand_forgets :
    (s : SetupConfig) (seed : Bytes) (r r' : MyRand) → srand s seed r ≡ srand s seed r'
unfolding srand null_rand
srand_forgets s seed r r' = discard_forgets _ r.buf r'.buf

cod_buf-IsRand :
    (text : Bytes) (r : MyRand) → All IsByte text → IsRand r → IsRand (cod_buf text r).1
unfolding cod_buf
cod_buf-IsRand text r h w =
    let fine = mask_bounds text 0 r h (omega arith) w in
    elim (Bool-cases (leb (length text) 0)) [
      | inl empty ↦ rw empty w
      | inr full ↦ rw full (korr-IsRand _ _ fine.2 fine.3)
    ]

not_zero : (text : Bytes) → text ≢ [] → (length text == 0) ≡ false
not_zero [] ne = absurd (ne refl)
not_zero (x ∷ text) ne = ground arith

-- A message encrypted at one end and decrypted at the other, where both are connected and in
-- step: it comes back, and the ends are in step again.
decrypt-encrypt :
    (s : SetupConfig) (text : Bytes) (c d : MyCripter)
    → IsMessage text
    → d.connected ≡ true
    → d.rand_gen ≡ c.rand_gen
    → IsRand c.rand_gen
    → decrypt s (encrypt text c).0 d ≡ (text, record d { rand_gen = (encrypt text c).1.rand_gen })
unfolding decrypt encrypt decrypted
decrypt-encrypt s text c d m on step w = rw on (
    rw (step, decod_buf-cod_buf text c.rand_gen m.some_text m.short m.bytes w)
      (rw (not_zero text m.some_text) (rw (← on))))

abbrev pub encrypt_all : List Bytes → MyCripter → List Bytes × MyCripter
encrypt_all [] c = ([], c)
encrypt_all (m ∷ ms) c =
    let (t, c') = encrypt m c in let (ts, c'') = encrypt_all ms c' in (t ∷ ts, c'')

abbrev pub decrypt_all : SetupConfig → List Bytes → MyCripter → List Bytes × MyCripter
decrypt_all s [] d = ([], d)
decrypt_all s (t ∷ ts) d =
    let (m, d') = decrypt s t d in let (ms, d'') = decrypt_all s ts d' in (m ∷ ms, d'')

encrypt-IsRand :
    (text : Bytes) (c : MyCripter)
    → IsMessage text
    → IsRand c.rand_gen
    → IsRand (encrypt text c).1.rand_gen
unfolding encrypt
encrypt-IsRand text c m w = cod_buf-IsRand text c.rand_gen m.bytes w

-- Any run of messages of 1 to 24572 bytes, encrypted one after the other at one end and decrypted
-- in that order at the other, where the ends start connected and in step: every message comes
-- back, and the ends are in step again.
pub decrypt_all-encrypt_all :
    (s : SetupConfig) (ms : List Bytes) (c d : MyCripter)
    → All IsMessage ms
    → d.connected ≡ true
    → d.rand_gen ≡ c.rand_gen
    → IsRand c.rand_gen
    → decrypt_all s (encrypt_all ms c).0 d
      ≡ (ms, record d { rand_gen = (encrypt_all ms c).1.rand_gen })
decrypt_all-encrypt_all s [] c d m on step w = rw (← step)
decrypt_all-encrypt_all s (text ∷ ms) c d m on step w =
    let one = decrypt-encrypt s text c d m.0 on step w in
    rw one (
      rw (
        decrypt_all-encrypt_all s ms (encrypt text c).1
          (record d { rand_gen = (encrypt text c).1.rand_gen }) m.1 on refl
          (encrypt-IsRand text c m.0 w)))

-- An end that is not connected, in whatever state its generator is, takes a message encoded from
-- the static key for the new key: it is then connected, and its generator is that of the new key.
handshake :
    (s : SetupConfig) (key : Bytes) (d : MyCripter) (r r' : MyRand)
    → IsMessage key
    → All IsByte d.static_key
    → d.connected ≡ false
    → decrypt s (cod_buf key (srand s d.static_key r)).0 d
      ≡ (key, record d { rand_gen = srand s key r'; connected = true })
unfolding decrypt decrypted
handshake s key d r r' m b off =
    let w = srand-IsRand s d.static_key r b in
    rw off (
      rw (srand_forgets s d.static_key d.rand_gen r) (
        rw (decod_buf-cod_buf key (srand s d.static_key r) m.some_text m.short m.bytes w) (
          rw (not_zero key m.some_text)
            (rw (srand_forgets s key (cod_buf key (srand s d.static_key r)).1 r')))))

decrypted_failed :
    (s : SetupConfig) (d : MyCripter) (result : Bytes) (r : MyRand)
    → (decrypted s d result r).0 ≡ []
    → ((decrypted s d result r).1.connected ≡ false)
      × ((decrypted s d result r).1.static_key ≡ d.static_key)
unfolding decrypted
decrypted_failed s d [] r e = (refl, refl)
decrypted_failed s d (x ∷ xs) r e = ground arith

-- After a message that fails, an end has lost its connection.
decrypt_failed :
    (s : SetupConfig) (t : Bytes) (d : MyCripter)
    → (decrypt s t d).0 ≡ []
    → ((decrypt s t d).1.connected ≡ false) × ((decrypt s t d).1.static_key ≡ d.static_key)
unfolding decrypt
decrypt_failed s t d e = decrypted_failed s d _ _ e

-- Whatever an end was, once a message has failed, the next message encoded from the static key
-- connects it again: its generator is that of the key sent, whatever the failure left behind.
pub reconnect :
    (s : SetupConfig) (bad key : Bytes) (d : MyCripter) (r r' : MyRand)
    → (decrypt s bad d).0 ≡ []
    → IsMessage key
    → All IsByte d.static_key
    → decrypt s (cod_buf key (srand s d.static_key r)).0 (decrypt s bad d).1
      ≡ (key, record d { rand_gen = srand s key r'; connected = true })
reconnect s bad key d r r' failed m b =
    let (off, same) = decrypt_failed s bad d failed in
    simp (← same) (handshake s key (decrypt s bad d).1 r r' m (rw same b) off)
