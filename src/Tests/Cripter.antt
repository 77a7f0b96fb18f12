-- ===== src/Tests/Cripter.antt =====
-- MyCripter: a conversation run on keys of zeros, and the uses of the theorems.
use java_io_tserver.Common.{◌≡◌, refl, arith, true, false, [], ◌∷◌, All}
use java_io_tserver.Common.Text.{Bytes, codes}
use java_io_tserver.Setup.{SetupConfig}
use java_io_tserver.Cripter.Rand.{MyRand, srand}
use java_io_tserver.Cripter.Rand.Bounds.{IsByte, IsRand, srand-IsRand}
use java_io_tserver.Cripter.Codec.{cod_buf, decod_buf, decod_sized}
use java_io_tserver.Cripter.Codec.RoundTrip.{decod_buf-cod_buf}
use java_io_tserver.Cripter.Session.{MyCripter, decrypt, decrypted}
use java_io_tserver.Cripter.Session.InStep.{
  IsMessage, encrypt_all, decrypt_all, decrypt_all-encrypt_all, reconnect,
}

abbrev setup : SetupConfig
setup = record { path = []; items = [] }

abbrev blank_rand : MyRand
blank_rand = record { state = []; buf = []; buf_pos = 64 }

abbrev seed : Bytes
seed = codes "0123456789abcdef"

abbrev seeded : MyRand
seeded = srand setup seed blank_rand

abbrev text : Bytes
text = codes "hello"

seed-IsByte : All IsByte seed
seed-IsByte = omega arith

text-IsByte : All IsByte text
text-IsByte = omega arith

seeded-IsRand : IsRand seeded
seeded-IsRand = srand-IsRand setup seed blank_rand seed-IsByte

text-IsMessage : IsMessage text
text-IsMessage = record { some_text = ground arith; short = omega arith; bytes = text-IsByte }

seed-IsMessage : IsMessage seed
seed-IsMessage = record { some_text = ground arith; short = omega arith; bytes = seed-IsByte }

abbrev talking : MyCripter
talking = record { rand_gen = seeded; connected = true; static_key = seed }

abbrev silent : MyCripter
silent = record { rand_gen = blank_rand; connected = false; static_key = seed }

decod_buf-cod_buf_example :
    decod_buf (cod_buf text seeded).0 seeded ≡ (text, (cod_buf text seeded).1)
decod_buf-cod_buf_example =
    decod_buf-cod_buf text seeded (ground arith) (omega arith) text-IsByte seeded-IsRand

decrypt_all-encrypt_all_example :
    decrypt_all setup (encrypt_all (text ∷ seed ∷ []) talking).0 talking ≡ (
      text ∷ seed ∷ [],
      record talking { rand_gen = (encrypt_all (text ∷ seed ∷ []) talking).1.rand_gen },
    )
decrypt_all-encrypt_all_example =
    decrypt_all-encrypt_all setup (text ∷ seed ∷ []) talking talking
      (text-IsMessage, (seed-IsMessage, tt)) refl refl seeded-IsRand

refused : (decrypt setup (codes "no") talking).0 ≡ []
unfolding decrypt decrypted decod_buf decod_sized
refused = refl

reconnect_example :
    decrypt setup (cod_buf text (srand setup seed seeded)).0 (decrypt setup (codes "no") talking).1
    ≡ (text, record talking { rand_gen = srand setup text seeded; connected = true })
reconnect_example =
    reconnect setup (codes "no") text talking seeded seeded refused text-IsMessage seed-IsByte
