-- ===== src/Cripter/Session.antt =====
-- class MyCripter: one end of a conversation. A generator that is not connected starts from the
-- static key of the configuration; the first message that decodes is the seed of what follows.
pub mod InStep
use java_io_tserver.Common.{
  ℕ, ◌+◌, ◌<◌, Bool, true, false, List, [], ◌∷◌, ◌==◌, if◌then◌else◌, length,
}
use java_io_tserver.Common.Text.{Bytes, codes}
use java_io_tserver.Setup.{SetupConfig, get}
use java_io_tserver.Cripter.Rand.{MyRand, null_rand, srand}
use java_io_tserver.Cripter.Codec.{cod_buf, decod_buf}

pub record MyCripter : Type 0 where
  pub rand_gen : MyRand
  pub connected : Bool
  pub static_key : Bytes

-- The constructor; `buf` is what the array of the generator happens to hold.
unfoldable pub new_cripter : SetupConfig → Bytes → MyCripter
new_cripter s buf = record {
  rand_gen = null_rand s (record { state = []; buf = buf; buf_pos = 64 });
  connected = false;
  static_key = get s (codes "myStaticKeyRequest");
}

unfoldable pub encrypt : Bytes → MyCripter → Bytes × MyCripter
encrypt text c = let (out, r) = cod_buf text c.rand_gen in (out, record c { rand_gen = r })

-- What `decrypt` does with the result of `decodBuf`; the empty one is a failure.
unfoldable pub decrypted : SetupConfig → MyCripter → Bytes → MyRand → Bytes × MyCripter
decrypted s c result r =
    if length result == 0
    then ([], record c { rand_gen = r; connected = false })
    else if c.connected
    then (result, record c { rand_gen = r })
    else (result, record c { rand_gen = srand s result r; connected = true })

unfoldable pub decrypt : SetupConfig → Bytes → MyCripter → Bytes × MyCripter
decrypt s text c =
    let start = if c.connected then c.rand_gen else srand s c.static_key c.rand_gen in
    let (result, r) = decod_buf text start in decrypted s c result r
