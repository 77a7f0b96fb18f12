-- ===== src/Cripter/Codec.antt =====
-- class MyCripter, toBase64, codBuf and decodBuf (HEX_REQUEST is not defined): a message is masked
-- byte by byte with the key stream, followed by its checksum, and written six bits to a character.
pub mod Sextets
pub mod Blocks
pub mod RoundTrip
use java_io_tserver.Common.{
  ℕ, zero, suc, ◌+◌, ◌-◌, ◌*◌, ◌/◌, ◌%◌, ◌^◌, ◌<◌, Bool, ◌||◌, not, List, [], ◌∷◌, ◌++◌, ltb, leb,
  ◌==◌, if◌then◌else◌, map, bit_or, bit_and, bit_xor, get_or, length, take,
}
use java_io_tserver.Common.Text.{Bytes}
use java_io_tserver.Cripter.Rand.{MyRand, rand, korr}

-- The characters that `toBase64` appends, from the bytes whose bits they hold.
unfoldable pub char0 : ℕ → ℕ
char0 a = bit_or 0x40 (bit_and a 0xfc / 2 ^ 2)

unfoldable pub char1 : ℕ → ℕ → ℕ
char1 a b = bit_or (bit_or 0x40 (bit_and a 0x03 * 2 ^ 4)) (bit_and b 0xf0 / 2 ^ 4)

unfoldable pub char1_last : ℕ → ℕ
char1_last cs = bit_or 0x40 (bit_and cs 0x03 * 2 ^ 4)

unfoldable pub char2 : ℕ → ℕ → ℕ
char2 a b = bit_or (bit_or 0x40 (bit_and a 0x0f * 2 ^ 2)) (bit_and b 0xc0 / 2 ^ 6)

unfoldable pub char2_last : ℕ → ℕ
char2_last cs = bit_or 0x40 (bit_and cs 0x0f * 2 ^ 2)

unfoldable pub char3 : ℕ → ℕ
char3 a = bit_or 0x40 (bit_and a 0x3f)

-- The loop of `toBase64`, with the blocks left and the data from `ii * 3` on. The data ends inside
-- a block or before it, where the checksum stands: the loop breaks there.
unfoldable pub blocks_from : ℕ → Bytes → ℕ → Bytes
blocks_from zero rest cs = []
blocks_from (suc n) [] cs = char0 cs ∷ char1_last cs ∷ 0x40 ∷ 0x40 ∷ []
blocks_from (suc n) (a ∷ []) cs = char0 a ∷ char1 a cs ∷ char2_last cs ∷ 0x40 ∷ []
blocks_from (suc n) (a ∷ b ∷ []) cs = char0 a ∷ char1 a b ∷ char2 b cs ∷ char3 cs ∷ []
blocks_from (suc n) (a ∷ b ∷ c ∷ rest) cs =
    char0 a ∷ char1 a b ∷ char2 b c ∷ char3 c ∷ blocks_from n rest cs

-- The rounds of a loop up to a number that was stored in a `short`: none if it is negative there.
abbrev pub short_rounds : ℕ → ℕ
short_rounds n = let m = n % 2 ^ 16 in if ltb m (2 ^ 15) then m else 0

abbrev pub reshta_of : ℕ → ℕ
reshta_of len = (len + 1) % 3

abbrev pub blocks_of : ℕ → ℕ
blocks_of len = (len + 1) / 3 + (if reshta_of len == 0 then 0 else 1)

-- The pass that puts a comma for each backslash.
abbrev pub comma_for_backslash : ℕ → ℕ
comma_for_backslash c = if c == b'\\' then b',' else c

unfoldable pub to_base64 : Bytes → ℕ → Bytes
to_base64 text cs =
    if leb (length text) 0
    then []
    else map comma_for_backslash (blocks_from (short_rounds (blocks_of (length text))) text cs)
      ++ bit_or 0x20 (reshta_of (length text)) ∷ []

-- The loop of `codBuf`: the masked bytes, the checksum and the generator.
unfoldable pub mask : Bytes → ℕ → MyRand → Bytes × ℕ × MyRand
mask [] cs r = ([], cs, r)
mask (d ∷ ds) cs r =
    let (k, r') = rand r in
    let (out, cs', r'') = mask ds (bit_xor cs d) r' in (bit_xor d k ∷ out, cs', r'')

unfoldable pub cod_buf : Bytes → MyRand → Bytes × MyRand
cod_buf text r =
    let (out, cs, r') = mask text 0 r in
    if leb (length text) 0 then ([], r) else (to_base64 out cs, korr cs r')

abbrev pub backslash_for_comma : ℕ → ℕ
backslash_for_comma c = if c == 0x2c then 0x5c else c

unfoldable pub byte0 : ℕ → ℕ → ℕ
byte0 w x = bit_or (bit_and w 0x3f * 2 ^ 2) (bit_and x 0x30 / 2 ^ 4)

unfoldable pub byte1 : ℕ → ℕ → ℕ
byte1 x y = bit_or (bit_and x 0x0f * 2 ^ 4) (bit_and y 0x3c / 2 ^ 2)

unfoldable pub byte2 : ℕ → ℕ → ℕ
byte2 y z = bit_or (bit_and y 0x03 * 2 ^ 6) (bit_and z 0x3f)

-- The loop that fills `byte_requbuf`, with the blocks left and the text from `ii * 4` on.
unfoldable pub bytes_from : ℕ → Bytes → Bytes
bytes_from zero text = []
bytes_from (suc n) (w ∷ x ∷ y ∷ z ∷ rest) = byte0 w x ∷ byte1 x y ∷ byte2 y z ∷ bytes_from n rest
bytes_from (suc n) _ = []

-- The loop that takes the mask off, with the checksum of what comes out.
unfoldable pub unmask : Bytes → ℕ → MyRand → Bytes × ℕ × MyRand
unmask [] ks r = ([], ks, r)
unmask (b ∷ bs) ks r =
    let (k, r') = rand r in
    let d = bit_xor b k in let (out, ks', r'') = unmask bs (bit_xor ks d) r' in (d ∷ out, ks', r'')

-- From the blocks and the number of bytes in them on; the last byte is the checksum.
unfoldable pub check_payload : Bytes → ℕ → MyRand → Bytes × MyRand
check_payload bytes jj r =
    let (out, ks, r') = unmask (take jj bytes) 0 r in
    if ks == get_or bytes jj 0 then (out, korr ks r') else ([], r')

-- `jj` of a text of four characters to a block and one more: the bytes with the checksum.
abbrev pub payload_size : ℕ → ℕ → ℕ
payload_size reshta blocks = if reshta == 0 then blocks * 3 else (blocks - 1) * 3 + reshta

-- The body of `decodBuf` from the length and the bytes of the text on. A refused message is the
-- empty one, and the generator is drawn from only where the text has whole blocks.
unfoldable pub decod_sized : ℕ → Bytes → MyRand → Bytes × MyRand
decod_sized jj requbuf r =
    let reshta = bit_and (get_or requbuf (jj - 1) 0) 0x03 in
    let blocks = (jj - 1) / 4 in
    let checked = check_payload (bytes_from blocks requbuf) (payload_size reshta blocks - 1) r in
    if ltb jj 5 then ([], r) else if not ((jj - 1) % 4 == 0) then ([], r) else checked

-- The length is held in a `short`: a longer text is cut, or refused where the number is negative.
unfoldable pub decod_buf : Bytes → MyRand → Bytes × MyRand
decod_buf request r =
    let jj = short_rounds (length request) in
    decod_sized jj (map backslash_for_comma (take jj request)) r
