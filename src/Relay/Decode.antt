-- ===== src/Relay/Decode.antt =====
-- servak_na_winapi_relays/source: convert_string (http_utils.cpp) and decod_request
-- (server_relays.cpp), which reads a request. What the first `recv` gives and what arrives later are
-- arguments. The buffer is its bytes; behind them it is 0, as `calloc` leaves it. It is taken to hold
-- a first piece with its end, and `realloc` to succeed.
pub mod Bounds
pub mod Fuel
use java_io_tserver.Common.{
  ℕ, zero, suc, ◌+◌, ◌-◌, ◌*◌, Bool, true, false, ◌&&◌, ◌||◌, not, List, [], ◌∷◌, ◌++◌, Option,
  none, some, ltb, leb, ◌==◌, if◌then◌else◌, length, get_or, set, take, drop,
}
use java_io_tserver.Common.Int.{ℤ, pos, negsuc, pos_part, ◌+ℤ◌, ◌-ℤ◌, ◌==ℤ◌, ltb_ℤ}
use java_io_tserver.Common.Text.{Bytes, codes, equal, atoi}
use java_io_tserver.Http.Escape.{escaped_byte, space_for_plus}
use java_io_tserver.Http.Request.{c_str}
use java_io_tserver.Relay.Request.{
  Query, Request, new_request, get_code, head_code, post_code, put_code, delete_code, is_text,
}

-- convert_string of the `n` bytes at the front of the memory; `skip` of them belong to the escape
-- before. The two characters of an escape are read wherever they stand.
unfoldable pub convert_window : ℕ → ℕ → Bytes → Bytes
convert_window zero skip memory = []
convert_window (suc n) (suc skip) memory = convert_window n skip (drop 1 memory)
convert_window (suc n) zero [] = 0 ∷ convert_window n zero []
convert_window (suc n) zero (c ∷ memory) = elim (c == b'%') [
  | true ↦ escaped_byte (get_or memory 0 0) (get_or memory 1 0) ∷ convert_window n 2 memory
  | false ↦ space_for_plus c ∷ convert_window n zero memory
]

abbrev pub convert_string : Bytes → ℕ → Bytes
convert_string memory lnght = convert_window lnght zero memory

-- What decod_request keeps while it reads the lines.
pub record Lines : Type 0 where
  pub buff : Bytes
  pub i : ℕ
  pub bbb : ℕ
  pub fl : ℕ
  pub content_len : ℤ
  pub rq : Request

abbrev pub text_at : ℕ → Bytes → Bytes
text_at i buff = c_str (drop i buff)

-- A method that is not known leaves the method as it was.
unfoldable pub method_code : Bytes → ℤ → ℤ
method_code m before =
    if equal m (codes "GET")
    then get_code
    else if equal m (codes "OPTIONS")
    then pos 1002
    else if equal m (codes "HEAD")
    then head_code
    else if equal m (codes "POST")
    then post_code
    else if equal m (codes "PUT")
    then put_code
    else if equal m (codes "PATCH")
    then pos 1006
    else if equal m (codes "DELETE")
    then delete_code
    else if equal m (codes "TRACE")
    then pos 1008
    else if equal m (codes "CONNECT")
    then pos 1009
    else before

-- The bytes before the first question mark or 0.
unfoldable pub to_mark : Bytes → ℕ
to_mark [] = 0
to_mark (c ∷ cs) = let more = suc (to_mark cs) in if c == 0 || c == b'?' then 0 else more

-- The path, at the second space. The text that is converted takes its end of 0 in.
unfoldable pub read_path : Lines → Lines
read_path s =
    let n = to_mark (drop s.i s.buff) in
    let jj = s.i + n in
    let marked = get_or s.buff jj 0 == b'?' in
    let buff = if marked then set s.buff jj 0 else s.buff in
    record s {
      buff = buff;
      bbb = if marked then jj + 1 else s.bbb;
      fl = 0;
      rq = record s.rq { path = convert_string (drop s.i buff) (n + 1) };
    }

unfoldable pub read_space : ℕ → Lines → Lines
read_space ii s0 =
    let s = record s0 { buff = set s0.buff ii 0 } in
    if s.i == 0
    then record s {
      i = ii + 1;
      fl = 1;
      rq = record s.rq { method = method_code (text_at 0 s.buff) s.rq.method };
    }
    else if s.fl == 1
    then read_path s
    else s

-- The request line, from `ii` on, `n` bytes.
unfoldable pub request_line : ℕ → ℕ → Lines → Lines
request_line zero ii s = s
request_line (suc n) ii s =
    request_line n (ii + 1) (if get_or s.buff ii 0 == b' ' then read_space ii s else s)

-- The bytes before the first `c` among the `n` at the front.
unfoldable pub until : ℕ → ℕ → Bytes → ℕ
until c zero memory = 0
until c (suc n) [] = suc (until c n [])
until c (suc n) (x ∷ memory) = let more = suc (until c n memory) in if x == c then 0 else more

-- A header line that ends at `j`. Of the headers only this one is used for more than to print.
unfoldable pub header_line : ℕ → Lines → Lines
header_line j s =
    let ii = s.i + until b':' (j - s.i) (drop s.i s.buff) in
    let buff = set s.buff ii 0 in
    record s {
      buff = buff;
      content_len =
          if equal (text_at s.i buff) (codes "content-length")
          then atoi (text_at (ii + 2) buff)
          else s.content_len;
    }

unfoldable pub line_end : ℕ → Lines → Lines
line_end j s0 =
    let s = record s0 { buff = set s0.buff j 0 } in
    if s.i == 0 then request_line j 0 s else header_line j s

-- The loop over the lines, up to `len`, from `j`; the next line is searched from its second byte on.
-- Each round takes a byte, so `len` rounds are enough.
unfoldable pub read_lines : ℕ → ℕ → ℕ → Lines → Lines
read_lines zero len j s = s
read_lines (suc fuel) len j s =
    let on = read_lines fuel len (j + 1) s in
    let s1 = line_end j s in
    let s2 : Lines = record s1 { i = j + 2 } in
    let further = read_lines fuel len (j + 3) s2 in
    let ended = if leb (j - s1.i) 2 then s2 else further in
    let here = if get_or s.buff j 0 == b'\r' then ended else on in if ltb j len then here else s

-- The loop over the parameters, in the `n` bytes at the front of the memory.
unfoldable pub read_params : ℕ → ℕ → Bytes → List Query → List Query
read_params zero n memory qs = qs
read_params (suc fuel) n memory qs =
    let k1 = until b'=' n memory in
    let m1 = drop (k1 + 1) memory in
    let n1 = n - (k1 + 1) in
    let k2 = until b'&' n1 m1 in
    let past : ℕ = if get_or m1 k2 0 == 0 then 0 else 1 in
    let q : Query = record { param = convert_string memory k1; znach = convert_string m1 k2 } in
    let rest = read_params fuel (n1 - (k2 + past)) (drop (k2 + past) m1) (qs ++ q ∷ []) in
    if n == 0 || (get_or memory 0 0 == b'\r' || length qs == 256) then qs else rest

abbrev pub max_body_len : ℤ
max_body_len = pos (64 * 1024 * 1024)

abbrev pub has_body : Request → Bool
has_body rq = rq.method ==ℤ post_code || (rq.method ==ℤ put_code || rq.method ==ℤ delete_code)

-- The buffer and the place from which the parameters or the body are read; `none` where the body is
-- too long. The rest of a body is read until it is whole or the connection gives no more.
unfoldable pub read_rest : ℕ → Bytes → Lines → Option (Bytes × ℕ)
read_rest len more s =
    let i = s.i + 2 in
    if s.rq.method ==ℤ get_code && not (s.bbb == 0)
    then some (s.buff, s.bbb)
    else if has_body s.rq && ltb_ℤ (pos len) (s.content_len +ℤ pos i)
    then (if ltb_ℤ max_body_len s.content_len
        then none
        else (let need = pos_part (s.content_len -ℤ (pos len -ℤ pos i)) in
            some (take len s.buff ++ take need more, i)))
    else some (s.buff, i)

unfoldable pub read_content : Bytes → Request → Request
read_content memory rq =
    let text = c_str memory in
    if is_text rq.path (codes "/log_file") && rq.method ==ℤ post_code
    then record rq { body = text }
    else record rq { query = read_params (length text) (length text) memory rq.query }

-- decod_request; `none` is the result 1.
unfoldable pub decod_request : Bytes → Bytes → Option Request
decod_request first more =
    let len = length (c_str first) in
    let start : Lines = record {
      buff = first;
      i = 0;
      bbb = 0;
      fl = 0;
      content_len = pos 0;
      rq = new_request;
    } in
    if len == 0
    then none
    else (let s = read_lines len len 0 start in
        elim (read_rest len more s) [
          | none ↦ none
          | some (buff, i) ↦ some (read_content (drop i buff) s.rq)
        ])
