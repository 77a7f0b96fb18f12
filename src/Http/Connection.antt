-- ===== src/Http/Connection.antt =====
-- Reading a request from a socket: _resv and _resv_line of esp8266_decoder/source/http_utils.h, and
-- line_parse, read_http_headers, read_http_body and parse_http_request of http_parser.cpp. `recv` of
-- the system gives what has arrived, at most as much as it is asked for.
pub mod Lines
pub mod Body
pub mod Headers
pub mod Stuck
use java_io_tserver.Common.{
  ℕ, zero, suc, ◌+◌, ◌*◌, ◌^◌, Bool, true, false, ◌&&◌, ◌||◌, not, List, [], ◌∷◌, ◌++◌, Option,
  none, some, ltb, leb, ◌==◌, ◌-◌, replicate, if◌then◌else◌, get_or, length, take, drop,
}
use java_io_tserver.Common.Int.{ℤ, pos, pos_part, ◌==ℤ◌, ltb_ℤ}
use java_io_tserver.Common.Text.{Bytes, codes, equal, atoi, break_at}
use java_io_tserver.Http.Request.{
  Request, ParamList, headers, new_request, znach, push_header, check_param,
}
use java_io_tserver.Http.Query.{parse_query_string}
use java_io_tserver.Http.FirstLine.{first_line_pars}

-- How a connection ends when nothing more arrives.
pub data End : Type 0 where
  closed failed : End

-- The pieces in which the bytes arrive, and the end.
pub record Connection : Type 0 where
  pub pieces : List Bytes
  pub ending : End

-- What a call of `recv` gives: bytes, 0 for a connection that is closed, or an error.
pub data Received : Type 0 where
  got : Bytes → Received
  shut fault : Received

unfoldable pub recv_from : ℕ → End → List Bytes → Received × Connection
recv_from n closed [] = (shut, record { pieces = []; ending = closed })
recv_from n failed [] = (fault, record { pieces = []; ending = failed })
recv_from n e (p ∷ ps) =
    if leb (length p) n
    then (got p, record { pieces = ps; ending = e })
    else (got (take n p), record { pieces = drop n p ∷ ps; ending = e })

abbrev pub recv : ℕ → Connection → Received × Connection
recv n c = recv_from n c.ending c.pieces

-- The loop of `_resv`, with the bytes still wanted and those in the buffer; `none` is a loop that has
-- not ended. A result is the buffer and whether `recv` did not fail.
unfoldable pub resv : ℕ → ℕ → Connection → Bytes → Option (Bool × Bytes × Connection)
resv zero want c acc = none
resv (suc fuel) zero c acc = some (true, acc, c)
resv (suc fuel) (suc want) c acc =
    let (r, c') = recv (suc want) c in
    elim r as (λ r. Option (Bool × Bytes × Connection)) [
      | got bs ↦ resv fuel (suc want - length bs) c' (acc ++ bs)
      | shut ↦ resv fuel (suc want) c' acc
      | fault ↦ some (false, acc, c')
    ]

-- The loop of `_resv_line`.
unfoldable pub resv_line : ℕ → Connection → Bytes → Option (Bytes × Connection)
resv_line zero c result = none
resv_line (suc fuel) c result =
    let (r, c') = recv 1 c in
    elim r as (λ r. Option (Bytes × Connection)) [
      | got bs ↦ elim (get_or bs 0 0 == b'\n') as (λ b. Option (Bytes × Connection)) [
        | true ↦ some (result ++ bs, c')
        | false ↦ resv_line fuel c' (result ++ bs)
      ]
      | shut ↦ some (result, c')
      | fault ↦ some ([], c')
    ]

-- The line is kept whole behind the colon; the answer of `line_parse` is not used.
unfoldable pub line_parse : Bytes → Request → Request
line_parse line rq = elim (break_at b':' line) as (λ o. Request) [
  | none ↦ rq
  | some (key, val) ↦ push_header key val rq
]

abbrev pub is_blank_line : Bytes → Bool
is_blank_line line = equal line (13 ∷ 10 ∷ []) || equal line (10 ∷ [])

-- The bytes that are still to arrive.
unfoldable pub bytes_left : List Bytes → ℕ
bytes_left [] = 0
bytes_left (p ∷ ps) = length p + bytes_left ps

abbrev pub read_line : Connection → Option (Bytes × Connection)
read_line c = resv_line (suc (bytes_left c.pieces)) c []

-- The loop of read_http_headers behind the first line, with the text read so far.
unfoldable pub header_lines : ℕ → Connection → Bytes → Request → Option (Request × Connection)
header_lines zero c result rq = none
header_lines (suc fuel) c result rq = elim (read_line c) as (λ o. Option (Request × Connection)) [
  | none ↦ none
  | some (line, c') ↦ elim (is_blank_line line) as (λ b. Option (Request × Connection)) [
    | true ↦ some (record rq { header = result ++ line }, c')
    | false ↦ header_lines fuel c' (result ++ line) (line_parse line rq)
  ]
]

unfoldable pub read_http_headers : ℕ → Connection → Request → Option (Request × Connection)
read_http_headers fuel c rq = elim (read_line c) as (λ o. Option (Request × Connection)) [
  | none ↦ none
  | some (line, c') ↦ header_lines fuel c' line (first_line_pars line rq).0
]

-- The characters at the front of the body that go to body_str.
unfoldable pub plain_prefix : Bytes → Bytes
plain_prefix [] = []
plain_prefix (c ∷ cs) = let rest = plain_prefix cs in if leb 32 c && leb c 127 then c ∷ rest else []

-- The array of `n` zeros with what was received at its front.
abbrev pub filled : ℕ → Bytes → Bytes
filled n bs = bs ++ replicate (n - length bs) 0

abbrev pub set_body : Bytes → Request → Request
set_body body rq = record rq { body = body; body_str = rq.body_str ++ plain_prefix body }

unfoldable pub read_http_body : ℕ → Connection → Request → Option (Request × Connection)
read_http_body fuel c rq =
    let len_ctr = znach (codes "content-length") headers rq in
    let len = atoi len_ctr in
    let received = elim (resv fuel (pos_part len) c []) as (λ o. Option (Request × Connection)) [
      | none ↦ none
      | some (ok, bs, c') ↦ some (set_body (filled (pos_part len) bs) rq, c')
    ] in
    if length len_ctr == 0
    then some (rq, c)
    else if len ==ℤ pos 0
    then some (rq, c)
    else if ltb_ℤ len (pos 0) || ltb_ℤ (pos (1024 * 1024)) len
    then some (rq, c)
    else received

-- A form in the body counts as a query.
unfoldable pub parse_form : Request → Request
parse_form rq =
    if check_param (codes "content-type") (codes "application/x-www-form-urlencoded") headers rq
    then parse_query_string rq.body_str rq
    else rq

-- `fuel` bounds the rounds of each loop; `none` where a loop has not ended by then.
unfoldable pub parse_http_request : ℕ → Connection → Option (Request × Connection)
parse_http_request fuel c =
    elim (read_http_headers fuel c new_request) as (λ o. Option (Request × Connection)) [
      | none ↦ none
      | some (rq, c') ↦ elim (read_http_body fuel c' rq) as (λ o. Option (Request × Connection)) [
        | none ↦ none
        | some (rq', c'') ↦ some (parse_form rq', c'')
      ]
    ]
