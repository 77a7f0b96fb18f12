-- ===== src/Http/Query.antt =====
-- esp8266_decoder/source/http_parser.cpp, parse_query_string: `key=value` pairs joined by `&`, of
-- a query or of a form in the body. The text is a C string, that is, it holds no 0.
pub mod RoundTrip
use java_io_tserver.Common.{
  ℕ, zero, suc, ◌+◌, Bool, true, false, List, [], ◌∷◌, Option, none, some, ◌==◌, if◌then◌else◌,
  length,
}
use java_io_tserver.Common.Text.{Bytes, break_at}
use java_io_tserver.Http.Escape.{convert_string}
use java_io_tserver.Http.Request.{Request, push_query}

-- A pair with an empty key is passed over.
unfoldable pub push_pair : Bytes → Bytes → Request → Request
push_pair key val rq =
    if length key == 0 then rq else push_query (convert_string key) (convert_string val) rq

-- The loop, at `curr`. A pair takes at least the byte of its `=`, so as many rounds as bytes are
-- enough.
unfoldable pub parse_pairs : ℕ → Bytes → Request → Request
parse_pairs zero curr rq = rq
parse_pairs (suc fuel) [] rq = rq
parse_pairs (suc fuel) (c ∷ cs) rq = elim (break_at b'=' (c ∷ cs)) [
  | none ↦ rq
  | some (key, val_start) ↦ elim (break_at b'&' val_start) [
    | none ↦ push_pair key val_start rq
    | some (val, rest) ↦ parse_pairs fuel rest (push_pair key val rq)
  ]
]

unfoldable pub parse_query_string : Bytes → Request → Request
parse_query_string text rq = parse_pairs (length text) text rq
