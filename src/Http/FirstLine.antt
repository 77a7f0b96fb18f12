-- ===== src/Http/FirstLine.antt =====
-- esp8266_decoder/source/http_parser.cpp, parse_method and first_line_pars.
pub mod Traversal
use java_io_tserver.Common.{
  ℕ, ◌+◌, Bool, true, false, ◌&&◌, not, List, [], ◌∷◌, ◌++◌, Option, none, some, ◌==◌,
  if◌then◌else◌,
}
use java_io_tserver.Common.Int.{ℤ, pos, negsuc, ◌==ℤ◌}
use java_io_tserver.Common.Text.{Bytes, codes, equal, break_at}
use java_io_tserver.Http.Escape.{convert_string}
use java_io_tserver.Http.Query.{parse_query_string}
use java_io_tserver.Http.Request.{
  Request, c_str, get_code, head_code, post_code, put_code, delete_code,
}

unfoldable pub parse_method : Bytes → ℤ
parse_method m =
    if equal m (codes "GET")
    then get_code
    else if equal m (codes "HEAD")
    then head_code
    else if equal m (codes "POST")
    then post_code
    else if equal m (codes "PUT")
    then put_code
    else if equal m (codes "DELETE")
    then delete_code
    else if equal m (codes "PATCH")
    then pos 1595
    else if equal m (codes "OPTIONS")
    then pos 1596
    else if equal m (codes "TRACE")
    then pos 1597
    else if equal m (codes "CONNECT")
    then pos 1598
    else negsuc 0

-- The text begins with "/..".
unfoldable pub starts_dots : Bytes → Bool
starts_dots (a ∷ b ∷ c ∷ rest) = a == b'/' && b == b'.' && c == b'.'
starts_dots _ = false

-- `path.find("/..")` and `path.substr(0, x)`: what stands before the first "/..", if there is one.
unfoldable pub before_dots : Bytes → Option Bytes
before_dots [] = none
before_dots (c ∷ cs) = elim (starts_dots (c ∷ cs)) [
  | true ↦ some []
  | false ↦ elim (before_dots cs) [ none ↦ none | some p ↦ some (c ∷ p) ]
]

-- The path and the query of the request target.
unfoldable pub read_target : Bytes → Request → Request
read_target path_str rq = elim (break_at b'?' path_str) [
  | some (path, rest) ↦
      let rq' = parse_query_string rest (record rq { path = path }) in
      record rq' { path = convert_string path }
  | none ↦ record rq { path = convert_string path_str }
]

-- The protocol runs up to a carriage return, or else up to a line feed.
unfoldable pub read_protocol : Bytes → Request → Request
read_protocol proto rq = elim (break_at b'\r' proto) [
  | some (prot, rest) ↦ record rq { prot = prot }
  | none ↦ elim (break_at b'\n' proto) [ some (prot, rest) ↦ record rq { prot = prot } | none ↦ rq ]
]

-- The security check.
unfoldable pub check_path : Request → Request × Bool
check_path rq = elim (before_dots rq.path) [
  | some p ↦ (record rq { path = p }, false)
  | none ↦ (rq, true)
]

unfoldable pub after_method : Bytes → Request → Request × Bool
after_method rest rq = elim (break_at b' ' rest) [
  | none ↦ (rq, false)
  | some (path_str, proto) ↦ check_path (read_protocol proto (read_target path_str rq))
]

-- `first_line_pars`: the request, with what was read of the line, and whether all of it was good.
unfoldable pub first_line_pars : Bytes → Request → Request × Bool
first_line_pars line rq = elim (break_at b' ' (c_str line)) [
  | none ↦ (rq, false)
  | some (m, rest) ↦
      let code = parse_method m in
      let rq' = record rq { method = code } in
      if code ==ℤ negsuc 0 then (rq', false) else after_method rest rq'
]
