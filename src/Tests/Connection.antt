-- ===== src/Tests/Connection.antt =====
-- Reading from a connection: the uses of the theorems on a short request in two pieces.
use java_io_tserver.Common.{◌≡◌, refl, arith, true, List, [], ◌∷◌, ◌++◌, none}
use java_io_tserver.Common.Text.{Bytes, codes, lacks, equal}
use java_io_tserver.Http.Request.{new_request}
use java_io_tserver.Http.FirstLine.{first_line_pars}
use java_io_tserver.Http.Connection.{closed, read_http_headers, header_lines}
use java_io_tserver.Http.Connection.Lines.{joined}
use java_io_tserver.Http.Connection.Headers.{IsHeaderLine, sent, IsRead, read_http_headers_lem}
use java_io_tserver.Http.Connection.Stuck.{header_lines_stuck}

-- "GET / HTTP/1.1", "Host: a" and the blank line, cut inside the second line.
abbrev first : Bytes
first = codes "GET / HTTP/1.1\r"

abbrev host : Bytes
host = codes "Host: a\r"

abbrev pieces : List Bytes
pieces = (first ++ 10 ∷ codes "Ho") ∷ (codes "st: a\r" ++ 10 ∷ 13 ∷ 10 ∷ codes "x") ∷ []

host-IsHeaderLine : IsHeaderLine host
unfolding lacks equal
host-IsHeaderLine = record { one_line = refl; not_blank = refl }

first_one_line : lacks 10 first ≡ true
unfolding lacks
first_one_line = refl

pieces_joined : joined pieces ≡ sent (first ∷ host ∷ []) (13 ∷ 10 ∷ codes "x")
unfolding joined sent
pieces_joined = refl

read_http_headers_lem_example :
    IsRead
      (first ++ 10 ∷ [])
      (host ∷ [])
      (codes "x")
      (first_line_pars (first ++ 10 ∷ []) new_request).0
      closed
      (read_http_headers 2 (record { pieces = pieces; ending = closed }) new_request)
read_http_headers_lem_example =
    read_http_headers_lem first (codes "x") (host ∷ []) new_request pieces closed 2
      ((omega arith), (omega arith, tt)) first_one_line (host-IsHeaderLine, tt) pieces_joined
      (omega arith)

line_joined : joined ((host ++ 10 ∷ []) ∷ []) ≡ host ++ 10 ∷ []
unfolding joined
line_joined = refl

host_one_line : lacks 10 host ≡ true
unfolding lacks
host_one_line = refl

cut_joined : joined ((host ++ 10 ∷ []) ∷ []) ≡ sent (host ∷ []) []
unfolding joined sent
cut_joined = refl

header_lines_stuck_example :
    header_lines 1000 (record { pieces = (host ++ 10 ∷ []) ∷ []; ending = closed }) [] new_request
    ≡ none
header_lines_stuck_example =
    header_lines_stuck 1000 (host ∷ []) ((host ++ 10 ∷ []) ∷ []) closed [] new_request
      (omega arith, tt) (host-IsHeaderLine, tt) cut_joined
