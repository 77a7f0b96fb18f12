-- ===== src/Http/Connection/Stuck.antt =====
-- What happens where the client closes too early: the two loops that never end.
use java_io_tserver.Common.{
  ℕ, zero, suc, ◌≡◌, ◌∙◌, refl, List, [], ◌∷◌, ◌++◌, none, some, All, arith,
}
use java_io_tserver.Common.Text.{Bytes, equal}
use java_io_tserver.Http.Request.{Request}
use java_io_tserver.Http.Connection.{
  End, closed, failed, recv_from, resv_line, bytes_left, read_line, line_parse, header_lines,
}
use java_io_tserver.Http.Connection.Lines.{joined, IsPiece, read_line_lem}
use java_io_tserver.Http.Connection.Headers.{IsHeaderLine, sent, header_lines_step}

read_line_ended :
    (e : End)
    → read_line (record { pieces = []; ending = e }) ≡ some ([], record { pieces = []; ending = e })
unfolding resv_line recv_from bytes_left
read_line_ended closed = refl
read_line_ended failed = refl

header_lines_ended :
    (fuel : ℕ) (e : End) (result : Bytes) (rq : Request)
    → header_lines fuel (record { pieces = []; ending = e }) result rq ≡ none
unfolding header_lines equal
header_lines_ended zero e result rq = refl
header_lines_ended (suc fuel) e result rq =
    rw (read_line_ended e, header_lines)
      (header_lines_ended fuel e (result ++ []) (line_parse [] rq))

stopped :
    (ps : List Bytes) (e : End) (result : Bytes) (rq : Request)
    → header_lines zero (record { pieces = ps; ending = e }) result rq ≡ none
unfolding header_lines
stopped ps e result rq = refl

no_bytes : (ps : List Bytes) → All IsPiece ps → joined ps ≡ [] → ps ≡ []
unfolding joined
no_bytes [] h j = refl
no_bytes ([] ∷ ps) h j = absurd (omega (arith, h.0))
no_bytes ((x ∷ p) ∷ ps) h j = absurd (ground (arith, j))

-- The loop over the header lines has not ended after any number of rounds, where the connection
-- ends, closed or failed, after header lines with no blank line behind them.
pub header_lines_stuck :
    (fuel : ℕ) (ls : List Bytes) (ps : List Bytes) (e : End) (result : Bytes) (rq : Request)
    → All IsPiece ps
    → All IsHeaderLine ls
    → joined ps ≡ sent ls []
    → header_lines fuel (record { pieces = ps; ending = e }) result rq ≡ none
unfolding sent
header_lines_stuck fuel [] ps e result rq h g j =
    rw (no_bytes ps h j) (header_lines_ended fuel e result rq)
header_lines_stuck zero (l ∷ ls) ps e result rq h g j = stopped ps e result rq
header_lines_stuck (suc fuel) (l ∷ ls) ps e result rq h g j =
    let i = read_line_lem l _ ps e h g.0.one_line j in
    header_lines_step fuel l _ result rq ps e i g.0.not_blank
    ∙ header_lines_stuck fuel ls i.pieces e _ _ i.shape g.1 i.left
