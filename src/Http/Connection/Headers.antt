-- ===== src/Http/Connection/Headers.antt =====
-- The headers of a request as they are read from a connection, however the bytes arrive.
use java_io_tserver.Common.{
  ℕ, zero, suc, ◌<◌, ◌≡◌, ◌∙◌, refl, ap, true, false, List, [], ◌∷◌, ◌++◌, append_assoc, Option,
  some, All, length, arith,
}
use java_io_tserver.Common.Text.{Bytes, lacks, equal}
use java_io_tserver.Http.Request.{Request}
use java_io_tserver.Http.FirstLine.{first_line_pars}
use java_io_tserver.Http.Connection.{
  End, Connection, read_line, is_blank_line, line_parse, header_lines, read_http_headers,
}
use java_io_tserver.Http.Connection.Lines.{joined, IsPiece, IsLine, read_line_lem}

-- A header line: it holds no line feed, and it is not the blank one.
pub record IsHeaderLine (l : Bytes) : Type 0 where
  pub one_line : lacks b'\n' l ≡ true
  pub not_blank : is_blank_line (l ++ b'\n' ∷ []) ≡ false

-- The lines as they are sent, each with its line feed, in front of what follows.
unfoldable pub sent : List Bytes → Bytes → Bytes
sent [] rest = rest
sent (l ∷ ls) rest = l ++ b'\n' ∷ sent ls rest

-- What the lines make of a request, one after another.
unfoldable pub parse_lines : List Bytes → Request → Request
parse_lines [] rq = rq
parse_lines (l ∷ ls) rq = parse_lines ls (line_parse (l ++ b'\n' ∷ []) rq)

pub record IsRead (result : Bytes) (ls : List Bytes) (rest : Bytes) (rq : Request) (e : End)
    (r : Option (Request × Connection)) : Type 0 where
  pub pieces : List Bytes
  pub read :
      r
      ≡ some (
        record (parse_lines ls rq) { header = result ++ sent ls (b'\r' ∷ b'\n' ∷ []) },
        record { pieces = pieces; ending = e },
      )
  pub left : joined pieces ≡ rest
  pub shape : All IsPiece pieces

pub header_lines_step :
    (fuel : ℕ) (line rest result : Bytes) (rq : Request) (ps : List Bytes) (e : End)
    (i : IsLine line rest [] e (read_line (record { pieces = ps; ending = e })))
    → is_blank_line (line ++ b'\n' ∷ []) ≡ false
    → header_lines (suc fuel) (record { pieces = ps; ending = e }) result rq
      ≡ header_lines fuel
          (record { pieces = i.pieces; ending = e })
          (result ++ (line ++ b'\n' ∷ []))
          (line_parse (line ++ b'\n' ∷ []) rq)
unfolding header_lines
header_lines_step fuel line rest result rq ps e i h = rw (i.result, header_lines, h) refl

header_lines_end :
    (fuel : ℕ) (rest result : Bytes) (rq : Request) (ps : List Bytes) (e : End)
    (i : IsLine (b'\r' ∷ []) rest [] e (read_line (record { pieces = ps; ending = e })))
    → header_lines (suc fuel) (record { pieces = ps; ending = e }) result rq
      ≡ some (
        record rq { header = result ++ b'\r' ∷ b'\n' ∷ [] },
        record { pieces = i.pieces; ending = e },
      )
unfolding header_lines equal
header_lines_end fuel rest result rq ps e i = rw (i.result, header_lines) refl

moved : (result l t : Bytes) → (result ++ (l ++ b'\n' ∷ [])) ++ t ≡ result ++ (l ++ b'\n' ∷ t)
moved result l t = simp append_assoc refl

header_lines_lem :
    (ls : List Bytes) (rest result : Bytes) (rq : Request) (ps : List Bytes) (e : End) (fuel : ℕ)
    → All IsPiece ps
    → All IsHeaderLine ls
    → joined ps ≡ sent ls (b'\r' ∷ b'\n' ∷ rest)
    → length ls < fuel
    → IsRead result ls rest rq e (header_lines fuel (record { pieces = ps; ending = e }) result rq)
unfolding sent parse_lines lacks
header_lines_lem ls rest result rq ps e zero h g j f = absurd (omega (arith, f))
header_lines_lem [] rest result rq ps e (suc fuel) h g j f =
    let i = read_line_lem (b'\r' ∷ []) rest ps e h refl j in
    record {
      pieces = i.pieces;
      read = header_lines_end fuel rest result rq ps e i;
      left = i.left;
      shape = i.shape;
    }
header_lines_lem (l ∷ ls) rest result rq ps e (suc fuel) h g j f =
    let line = l ++ b'\n' ∷ [] in
    let i = read_line_lem l _ ps e h g.0.one_line j in
    let r =
      header_lines_lem ls rest (result ++ line) (line_parse line rq) i.pieces e fuel i.shape g.1
        i.left (omega arith) in
    record {
      pieces = r.pieces;
      read =
          header_lines_step fuel l _ result rq ps e i g.0.not_blank
          ∙ (r.read
              ∙ ap
                  (λ h. some (
                    record (parse_lines (l ∷ ls) rq) { header = h },
                    record { pieces = r.pieces; ending = e },
                  ))
                  (moved result l (sent ls (b'\r' ∷ b'\n' ∷ []))));
      left = r.left;
      shape = r.shape;
    }

-- A first line, header lines and a blank line are read up to the blank line and no byte further, in
-- whatever pieces they arrive: the request is what first_line_pars makes of the first line and then
-- line_parse of each header line in order, and its `header` is the whole text. The loop ends within
-- one round more than there are header lines.
pub read_http_headers_lem :
    (first rest : Bytes) (ls : List Bytes) (rq : Request) (ps : List Bytes) (e : End) (fuel : ℕ)
    → All IsPiece ps
    → lacks b'\n' first ≡ true
    → All IsHeaderLine ls
    → joined ps ≡ sent (first ∷ ls) (b'\r' ∷ b'\n' ∷ rest)
    → length ls < fuel
    → IsRead
        (first ++ b'\n' ∷ [])
        ls
        rest
        (first_line_pars (first ++ b'\n' ∷ []) rq).0
        e
        (read_http_headers fuel (record { pieces = ps; ending = e }) rq)
unfolding read_http_headers sent
read_http_headers_lem first rest ls rq ps e fuel h one g j f =
    let i = read_line_lem first _ ps e h one j in
    let line = first ++ b'\n' ∷ [] in
    let r =
      header_lines_lem ls rest line (first_line_pars line rq).0 i.pieces e fuel i.shape g i.left
        f in
    record {
      pieces = r.pieces;
      read = rw (i.result, read_http_headers) r.read;
      left = r.left;
      shape = r.shape;
    }
