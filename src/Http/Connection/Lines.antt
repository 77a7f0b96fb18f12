-- ===== src/Http/Connection/Lines.antt =====
-- Lines as they are read from a connection, however the bytes arrive in pieces.
use java_io_tserver.Common.{
  ℕ, zero, suc, ◌<◌, ◌≡◌, refl, ap, true, false, List, [], ◌∷◌, ◌++◌, append_assoc, Option, some,
  ◌==◌, All, length, length-append, arith,
}
use java_io_tserver.Common.Text.{Bytes, lacks}
use java_io_tserver.Http.Connection.{
  End, Connection, got, recv_from, resv_line, bytes_left, read_line,
}

-- All that is still to arrive.
unfoldable pub joined : List Bytes → Bytes
joined [] = []
joined (p ∷ ps) = p ++ joined ps

-- `recv` gives at least one byte where the connection goes on.
abbrev pub IsPiece : Bytes → Type 0
IsPiece p = 0 < length p

length-joined : (ps : List Bytes) → length (joined ps) ≡ bytes_left ps
unfolding joined bytes_left
length-joined [] = refl
length-joined (p ∷ ps) = omega (arith, length-append p (joined ps), length-joined ps)

-- One byte is taken off the front.
record IsNext (b : ℕ) (bs : Bytes) (ps : List Bytes) (e : End) : Type 0 where
  pieces : List Bytes
  byte : (recv_from 1 e ps).0 ≡ got (b ∷ [])
  kept : (recv_from 1 e ps).1 ≡ record { pieces = pieces; ending = e }
  left : joined pieces ≡ bs
  shape : All IsPiece pieces

first_byte :
    (b : ℕ) (bs : Bytes) (ps : List Bytes) (e : End)
    → All IsPiece ps
    → joined ps ≡ b ∷ bs
    → IsNext b bs ps e
unfolding joined recv_from
first_byte b bs [] e h j = absurd (ground (arith, j))
first_byte b bs ([] ∷ ps) e h j = absurd (omega (arith, h.0))
first_byte b bs ((x ∷ []) ∷ ps) e h j = record {
  pieces = ps;
  byte = ground (arith, j);
  kept = refl;
  left = ground (arith, j);
  shape = h.1;
}
first_byte b bs ((x ∷ y ∷ xs) ∷ ps) e h j = record {
  pieces = (y ∷ xs) ∷ ps;
  byte = ground (arith, j);
  kept = ground arith;
  left = ground (arith, j);
  shape = (omega arith, h.1);
}

-- What a line leaves.
pub record IsLine (line rest acc : Bytes) (e : End) (r : Option (Bytes × Connection)) : Type 0 where
  pub pieces : List Bytes
  pub result : r ≡ some (acc ++ (line ++ b'\n' ∷ []), record { pieces = pieces; ending = e })
  pub left : joined pieces ≡ rest
  pub shape : All IsPiece pieces

first_lacks : (c x : ℕ) (xs : Bytes) → lacks c (x ∷ xs) ≡ true → (x == c) ≡ false
unfolding lacks
first_lacks c x xs h = ground (arith, h)

rest_lacks : (c x : ℕ) (xs : Bytes) → lacks c (x ∷ xs) ≡ true → lacks c xs ≡ true
unfolding lacks
rest_lacks c x xs h = ground (arith, h)

resv_line_last :
    (fuel : ℕ) (rest acc : Bytes) (ps : List Bytes) (e : End)
    → IsNext b'\n' rest ps e
    → IsLine [] rest acc e (resv_line (suc fuel) (record { pieces = ps; ending = e }) acc)
unfolding resv_line
resv_line_last fuel rest acc ps e n = record {
  pieces = n.pieces;
  result = rw (n.byte, resv_line, n.kept) refl;
  left = n.left;
  shape = n.shape;
}

resv_line_more :
    (fuel x : ℕ) (bs acc : Bytes) (ps : List Bytes) (e : End) (n : IsNext x bs ps e)
    → (x == b'\n') ≡ false
    → resv_line (suc fuel) (record { pieces = ps; ending = e }) acc
      ≡ resv_line fuel (record { pieces = n.pieces; ending = e }) (acc ++ x ∷ [])
unfolding resv_line
resv_line_more fuel x bs acc ps e n h = rw (n.byte, resv_line, h, n.kept) refl

-- A line is read up to its line feed and no byte further, in whatever pieces it arrives, within as
-- many rounds as it has bytes.
resv_line_lem :
    (line rest acc : Bytes) (fuel : ℕ) (ps : List Bytes) (e : End)
    → All IsPiece ps
    → lacks b'\n' line ≡ true
    → joined ps ≡ line ++ b'\n' ∷ rest
    → length line < fuel
    → IsLine line rest acc e (resv_line fuel (record { pieces = ps; ending = e }) acc)
resv_line_lem line rest acc zero ps e h l j f = absurd (omega (arith, f))
resv_line_lem [] rest acc (suc fuel) ps e h l j f =
    resv_line_last fuel rest acc ps e (first_byte b'\n' rest ps e h j)
resv_line_lem (x ∷ line) rest acc (suc fuel) ps e h l j f =
    let n = first_byte x (line ++ b'\n' ∷ rest) ps e h j in
    let more = resv_line_more fuel x _ acc ps e n (first_lacks b'\n' x line l) in
    let i =
      resv_line_lem line rest (acc ++ x ∷ []) fuel n.pieces e n.shape (rest_lacks b'\n' x line l)
        n.left (omega arith) in
    record {
      pieces = i.pieces;
      result = rw (more, i.result, append_assoc) refl;
      left = i.left;
      shape = i.shape;
    }

-- `_resv_line` as read_http_headers calls it.
pub read_line_lem :
    (line rest : Bytes) (ps : List Bytes) (e : End)
    → All IsPiece ps
    → lacks b'\n' line ≡ true
    → joined ps ≡ line ++ b'\n' ∷ rest
    → IsLine line rest [] e (read_line (record { pieces = ps; ending = e }))
read_line_lem line rest ps e h l j =
    resv_line_lem line rest [] _ ps e h l j
      (omega (arith, length-joined ps, ap length j, length-append line (b'\n' ∷ rest)))
