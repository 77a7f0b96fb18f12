-- ===== src/Http/Connection/Body.antt =====
-- A body as it is read from a connection, however the bytes arrive.
use java_io_tserver.Common.{
  ℕ, zero, suc, ◌-◌, ◌<◌, ◌≡◌, ◌∙◌, refl, sym, ap, inl, inr, Bool, true, List, [], ◌∷◌, ◌++◌,
  append-nil, append_assoc, Option, some, leb, Bool-cases, All, length, length-append, take, drop,
  arith,
}
use java_io_tserver.Common.Text.{Bytes}
use java_io_tserver.Http.Connection.{End, Connection, got, recv_from, resv}
use java_io_tserver.Http.Connection.Lines.{joined, IsPiece}

-- What one call of `recv` takes off the front.
record IsTaken (n : ℕ) (bs : Bytes) (ps : List Bytes) (e : End) : Type 0 where
  taken : Bytes
  remaining : Bytes
  pieces : List Bytes
  byte : (recv_from n e ps).0 ≡ got taken
  kept : (recv_from n e ps).1 ≡ record { pieces = pieces; ending = e }
  cut : bs ≡ taken ++ remaining
  left : joined pieces ≡ remaining
  some_byte : 0 < length taken
  few : length taken < suc n
  shape : All IsPiece pieces

take-drop : (n : ℕ) (xs : Bytes) → take n xs ++ drop n xs ≡ xs
take-drop zero xs = refl
take-drop (suc n) [] = refl
take-drop (suc n) (x ∷ xs) = ap (λ t. x ∷ t) (take-drop n xs)

length-take : (n : ℕ) (xs : Bytes) → n < length xs → length (take n xs) ≡ n
length-take zero xs h = refl
length-take (suc n) [] h = absurd (omega (arith, h))
length-take (suc n) (x ∷ xs) h = omega (arith, length-take n xs (omega (arith, h)))

length-drop : (n : ℕ) (xs : Bytes) → n < length xs → 0 < length (drop n xs)
length-drop zero xs h = h
length-drop (suc n) [] h = absurd (omega (arith, h))
length-drop (suc n) (x ∷ xs) h = length-drop n xs (omega (arith, h))

front_piece :
    (n : ℕ) (bs : Bytes) (p : Bytes) (ps : List Bytes) (e : End)
    → 0 < n
    → All IsPiece (p ∷ ps)
    → joined (p ∷ ps) ≡ bs
    → IsTaken n bs (p ∷ ps) e
unfolding joined recv_from
front_piece n bs p ps e pos_n h j = elim (Bool-cases (leb (length p) n)) [
  | inl le ↦ record {
    taken = p;
    remaining = joined ps;
    pieces = ps;
    byte = rw le refl;
    kept = rw le refl;
    cut = sym j;
    left = refl;
    some_byte = h.0;
    few = ground (arith, le);
    shape = h.1;
  }
  | inr gt ↦
      let lt : n < length p = ground (arith, gt) in
      record {
        taken = take n p;
        remaining = drop n p ++ joined ps;
        pieces = drop n p ∷ ps;
        byte = rw gt refl;
        kept = rw gt refl;
        cut =
            sym j
            ∙ (ap (λ t. t ++ joined ps) (sym (take-drop n p))
                ∙ append_assoc (take n p) (drop n p) (joined ps));
        left = refl;
        some_byte = omega (arith, length-take n p lt);
        few = omega (arith, length-take n p lt);
        shape = (length-drop n p lt, h.1);
      }
]

-- A text that stands in front of two ends is cut off both.
split_front :
    (t m b r : Bytes)
    → b ++ r ≡ t ++ m
    → length t < suc (length b)
    → (b' : Bytes) × (b ≡ t ++ b') × (m ≡ b' ++ r)
split_front [] m b r e l = (b, refl, sym e)
split_front (x ∷ t) m [] r e l = absurd (omega (arith, l))
split_front (x ∷ t) m (y ∷ b) r e l =
    let (b', e1, e2) = split_front t m b r (ground (arith, e)) (omega (arith, l)) in
    let same : y ≡ x = ground (arith, e) in (b', rw (same, e1) refl, e2)

-- What a body leaves.
pub record IsBody (body rest acc : Bytes) (e : End) (r : Option (Bool × Bytes × Connection))
    : Type 0 where
  pub pieces : List Bytes
  pub result : r ≡ some (true, acc ++ body, record { pieces = pieces; ending = e })
  pub left : joined pieces ≡ rest
  pub shape : All IsPiece pieces

resv_step :
    (fuel want : ℕ) (bs acc : Bytes) (ps : List Bytes) (e : End) (t : IsTaken (suc want) bs ps e)
    → resv (suc fuel) (suc want) (record { pieces = ps; ending = e }) acc
      ≡ resv fuel
          (suc want - length t.taken)
          (record { pieces = t.pieces; ending = e })
          (acc ++ t.taken)
unfolding resv
resv_step fuel want bs acc ps e t = rw (t.byte, resv, t.kept) refl

resv_done :
    (fuel : ℕ) (rest acc : Bytes) (ps : List Bytes) (e : End)
    → All IsPiece ps
    → joined ps ≡ rest
    → IsBody [] rest acc e (resv (suc fuel) 0 (record { pieces = ps; ending = e }) acc)
unfolding resv
resv_done fuel rest acc ps e h j = record {
  pieces = ps;
  result = rw append-nil refl;
  left = j;
  shape = h;
}

nothing_sent : (b : ℕ) (bs : Bytes) → (joined [] ≡ b ∷ bs) → ⊥
unfolding joined
nothing_sent b bs j = ground (arith, j)

-- `_resv` gives exactly the bytes it is asked for and takes no byte further, in whatever pieces they
-- arrive, within one round more than it is asked for bytes, where so many bytes arrive.
resv_lem :
    (fuel : ℕ) (body rest acc : Bytes) (ps : List Bytes) (e : End)
    → All IsPiece ps
    → joined ps ≡ body ++ rest
    → length body < fuel
    → IsBody body rest acc e (resv fuel (length body) (record { pieces = ps; ending = e }) acc)
resv_lem zero body rest acc ps e h j f = absurd (omega (arith, f))
resv_lem (suc fuel) [] rest acc ps e h j f = resv_done fuel rest acc ps e h j
resv_lem (suc fuel) (b ∷ body) rest acc [] e h j f = absurd (nothing_sent b _ j)
resv_lem (suc fuel) (b ∷ body) rest acc (p ∷ ps) e h j f =
    let t = front_piece (suc (length body)) _ p ps e (omega arith) h j in
    let (more, e1, e2) =
      split_front t.taken t.remaining (b ∷ body) rest t.cut (omega (arith, t.few)) in
    let long = ap length e1 ∙ length-append t.taken more in
    let i =
      resv_lem fuel more rest (acc ++ t.taken) t.pieces e t.shape (t.left ∙ e2)
        (omega (arith, long, t.some_byte, f)) in
    let count : suc (length body) - length t.taken ≡ length more = omega (arith, long) in
    record {
      pieces = i.pieces;
      result =
          resv_step fuel (length body) _ acc (p ∷ ps) e t
          ∙ (ap (λ w. resv fuel w (record { pieces = t.pieces; ending = e }) (acc ++ t.taken)) count
              ∙ (i.result
                  ∙ ap (λ z. some (true, z, record { pieces = i.pieces; ending = e }))
                      (append_assoc acc t.taken more ∙ ap (λ z. acc ++ z) (sym e1))));
      left = i.left;
      shape = i.shape;
    }
