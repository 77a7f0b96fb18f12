-- ===== src/Http/Query/RoundTrip.antt =====
-- `parse_query_string` ends by itself, and reads back an encoded list of pairs.
use java_io_tserver.Common.{
  ℕ, zero, suc, ◌+◌, ◌≤◌, ◌<◌, ◌≡◌, ◌≢◌, ◌⊎◌, refl, ap, ◌∙◌, arith, Bool, true, false, ◌&&◌, not,
  List, [], ◌∷◌, ◌++◌, none, some, ◌==◌, length, length-append, All, append-nil, append_assoc,
  Bool-cases, inl, inr, Option-cases,
}
use java_io_tserver.Common.Text.{Bytes, break_at, break_at-append, break_at_absent, lacks}
use java_io_tserver.Http.Escape.{convert_string}
use java_io_tserver.Http.Escape.Decode.{percent_encode, convert_string-percent_encode}
use java_io_tserver.Http.Request.{Param, Request, push_query}
use java_io_tserver.Http.Query.{push_pair, parse_pairs, parse_query_string}

break_at_shorter :
    (c : ℕ) (t a b : Bytes) → break_at c t ≡ some (a, b) → length a + length b < length t
unfolding break_at
break_at_shorter c [] a b h = cc
break_at_shorter c (x ∷ xs) a b h = elim (Option-cases (break_at c xs)) [
  | inl absent ↦ ground arith
  | inr ((a', b'), found) ↦ ground (arith, break_at_shorter c xs a' b' found)
]

-- With as many rounds as bytes the loop has come to its end: more rounds change nothing.
parse_pairs_fuel :
    (f g : ℕ) (t : Bytes) (rq : Request)
    → length t ≤ f
    → length t ≤ g
    → parse_pairs f t rq ≡ parse_pairs g t rq
unfolding parse_pairs
parse_pairs_fuel zero zero t rq p q = refl
parse_pairs_fuel zero (suc g) [] rq p q = refl
parse_pairs_fuel (suc f) zero [] rq p q = refl
parse_pairs_fuel (suc f) (suc g) [] rq p q = refl
parse_pairs_fuel zero (suc g) (c ∷ cs) rq p q = absurd (omega arith)
parse_pairs_fuel (suc f) zero (c ∷ cs) rq p q = absurd (omega arith)
parse_pairs_fuel (suc f) (suc g) (c ∷ cs) rq p q = elim (Option-cases (break_at b'=' (c ∷ cs))) [
  | inl no_key ↦ rw (no_key, parse_pairs)
  | inr ((key, rest), found) ↦ elim (Option-cases (break_at b'&' rest)) [
    | inl last ↦ rw (found, parse_pairs) (rw (last, parse_pairs))
    | inr ((val, more), next) ↦
        let l = break_at_shorter b'=' (c ∷ cs) key rest found in
        let m = break_at_shorter b'&' rest val more next in
        rw (found, parse_pairs)
          (rw (next, parse_pairs)
            (parse_pairs_fuel f g more (push_pair key val rq) (omega arith) (omega arith)))
  ]
]

-- A pair, both sides percent encoded. `keep` chooses the bytes that stand for themselves; those
-- that mean something to the parser never do.
abbrev pub query_keep : (ℕ → Bool) → ℕ → Bool
query_keep keep c = keep c && not (c == b'=') && not (c == b'&')

abbrev pub print_pair : (ℕ → Bool) → Param → Bytes
print_pair keep p =
    percent_encode (query_keep keep) p.param ++ b'=' ∷ percent_encode (query_keep keep) p.znach

abbrev pub print_query : (ℕ → Bool) → List Param → Bytes
print_query keep [] = []
print_query keep (p ∷ []) = print_pair keep p
print_query keep (p ∷ q ∷ ps) = print_pair keep p ++ b'&' ∷ print_query keep (q ∷ ps)

-- A pair of bytes with a key.
pub record IsPair (p : Param) : Type 0 where
  pub has_key : p.param ≢ []
  pub key_bytes : All (λ c. c < 256) p.param
  pub value_bytes : All (λ c. c < 256) p.znach

lacks-encode :
    (keep : ℕ → Bool) (c : ℕ) (t : Bytes)
    → (c ≡ b'=') ⊎ (c ≡ b'&')
    → lacks c (percent_encode (query_keep keep) t) ≡ true
unfolding lacks
lacks-encode keep c [] h = refl
lacks-encode keep c (x ∷ xs) h =
    elim (Bool-cases (query_keep keep x && not (x == b'%') && not (x == b'+'))) [
      | inl kept ↦ rw kept (ground (arith, lacks-encode keep c xs h))
      | inr coded ↦ rw coded (ground (arith, lacks-encode keep c xs h))
    ]

convert_encoded :
    (keep : ℕ → Bool) (t : Bytes)
    → All (λ c. c < 256) t
    → convert_string (percent_encode keep t) ≡ t
unfolding convert_string
convert_encoded keep t h =
    let whole = convert_string-percent_encode keep t [] h in rw (append-nil, append-nil) at whole

encode_some : (keep : ℕ → Bool) (t : Bytes) → t ≢ [] → (length (percent_encode keep t) == 0) ≡ false
encode_some keep [] ne = absurd (ne refl)
encode_some keep (c ∷ cs) ne = elim (Bool-cases (keep c && not (c == b'%') && not (c == b'+'))) [
  | inl kept ↦ rw kept (ground arith)
  | inr coded ↦ rw coded (ground arith)
]

pair_lem :
    (keep : ℕ → Bool) (p : Param) (rq : Request)
    → IsPair p
    → push_pair (percent_encode keep p.param) (percent_encode keep p.znach) rq
      ≡ record rq { query = rq.query ++ p ∷ [] }
unfolding push_pair push_query
pair_lem keep p rq w =
    rw (encode_some keep p.param w.has_key)
      (rw (convert_encoded keep p.param w.key_bytes, convert_encoded keep p.znach w.value_bytes))

parse_next :
    (fuel : ℕ) (t key rest val more : Bytes) (rq : Request)
    → break_at b'=' t ≡ some (key, rest)
    → break_at b'&' rest ≡ some (val, more)
    → parse_pairs (suc fuel) t rq ≡ parse_pairs fuel more (push_pair key val rq)
unfolding parse_pairs
parse_next fuel [] key rest val more rq h k = unfold break_at in cc
parse_next fuel (c ∷ cs) key rest val more rq h k = rw (h, parse_pairs) (rw (k, parse_pairs))

parse_last :
    (fuel : ℕ) (t key rest : Bytes) (rq : Request)
    → break_at b'=' t ≡ some (key, rest)
    → break_at b'&' rest ≡ none
    → parse_pairs (suc fuel) t rq ≡ push_pair key rest rq
unfolding parse_pairs
parse_last fuel [] key rest rq h k = unfold break_at in cc
parse_last fuel (c ∷ cs) key rest rq h k = rw (h, parse_pairs) (rw (k, parse_pairs))

parse_pairs_nil : (fuel : ℕ) (rq : Request) → parse_pairs fuel [] rq ≡ rq
unfolding parse_pairs
parse_pairs_nil zero rq = refl
parse_pairs_nil (suc fuel) rq = refl

-- The loop at printed pairs, with a round for each.
parse_pairs_print :
    (keep : ℕ → Bool) (fuel : ℕ) (ps : List Param) (rq : Request)
    → All IsPair ps
    → length ps ≤ fuel
    → parse_pairs fuel (print_query keep ps) rq ≡ record rq { query = rq.query ++ ps }
parse_pairs_print keep fuel [] rq w h = rw append-nil (parse_pairs_nil fuel rq)
parse_pairs_print keep zero (p ∷ ps) rq w h = absurd (omega arith)
parse_pairs_print keep (suc fuel) (p ∷ []) rq w h =
    let k = percent_encode (query_keep keep) p.param in
    let v = percent_encode (query_keep keep) p.znach in
    parse_last fuel (k ++ b'=' ∷ v) k v rq
      (break_at-append b'=' k v (lacks-encode keep b'=' p.param (inl refl)))
      (break_at_absent b'&' v (lacks-encode keep b'&' p.znach (inr refl)))
    ∙ pair_lem (query_keep keep) p rq w.0
parse_pairs_print keep (suc fuel) (p ∷ q ∷ ps) rq w h =
    let k = percent_encode (query_keep keep) p.param in
    let v = percent_encode (query_keep keep) p.znach in
    let more = print_query keep (q ∷ ps) in
    rw (append_assoc k (b'=' ∷ v) (b'&' ∷ more)) (
      parse_next fuel (k ++ b'=' ∷ (v ++ b'&' ∷ more)) k (v ++ b'&' ∷ more) v more rq
        (break_at-append b'=' k (v ++ b'&' ∷ more) (lacks-encode keep b'=' p.param (inl refl)))
        (break_at-append b'&' v more (lacks-encode keep b'&' p.znach (inr refl)))
      ∙ ap (parse_pairs fuel more) (pair_lem (query_keep keep) p rq w.0)
      ∙ parse_pairs_print keep fuel (q ∷ ps) (record rq { query = rq.query ++ p ∷ [] }) w.1
          (omega arith)
      ∙ rw (append_assoc rq.query (p ∷ []) (q ∷ ps)))

length-print_query : (keep : ℕ → Bool) (ps : List Param) → length ps ≤ length (print_query keep ps)
length-print_query keep [] = omega arith
length-print_query keep (p ∷ []) = omega (
  arith,
  length-append {0} (percent_encode (query_keep keep) p.param)
      (b'=' ∷ percent_encode (query_keep keep) p.znach),
)
length-print_query keep (p ∷ q ∷ ps) = omega (
  arith,
  length-append {0} (print_pair keep p) (b'&' ∷ print_query keep (q ∷ ps)),
  length-print_query keep (q ∷ ps),
)

-- A list of pairs with no empty key, percent encoded with hexadecimal digits in upper case, with `=`
-- in each pair and `&` between them, is read back: the pairs come behind the parameters that the request had, in order.
pub parse_query_string-print_query :
    (keep : ℕ → Bool) (ps : List Param) (rq : Request)
    → All IsPair ps
    → parse_query_string (print_query keep ps) rq ≡ record rq { query = rq.query ++ ps }
unfolding parse_query_string
parse_query_string-print_query keep ps rq w =
    parse_pairs_print keep (length (print_query keep ps)) ps rq w (length-print_query keep ps)
