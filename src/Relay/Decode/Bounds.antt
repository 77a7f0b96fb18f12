-- ===== src/Relay/Decode/Bounds.antt =====
-- server_relays.cpp, decod_request: the array of the parameters is not overrun.
use java_io_tserver.Common.{
  ℕ, zero, suc, ◌+◌, ◌-◌, ◌≡◌, ◌≤◌, refl, ◌∙◌, sym, Bool, true, false, ◌&&◌, ◌||◌, List, [], ◌∷◌,
  ◌++◌, Option, if_both, option_both, test_both, length, length-append, get_or, set, drop, leb, ltb,
  ◌==◌, if◌then◌else◌, Holds, arith,
}
use mathlib.Core.Path.{subst}
use java_io_tserver.Common.Int.{pos, ◌==ℤ◌}
use java_io_tserver.Common.Text.{Bytes, codes}
use java_io_tserver.Http.Request.{c_str}
use java_io_tserver.Relay.Request.{Query, Request, new_request, is_text, post_code}
use java_io_tserver.Relay.Decode.{
  Lines, read_path, read_space, request_line, header_line, line_end, read_lines, until, read_params,
  read_rest, read_content, decod_request, convert_string,
}

with_room :
    (qs : List Query) (q : Query) (a b : Bool)
    → length qs ≤ 256
    → (a || (b || length qs == 256)) ≡ false
    → length (qs ++ q ∷ []) ≤ 256
with_room qs q true b h e = absurd (ground (arith, e))
with_room qs q false true h e = absurd (ground (arith, e))
with_room qs q false false h e =
    let other : (length qs == 256) ≡ false = e in ground (arith, length-append qs (q ∷ []), other)

read_params-length :
    (fuel n : ℕ) (memory : Bytes) (qs : List Query)
    → length qs ≤ 256
    → length (read_params fuel n memory qs) ≤ 256
unfolding read_params
read_params-length zero n memory qs h = h
read_params-length (suc fuel) n memory qs h =
    let k1 = until b'=' n memory in
    let m1 = drop (k1 + 1) memory in
    let n1 = n - (k1 + 1) in
    let k2 = until b'&' n1 m1 in
    let past : ℕ = if get_or m1 k2 0 == 0 then 0 else 1 in
    let q : Query = record { param = convert_string memory k1; znach = convert_string m1 k2 } in
    let rest = read_params fuel (n1 - (k2 + past)) (drop (k2 + past) m1) (qs ++ q ∷ []) in
    test_both (λ (x : List Query). length x ≤ 256)
      (n == 0 || (get_or memory 0 0 == b'\r' || length qs == 256)) qs rest (λ stops. h)
      (λ goes.
        read_params-length fuel (n1 - (k2 + past)) (drop (k2 + past) m1) (qs ++ q ∷ [])
          (with_room qs q (n == 0) (get_or memory 0 0 == b'\r') h goes))

abbrev SameQuery : Lines → Lines → Type 0
SameQuery s t = t.rq.query ≡ s.rq.query

read_space-SameQuery : (ii : ℕ) (s : Lines) → SameQuery s (read_space ii s)
unfolding read_space read_path
read_space-SameQuery ii s =
    if_both (SameQuery s) (s.i == 0) _ _ refl (if_both (SameQuery s) (s.fl == 1) _ _ refl refl)

request_line-SameQuery : (n ii : ℕ) (s : Lines) → SameQuery s (request_line n ii s)
unfolding request_line
request_line-SameQuery zero ii s = refl
request_line-SameQuery (suc n) ii s =
    request_line-SameQuery n (ii + 1) (if get_or s.buff ii 0 == b' ' then read_space ii s else s)
    ∙ if_both (SameQuery s) (get_or s.buff ii 0 == b' ') (read_space ii s) s
        (read_space-SameQuery ii s) refl

line_end-SameQuery : (j : ℕ) (s : Lines) → SameQuery s (line_end j s)
unfolding line_end header_line
line_end-SameQuery j s =
    if_both (SameQuery s) (s.i == 0) _ _
      (request_line-SameQuery j 0 (record s { buff = set s.buff j 0 })) refl

read_lines-SameQuery : (fuel len j : ℕ) (s : Lines) → SameQuery s (read_lines fuel len j s)
unfolding read_lines
read_lines-SameQuery zero len j s = refl
read_lines-SameQuery (suc fuel) len j s =
    let here = line_end-SameQuery j s in
    let s2 : Lines = record (line_end j s) { i = j + 2 } in
    let after = if leb (j - (line_end j s).i) 2 then s2 else read_lines fuel len (j + 3) s2 in
    let on = read_lines fuel len (j + 1) s in
    if_both (SameQuery s) (ltb j len) (if get_or s.buff j 0 == b'\r' then after else on) s
      (if_both (SameQuery s) (get_or s.buff j 0 == b'\r') after on
        (if_both (SameQuery s) (leb (j - (line_end j s).i) 2) s2 (read_lines fuel len (j + 3) s2)
          here (read_lines-SameQuery fuel len (j + 3) s2 ∙ here))
        (read_lines-SameQuery fuel len (j + 1) s))
      refl

-- A request has no more parameters than the array has room for, whatever bytes arrive.
pub decod_request-length :
    (first more : Bytes)
    → Holds (λ (rq : Request). length rq.query ≤ 256) (decod_request first more)
unfolding decod_request read_content Holds
decod_request-length first more =
    let P : Option Request → Type 0 = Holds (λ (rq : Request). length rq.query ≤ 256) in
    let len = length (c_str first) in
    let start : Lines = record {
      buff = first;
      i = 0;
      bbb = 0;
      fl = 0;
      content_len = pos 0;
      rq = new_request;
    } in
    let s = read_lines len len 0 start in
    let none_yet : length s.rq.query ≤ 256 =
      subst (λ (qs : List Query). length qs ≤ 256) (sym (read_lines-SameQuery len len 0 start))
        (omega arith) in
    if_both P (len == 0) _ _ tt (
      option_both P (read_rest len more s) _ _ (λ e. tt)
        (λ r e.
          if_both (λ (rq : Request). length rq.query ≤ 256)
            (is_text s.rq.path (codes "/log_file") && s.rq.method ==ℤ post_code) _ _ none_yet
            (read_params-length _ _ (drop r.1 r.0) s.rq.query none_yet)))
