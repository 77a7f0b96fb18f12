-- ===== src/Relay/Decode/Fuel.antt =====
-- server_relays.cpp, decod_request: the loops have ended after as many rounds as there are bytes.
use java_io_tserver.Common.{
  ℕ, zero, suc, ◌+◌, ◌-◌, ◌≡◌, ◌≤◌, refl, sym, ap, ◌∙◌, true, false, ◌||◌, List, [], ◌∷◌, ◌++◌,
  length, get_or, drop, leb, ltb, ◌==◌, if◌then◌else◌, arith,
}
use java_io_tserver.Common.Text.{Bytes}
use java_io_tserver.Relay.Request.{Query}
use java_io_tserver.Relay.Decode.{Lines, line_end, read_lines, until, read_params, convert_string}

no_bytes : (f n : ℕ) (memory : Bytes) (qs : List Query) → n ≤ 0 → read_params f n memory qs ≡ qs
unfolding read_params
no_bytes zero n memory qs h = refl
no_bytes (suc f) n memory qs h = let done : (n == 0) ≡ true = ground (arith, h) in rw done refl

-- As many rounds as there are bytes are enough for the parameters.
read_params_fuel :
    (f g n : ℕ) (memory : Bytes) (qs : List Query)
    → n ≤ f
    → n ≤ g
    → read_params f n memory qs ≡ read_params g n memory qs
unfolding read_params
read_params_fuel zero g n memory qs p q = sym (no_bytes g n memory qs p)
read_params_fuel (suc f) zero n memory qs p q = no_bytes (suc f) n memory qs q
read_params_fuel (suc f) (suc g) n memory qs p q =
    let k1 = until b'=' n memory in
    let m1 = drop (k1 + 1) memory in
    let n1 = n - (k1 + 1) in
    let k2 = until b'&' n1 m1 in
    let past : ℕ = if get_or m1 k2 0 == 0 then 0 else 1 in
    let pair : Query = record { param = convert_string memory k1; znach = convert_string m1 k2 } in
    ap (λ rest. if n == 0 || (get_or memory 0 0 == b'\r' || length qs == 256) then qs else rest)
      (read_params_fuel f g (n1 - (k2 + past)) (drop (k2 + past) m1) (qs ++ pair ∷ [])
        (omega (arith, p)) (omega (arith, q)))

no_lines : (f len j : ℕ) (s : Lines) → len ≤ j → read_lines f len j s ≡ s
unfolding read_lines
no_lines zero len j s h = refl
no_lines (suc f) len j s h = let past : ltb j len ≡ false = ground (arith, h) in rw past refl

-- As many rounds as there are bytes are enough for the lines.
read_lines_fuel :
    (f g len j : ℕ) (s : Lines)
    → len ≤ j + f
    → len ≤ j + g
    → read_lines f len j s ≡ read_lines g len j s
unfolding read_lines
read_lines_fuel zero g len j s p q = sym (no_lines g len j s (omega (arith, p)))
read_lines_fuel (suc f) zero len j s p q = no_lines (suc f) len j s (omega (arith, q))
read_lines_fuel (suc f) (suc g) len j s p q =
    let s1 = line_end j s in
    let s2 : Lines = record s1 { i = j + 2 } in
    let shape : Lines → Lines → Lines = λ on further.
      if ltb j len
      then (if get_or s.buff j 0 == b'\r' then (if leb (j - s1.i) 2 then s2 else further) else on)
      else s in
    let on = read_lines_fuel f g len (j + 1) s (omega (arith, p)) (omega (arith, q)) in
    let further = read_lines_fuel f g len (j + 3) s2 (omega (arith, p)) (omega (arith, q)) in
    ap (λ x. shape x (read_lines f len (j + 3) s2)) on
    ∙ ap (shape (read_lines g len (j + 1) s)) further
