-- ===== src/Http/Request/Lookup.antt =====
-- What the lists of parameters hold after they are changed.
use java_io_tserver.Common.{
  ℕ, zero, suc, ◌≡◌, ◌≢◌, ◌⊎◌, refl, ap, arith, Bool, true, false, ◌||◌, ◌&&◌, not, List, [], ◌∷◌,
  ◌++◌, ◌==◌, if◌then◌else◌, map, take, drop, All, Bool-cases, inl, inr,
}
use java_io_tserver.Common.Text.{Bytes, equal}
use java_io_tserver.Http.Request.{
  Param, Request, query, headers, c_str, my_strcmp, any_param, first_value, erase_first, param,
  znach, delete_param, push_query, push_header, lower_char, spaces, to_line_end, header_value,
}

-- `my_strcmp` compares the C strings in its two texts.
pub my_strcmp_lem : (a b : Bytes) → my_strcmp a b ≡ equal (c_str a) (c_str b)
unfolding my_strcmp c_str equal
my_strcmp_lem [] [] = refl
my_strcmp_lem [] (y ∷ ys) = ground arith
my_strcmp_lem (x ∷ xs) [] = ground arith
my_strcmp_lem (x ∷ xs) (y ∷ ys) = ground (arith, my_strcmp_lem xs ys)

first_value-append :
    (pr : Bytes) (qs : List Param) (q : Param)
    → first_value pr (qs ++ q ∷ []) ≡ (
        if any_param pr qs
        then first_value pr qs
        else if my_strcmp q.param pr
        then c_str q.znach
        else [])
unfolding first_value any_param
first_value-append pr [] q = refl
first_value-append pr (p ∷ qs) q = ground (arith, first_value-append pr qs q)

any_param-append :
    (pr : Bytes) (qs : List Param) (q : Param)
    → any_param pr (qs ++ q ∷ []) ≡ (any_param pr qs || my_strcmp q.param pr)
unfolding any_param
any_param-append pr [] q = ground arith
any_param-append pr (p ∷ qs) q = ground (arith, any_param-append pr qs q)

first_value_absent :
    (pr : Bytes) (qs : List Param) → any_param pr qs ≡ false → first_value pr qs ≡ []
unfolding first_value any_param
first_value_absent pr [] h = refl
first_value_absent pr (p ∷ qs) h = ground (arith, first_value_absent pr qs)

-- A pushed query parameter is found afterwards by its name, unless an earlier one of that name
-- stands before it; every other name finds what it found before, and the headers stay.
znach-push_query :
    (p z pr : Bytes) (rq : Request)
    → (znach pr query (push_query p z rq) ≡ (
        if param pr query rq
        then znach pr query rq
        else if my_strcmp p pr
        then c_str z
        else znach pr query rq))
      × (param pr query (push_query p z rq) ≡ (param pr query rq || my_strcmp p pr))
      × ((push_query p z rq).headers ≡ rq.headers)
unfolding znach param push_query
znach-push_query p z pr rq = (
  ground (
    arith,
    first_value-append pr rq.query (record { param = p; znach = z }),
    first_value_absent pr rq.query,
  ),
  any_param-append pr rq.query (record { param = p; znach = z }),
  refl,
)

-- No line end.
abbrev pub is_header_char : ℕ → Bool
is_header_char c = not (c == b'\r') && not (c == b'\n')

header_chars : (t : Bytes) → All (λ c. is_header_char c ≡ true) (take (to_line_end t) t)
unfolding to_line_end
header_chars [] = tt
header_chars (c ∷ cs) = elim (Bool-cases (is_header_char c)) [
  | inl inside ↦ rw inside (inside, header_chars cs)
  | inr at_end ↦ rw at_end tt
]

-- The text does not begin with a space.
abbrev pub no_space : Bytes → Bool
no_space [] = true
no_space (c ∷ cs) = not (c == b' ')

no_space_rest : (t : Bytes) → no_space (drop (spaces t) t) ≡ true
unfolding spaces
no_space_rest [] = refl
no_space_rest (c ∷ cs) = elim (Bool-cases (c == b' ')) [
  | inl space ↦ rw space (no_space_rest cs)
  | inr other ↦ rw other (rw other)
]

no_space-take : (n : ℕ) (t : Bytes) → no_space t ≡ true → no_space (take n t) ≡ true
no_space-take zero t h = refl
no_space-take (suc n) [] h = refl
no_space-take (suc n) (c ∷ cs) h = h

-- A header pushed with a text for its value is found afterwards by its name in lower case, unless
-- an earlier one of that name stands before it. The value kept has no space in front and no line
-- end inside, and every other name finds what it found before.
znach-push_header :
    (p z pr : Bytes) (rq : Request)
    → z ≢ []
    → (znach pr headers (push_header p z rq) ≡ (
        if param pr headers rq
        then znach pr headers rq
        else if my_strcmp (map lower_char p) pr
        then c_str (header_value z)
        else znach pr headers rq))
      × All (λ c. is_header_char c ≡ true) (header_value z)
      × (no_space (header_value z) ≡ true)
      × ((push_header p z rq).query ≡ rq.query)
unfolding znach param push_header header_value
znach-push_header p [] pr rq ne = absurd (ne refl)
znach-push_header p (c ∷ cs) pr rq ne =
    let z = c ∷ cs in
    let pushed : Param = record { param = map lower_char p; znach = header_value z } in
    (
      ground (arith, first_value-append pr rq.headers pushed, first_value_absent pr rq.headers),
      header_chars (drop (spaces z) z),
      no_space-take (to_line_end (drop (spaces z) z)) (drop (spaces z) z) (no_space_rest z),
      refl,
    )

-- What `deleteParam` leaves of a list: all of it where the name is not there; else all but the
-- first entry of that name.
pub record Erased (pr : Bytes) (qs left : List Param) : Type 0 where
  pub before : List Param
  pub entry : Param
  pub behind : List Param
  pub splits : qs ≡ before ++ entry ∷ behind
  pub none_before : any_param pr before ≡ false
  pub matches : my_strcmp entry.param pr ≡ true
  pub left_is : left ≡ before ++ behind

erase_first_lem :
    (pr : Bytes) (qs : List Param)
    → ((any_param pr qs ≡ false) × (erase_first pr qs ≡ qs)) ⊎ Erased pr qs (erase_first pr qs)
unfolding erase_first any_param
erase_first_lem pr [] = inl (refl, refl)
erase_first_lem pr (q ∷ qs) =
    erase_first_step (erase_first_lem pr qs) (Bool-cases (my_strcmp q.param pr))
  where
    erase_first_step :
        ((any_param pr qs ≡ false) × (erase_first pr qs ≡ qs)) ⊎ Erased pr qs (erase_first pr qs)
        → (my_strcmp q.param pr ≡ true) ⊎ (my_strcmp q.param pr ≡ false)
        → ((any_param pr (q ∷ qs) ≡ false) × (erase_first pr (q ∷ qs) ≡ q ∷ qs))
          ⊎ Erased pr (q ∷ qs) (erase_first pr (q ∷ qs))
    erase_first_step later (inl hit) = inr (record {
      before = [];
      entry = q;
      behind = qs;
      splits = refl;
      none_before = refl;
      matches = hit;
      left_is = rw hit;
    })
    erase_first_step (inl (absent, whole)) (inr miss) =
        inl (rw miss absent, rw miss (ap (◌∷◌ q) whole))
    erase_first_step (inr e) (inr miss) = inr (record {
      before = q ∷ e.before;
      entry = e.entry;
      behind = e.behind;
      splits = ap (◌∷◌ q) e.splits;
      none_before = rw miss e.none_before;
      matches = e.matches;
      left_is = rw miss (ap (◌∷◌ q) e.left_is);
    })

-- `deleteParam` on the query: a name that is not there changes nothing; else exactly the first
-- entry of that name is gone, and the headers stay.
delete_param_lem :
    (pr : Bytes) (rq : Request)
    → (((param pr query rq ≡ false) × (delete_param pr query rq ≡ rq))
        ⊎ Erased pr rq.query (delete_param pr query rq).query)
      × ((delete_param pr query rq).headers ≡ rq.headers)
unfolding delete_param param
delete_param_lem pr rq = (
  elim (erase_first_lem pr rq.query) [
    | inl (absent, whole) ↦ inl (absent, ap (λ (qs : List Param). record rq { query = qs }) whole)
    | inr e ↦ inr e
  ],
  refl,
)
