-- ===== src/Relay/Rele/Table.antt =====
-- The list of relays: each is well formed, and no serial number stands in it twice.
use java_io_tserver.Common.{
  ◌≡◌, refl, sym, ap, ◌∙◌, inl, inr, Bool, true, false, ◌&&◌, not, List, [], ◌∷◌, ◌++◌, map, none,
  Option-cases, ◌||◌, ◌⊎◌, some, All, All-append, if_both, if◌then◌else◌, length, Bool-cases, arith,
}
use mathlib.Core.Path.{subst}
use java_io_tserver.Common.Int.{ℤ, pos, negsuc, ◌==ℤ◌, ==ℤ_iff}
use java_io_tserver.Relay.Rele.{Rele, find_rele, put_rele, age}

-- The two C strings have their 8 characters.
abbrev pub IsRele : Rele → Type 0
IsRele r = (length r.rr_status ≡ 8) × (length r.rr_command ≡ 8)

abbrev pub IsReleAt : ℤ → Rele → Type 0
IsReleAt sn r = IsRele r × (r.sn ≡ sn)

abbrev pub serials : List Rele → List ℤ
serials [] = []
serials (r ∷ rs) = r.sn ∷ serials rs

unfoldable pub contains : ℤ → List ℤ → Bool
contains s [] = false
contains s (x ∷ xs) = let rest = contains s xs in if x ==ℤ s then true else rest

unfoldable pub once : List ℤ → Bool
once [] = true
once (x ∷ xs) = not (contains x xs) && once xs

pub record IsRelays (rs : List Rele) : Type 0 where
  pub each : All IsRele rs
  pub single : once (serials rs) ≡ true

pub found-IsReleAt :
    (sn : ℤ) (rs : List Rele) (r : Rele) → All IsRele rs → find_rele sn rs ≡ some r → IsReleAt sn r
unfolding find_rele
found-IsReleAt sn [] r h = λ e. ground (arith, e)
found-IsReleAt sn (x ∷ rs) r h =
    elim (Bool-cases (x.sn ==ℤ sn)) as (λ z. find_rele sn (x ∷ rs) ≡ some r → IsReleAt sn r) [
      | inl same ↦ rw same (λ e.
          let eq : x ≡ r = ground (arith, e) in
          subst (λ y. IsReleAt sn y) eq (h.0, (==ℤ_iff x.sn sn).0 same))
      | inr other ↦ rw other (λ e. found-IsReleAt sn rs r h.1 e)
    ]

absent-contains :
    (sn : ℤ) (rs : List Rele) → find_rele sn rs ≡ none → contains sn (serials rs) ≡ false
unfolding find_rele contains
absent-contains sn [] e = refl
absent-contains sn (x ∷ rs) e = ground (arith, absent-contains sn rs)

contains-append :
    (s x : ℤ) (xs : List ℤ)
    → contains s xs ≡ false
    → (x ==ℤ s) ≡ false
    → contains s (xs ++ x ∷ []) ≡ false
unfolding contains
contains-append s x [] h e = rw e refl
contains-append s x (y ∷ xs) h e = ground (arith, contains-append s x xs)

==ℤ_comm : (a b : ℤ) → (a ==ℤ b) ≡ (b ==ℤ a)
==ℤ_comm (pos a) (pos b) = ground arith
==ℤ_comm (pos a) (negsuc b) = refl
==ℤ_comm (negsuc a) (pos b) = refl
==ℤ_comm (negsuc a) (negsuc b) = ground arith

once-append :
    (x : ℤ) (xs : List ℤ) → contains x xs ≡ false → once xs ≡ true → once (xs ++ x ∷ []) ≡ true
unfolding once contains
once-append x [] h o = refl
once-append x (y ∷ xs) h o =
    let tails = once-append x xs in
    let kept = contains-append y x xs in
    let swapped = ==ℤ_comm x y in ground (arith, tails, kept, swapped)

serials-append : (rs : List Rele) (x : Rele) → serials (rs ++ x ∷ []) ≡ serials rs ++ x.sn ∷ []
serials-append [] x = refl
serials-append (r ∷ rs) x = ap (λ t. r.sn ∷ t) (serials-append rs x)

pub append-IsRelays :
    (sn : ℤ) (rs : List Rele) (x : Rele)
    → find_rele sn rs ≡ none
    → IsReleAt sn x
    → IsRelays rs
    → IsRelays (rs ++ x ∷ [])
append-IsRelays sn rs x absent hx h = record {
  each = All-append IsRele rs (x ∷ []) h.each (hx.0, tt);
  single =
      rw (serials-append rs x, hx.1)
        (once-append sn (serials rs) (absent-contains sn rs absent) h.single);
}

serials-put :
    (sn : ℤ) (x : Rele) (rs : List Rele) → x.sn ≡ sn → serials (put_rele sn x rs) ≡ serials rs
unfolding put_rele
serials-put sn x [] e = refl
serials-put sn x (r ∷ rs) e = elim (Bool-cases (r.sn ==ℤ sn)) [
  | inl same ↦ rw same (ap (λ s. s ∷ serials rs) (e ∙ sym ((==ℤ_iff r.sn sn).0 same)))
  | inr other ↦ rw other (ap (λ t. r.sn ∷ t) (serials-put sn x rs e))
]

All-put :
    (sn : ℤ) (x : Rele) (rs : List Rele) → IsRele x → All IsRele rs → All IsRele (put_rele sn x rs)
unfolding put_rele
All-put sn x [] hx h = tt
All-put sn x (r ∷ rs) hx h =
    if_both (All IsRele) (r.sn ==ℤ sn) (x ∷ rs) (r ∷ put_rele sn x rs) (hx, h.1)
      (h.0, All-put sn x rs hx h.1)

pub put-IsRelays :
    (sn : ℤ) (x : Rele) (rs : List Rele) → IsReleAt sn x → IsRelays rs → IsRelays (put_rele sn x rs)
put-IsRelays sn x rs hx h = record {
  each = All-put sn x rs hx.0 h.each;
  single = rw (serials-put sn x rs hx.1) h.single;
}

age-IsRele : (t_time : ℤ) (r : Rele) → IsRele r → IsRele (age t_time r)
unfolding age
age-IsRele t_time r h = if_both IsRele _ _ _ h (h.0, h.1)

serial-age : (t_time : ℤ) (r : Rele) → (age t_time r).sn ≡ r.sn
unfolding age
serial-age t_time r = if_both (λ (x : Rele). x.sn ≡ r.sn) _ _ _ refl refl

serials-age : (t_time : ℤ) (rs : List Rele) → serials (map (age t_time) rs) ≡ serials rs
serials-age t_time [] = refl
serials-age t_time (r ∷ rs) = rw (serial-age t_time r) (ap (λ t. r.sn ∷ t) (serials-age t_time rs))

All-age : (t_time : ℤ) (rs : List Rele) → All IsRele rs → All IsRele (map (age t_time) rs)
All-age t_time [] h = tt
All-age t_time (r ∷ rs) h = (age-IsRele t_time r h.0, All-age t_time rs h.1)

pub age-IsRelays : (t_time : ℤ) (rs : List Rele) → IsRelays rs → IsRelays (map (age t_time) rs)
age-IsRelays t_time rs h = record {
  each = All-age t_time rs h.each;
  single = rw (serials-age t_time rs) h.single;
}

-- Writing to one relay changes what find_rele gives for it alone.
pub find_rele-put_self :
    (sn : ℤ) (x r : Rele) (rs : List Rele)
    → x.sn ≡ sn
    → find_rele sn rs ≡ some r
    → find_rele sn (put_rele sn x rs) ≡ some x
unfolding find_rele put_rele
find_rele-put_self sn x r [] e = λ f. absurd (ground (arith, f))
find_rele-put_self sn x r (y ∷ rs) e =
    let here = (==ℤ_iff x.sn sn).1 e in
    elim (Bool-cases (y.sn ==ℤ sn))
      as (λ z. find_rele sn (y ∷ rs) ≡ some r → find_rele sn (put_rele sn x (y ∷ rs)) ≡ some x) [
        | inl same ↦ rw (same, here) (λ f. refl)
        | inr other ↦ rw (other, other) (λ f. find_rele-put_self sn x r rs e f)
      ]

pub find_rele-put_other :
    (s sn : ℤ) (x : Rele) (rs : List Rele)
    → x.sn ≡ sn
    → (sn ==ℤ s) ≡ false
    → find_rele s (put_rele sn x rs) ≡ find_rele s rs
unfolding find_rele put_rele
find_rele-put_other s sn x [] e d = refl
find_rele-put_other s sn x (y ∷ rs) e d = elim (Bool-cases (y.sn ==ℤ sn)) [
  | inl same ↦
      let old : (y.sn ==ℤ s) ≡ false = rw ((==ℤ_iff y.sn sn).0 same) d in
      let new : (x.sn ==ℤ s) ≡ false = rw e d in rw (same, old, new) refl
  | inr other ↦ rw other (rw (find_rele-put_other s sn x rs e d) refl)
]

-- The serial number is that of a relay that is known.
abbrev pub IsKnown : List Rele → ℤ → Type 0
IsKnown rs s = contains s (serials rs) ≡ true

pub known-found : (s : ℤ) (rs : List Rele) → IsKnown rs s → (r : Rele) × (find_rele s rs ≡ some r)
known-found s rs h = elim (Option-cases (find_rele s rs)) [
  | inl absent ↦ absurd (ground (arith, absent-contains s rs absent, h))
  | inr found ↦ found
]

pub found-IsKnown : (s : ℤ) (rs : List Rele) (r : Rele) → find_rele s rs ≡ some r → IsKnown rs s
unfolding find_rele contains
found-IsKnown s [] r = λ e. absurd (ground (arith, e))
found-IsKnown s (x ∷ rs) r = ground (arith, found-IsKnown s rs r)

contains-join : (s : ℤ) (xs ys : List ℤ) → contains s (xs ++ ys) ≡ (contains s xs || contains s ys)
unfolding contains
contains-join s [] ys = refl
contains-join s (x ∷ xs) ys = ground (arith, contains-join s xs ys)

pub append-IsKnown :
    (s : ℤ) (rs : List Rele) (x : Rele) → IsKnown rs s ⊎ (x.sn ≡ s) → IsKnown (rs ++ x ∷ []) s
unfolding contains
append-IsKnown s rs x (inl known) =
    rw (serials-append rs x, contains-join s (serials rs) (x.sn ∷ [])) (ground (arith, known))
append-IsKnown s rs x (inr same) =
    let here = (==ℤ_iff x.sn s).1 same in
    rw (serials-append rs x, contains-join s (serials rs) (x.sn ∷ []), here) (ground arith)

pub put-IsKnown :
    (s sn : ℤ) (x : Rele) (rs : List Rele) → x.sn ≡ sn → IsKnown rs s → IsKnown (put_rele sn x rs) s
put-IsKnown s sn x rs e h = rw (serials-put sn x rs e) h

pub find_rele-append_self :
    (sn : ℤ) (rs : List Rele) (x : Rele)
    → find_rele sn rs ≡ none
    → x.sn ≡ sn
    → find_rele sn (rs ++ x ∷ []) ≡ some x
unfolding find_rele
find_rele-append_self sn [] x absent e = rw ((==ℤ_iff x.sn sn).1 e) refl
find_rele-append_self sn (y ∷ rs) x absent e = ground (arith, find_rele-append_self sn rs x)

-- What find_rele gives of the relays as they are when a report arrives.
pub find_rele-age_absent :
    (sn t_time : ℤ) (rs : List Rele)
    → find_rele sn rs ≡ none
    → find_rele sn (map (age t_time) rs) ≡ none
unfolding find_rele
find_rele-age_absent sn t_time [] = λ e. refl
find_rele-age_absent sn t_time (y ∷ rs) =
    rw (serial-age t_time y) (ground (arith, find_rele-age_absent sn t_time rs))

pub find_rele-age_found :
    (sn t_time : ℤ) (rs : List Rele) (r : Rele)
    → find_rele sn rs ≡ some r
    → find_rele sn (map (age t_time) rs) ≡ some (age t_time r)
unfolding find_rele age
find_rele-age_found sn t_time [] r = λ e. absurd (ground (arith, e))
find_rele-age_found sn t_time (y ∷ rs) r =
    elim (Bool-cases (y.sn ==ℤ sn))
      as (λ z.
        find_rele sn (y ∷ rs) ≡ some r
        → find_rele sn (map (age t_time) (y ∷ rs)) ≡ some (age t_time r)) [
          | inl same ↦
              rw (serial-age t_time y, same)
                (λ e. let eq : y ≡ r = ground (arith, e) in ap (λ x. some (age t_time x)) eq)
          | inr other ↦ rw (serial-age t_time y, other) (λ e. find_rele-age_found sn t_time rs r e)
        ]
