-- ===== src/LiraCalc/Relay/Press/Loop.antt =====
-- relay.cpp: the list of relays under the loop that looks for one of them.
use java_io_tserver.Common.{
  ℕ, zero, suc, ◌≡◌, ◌<◌, ◌⊎◌, refl, sym, ◌∙◌, true, Bool-cases, inl, inr, Option, some, List, [],
  ◌∷◌, length, ◌==◌, if_both, arith,
}
use java_io_tserver.Common.Int.{ℤ, pos, ◌-ℤ◌, ◌==ℤ◌, ltb_ℤ, ==ℤ_iff}
use java_io_tserver.LiraCalc.Relay.{Rele, Memory, write}
use java_io_tserver.LiraCalc.Relay.Chain.{
  Chain, Same, Same-refl, Same-trans, replaced-Same, Chain-Same,
}
use java_io_tserver.LiraCalc.Relay.Press.{at, absent, heard, find_rele}

-- Every relay has 8 outputs and 8 commands.
abbrev pub EightOf : Rele → Type 0
EightOf r = (length r.rr_status ≡ 8) × (length r.rr_command ≡ 8)

unfoldable pub Eight : Memory → Type 0
Eight mem = (a : ℕ) (r : Rele) → mem.nodes a ≡ some r → EightOf r

-- The list stays, and so do the lengths.
unfoldable pub Kept : Memory → Memory → Type 0
Kept mem mem' = Same mem mem' × (Eight mem → Eight mem')

Kept-refl : (mem : Memory) → Kept mem mem
unfolding Kept
Kept-refl mem = (Same-refl mem, λ e. e)

pub Kept-trans : (a b c : Memory) → Kept a b → Kept b c → Kept a c
unfolding Kept
Kept-trans a b c (s, e) (t, f) = (Same-trans a b c s t, λ x. f (e x))

Eight-write :
    (a : ℕ) (r : Rele) (mem : Memory) → EightOf r → Eight mem → Eight (write a (some r) mem)
unfolding Eight write
Eight-write a r mem h e b rb eb = elim (Bool-cases (b == a)) [
  | inl here ↦ let own : r ≡ rb = ground (arith, here, eb) in rw (sym own) h
  | inr there ↦ e b rb (ground (arith, there, eb))
]

replaced-Kept :
    (a : ℕ) (r r' : Rele) (mem : Memory)
    → mem.nodes a ≡ some r
    → r'.next ≡ r.next
    → r'.sn ≡ r.sn
    → r'.time_onl ≡ r.time_onl
    → (EightOf r → EightOf r')
    → Kept mem (write a (some r') mem)
unfolding Kept Eight
replaced-Kept a r r' mem node next sn time h =
    (replaced-Same a r r' mem node next sn time, λ e. Eight-write a r' mem (h (e a r node)) e)

-- The same relay, with other things known of it.
unfoldable pub Alike : Rele → Rele → Type 0
Alike r r' =
    (r'.next ≡ r.next) × (r'.sn ≡ r.sn) × (r'.time_onl ≡ r.time_onl) × (EightOf r → EightOf r')

pub heard-Alike : (tmm : ℤ) (r : Rele) → Alike r (heard tmm r)
unfolding heard Alike
heard-Alike tmm r =
    if_both (Alike r) (ltb_ℤ (pos 60) (tmm -ℤ r.time_onl)) _ _ (refl, refl, refl, λ e. e)
      (refl, refl, refl, λ e. e)

pub Alike-Kept :
    (a : ℕ) (r r' : Rele) (mem : Memory)
    → mem.nodes a ≡ some r
    → Alike r r'
    → Kept mem (write a (some r') mem)
unfolding Alike
Alike-Kept a r r' mem node (next, sn, time, h) = replaced-Kept a r r' mem node next sn time h

written : (a : ℕ) (r : Rele) (mem : Memory) → (write a (some r) mem).nodes a ≡ some r
unfolding write
written a r mem = let self : (a == a) ≡ true = ground arith in rw self refl

-- What the loop finds on a list of relays: a relay with the number, or none.
pub find_rele-Kept :
    (tmm sn : ℤ) (l : List (ℤ × ℤ)) (fuel : ℕ) (mem : Memory) (rr : Option ℕ)
    → Chain mem rr l
    → length l < fuel
    → (mem' : Memory) × Kept mem mem'
      × (((a : ℕ) × (r : Rele) × (mem'.nodes a ≡ some r)
            × (r.sn ≡ sn)
            × (find_rele tmm sn fuel mem rr ≡ at mem' a r))
          ⊎ (find_rele tmm sn fuel mem rr ≡ absent mem'))
unfolding Chain find_rele Kept Alike
find_rele-Kept tmm sn l zero mem rr chain h = absurd (omega arith)
find_rele-Kept tmm sn [] (suc fuel) mem rr chain h = (mem, Kept-refl mem, inr (rw chain refl))
find_rele-Kept tmm sn ((sn', time) ∷ l) (suc fuel) mem rr (a, r, here, node, number, age, rest) h =
    let mem' = write a (some (heard tmm r)) mem in
    let kept : Kept mem mem' = Alike-Kept a r (heard tmm r) mem node (heard-Alike tmm r) in
    elim (Bool-cases (r.sn ==ℤ sn)) [
      | inl same ↦
          let heard_here : (heard tmm r).sn ≡ sn =
            (heard-Alike tmm r).1 ∙ (==ℤ_iff r.sn sn).0 same in
          (
            mem',
            kept,
            inl (
              a,
              heard tmm r,
              written a (heard tmm r) mem,
              heard_here,
              rw (here, find_rele, node, same) refl,
            ),
          )
      | inr other ↦
          let step : find_rele tmm sn (suc fuel) mem rr ≡ find_rele tmm sn fuel mem' r.next =
            rw (here, find_rele, node, other) refl in
          let (last, kept', found) =
            find_rele-Kept tmm sn l fuel mem' r.next (Chain-Same mem mem' r.next l kept.0 rest)
              (omega arith) in
          (
            last,
            Kept-trans mem mem' last kept kept',
            elim found [
              | inl (b, rb, at_b, number_b, e) ↦ inl (b, rb, at_b, number_b, step ∙ e)
              | inr e ↦ inr (step ∙ e)
            ],
          )
    ]
