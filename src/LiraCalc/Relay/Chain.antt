-- ===== src/LiraCalc/Relay/Chain.antt =====
-- The list of relays as it lies in memory, and the changes that keep it.
use java_io_tserver.Common.{
  ℕ, ◌≡◌, refl, ap, ◌∙◌, Bool-cases, inl, inr, Option, none, some, List, [], ◌∷◌, ◌==◌, arith,
}
use java_io_tserver.Common.Int.{ℤ}
use java_io_tserver.LiraCalc.Relay.{Rele, Memory, write}

-- From an address on lie relays with these numbers and times, and no more.
unfoldable pub Chain : Memory → Option ℕ → List (ℤ × ℤ) → Type 0
Chain mem p [] = p ≡ none
Chain mem p ((sn, time) ∷ l) =
    (a : ℕ) × (r : Rele) × (p ≡ some a)
    × (mem.nodes a ≡ some r)
    × (r.sn ≡ sn)
    × (r.time_onl ≡ time)
    × Chain mem r.next l

-- Two memories with the same list: only what is known of the pin differs.
pub record Same (mem mem' : Memory) : Type 0 where
  pub same_rele : mem'.rele ≡ mem.rele
  pub same_node :
      (b : ℕ) (r : Rele)
      → mem.nodes b ≡ some r
      → (r' : Rele) × (mem'.nodes b ≡ some r')
        × (r'.next ≡ r.next)
        × (r'.sn ≡ r.sn)
        × (r'.time_onl ≡ r.time_onl)

pub Same-refl : (mem : Memory) → Same mem mem
Same-refl mem = record { same_rele = refl; same_node = λ b r e. (r, e, refl, refl, refl) }

pub Same-trans : (a b c : Memory) → Same a b → Same b c → Same a c
Same-trans a b c s t = record {
  same_rele = t.same_rele ∙ s.same_rele;
  same_node = λ x r e.
      let (r1, e1, next1, sn1, time1) = s.same_node x r e in
      let (r2, e2, next2, sn2, time2) = t.same_node x r1 e1 in
      (r2, e2, next2 ∙ next1, sn2 ∙ sn1, time2 ∙ time1);
}

-- A relay that is replaced by one with the same number, time and next.
pub replaced-Same :
    (a : ℕ) (r r' : Rele) (mem : Memory)
    → mem.nodes a ≡ some r
    → r'.next ≡ r.next
    → r'.sn ≡ r.sn
    → r'.time_onl ≡ r.time_onl
    → Same mem (write a (some r') mem)
unfolding write
replaced-Same a r r' mem e next sn time = record {
  same_rele = refl;
  same_node = λ b rb eb. elim (Bool-cases (b == a)) [
    | inl here ↦
        let at_a : b ≡ a = ground arith in
        let own : rb ≡ r = ground (arith, e, eb, ap mem.nodes at_a) in
        (r', rw here refl, rw own next, rw own sn, rw own time)
    | inr there ↦ (rb, rw there eb, refl, refl, refl)
  ];
}

pub Chain-Same :
    (mem mem' : Memory) (p : Option ℕ) (l : List (ℤ × ℤ))
    → Same mem mem'
    → Chain mem p l
    → Chain mem' p l
unfolding Chain
Chain-Same mem mem' p [] s h = h
Chain-Same mem mem' p ((sn, time) ∷ l) s (a, r, at, node, number, age, rest) =
    let (r', node', next', number', age') = s.same_node a r node in
    (a, r', at, node', number' ∙ number, age' ∙ age, rw next' (Chain-Same mem mem' r.next l s rest))
