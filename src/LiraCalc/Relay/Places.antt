-- ===== src/LiraCalc/Relay/Places.antt =====
-- What the places of a walk hold in a memory with the list of relays.
use java_io_tserver.Common.{
  ℕ, ◌≡◌, refl, ap, ◌∙◌, inl, inr, Option, none, some, Option-cases, arith,
}
use java_io_tserver.LiraCalc.Relay.{Rele, Memory, Place, at_rele, next_of, at_tmp2, deref}
use java_io_tserver.LiraCalc.Relay.Chain.{Same}

pub deref-Same :
    (mem mem' : Memory) (tmp2 : Option ℕ) (place : Place) (p : Option ℕ)
    → Same mem mem'
    → deref mem tmp2 place ≡ some p
    → deref mem' tmp2 place ≡ some p
unfolding deref
deref-Same mem mem' tmp2 at_rele p s h = rw s.same_rele h
deref-Same mem mem' tmp2 at_tmp2 p s h = h
deref-Same mem mem' tmp2 (next_of a) p s h = elim (Option-cases (mem.nodes a)) [
  | inl absent ↦ absurd (ground (arith, absent, h))
  | inr (r, node) ↦
      let (r', node', next', number', age') = s.same_node a r node in
      rw node' (rw next' (ground (arith, node, h)))
]

-- What `rr` holds, whatever rr_tmp2 is.
unfoldable pub HoldsAt : Memory → Place → Option ℕ → Type 0
HoldsAt mem rr p = (tmp2 : Option ℕ) → deref mem tmp2 rr ≡ some p

pub behind :
    (mem mem' : Memory) (a : ℕ) (r : Rele)
    → Same mem mem'
    → mem.nodes a ≡ some r
    → HoldsAt mem' (next_of a) r.next
unfolding HoldsAt deref
behind mem mem' a r s node tmp2 =
    let (r', node', next', number', age') = s.same_node a r node in rw node' (rw next' refl)

pub HoldsAt-eq :
    (mem : Memory) (rr : Place) (p q : Option ℕ) → p ≡ q → HoldsAt mem rr p → HoldsAt mem rr q
unfolding HoldsAt
HoldsAt-eq mem rr p q e at tmp2 = at tmp2 ∙ ap some e

pub HoldsAt-deref :
    (mem : Memory) (tmp2 : Option ℕ) (rr : Place) (p : Option ℕ)
    → HoldsAt mem rr p
    → deref mem tmp2 rr ≡ some p
unfolding HoldsAt
HoldsAt-deref mem tmp2 rr p at = at tmp2

pub HoldsAt-Same :
    (mem mem' : Memory) (rr : Place) (p : Option ℕ)
    → Same mem mem'
    → HoldsAt mem rr p
    → HoldsAt mem' rr p
unfolding HoldsAt
HoldsAt-Same mem mem' rr p s at tmp2 = deref-Same mem mem' tmp2 rr p s (at tmp2)

pub first_address : (mem : Memory) (a : ℕ) → HoldsAt mem at_rele (some a) → mem.rele ≡ some a
unfolding HoldsAt deref
first_address mem a at = ground (arith, at none)
