-- ===== src/LiraCalc/Relay/Freed.antt =====
-- relay.cpp, rr_get_status(0): the walk along the list with and without a relay that is taken out.
use java_io_tserver.Common.{
  ℕ, zero, suc, ◌≡◌, ◌<◌, ◌⊎◌, refl, ap, ◌∙◌, Bool, true, false, Bool-cases, inl, inr, Option, none,
  some, Option-cases, List, [], ◌∷◌, ◌++◌, length, ◌>>=◌, ◌==◌, if◌then◌else◌, arith,
}
use mathlib.Core.Path.{subst}
use java_io_tserver.Common.Int.{ℤ, pos, negsuc, ◌-ℤ◌, ltb_ℤ}
use java_io_tserver.Common.Text.{Bytes, codes, to_string}
use java_io_tserver.LiraCalc.Relay.{
  Rele, Memory, Place, at_rele, next_of, at_tmp2, write, deref, Outcome, done, crashed, take_out,
  list_relays, rr_get_status_all,
}
use java_io_tserver.LiraCalc.Relay.Chain.{
  Chain, Same, Same-refl, Same-trans, replaced-Same, Chain-Same,
}
use java_io_tserver.LiraCalc.Relay.Places.{
  deref-Same, HoldsAt, behind, HoldsAt-eq, HoldsAt-deref, HoldsAt-Same, first_address,
}

-- A relay that has been silent for more than two days.
unfoldable pub gone : (tmm time_onl : ℤ) → Bool
gone tmm time_onl = ltb_ℤ (pos 172800) (tmm -ℤ time_onl)

mark : ℕ → Rele → Memory → Memory
mark a r mem = write a (some (record r { acp_status = negsuc 4094 })) mem

mark-Same : (a : ℕ) (r : Rele) (mem : Memory) → mem.nodes a ≡ some r → Same mem (mark a r mem)
unfolding mark
mark-Same a r mem e = replaced-Same a r (record r { acp_status = negsuc 4094 }) mem e refl refl refl

-- Behind the first relay, taking out frees what follows the relay that is to go.
take_out_later :
    (mem : Memory) (next : Option ℕ) (q : ℕ) (rr_tmp : Place) (r : Rele)
    → deref mem next rr_tmp ≡ some (some q)
    → mem.nodes q ≡ some r
    → take_out mem next (next_of q) rr_tmp false ≡ (do
      b ← next
      printed ← (write q (some (record r { next = next })) mem).nodes b
      some (write b none (write q (some (record r { next = next })) mem)))
unfolding take_out
take_out_later mem next q rr_tmp r held node =
    let self : (q == q) ≡ true = ground arith in rw (held, node, self) refl

-- What the walk writes for a relay.
shown : Bool → Bytes → ℤ → Bytes
shown fl buff sn =
    buff ++ (if fl then [] else codes ",") ++ codes "\"" ++ to_string sn ++ codes "\""

-- The text that names the relays of a list.
unfoldable pub numbers : Bool → Bytes → List (ℤ × ℤ) → Bytes
unfolding shown
numbers fl buff [] = buff
numbers fl buff ((sn, time) ∷ l) = numbers false (shown fl buff sn) l

module _ (tmm : ℤ) where
  step_kept :
      (fuel : ℕ) (mem : Memory) (tmp2 : Option ℕ) (rr rr_tmp : Place) (fl : Bool) (buff : Bytes)
      → (a : ℕ) (r : Rele) → deref mem tmp2 rr ≡ some (some a)
      → mem.nodes a ≡ some r
      → gone tmm r.time_onl ≡ false
      → (mem' : Memory) × Same mem mem'
        × (list_relays tmm (suc fuel) mem tmp2 rr rr_tmp fl buff
            ≡ list_relays tmm fuel mem' tmp2 (next_of a) rr false (shown fl buff r.sn))
  unfolding list_relays gone shown mark
  step_kept fuel mem tmp2 rr rr_tmp fl buff a r at node near =
      elim (Bool-cases (ltb_ℤ (pos 8) (tmm -ℤ r.time_onl))) [
        | inl silent ↦
            (mark a r mem, mark-Same a r mem node, rw (at, list_relays, node, silent, near) refl)
        | inr heard ↦ (mem, Same-refl mem, rw (at, list_relays, node, heard) refl)
      ]

  step_end :
      (fuel : ℕ) (mem : Memory) (tmp2 : Option ℕ) (rr rr_tmp : Place) (fl : Bool) (buff : Bytes)
      → deref mem tmp2 rr ≡ some none
      → list_relays tmm (suc fuel) mem tmp2 rr rr_tmp fl buff ≡ done mem (buff ++ codes "]}")
  unfolding list_relays
  step_end fuel mem tmp2 rr rr_tmp fl buff at = rw (at, list_relays) refl

  step_gone :
      (fuel : ℕ) (mem : Memory) (tmp2 : Option ℕ) (rr rr_tmp : Place) (fl : Bool) (buff : Bytes)
      → (a : ℕ) (r : Rele) → deref mem tmp2 rr ≡ some (some a)
      → mem.nodes a ≡ some r
      → gone tmm r.time_onl ≡ true
      → list_relays tmm (suc fuel) mem tmp2 rr rr_tmp fl buff
        ≡ elim (take_out (mark a r mem) r.next rr rr_tmp fl) as (λ o. Outcome) [
          | none ↦ crashed
          | some mem' ↦ list_relays tmm fuel mem' r.next at_tmp2 rr_tmp fl buff
        ]
  unfolding list_relays gone mark
  step_gone fuel mem tmp2 rr rr_tmp fl buff a r at node dead =
      let silent : ltb_ℤ (pos 8) (tmm -ℤ r.time_onl) ≡ true = ground (arith, dead) in
      rw (at, list_relays, node, silent, dead) refl

  -- The node behind the relay that goes is freed, and the walk goes on at it.
  freed-crashed :
      (fuel : ℕ) (closed : Memory) (next : Option ℕ) (rr_tmp : Place) (fl : Bool) (buff : Bytes)
      → elim (do b ← next; printed ← closed.nodes b; some (write b none closed)) as (λ o. Outcome) [
        | none ↦ crashed
        | some mem' ↦ list_relays tmm (suc fuel) mem' next at_tmp2 rr_tmp fl buff
      ]
        ≡ crashed
  unfolding list_relays write deref
  freed-crashed fuel closed none rr_tmp fl buff = refl
  freed-crashed fuel closed (some b) rr_tmp fl buff = elim (Option-cases (closed.nodes b)) [
    | inl absent ↦ rw absent refl
    | inr (r, node) ↦
        let self : (b == b) ≡ true = ground arith in rw node (rw (self, list_relays) refl)
  ]

  -- One of them has been silent for more than two days.
  unfoldable pub any_gone : List (ℤ × ℤ) → Bool
  any_gone [] = false
  any_gone ((sn, time) ∷ l) = if gone tmm time then true else any_gone l

  none_gone :
      (sn time : ℤ) (l : List (ℤ × ℤ))
      → any_gone ((sn, time) ∷ l) ≡ false
      → (gone tmm time ≡ false) × (any_gone l ≡ false)
  unfolding any_gone
  none_gone sn time l h = ground (arith, h)

  walk_kept :
      (l : List (ℤ × ℤ)) (fuel : ℕ) (mem : Memory) (tmp2 p : Option ℕ) (rr rr_tmp : Place)
      → (fl : Bool) (buff : Bytes) → Chain mem p l
      → HoldsAt mem rr p
      → any_gone l ≡ false
      → length l < fuel
      → (mem' : Memory) × Same mem mem'
        × (list_relays tmm fuel mem tmp2 rr rr_tmp fl buff
            ≡ done mem' (numbers fl buff l ++ codes "]}"))
  unfolding Chain HoldsAt numbers any_gone
  walk_kept l zero mem tmp2 p rr rr_tmp fl buff chain at near h = absurd (omega arith)
  walk_kept [] (suc fuel) mem tmp2 p rr rr_tmp fl buff chain at near h =
      (mem, Same-refl mem, step_end fuel mem tmp2 rr rr_tmp fl buff (at tmp2 ∙ ap some chain))
  walk_kept ((sn, time) ∷ l) (suc fuel) mem tmp2 p rr rr_tmp fl buff
        (a, r, here, node, number, age, rest) at near h =
      let still : gone tmm r.time_onl ≡ false = rw age (none_gone sn time l near).0 in
      let (mem', s, step) =
        step_kept fuel mem tmp2 rr rr_tmp fl buff a r (at tmp2 ∙ ap some here) node still in
      let (last, t, walked) =
        walk_kept l fuel mem' tmp2 r.next (next_of a) rr false (shown fl buff sn)
          (Chain-Same mem mem' r.next l s rest) (behind mem mem' a r s node)
          (none_gone sn time l near).1 (omega arith) in
      let next : ℤ → Outcome =
        λ n. list_relays tmm fuel mem' tmp2 (next_of a) rr false (shown fl buff n) in
      (last, Same-trans mem mem' last s t, step ∙ (ap next number ∙ walked))

  crash_first :
      (fuel : ℕ) (mem : Memory) (tmp2 : Option ℕ) (rr_tmp : Place) (buff : Bytes) (a : ℕ) (r : Rele)
      → mem.rele ≡ some a
      → mem.nodes a ≡ some r
      → gone tmm r.time_onl ≡ true
      → list_relays tmm (suc (suc fuel)) mem tmp2 at_rele rr_tmp true buff ≡ crashed
  unfolding take_out deref
  crash_first fuel mem tmp2 rr_tmp buff a r here node dead =
      step_gone (suc fuel) mem tmp2 at_rele rr_tmp true buff a r (ap some here) node dead
      ∙ freed-crashed fuel (record (mark a r mem) { rele = r.next }) r.next rr_tmp true buff

  crash_later :
      (fuel : ℕ) (mem : Memory) (tmp2 : Option ℕ) (q : ℕ) (rr_tmp : Place) (buff : Bytes)
      → (a : ℕ) (r rq : Rele) → HoldsAt mem (next_of q) (some a)
      → HoldsAt mem rr_tmp (some q)
      → mem.nodes q ≡ some rq
      → mem.nodes a ≡ some r
      → gone tmm r.time_onl ≡ true
      → list_relays tmm (suc (suc fuel)) mem tmp2 (next_of q) rr_tmp false buff ≡ crashed
  unfolding HoldsAt
  crash_later fuel mem tmp2 q rr_tmp buff a r rq at before node_q node dead =
      let marked = mark a r mem in
      let s = mark-Same a r mem node in
      let (rq', node', next', number', age') = s.same_node q rq node_q in
      let held = deref-Same mem marked r.next rr_tmp (some q) s (before r.next) in
      let closed = write q (some (record rq' { next = r.next })) marked in
      step_gone (suc fuel) mem tmp2 (next_of q) rr_tmp false buff a r (at tmp2) node dead
      ∙ (ap
            (λ (o : Option Memory). elim o as (λ z. Outcome) [
              | none ↦ crashed
              | some mem' ↦ list_relays tmm (suc fuel) mem' r.next at_tmp2 rr_tmp false buff
            ])
            (take_out_later marked r.next q rr_tmp rq' held node')
          ∙ freed-crashed fuel closed r.next rr_tmp false buff)

  -- Where the walk stands: at the first relay, or behind the relay that rr_tmp holds.
  Stands : Memory → (rr rr_tmp : Place) → Bool → Type 0
  Stands mem rr rr_tmp fl =
      ((fl ≡ true) × (rr ≡ at_rele))
      ⊎ ((q : ℕ) × (rq : Rele) × (fl ≡ false)
          × (rr ≡ next_of q)
          × HoldsAt mem rr_tmp (some q)
          × (mem.nodes q ≡ some rq))

  crash :
      (fuel : ℕ) (mem : Memory) (tmp2 : Option ℕ) (rr rr_tmp : Place) (fl : Bool) (buff : Bytes)
      → (a : ℕ) (r : Rele) → Stands mem rr rr_tmp fl
      → HoldsAt mem rr (some a)
      → mem.nodes a ≡ some r
      → gone tmm r.time_onl ≡ true
      → list_relays tmm (suc (suc fuel)) mem tmp2 rr rr_tmp fl buff ≡ crashed
  unfolding Stands
  crash fuel mem tmp2 rr rr_tmp fl buff a r (inl (first, top)) at node dead =
      let here : mem.rele ≡ some a =
        first_address mem a (subst (λ x. HoldsAt mem x (some a)) top at) in
      rw (first, top) (crash_first fuel mem tmp2 rr_tmp buff a r here node dead)
  crash fuel mem tmp2 rr rr_tmp fl buff a r (inr (q, rq, later, behind_q, before, node_q)) at node
        dead =
      rw (later, behind_q)
        (crash_later fuel mem tmp2 q rr_tmp buff a r rq
          (subst (λ x. HoldsAt mem x (some a)) behind_q at) before node_q node dead)

  walk_gone :
      (l : List (ℤ × ℤ)) (fuel : ℕ) (mem : Memory) (tmp2 p : Option ℕ) (rr rr_tmp : Place)
      → (fl : Bool) (buff : Bytes) → Chain mem p l
      → HoldsAt mem rr p
      → Stands mem rr rr_tmp fl
      → any_gone l ≡ true
      → suc (length l) < fuel
      → list_relays tmm fuel mem tmp2 rr rr_tmp fl buff ≡ crashed
  unfolding Chain any_gone Stands
  walk_gone l zero mem tmp2 p rr rr_tmp fl buff chain at stands dead h = absurd (omega arith)
  walk_gone l (suc zero) mem tmp2 p rr rr_tmp fl buff chain at stands dead h = absurd (omega arith)
  walk_gone [] (suc (suc fuel)) mem tmp2 p rr rr_tmp fl buff chain at stands dead h =
      absurd (ground (arith, dead))
  walk_gone ((sn, time) ∷ l) (suc (suc fuel)) mem tmp2 p rr rr_tmp fl buff
        (a, r, here, node, number, age, rest) at stands dead h =
      let at_a = HoldsAt-eq mem rr p (some a) here at in
      elim (Bool-cases (gone tmm time)) [
        | inl now ↦
            let over : gone tmm r.time_onl ≡ true = rw age now in
            crash fuel mem tmp2 rr rr_tmp fl buff a r stands at_a node over
        | inr later ↦
            let still : gone tmm r.time_onl ≡ false = rw age later in
            let (mem', s, step) =
              step_kept (suc fuel) mem tmp2 rr rr_tmp fl buff a r
                (HoldsAt-deref mem tmp2 rr (some a) at_a) node still in
            let (r', node', next', number', age') = s.same_node a r node in
            step
            ∙ walk_gone l (suc fuel) mem' tmp2 r.next (next_of a) rr false (shown fl buff r.sn)
                (Chain-Same mem mem' r.next l s rest) (behind mem mem' a r s node)
                (inr (a, r', refl, refl, HoldsAt-Same mem mem' rr (some a) s at_a, node'))
                (ground (arith, later, dead)) (omega arith)
      ]

  -- rr_get_status(0), on fuel for more rounds than there are relays and one: where no relay has been
  -- silent for more than 172800 seconds it lists the numbers of all relays in their order and the
  -- list stays in memory; where one has, it uses a null pointer or freed memory.
  pub rr_get_status_all_lem :
      (fuel : ℕ) (mem : Memory) (l : List (ℤ × ℤ))
      → Chain mem mem.rele l
      → suc (length l) < fuel
      → ((any_gone l ≡ false)
          × ((mem' : Memory) × Chain mem' mem'.rele l
              × (rr_get_status_all tmm fuel mem
                  ≡ done mem' (numbers true (codes "{\"rr\":[") l ++ codes "]}"))))
        ⊎ ((any_gone l ≡ true) × (rr_get_status_all tmm fuel mem ≡ crashed))
  unfolding rr_get_status_all HoldsAt Stands deref
  rr_get_status_all_lem fuel mem l chain h = elim (Bool-cases (any_gone l)) [
    | inl dead ↦ inr (
      dead,
      walk_gone l fuel mem none mem.rele at_rele at_rele true (codes "{\"rr\":[") chain
          (λ tmp2. refl) (inl (refl, refl)) dead h,
    )
    | inr near ↦
        let (mem', s, walked) =
          walk_kept l fuel mem none mem.rele at_rele at_rele true (codes "{\"rr\":[") chain
            (λ tmp2. refl) near (omega arith) in
        let chain' = Chain-Same mem mem' mem.rele l s chain in
        inl (near, (mem', rw s.same_rele chain', walked))
  ]
