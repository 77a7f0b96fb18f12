-- ===== src/LiraCalc/Relay/Press/Kept.antt =====
-- relay.cpp: the list of relays in memory under rr_get_status of one relay and rr_put_status.
use java_io_tserver.Common.{
  ℕ, zero, suc, ◌≡◌, ◌≢◌, ◌<◌, refl, ◌∙◌, true, Bool-cases, inl, inr, some, List, [], ◌∷◌, length,
  ◌==◌, if◌then◌else◌, get_elem?, set, length-set, arith,
}
use java_io_tserver.Common.Int.{ℤ, pos, ◌-ℤ◌, ◌==ℤ◌, ==ℤ_iff}
use java_io_tserver.Common.Text.{Bytes}
use java_io_tserver.LiraCalc.Relay.{Rele, Memory, Outcome, done}
use java_io_tserver.LiraCalc.Relay.Chain.{Chain, Chain-Same}
use java_io_tserver.LiraCalc.Relay.Press.{
  shown_status, unknown_relay, is_offline, press, hurry, rr_get_status_one, rr_get_status,
  rr_put_status,
}
use java_io_tserver.LiraCalc.Relay.Press.Loop.{
  EightOf, Eight, Kept, Kept-trans, Alike, Alike-Kept, find_rele-Kept,
}

get_elem?-in : (xs : Bytes) (i : ℕ) → i < length xs → (x : ℕ) × (get_elem? xs i ≡ some x)
get_elem?-in [] i h = absurd (omega arith)
get_elem?-in (x ∷ xs) zero h = (x, refl)
get_elem?-in (x ∷ xs) (suc i) h = get_elem?-in xs i (omega arith)

minus_one : (i : ℕ) → (pos (suc i) -ℤ pos 1) ≡ pos i
unfolding ◌-ℤ◌
minus_one i = ground arith

press-Alike :
    (r : Rele) (i : ℕ) → EightOf r → i < 8 → (r' : Rele) × (press (pos i) r ≡ some r') × Alike r r'
unfolding press Alike
press-Alike r i (outputs, commands) h =
    let (old, e) = get_elem?-in r.rr_status i (omega (arith, outputs)) in
    let (kept, e') = get_elem?-in r.rr_command i (omega (arith, commands)) in
    let command = if old == b'0' then b'1' else b'0' in
    (
      record r {
        rr_status = set r.rr_status i b'X';
        rr_command = set r.rr_command i command;
        put = true;
      },
      rw (e, e') refl,
      (
        refl,
        refl,
        refl,
        λ eight.
            (length-set r.rr_status i b'X' ∙ outputs, length-set r.rr_command i command ∙ commands),
      ),
    )

hurry-Kept :
    (a : ℕ) (r r' : Rele) (mem : Memory)
    → mem.nodes a ≡ some r
    → Alike r r'
    → Kept mem (hurry a r' mem)
unfolding hurry Alike
hurry-Kept a r r' mem node (next, sn, time, h) =
    Alike-Kept a r (record r' { online = pos 50 }) mem node (next, sn, time, h)

Alike-refl : (r : Rele) → Alike r r
unfolding Alike
Alike-refl r = (refl, refl, refl, λ e. e)

-- The request is answered, and the list of relays is the one that it was.
unfoldable pub Answered : List (ℤ × ℤ) → Outcome → Type 0
Answered l o =
    (mem' : Memory) × (t : Bytes) × Chain mem' mem'.rele l × Eight mem' × (o ≡ done mem' t)

Kept-Answered :
    (l : List (ℤ × ℤ)) (mem mem' : Memory) (t : Bytes) (o : Outcome)
    → Kept mem mem'
    → Chain mem mem.rele l
    → Eight mem
    → o ≡ done mem' t
    → Answered l o
unfolding Answered Kept Chain
Kept-Answered l mem mem' t o (s, e) chain eight h =
    (mem', t, rw s.same_rele (Chain-Same mem mem' mem.rele l s chain), e eight, h)

module _ (percent : ℤ → ℤ) (tmm sn : ℤ) (l : List (ℤ × ℤ)) (fuel : ℕ) (mem : Memory) where
  rr_get_status_one-Answered :
      Chain mem mem.rele l
      → Eight mem
      → length l < fuel
      → Answered l (rr_get_status_one percent tmm fuel sn mem)
  unfolding rr_get_status_one
  rr_get_status_one-Answered chain eight h =
      let (mem', kept, found) = find_rele-Kept tmm sn l fuel mem mem.rele chain h in
      elim found [
        | inl (a, r, node, number, e) ↦
            let ran : rr_get_status_one percent tmm fuel sn mem
                ≡ done (hurry a r mem') (shown_status percent r) =
              rw (rr_get_status_one, e) refl in
            Kept-Answered l mem _ _ _
              (Kept-trans mem mem' (hurry a r mem') kept
                (hurry-Kept a r r mem' node (Alike-refl r)))
              chain eight ran
        | inr e ↦
            let ran : rr_get_status_one percent tmm fuel sn mem ≡ done mem' unknown_relay =
              rw (rr_get_status_one, e) refl in
            Kept-Answered l mem mem' _ _ kept chain eight ran
      ]

  rr_get_status-Answered :
      sn ≢ pos 0
      → Chain mem mem.rele l
      → Eight mem
      → length l < fuel
      → Answered l (rr_get_status percent tmm fuel sn mem)
  unfolding rr_get_status
  rr_get_status-Answered one chain eight h = elim (Bool-cases (sn ==ℤ pos 0)) [
    | inl all ↦ absurd (one ((==ℤ_iff sn (pos 0)).0 all))
    | inr single ↦ rw single (rr_get_status_one-Answered chain eight h)
  ]

  rr_put_status-Answered :
      (i : ℕ)
      → Chain mem mem.rele l
      → Eight mem
      → length l < fuel
      → i < 8
      → Answered l (rr_put_status percent tmm fuel sn (pos (suc i)) mem)
  unfolding rr_put_status Kept Eight
  rr_put_status-Answered i chain eight h k =
      let (mem', kept, found) = find_rele-Kept tmm sn l fuel mem mem.rele chain h in
      elim found [
        | inl (a, r, node, number, e) ↦
            let (r', pressed, alike) = press-Alike r i (kept.1 eight a r node) k in
            elim (Bool-cases (is_offline r)) [
              | inl off ↦
                  let ran : rr_put_status percent tmm fuel sn (pos (suc i)) mem
                      ≡ done (hurry a r mem') (shown_status percent r) =
                    rw (rr_put_status, e, off) refl in
                  Kept-Answered l mem _ _ _
                    (Kept-trans mem mem' (hurry a r mem') kept
                      (hurry-Kept a r r mem' node (Alike-refl r)))
                    chain eight ran
              | inr on ↦
                  let ran : rr_put_status percent tmm fuel sn (pos (suc i)) mem
                      ≡ done (hurry a r' mem') (shown_status percent r') =
                    rw (rr_put_status, e, on, minus_one i, pressed) refl in
                  Kept-Answered l mem _ _ _
                    (Kept-trans mem mem' (hurry a r' mem') kept (hurry-Kept a r r' mem' node alike))
                    chain eight ran
            ]
        | inr e ↦
            let ran : rr_put_status percent tmm fuel sn (pos (suc i)) mem
                ≡ done mem' unknown_relay =
              rw (rr_put_status, e) refl in
            Kept-Answered l mem mem' _ _ kept chain eight ran
      ]

  -- On a list of relays with 8 outputs and 8 commands each, rr_get_status of one number that is not 0
  -- and rr_put_status of it with a button from 1 to 8 answer, whether a relay has the number or not,
  -- and leave the list as it was, with 8 outputs and 8 commands each. The fuel is more than there
  -- are relays.
  pub requests-Answered :
      (i : ℕ)
      → sn ≢ pos 0
      → Chain mem mem.rele l
      → Eight mem
      → length l < fuel
      → i < 8
      → Answered l (rr_get_status percent tmm fuel sn mem)
        × Answered l (rr_put_status percent tmm fuel sn (pos (suc i)) mem)
  requests-Answered i one chain eight h k =
      (rr_get_status-Answered one chain eight h, rr_put_status-Answered i chain eight h k)
