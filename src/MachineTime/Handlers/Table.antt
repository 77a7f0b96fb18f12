-- ===== src/MachineTime/Handlers/Table.antt =====
-- The table of devices: `find` after `put`, and the order of the ids.
use mathlib.Core.Path.{subst}
use java_io_tserver.Common.{
  ◌≡◌, refl, ap, inl, inr, true, false, [], ◌∷◌, some, if◌then◌else◌, if_both, All, Bool-cases,
  arith,
}
use java_io_tserver.Common.Text.{Bytes, equal, equal_iff, equal_refl}
use java_io_tserver.MachineTime.Device.{MachineTime}
use java_io_tserver.MachineTime.Handlers.{Table, text_ltb, find, put}

pub All-put :
    (P : MachineTime → Type 0) (id : Bytes) (m : MachineTime) (t : Table)
    → All (λ e. P e.1) t
    → P m
    → All (λ e. P e.1) (put id m t)
unfolding put
All-put P id m [] h p = (p, tt)
All-put P id m ((k, n) ∷ t) h p =
    if_both (All (λ e. P e.1)) (equal k id) _ _ (p, h.1)
      (if_both (All (λ e. P e.1)) (text_ltb id k) _ _ (p, h) (h.0, All-put P id m t h.1 p))

-- A device that is found is one of the table.
pub All-find :
    (P : MachineTime → Type 0) (id : Bytes) (m : MachineTime) (t : Table)
    → All (λ e. P e.1) t
    → find id t ≡ some m
    → P m
unfolding find
All-find P id m [] h e = absurd (ground (arith, e))
All-find P id m ((k, n) ∷ t) h e = elim (Bool-cases (equal k id)) [
  | inl same ↦ let q : n ≡ m = ground (arith, rw same at e) in subst P q h.0
  | inr other ↦ All-find P id m t h.1 (rw other at e)
]

-- Two ids that differ are not both the same as a third.
not_both : (k id other : Bytes) → equal k id ≡ false → equal k other ≡ true → equal id other ≡ false
not_both k id other diff same = elim (Bool-cases (equal id other)) [
  | inl e ↦ absurd (ground (arith, diff, equal_refl k, rw (← (equal_iff id other).0 e) at same))
  | inr e ↦ e
]

-- `put` changes what `find` gives for its id alone.
find-put :
    (id : Bytes) (m : MachineTime) (t : Table) (other : Bytes)
    → find other (put id m t) ≡ (if equal id other then some m else find other t)
unfolding find put
find-put id m [] other = refl
find-put id m ((k, n) ∷ t) other = elim (Bool-cases (equal k id)) [
  | inl same ↦
      let q : equal k other ≡ equal id other = ap (λ z. equal z other) ((equal_iff k id).0 same) in
      rw (same, q) (elim (Bool-cases (equal id other)) [ inl e ↦ rw e refl | inr e ↦ rw e refl ])
  | inr diff ↦ rw diff (elim (Bool-cases (text_ltb id k)) [
    | inl less ↦ rw less refl
    | inr more ↦
        rw (more, find-put id m t other)
          (elim (Bool-cases (equal k other)) [
            | inl e ↦ rw (e, not_both k id other diff e) refl
            | inr e ↦ rw e refl
          ])
  ])
]
