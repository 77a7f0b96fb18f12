-- ===== src/MachineTime/Device/Days.antt =====
-- The list of days: its back, and find_or_create_day on a list in ascending order.
use java_io_tserver.Common.{
  ◌≡◌, refl, inl, inr, false, List, [], ◌∷◌, ◌++◌, All, Bool-cases, Option-cases, arith,
}
use java_io_tserver.Common.Int.{ℤ, ◌==ℤ◌, ltb_ℤ}
use java_io_tserver.MachineTime.Day.{Day, day_at}
use java_io_tserver.MachineTime.Device.{
  back, set_back, is_empty, find_day, insert_day, change_first, change_day,
}

pub All-set_back :
    (P : Day → Type 0) (x : Day) (ds : List Day) → All P ds → P x → All P (set_back x ds)
unfolding set_back
All-set_back P x [] h p = h
All-set_back P x (d ∷ []) h p = (p, tt)
All-set_back P x (d ∷ e ∷ ds) h p = (h.0, All-set_back P x (e ∷ ds) h.1 p)

pub All-back : (P : Day → Type 0) (ds : List Day) → is_empty ds ≡ false → All P ds → P (back ds)
unfolding back
All-back P [] n h = absurd (ground arith)
All-back P (d ∷ []) n h = h.0
All-back P (d ∷ e ∷ ds) n h = All-back P (e ∷ ds) refl h.1

pub is_empty-set_back : (x : Day) (ds : List Day) → is_empty (set_back x ds) ≡ is_empty ds
unfolding set_back
is_empty-set_back x [] = refl
is_empty-set_back x (d ∷ []) = refl
is_empty-set_back x (d ∷ e ∷ ds) = refl

pub back-set_back : (x : Day) (ds : List Day) → is_empty ds ≡ false → back (set_back x ds) ≡ x
unfolding set_back back
back-set_back x [] n = absurd (ground arith)
back-set_back x (d ∷ []) n = refl
back-set_back x (d ∷ e ∷ []) n = refl
back-set_back x (d ∷ e ∷ f ∷ ds) n = back-set_back x (e ∷ f ∷ ds) refl

pub back-append : (ds : List Day) (x : Day) → back (ds ++ x ∷ []) ≡ x
unfolding back
back-append [] x = refl
back-append (d ∷ []) x = refl
back-append (d ∷ e ∷ ds) x = back-append (e ∷ ds) x

pub is_empty-append : (ds : List Day) (x : Day) → is_empty (ds ++ x ∷ []) ≡ false
is_empty-append [] x = refl
is_empty-append (d ∷ ds) x = refl

module _ (P : Day → Type 0) (f : Day → Day) (epoch : ℤ) where
  All-change_first :
      (ds : List Day) → All P ds → ((d : Day) → P d → P (f d)) → All P (change_first f epoch ds)
  unfolding change_first
  All-change_first [] h k = h
  All-change_first (d ∷ ds) h k = elim (Bool-cases (d.time ==ℤ epoch)) [
    | inl e ↦ rw (e, All) (k d h.0, h.1)
    | inr e ↦ rw (e, All) (h.0, All-change_first ds h.1 k)
  ]

  All-insert_day : (ds : List Day) → All P ds → P (day_at epoch) → All P (insert_day epoch ds)
  unfolding insert_day
  All-insert_day [] h p = (p, tt)
  All-insert_day (d ∷ ds) h p = elim (Bool-cases (ltb_ℤ d.time epoch)) [
    | inl e ↦ rw (e, All) (h.0, All-insert_day ds h.1 p)
    | inr e ↦ rw (e, All) (p, h)
  ]

  pub All-change_day :
      (ds : List Day)
      → All P ds
      → P (day_at epoch)
      → ((d : Day) → P d → P (f d))
      → All P (change_day f epoch ds)
  unfolding change_day
  All-change_day ds h p k = elim (Option-cases (find_day epoch ds)) [
    | inl e ↦ rw (e, All) (All-change_first (insert_day epoch ds) (All-insert_day ds h p) k)
    | inr (d, e) ↦ rw (e, All) (All-change_first ds h k)
  ]
