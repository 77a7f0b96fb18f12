-- ===== src/MachineTime/Device/Order.antt =====
-- find_or_create_day keeps a list of days in ascending order.
use java_io_tserver.Common.{
  ◌≡◌, ◌∙◌, refl, inl, inr, Bool, true, false, ◌&&◌, List, [], ◌∷◌, none, Bool-cases, Option-cases,
  arith,
}
use java_io_tserver.Common.Int.{ℤ, pos, negsuc, ◌==ℤ◌, ltb_ℤ}
use java_io_tserver.MachineTime.Day.{Day}
use java_io_tserver.MachineTime.Device.{find_day, insert_day, change_first, change_day}

-- All days are later than `t`, and in ascending order.
unfoldable later : ℤ → List Day → Bool
later t [] = true
later t (d ∷ ds) = ltb_ℤ t d.time && later d.time ds

-- The days are in ascending order, so that none stands twice.
unfoldable ascending : List Day → Bool
ascending [] = true
ascending (d ∷ ds) = later d.time ds

between : (a b : ℤ) → ltb_ℤ a b ≡ false → (a ==ℤ b) ≡ false → ltb_ℤ b a ≡ true
between (pos a) (pos b) = ground arith
between (pos a) (negsuc b) = ground arith
between (negsuc a) (pos b) = ground arith
between (negsuc a) (negsuc b) = ground arith

find_none :
    (epoch : ℤ) (d : Day) (ds : List Day)
    → find_day epoch (d ∷ ds) ≡ none
    → ((d.time ==ℤ epoch) ≡ false) × (find_day epoch ds ≡ none)
unfolding find_day
find_none epoch d ds h = ground (arith, h)

later-change_first :
    (f : Day → Day) (epoch t : ℤ) (ds : List Day)
    → ((d : Day) → (f d).time ≡ d.time)
    → later t (change_first f epoch ds) ≡ later t ds
unfolding later change_first
later-change_first f epoch t [] h = refl
later-change_first f epoch t (d ∷ ds) h = elim (Bool-cases (d.time ==ℤ epoch)) [
  | inl e ↦ rw (e, h d) refl
  | inr e ↦ rw (e, later-change_first f epoch d.time ds h) refl
]

both : (a b : Bool) → a && b ≡ true → (a ≡ true) × (b ≡ true)
both true b h = (refl, h)
both false b h = absurd (ground (arith, h))

later-insert_day :
    (epoch t : ℤ) (ds : List Day)
    → ltb_ℤ t epoch ≡ true
    → find_day epoch ds ≡ none
    → later t ds ≡ true
    → later t (insert_day epoch ds) ≡ true
unfolding later insert_day
later-insert_day epoch t [] lt n h = rw lt refl
later-insert_day epoch t (d ∷ ds) lt n h =
    let (other, n') = find_none epoch d ds n in
    let (first, rest) = both (ltb_ℤ t d.time) (later d.time ds) h in
    elim (Bool-cases (ltb_ℤ d.time epoch)) [
      | inl e ↦ rw (e, first) (later-insert_day epoch d.time ds e n' rest)
      | inr e ↦ rw (e, lt, between d.time epoch e other, rest) refl
    ]

ascending-insert_day :
    (epoch : ℤ) (ds : List Day)
    → find_day epoch ds ≡ none
    → ascending ds ≡ true
    → ascending (insert_day epoch ds) ≡ true
unfolding ascending later insert_day
ascending-insert_day epoch [] n h = refl
ascending-insert_day epoch (d ∷ ds) n h =
    let (other, n') = find_none epoch d ds n in
    elim (Bool-cases (ltb_ℤ d.time epoch)) [
      | inl e ↦ rw e (later-insert_day epoch d.time ds e n' h)
      | inr e ↦ rw (e, between d.time epoch e other, h) refl
    ]

ascending-change_first :
    (f : Day → Day) (epoch : ℤ) (ds : List Day)
    → ((d : Day) → (f d).time ≡ d.time)
    → ascending (change_first f epoch ds) ≡ ascending ds
unfolding ascending change_first
ascending-change_first f epoch [] h = refl
ascending-change_first f epoch (d ∷ ds) h = elim (Bool-cases (d.time ==ℤ epoch)) [
  | inl e ↦ rw (e, h d) refl
  | inr e ↦ rw e (later-change_first f epoch d.time ds h)
]

-- A change of the day that find_or_create_day gives keeps the days in ascending order, each once,
-- whether the day was there or is made, where the change keeps the number of the day.
ascending-change_day :
    (f : Day → Day) (epoch : ℤ) (ds : List Day)
    → ((d : Day) → (f d).time ≡ d.time)
    → ascending ds ≡ true
    → ascending (change_day f epoch ds) ≡ true
unfolding change_day
ascending-change_day f epoch ds h a = elim (Option-cases (find_day epoch ds)) [
  | inl e ↦
      rw (e, change_day)
        (ascending-change_first f epoch (insert_day epoch ds) h ∙ ascending-insert_day epoch ds e a)
  | inr (d, e) ↦ rw (e, change_day) (ascending-change_first f epoch ds h ∙ a)
]
