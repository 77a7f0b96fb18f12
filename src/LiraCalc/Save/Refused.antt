-- ===== src/LiraCalc/Save/Refused.antt =====
-- save.cpp: a request that a check refuses stores nothing.
use java_io_tserver.Common.{
  ℕ, ◌+◌, ◌≡◌, ◌<◌, refl, ap, ◌∙◌, Bool, true, false, not, ◌&&◌, ◌||◌, Option, some, List, [], ◌∷◌,
  ◌++◌, length, length-append, ltb, if◌then◌else◌, arith,
}
use java_io_tserver.Common.Int.{ℤ, pos, ◌==ℤ◌, ltb_ℤ}
use java_io_tserver.Common.Text.{Bytes}
use java_io_tserver.LiraCalc.MyTime.{MyTime}
use java_io_tserver.LiraCalc.Status.{Status, Message, error, success, html}
use java_io_tserver.LiraCalc.Database.{Firebird}
use java_io_tserver.LiraCalc.Save.{
  Double, refuse, check_zm, check_usl, check_npp, check_mash, check_lira, if_valid, save_zm,
  save_usl, save_npp, save_mash, save_lira,
}

-- How many of the faults a request has.
unfoldable pub faults : List Bool → ℕ
faults [] = 0
faults (f ∷ fs) = (if f then 1 else 0) + faults fs

success-append : (st : Status) (m : Message) → success (st ++ m ∷ []) ≡ (success st && not m.type)
unfolding success
success-append [] m = ground arith
success-append (x ∷ st) m = ground (arith, success-append st m)

-- The messages are one for each fault, and none is a success if there is one.
Counted : Status → ℕ → Type 0
Counted st n = (length st ≡ n) × (0 < n → success st ≡ false)

no_fault : Counted [] 0
unfolding Counted
no_fault = (refl, λ h. absurd (omega arith))

refuse-Counted :
    (b : Bool) (message key arg : Bytes) (st : Status) (n : ℕ)
    → Counted st n
    → Counted (refuse b message key arg st) (n + (if b then 1 else 0))
unfolding Counted refuse error
refuse-Counted true message key arg st n (many, bad) =
    let m : Message = record { type = true; message = message; key = key; arg = arg } in
    (
      length-append st (m ∷ []) ∙ ap (λ (k : ℕ). k + 1) many,
      λ h. ground (arith, success-append st m),
    )
refuse-Counted false message key arg st n (many, bad) = (many ∙ omega arith, λ h. bad (omega arith))

-- A request to save, with what the handler of each is given.
pub data Saving : Type 0 where
  zm : (m l z : ℤ) (bukva : ℕ) (npp : ℤ) (name : Bytes) (znach : Double) → Saving
  usl : (u l : ℤ) (umova : Bytes) → Saving
  npp : (n z : ℤ) (znach : Double) (umova coment : Bytes) → Saving
  mash : (m : ℤ) (name m1 m2 : Bytes) → Saving
  lira : (m l : ℤ) (name : Bytes) (magaz br_kol_lir : ℤ) (form form_zv : Bytes) → Saving

-- What can be wrong with each.
unfoldable pub faults_of : Saving → List Bool
faults_of (zm m l z bukva n name znach) =
    (ltb_ℤ n (pos 0) || ltb_ℤ (pos 2) n) ∷ (m ==ℤ pos 0 || z ==ℤ pos 0) ∷ []
faults_of (usl u l umova) = ltb (length umova) 3 ∷ (u ==ℤ pos 0 || l ==ℤ pos 0) ∷ []
faults_of (npp n z znach umova coment) =
    ltb (length umova) 3 ∷ ltb (length coment) 1 ∷ (n ==ℤ pos 0 || z ==ℤ pos 0) ∷ znach.is_zero ∷ []
faults_of (mash m name m1 m2) = ltb (length name) 3 ∷ ltb (length m1) 3 ∷ []
faults_of (lira m l name magaz br_kol_lir form form_zv) =
    ltb (length name) 3
    ∷ ltb (length form) 3
    ∷ ltb (length form_zv) 3
    ∷ (m ==ℤ pos 0 || l ==ℤ pos 0)
    ∷ not (magaz ==ℤ pos 1 || magaz ==ℤ pos 2)
    ∷ (ltb_ℤ br_kol_lir (pos 2) || ltb_ℤ (pos 4) br_kol_lir)
    ∷ []

-- The messages of its checks.
unfoldable pub check : Saving → Status
check (zm m l z bukva n name znach) = check_zm m z n
check (usl u l umova) = check_usl u l umova
check (npp n z znach umova coment) = check_npp n z znach umova coment
check (mash m name m1 m2) = check_mash name m1
check (lira m l name magaz br_kol_lir form form_zv) =
    check_lira m l name magaz br_kol_lir form form_zv

one : Bool → ℕ
one b = if b then 1 else 0

sums2 : (a b : Bool) → one a + (one b + 0) ≡ 0 + one a + one b
unfolding one
sums2 a b = omega arith

sums4 :
    (a b c d : Bool) → one a + (one b + (one c + (one d + 0))) ≡ 0 + one a + one b + one c + one d
unfolding one
sums4 a b c d = omega arith

sums6 :
    (a b c d e f : Bool)
    → one a + (one b + (one c + (one d + (one e + (one f + 0)))))
      ≡ 0 + one a + one b + one c + one d + one e + one f
unfolding one
sums6 a b c d e f = omega arith

not_or : (a b : Bool) → not (a || b) ≡ (not a && not b)
not_or true b = refl
not_or false b = refl

two_checks :
    (a b : Bool) (t1 k1 a1 t2 k2 a2 : Bytes)
    → Counted (refuse b t2 k2 a2 (refuse a t1 k1 a1 [])) (0 + one a + one b)
unfolding one
two_checks a b t1 k1 a1 t2 k2 a2 = refuse-Counted _ _ _ _ _ _ (refuse-Counted _ _ _ _ _ _ no_fault)

check-Counted : (r : Saving) → Counted (check r) (faults (faults_of r))
unfolding check check_zm check_usl check_npp check_mash check_lira faults faults_of one
check-Counted (zm m l z bukva n name znach) = rw (sums2 _ _) (two_checks _ _ _ _ _ _ _ _)
check-Counted (usl u l umova) = rw (sums2 _ _) (two_checks _ _ _ _ _ _ _ _)
check-Counted (npp n z znach umova coment) =
    rw (sums4 _ _ _ _)
      (refuse-Counted _ _ _ _ _ _ (refuse-Counted _ _ _ _ _ _ (two_checks _ _ _ _ _ _ _ _)))
check-Counted (mash m name m1 m2) = rw (sums2 _ _) (two_checks _ _ _ _ _ _ _ _)
check-Counted (lira m l name magaz br_kol_lir form form_zv) =
    rw (not_or (magaz ==ℤ pos 1) (magaz ==ℤ pos 2), sums6 _ _ _ _ _ _)
      (refuse-Counted _ _ _ _ _ _ (
        refuse-Counted _ _ _ _ _ _
          (refuse-Counted _ _ _ _ _ _ (refuse-Counted _ _ _ _ _ _ (two_checks _ _ _ _ _ _ _ _)))))

module _ {S : Type 0} (db : Firebird S) (mt : MyTime) where
  -- The handler of a request.
  unfoldable pub perform : Saving → S → Option (S × Bytes)
  perform (zm m l z bukva n name znach) = save_zm db mt m l z bukva n name znach
  perform (usl u l umova) = save_usl db mt u l umova
  perform (npp n z znach umova coment) = save_npp db mt n z znach umova coment
  perform (mash m name m1 m2) = save_mash db mt m name m1 m2
  perform (lira m l name magaz br_kol_lir form form_zv) =
      save_lira db mt m l name magaz br_kol_lir form form_zv

  perform-shut :
      (r : Saving) (s : S)
      → success (check r) ≡ false
      → perform r s ≡ some (s, (html mt (check r)).1)
  unfolding perform save_zm save_usl save_npp save_mash save_lira check if_valid
  perform-shut (zm m l z bukva n name znach) s bad = rw bad refl
  perform-shut (usl u l umova) s bad = rw bad refl
  perform-shut (npp n z znach umova coment) s bad = rw bad refl
  perform-shut (mash m name m1 m2) s bad = rw bad refl
  perform-shut (lira m l name magaz br_kol_lir form form_zv) s bad = rw bad refl

  -- A request to save that has a fault is refused: the database is not asked for anything, and the
  -- answer has one message for each of the faults.
  pub perform-refused :
      (r : Saving) (s : S)
      → 0 < faults (faults_of r)
      → (perform r s ≡ some (s, (html mt (check r)).1)) × (length (check r) ≡ faults (faults_of r))
  unfolding Counted
  perform-refused r s h = let (many, bad) = check-Counted r in (perform-shut r s (bad h), many)
