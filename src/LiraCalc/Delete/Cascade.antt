-- ===== src/LiraCalc/Delete/Cascade.antt =====
-- delete.cpp, delete_mash: nothing that belonged to the machine is left in any table.
use java_io_tserver.Common.{
  ℕ, zero, suc, ◌≡◌, ◌≢◌, ◌≤◌, refl, ap, ◌∙◌, Bool, true, false, not, some, List, [], ◌∷◌, All,
  length, take, map, ◌&&◌, arith, ◌==◌, Bool-cases, inl, inr,
}
use java_io_tserver.Common.Int.{ℤ, pos, ◌==ℤ◌, ==ℤ_iff}
use java_io_tserver.Common.Text.{Bytes, codes}
use java_io_tserver.LiraCalc.MyTime.{MyTime}
use java_io_tserver.LiraCalc.Status.{Status, info, success, html}
use java_io_tserver.LiraCalc.Database.{
  Firebird, Table, Column, Statement, mashynes, liry, zminny, zminny_npp, umovy, zminny_lira, m_id,
  l_id, z_id, npp_s, delete_from, select_from, switches_of, connect_db, disconect_db, immediate,
  query,
}
use java_io_tserver.LiraCalc.Database.Tables.{
  Row, Tables, IsFirebird, keep, contains, meets, remove, remove_each, remove_each_lem,
  remove_each_other, found, switches, index,
}
use java_io_tserver.LiraCalc.Delete.{report, each, drop_mash, drop_liry, delete_mash}

-- The liry of a machine.
unfoldable pub liry_of : ℤ → Tables → List ℤ
unfolding found
liry_of m T = found l_id liry ((m_id, m) ∷ []) T

-- The tables without a machine: no row of it, of its liry, of its variables, of the conditions of
-- its liry, or of the positions of its switches.
unfoldable pub without_mash : ℤ → Tables → Tables
unfolding keep contains meets liry_of switches
without_mash m T mashynes = keep (λ r. not (meets ((m_id, m) ∷ []) r)) (T mashynes)
without_mash m T liry = keep (λ r. not (meets ((m_id, m) ∷ []) r)) (T liry)
without_mash m T zminny = keep (λ r. not (meets ((m_id, m) ∷ []) r)) (T zminny)
without_mash m T zminny_lira = keep (λ r. not (meets ((m_id, m) ∷ []) r)) (T zminny_lira)
without_mash m T umovy = keep (λ r. not (contains (r l_id) (liry_of m T))) (T umovy)
without_mash m T zminny_npp = keep (λ r. not (contains (r z_id) (switches m T))) (T zminny_npp)

take_all {ℓ} : {A : Type ℓ} (n : ℕ) (xs : List A) → length xs ≤ n → take n xs ≡ xs
take_all zero [] h = refl
take_all zero (x ∷ xs) h = absurd (omega arith)
take_all (suc n) [] h = refl
take_all (suc n) (x ∷ xs) h = ap (◌∷◌ x) (take_all n xs (omega arith))

-- What delete_mash does to the tables.
after : ℤ → List ℤ → List ℤ → Tables → Tables
after m l_ids z_ids T =
    let own = (m_id, m) ∷ [] in
    remove mashynes own (
      remove liry own (
        remove zminny own (
          remove zminny_lira own
            (remove_each zminny_npp z_id z_ids (remove_each umovy l_id l_ids T)))))

-- A table that neither loop is about.
untouched :
    (m : ℤ) (T : Tables) (t : Table)
    → (index zminny_npp == index t) ≡ false
    → (index umovy == index t) ≡ false
    → remove_each zminny_npp z_id (switches m T) (remove_each umovy l_id (liry_of m T) T) t ≡ T t
untouched m T t p q =
    remove_each_other zminny_npp t z_id (switches m T) _ p
    ∙ remove_each_other umovy t l_id (liry_of m T) T q

after_lem :
    (m : ℤ) (T : Tables) (t : Table) → after m (liry_of m T) (switches m T) T t ≡ without_mash m T t
unfolding after without_mash remove index liry_of
after_lem m T mashynes = ap (keep _) (untouched m T mashynes refl refl)
after_lem m T liry = ap (keep _) (untouched m T liry refl refl)
after_lem m T zminny = ap (keep _) (untouched m T zminny refl refl)
after_lem m T zminny_lira = ap (keep _) (untouched m T zminny_lira refl refl)
after_lem m T zminny_npp =
    remove_each_lem zminny_npp z_id (switches m T) (remove_each umovy l_id (liry_of m T) T)
    ∙ ap (keep _) (remove_each_other umovy zminny_npp l_id (liry_of m T) T refl)
after_lem m T umovy =
    remove_each_other zminny_npp umovy z_id (switches m T) (remove_each umovy l_id (liry_of m T) T)
      refl
    ∙ remove_each_lem umovy l_id (liry_of m T) T

module _ {S : Type 0} (db : Firebird S) (view : S → Tables) (law : IsFirebird db view)
    (mt : MyTime) where
  -- A state with what its tables are, and no message.
  Holding : S × Status → Tables → Type 0
  Holding w T = (view w.0 ≡ T) × (w.1 ≡ [])

  immediate-Holding :
      (quoted : Bool) (t : Table) (c : Column × ℤ) (cs : List (Column × ℤ)) (message : Bytes)
      → (w : S × Status) (T : Tables) → Holding w T
      → Holding (immediate db (delete_from quoted t (c ∷ cs)) message w) (remove t (c ∷ cs) T)
  unfolding Holding immediate
  immediate-Holding quoted t c cs message (s, st) T (same, no_message) =
      let s0 = db.isc_start_transaction s in
      let s1 = (db.isc_dsql_execute_immediate (delete_from quoted t (c ∷ cs)) s0).0 in
      rw (law.committed s1) (
        law.commit_kept s1
            ∙ (law.deleted quoted t c cs s0 ∙ ap (remove t (c ∷ cs)) (law.start_kept s ∙ same)),
        no_message,
      )

  each-Holding :
      (quoted : Bool) (t : Table) (c : Column) (message : Bytes) (vs : List ℤ)
      → (w : S × Status) (T : Tables) → All (λ v. v ≢ pos 0) vs
      → Holding w T
      → Holding
          (each db mt (λ v. delete_from quoted t ((c, v) ∷ [])) message vs w)
          (remove_each t c vs T)
  unfolding each remove_each
  each-Holding quoted t c message [] w T h k = k
  each-Holding quoted t c message (v ∷ vs) w T (other, h) k =
      let not_zero : (v ==ℤ pos 0) ≡ false = elim (Bool-cases (v ==ℤ pos 0)) [
        | inl same ↦ absurd (other ((==ℤ_iff v (pos 0)).0 same))
        | inr e ↦ e
      ] in
      rw not_zero (
        each-Holding quoted t c message vs _ _ h
          (immediate-Holding quoted t (c, v) [] message w T k))

  query-Holding :
      (sql : Statement) (s : S) (T : Tables)
      → view s ≡ T
      → ((s1 : S) → view (db.rows sql s1).0 ≡ view s1)
      → (view (query db sql s).0 ≡ T)
        × ((query db sql s).1 ≡ (db.rows sql (db.isc_start_transaction s)).1)
        × ((query db sql s).2 ≡ false)
  unfolding query
  query-Holding sql s T same kept =
      let s1 = (db.rows sql (db.isc_start_transaction s)).0 in
      rw (law.committed s1) (law.commit_kept s1 ∙ (kept _ ∙ (law.start_kept s ∙ same)), refl, refl)

  report-Holding :
      (done key : Bytes) (w : S × Status) (T : Tables)
      → Holding w T
      → (view (report db mt done key w).0 ≡ T)
        × ((report db mt done key w).1 ≡ (html mt (info done key [] [])).1)
  unfolding report success disconect_db Holding
  report-Holding done key (s, st) T (same, no_message) =
      (law.detach_kept s ∙ same, rw no_message refl)

  drop-Holding :
      (t : Table) (m : ℤ) (w : S × Status) (T : Tables)
      → Holding w T
      → Holding
          (immediate db (delete_from true t ((m_id, m) ∷ [])) (codes "ERROR 109") w)
          (remove t ((m_id, m) ∷ []) T)
  drop-Holding t m = immediate-Holding true t (m_id, m) [] (codes "ERROR 109")

  drop_mash-Holding :
      (m : ℤ) (l_ids z_ids : List ℤ) (w : S × Status) (T : Tables)
      → Holding w (remove_each umovy l_id l_ids T)
      → All (λ v. v ≢ pos 0) z_ids
      → (view (drop_mash db mt m z_ids w).0 ≡ after m l_ids z_ids T)
        × ((drop_mash db mt m z_ids w).1 ≡ (html mt (info (codes "OK") [] [] [])).1)
  unfolding drop_mash after
  drop_mash-Holding m l_ids z_ids w T now not_zero = report-Holding (codes "OK") [] _ _ (
      drop-Holding mashynes m _ _ (
        drop-Holding liry m _ _ (
          drop-Holding zminny m _ _ (
            drop-Holding zminny_lira m _ _
              (each-Holding true zminny_npp z_id (codes "ERROR 109") z_ids w _ not_zero now)))))

  -- The conditions of the liry are not where the switches are found.
  switches_after :
      (m : ℤ) (T : Tables) → switches m (remove_each umovy l_id (liry_of m T) T) ≡ switches m T
  unfolding switches index
  switches_after m T =
      ap
        (λ (rows : List Row).
          map (λ (r : Row). r z_id)
            (keep (λ (r : Row). r m_id ==ℤ m && not (r npp_s ==ℤ pos 0)) rows))
        (remove_each_other umovy zminny l_id (liry_of m T) T refl)

  drop_liry_lem :
      (m : ℤ) (s : S) (T : Tables)
      → view s ≡ T
      → All (λ v. v ≢ pos 0) (liry_of m T)
      → length (switches m T) ≤ 10
      → All (λ v. v ≢ pos 0) (switches m T)
      → (view (drop_liry db mt m (liry_of m T) s).0 ≡ after m (liry_of m T) (switches m T) T)
        × ((drop_liry db mt m (liry_of m T) s).1 ≡ (html mt (info (codes "OK") [] [] [])).1)
  unfolding drop_liry Holding
  drop_liry_lem m s T same l0 few z0 =
      let w =
        each db mt (λ l. delete_from true umovy ((l_id, l) ∷ [])) (codes "ERROR 58") (liry_of m T)
          (s, []) in
      let (now, no_message) =
        each-Holding true umovy l_id (codes "ERROR 58") (liry_of m T) (s, []) T l0 (same, refl) in
      let (kept, rows, fine) = query-Holding (switches_of m) w.0 _ now (law.switches_kept m) in
      let listed : take 10 (query db (switches_of m) w.0).1 ≡ switches m T =
        ap (take 10) (
          rows
          ∙ (law.switches_found m _
              ∙ (ap (switches m) (law.start_kept w.0 ∙ now) ∙ switches_after m T)))
        ∙ take_all 10 _ few in
      rw (fine, listed) (drop_mash-Holding m (liry_of m T) (switches m T) _ T (kept, no_message) z0)

  -- On a database that attaches and commits, delete_mash leaves the tables without the machine:
  -- its own row, its liry, their conditions, its variables, their uses and the positions of its
  -- switches are gone, every other row stays, and "OK" is answered. The machine has at most three
  -- liry and ten switches, none of them numbered 0.
  pub delete_mash_lem :
      (m : ℤ) (s : S)
      → length (liry_of m (view s)) ≤ 3
      → All (λ v. v ≢ pos 0) (liry_of m (view s))
      → length (switches m (view s)) ≤ 10
      → All (λ v. v ≢ pos 0) (switches m (view s))
      → (s' : S) × (delete_mash db mt m s ≡ some (s', (html mt (info (codes "OK") [] [] [])).1))
        × ((t : Table) → view s' t ≡ without_mash m (view s) t)
  unfolding delete_mash connect_db liry_of
  delete_mash_lem m s few_l l0 few_z z0 =
      let s1 = (db.isc_attach_database s).0 in
      let all_liry = select_from true l_id liry ((m_id, m) ∷ []) in
      let (kept, rows, fine) =
        query-Holding all_liry s1 (view s) (law.attach_kept s)
          (law.select_kept true l_id liry (m_id, m) []) in
      let listed : take 3 (query db all_liry s1).1 ≡ liry_of m (view s) =
        ap (take 3) (
          rows
          ∙ (law.selected true l_id liry (m_id, m) [] _
              ∙ ap (found l_id liry ((m_id, m) ∷ [])) (law.start_kept s1 ∙ law.attach_kept s)))
        ∙ take_all 3 _ few_l in
      let (tables, answer) = drop_liry_lem m (query db all_liry s1).0 (view s) kept l0 few_z z0 in
      (
        _,
        rw (law.attached s, fine, listed, answer) refl,
        λ t. ap (λ (T : Tables). T t) tables ∙ after_lem m (view s) t,
      )
