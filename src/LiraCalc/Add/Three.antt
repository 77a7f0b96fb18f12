-- ===== src/LiraCalc/Add/Three.antt =====
-- add.cpp, add_lira: a machine has at most three liry, as many as delete_mash has room for.
use java_io_tserver.Common.{
  ℕ, ◌+◌, ◌≡◌, ◌≤◌, refl, ap, ◌∙◌, Bool, false, Bool-cases, inl, inr, some, length, if◌then◌else◌,
  test_both, if_both, arith,
}
use java_io_tserver.Common.Int.{ℤ, pos, ◌==ℤ◌, ==ℤ_iff, leb_ℤ}
use java_io_tserver.Common.Text.{Bytes, codes}
use java_io_tserver.LiraCalc.Database.{
  Firebird, Statement, count_liry, insert_lira, new_lira, name_lira, connect_db, disconect_db,
  query,
}
use java_io_tserver.LiraCalc.Database.Tables.{Tables, IsFirebird}
use java_io_tserver.LiraCalc.Delete.{first_or}
use java_io_tserver.LiraCalc.Delete.Cascade.{liry_of}
use java_io_tserver.LiraCalc.Add.{
  attempt, find_one, leave, finish, add_row, insert_new_lira, add_lira,
}

-- How many liry a machine has.
abbrev pub count : ℤ → Tables → ℕ
count m T = length (liry_of m T)

-- What the statements of add_lira do: an INSERT adds no row or one, which is the machine's.
pub record Counts {S : Type 0} (db : Firebird S) (view : S → Tables) : Type 0 where
  pub count_kept : (m : ℤ) (s : S) → view (db.rows (count_liry m) s).0 ≡ view s
  pub counted :
      (m : ℤ) (s : S) → first_or (pos 0) (db.rows (count_liry m) s).1 ≡ pos (count m (view s))
  pub inserted :
      (m n : ℤ) (s : S)
      → count n (view (db.isc_dsql_execute_immediate (insert_lira m) s).0)
        ≤ (if n ==ℤ m then count n (view s) + 1 else count n (view s))
  pub find_kept : (m : ℤ) (s : S) → view (db.rows (new_lira m) s).0 ≡ view s
  pub renamed :
      (l n : ℤ) (s : S)
      → count n (view (db.isc_dsql_execute_immediate (name_lira l) s).0) ≡ count n (view s)
  pub rollback_kept :
      (s : S)
      → view (db.isc_rollback_transaction (db.isc_commit_transaction s).0)
        ≡ view (db.isc_commit_transaction s).0

module _ {S : Type 0} (db : Firebird S) (view : S → Tables) (law : IsFirebird db view)
    (counts : Counts db view) where
  -- No machine has more than three.
  unfoldable pub Three : S → Type 0
  Three s = (n : ℤ) → count n (view s) ≤ 3

  attempt-view :
      (sql : Statement) (s : S)
      → view (attempt db sql s).0
        ≡ view (db.isc_dsql_execute_immediate sql (db.isc_start_transaction s)).0
  unfolding attempt
  attempt-view sql s =
      let s1 = (db.isc_dsql_execute_immediate sql (db.isc_start_transaction s)).0 in
      rw (law.committed s1) (law.commit_kept s1)

  find_one-view : (m : ℤ) (s : S) → view (find_one db (new_lira m) s).0 ≡ view s
  unfolding find_one
  find_one-view m s =
      let s1 = (db.rows (new_lira m) (db.isc_start_transaction s)).0 in
      let same = law.commit_kept s1 ∙ (counts.find_kept m _ ∙ law.start_kept s) in
      test_both (λ (r : S × ℤ × Bool). view r.0 ≡ view s) _ _ _
        (λ h. counts.rollback_kept s1 ∙ same) (λ h. same)

  query-view :
      (m : ℤ) (s : S)
      → (view (query db (count_liry m) s).0 ≡ view s)
        × (first_or (pos 0) (query db (count_liry m) s).1 ≡ pos (count m (view s)))
        × ((query db (count_liry m) s).2 ≡ false)
  unfolding query
  query-view m s =
      let s1 = (db.rows (count_liry m) (db.isc_start_transaction s)).0 in
      rw (law.committed s1) (
        law.commit_kept s1 ∙ (counts.count_kept m _ ∙ law.start_kept s),
        counts.counted m _ ∙ ap (λ (T : Tables). pos (count m T)) (law.start_kept s),
        refl,
      )

  leave-Three : (answer : Bytes) (s : S) → Three s → Three (leave db answer s).0
  unfolding Three leave disconect_db
  leave-Three answer s h n = rw (law.detach_kept s) (h n)

  renamed-Three : (l : ℤ) (s : S) → Three s → Three (attempt db (name_lira l) s).0
  unfolding Three
  renamed-Three l s h n =
      let same =
        ap (count n) (attempt-view (name_lira l) s)
        ∙ (counts.renamed l n _ ∙ ap (count n) (law.start_kept s)) in
      rw same (h n)

  finish-Three :
      (l : ℤ) (failure answer : Bytes) (s : S)
      → Three s
      → Three (finish db (name_lira l) failure answer s).0
  unfolding finish
  finish-Three l failure answer s h = leave-Three _ _ (renamed-Three l s h)

  insert-Three :
      (m : ℤ) (s : S) → Three s → count m (view s) ≤ 2 → Three (attempt db (insert_lira m) s).0
  unfolding Three
  insert-Three m s h few n =
      let s1 = db.isc_start_transaction s in
      let same : count n (view s1) ≡ count n (view s) = ap (count n) (law.start_kept s) in
      rw (attempt-view (insert_lira m) s) (elim (Bool-cases (n ==ℤ m)) [
        | inl own ↦
            let bound : count n (view (db.isc_dsql_execute_immediate (insert_lira m) s1).0)
                ≤ count n (view s1) + 1 =
              rw own at (counts.inserted m n s1) in
            let mine : count n (view s) ≤ 2 = rw ((==ℤ_iff n m).0 own) few in
            omega (arith, bound, same, mine)
        | inr other ↦
            let bound : count n (view (db.isc_dsql_execute_immediate (insert_lira m) s1).0)
                ≤ count n (view s1) =
              rw other at (counts.inserted m n s1) in
            omega (arith, bound, same, h n)
      ])

  Three-view : {s t : S} → view t ≡ view s → Three s → Three t
  unfolding Three
  Three-view same h n = rw same (h n)

  -- The three ends of add_row.
  add_row-both :
      (P : S × Bytes → Type 0) (insert find : Statement) (not_inserted not_found : Bytes)
      → (named : ℤ → S → S × Bytes) (s : S) → P (leave db not_inserted (attempt db insert s).0)
      → P (leave db not_found (find_one db find (attempt db insert s).0).0)
      → P (
          named
            (find_one db find (attempt db insert s).0).1
            (find_one db find (attempt db insert s).0).0)
      → P (add_row db insert find not_inserted not_found named s)
  unfolding add_row
  add_row-both P insert find not_inserted not_found named s p q r =
      if_both P _ _ _ p (if_both P _ _ _ q r)

  insert_new_lira-Three :
      (m : ℤ) (s : S) → Three s → count m (view s) ≤ 2 → Three (insert_new_lira db m s).0
  unfolding insert_new_lira
  insert_new_lira-Three m s h few =
      let s1 = (attempt db (insert_lira m) s).0 in
      let h1 : Three s1 = insert-Three m s h few in
      let h2 : Three (find_one db (new_lira m) s1).0 = Three-view (find_one-view m s1) h1 in
      add_row-both (λ (r : S × Bytes). Three r.0) (insert_lira m) (new_lira m) _ _ _ s
        (leave-Three _ _ h1) (leave-Three _ _ h2) (finish-Three _ _ _ _ h2)

  -- add_lira keeps every machine at three liry or fewer: where a machine has three it answers
  -- "error: max 3 liry" and changes no table.
  pub add_lira-Three :
      (m : ℤ) (s : S)
      → Three s
      → (s' : S) × (answer : Bytes) × (add_lira db m s ≡ some (s', answer))
        × Three s'
        × (3 ≤ count m (view s) → (view s' ≡ view s) × (answer ≡ codes "error: max 3 liry"))
  unfolding add_lira connect_db leave disconect_db
  add_lira-Three m s h =
      let s1 = (db.isc_attach_database s).0 in
      let (kept, counted, fine) = query-view m s1 in
      let s2 = (query db (count_liry m) s1).0 in
      let same : view s2 ≡ view s = kept ∙ law.attach_kept s in
      let number : first_or (pos 0) (query db (count_liry m) s1).1 ≡ pos (count m (view s)) =
        counted ∙ ap (λ (T : Tables). pos (count m T)) (law.attach_kept s) in
      elim (Bool-cases (leb_ℤ (pos 3) (pos (count m (view s))))) [
        | inl full ↦
            let (last, answer) = leave db (codes "error: max 3 liry") s2 in
            let unchanged : view last ≡ view s = law.detach_kept s2 ∙ same in
            (
              last,
              answer,
              rw (law.attached s, fine, number, full) refl,
              Three-view unchanged h,
              λ three. (unchanged, refl),
            )
        | inr room ↦
            let few : count m (view s) ≤ 2 = ground (arith, room) in
            let (last, answer) = insert_new_lira db m s2 in
            (
              last,
              answer,
              rw (law.attached s, fine, number, room) refl,
              insert_new_lira-Three m s2 (Three-view same h) (rw same few),
              λ three. absurd (omega (arith, three, few)),
            )
      ]
