-- ===== src/LiraCalc/Database/Tables.antt =====
-- What the statements of the program mean: the tables as lists of rows. Which database a state `s`
-- stands for is `view s`.
use java_io_tserver.Common.{
  ℕ, ◌≡◌, refl, ap, ◌∙◌, Bool, true, false, not, ◌&&◌, ◌||◌, List, [], ◌∷◌, map, ◌==◌,
  if◌then◌else◌, arith,
}
use java_io_tserver.Common.Int.{ℤ, pos, ◌==ℤ◌}
use java_io_tserver.LiraCalc.Database.{
  Firebird, Table, Column, mashynes, liry, zminny, zminny_npp, umovy, zminny_lira, m_id, z_id,
  npp_s, delete_from, select_from, switches_of,
}

abbrev pub Row : Type 0
Row = Column → ℤ

abbrev pub Tables : Type 0
Tables = Table → List Row

-- The rows that pass a test, in their order.
unfoldable pub keep : (Row → Bool) → List Row → List Row
keep test [] = []
keep test (r ∷ rs) = let rest = keep test rs in if test r then r ∷ rest else rest

-- Whether a row meets the conditions of a statement.
unfoldable pub meets : List (Column × ℤ) → Row → Bool
meets [] r = true
meets ((c, v) ∷ cs) r = r c ==ℤ v && meets cs r

unfoldable pub contains : ℤ → List ℤ → Bool
contains v [] = false
contains v (w ∷ ws) = v ==ℤ w || contains v ws

unfoldable pub index : Table → ℕ
index mashynes = 0
index liry = 1
index zminny = 2
index zminny_npp = 3
index umovy = 4
index zminny_lira = 5

-- DELETE.
unfoldable pub remove : Table → List (Column × ℤ) → Tables → Tables
unfolding keep meets index
remove t cs T u = if index t == index u then keep (λ r. not (meets cs r)) (T u) else T u

-- SELECT of one column.
unfoldable pub found : Column → Table → List (Column × ℤ) → Tables → List ℤ
unfolding keep meets
found c t cs T = map (λ r. r c) (keep (meets cs) (T t))

-- The switches of a machine.
unfoldable pub switches : ℤ → Tables → List ℤ
unfolding keep
switches m T = map (λ r. r z_id) (keep (λ r. r m_id ==ℤ m && not (r npp_s ==ℤ pos 0)) (T zminny))

-- A database that is attached, commits what it is given, and deletes and finds the rows that a
-- statement names.
pub record IsFirebird {S : Type 0} (db : Firebird S) (view : S → Tables) : Type 0 where
  pub attached : (s : S) → (db.isc_attach_database s).1 ≡ false
  pub attach_kept : (s : S) → view (db.isc_attach_database s).0 ≡ view s
  pub detach_kept : (s : S) → view (db.isc_detach_database s) ≡ view s
  pub start_kept : (s : S) → view (db.isc_start_transaction s) ≡ view s
  pub committed : (s : S) → (db.isc_commit_transaction s).1 ≡ false
  pub commit_kept : (s : S) → view (db.isc_commit_transaction s).0 ≡ view s
  pub deleted :
      (quoted : Bool) (t : Table) (c : Column × ℤ) (cs : List (Column × ℤ)) (s : S)
      → view (db.isc_dsql_execute_immediate (delete_from quoted t (c ∷ cs)) s).0
        ≡ remove t (c ∷ cs) (view s)
  pub select_kept :
      (quoted : Bool) (c : Column) (t : Table) (d : Column × ℤ) (cs : List (Column × ℤ)) (s : S)
      → view (db.rows (select_from quoted c t (d ∷ cs)) s).0 ≡ view s
  pub selected :
      (quoted : Bool) (c : Column) (t : Table) (d : Column × ℤ) (cs : List (Column × ℤ)) (s : S)
      → (db.rows (select_from quoted c t (d ∷ cs)) s).1 ≡ found c t (d ∷ cs) (view s)
  pub switches_kept : (m : ℤ) (s : S) → view (db.rows (switches_of m) s).0 ≡ view s
  pub switches_found : (m : ℤ) (s : S) → (db.rows (switches_of m) s).1 ≡ switches m (view s)

-- A DELETE for each of the numbers.
unfoldable pub remove_each : Table → Column → List ℤ → Tables → Tables
unfolding remove
remove_each t c [] T = T
remove_each t c (v ∷ vs) T = remove_each t c vs (remove t ((c, v) ∷ []) T)

keep-keep :
    (p q r : Row → Bool) (rows : List Row)
    → ((x : Row) → r x ≡ (q x && p x))
    → keep p (keep q rows) ≡ keep r rows
unfolding keep
keep-keep p q r [] h = refl
keep-keep p q r (x ∷ xs) h = ground (arith, h x, keep-keep p q r xs h)

keep_all : (p : Row → Bool) (rows : List Row) → ((x : Row) → p x ≡ true) → rows ≡ keep p rows
unfolding keep
keep_all p [] h = refl
keep_all p (x ∷ xs) h = ground (arith, h x, keep_all p xs h)

not_or : (a b : Bool) → not (a || b) ≡ (not (a && true) && not b)
not_or true b = refl
not_or false b = refl

remove_self :
    (t : Table) (cs : List (Column × ℤ)) (T : Tables)
    → remove t cs T t ≡ keep (λ r. not (meets cs r)) (T t)
unfolding remove
remove_self t cs T = let same : (index t == index t) ≡ true = ground arith in rw same refl

-- Together they are one: the rows whose number is not among them stay.
pub remove_each_lem :
    (t : Table) (c : Column) (vs : List ℤ) (T : Tables)
    → remove_each t c vs T t ≡ keep (λ r. not (contains (r c) vs)) (T t)
unfolding remove_each contains
remove_each_lem t c [] T = keep_all _ (T t) (λ x. refl)
remove_each_lem t c (v ∷ vs) T =
    remove_each_lem t c vs (remove t ((c, v) ∷ []) T)
    ∙ (ap (keep _) (remove_self t ((c, v) ∷ []) T)
        ∙ keep-keep _ _ _ (T t) (λ x. not_or (x c ==ℤ v) _))

-- Every other table is as it was.
pub remove_each_other :
    (t u : Table) (c : Column) (vs : List ℤ) (T : Tables)
    → (index t == index u) ≡ false
    → remove_each t c vs T u ≡ T u
unfolding remove_each remove
remove_each_other t u c [] T h = refl
remove_each_other t u c (v ∷ vs) T h = remove_each_other t u c vs _ h ∙ rw h refl
