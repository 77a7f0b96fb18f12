-- ===== src/LiraCalc/Delete.antt =====
-- servak_na_linux/server/delete.cpp: what a DELETE request removes. An answer is the text that is
-- sent; `mt` is the time that stands beside the messages. A `while` loop over an array of three or
-- ten places stops at the first 0 and reads one place too far where there is none; here it ends.
pub mod Cascade
use java_io_tserver.Common.{
  ℕ, ◌==◌, Bool, true, false, Option, none, some, List, [], ◌∷◌, ◌++◌, ◌>>=◌, length, take,
  if◌then◌else◌,
}
use java_io_tserver.Common.Int.{ℤ, pos, ◌==ℤ◌}
use java_io_tserver.Common.Text.{Bytes, codes, to_string}
use java_io_tserver.LiraCalc.MyTime.{MyTime}
use java_io_tserver.LiraCalc.Status.{Status, info, error, success, html}
use java_io_tserver.LiraCalc.Database.{
  Firebird, Table, Column, mashynes, liry, zminny, zminny_npp, umovy, zminny_lira, m_id, l_id, z_id,
  n_id, u_id, npp_s, Statement, reset_switch, switches_of, only_in, switches_only_in, delete_from,
  select_from, connect_db, disconect_db, immediate, query,
}

-- The value of the first row, where there is one.
unfoldable pub first_or : ℤ → List ℤ → ℤ
first_or d [] = d
first_or d (v ∷ vs) = v

module _ {S : Type 0} (db : Firebird S) (mt : MyTime) where
  -- The end that the handlers share: a message where all went well, and the messages as HTML.
  unfoldable pub report : (done key : Bytes) → S × Status → S × Bytes
  unfolding disconect_db success info html
  report done key (s, st) =
      let shown = if success st then info done key [] st else st in
      (disconect_db db s, (html mt shown).1)

  -- The statement for each number up to the first 0.
  unfoldable pub each : (sql : ℤ → Statement) (message : Bytes) → List ℤ → S × Status → S × Status
  unfolding immediate
  each sql message [] w = w
  each sql message (v ∷ vs) w =
      let rest = each sql message vs (immediate db (sql v) message w) in
      if v ==ℤ pos 0 then w else rest

  unfoldable pub delete_zm_npp_all : (z : ℤ) → S → Option (S × Bytes)
  unfolding connect_db immediate report
  delete_zm_npp_all z s = do
    s1 ← connect_db db s
    let deleted =
        immediate db (delete_from true zminny_npp ((z_id, z) ∷ [])) (codes "ERROR 16 npp deleted")
          (s1, [])
    let reset = immediate db (reset_switch z) (codes "ERROR 25 npp all deleted") deleted
    some (report (codes "npp all deleted.") (codes "srv_npp_all_deleted") reset)

  unfoldable pub delete_zm_npp : (n : ℤ) → S → Option (S × Bytes)
  unfolding connect_db immediate report
  delete_zm_npp n s = do
    s1 ← connect_db db s
    some (
        report (codes "npp deleted.") (codes "srv_npp_deleted") (
          immediate db (delete_from true zminny_npp ((n_id, n) ∷ [])) (codes "ERROR 17 npp deleted")
            (s1, [])))

  unfoldable pub delete_um : (u : ℤ) → S → Option (S × Bytes)
  unfolding connect_db immediate report
  delete_um u s = do
    s1 ← connect_db db s
    some (
        report (codes "umova deleted.") (codes "srv_umova_deleted") (
          immediate db (delete_from true umovy ((u_id, u) ∷ [])) (codes "ERROR 17 umova deleted")
            (s1, [])))

  -- A query whose failure leaves a message.
  unfoldable pub ask : (sql : Statement) (message : Bytes) → S × Status → (S × Status) × List ℤ
  unfolding query error
  ask sql message (s, st) =
      let (s1, found, failed) = query db sql s in
      ((s1, if failed then error message [] [] st else st), found)

  -- The variable itself, which no other lira uses, and its positions if it is a switch.
  unfoldable pub delete_unused : (z : ℤ) → S × Status → S × Status
  unfolding ask immediate first_or
  delete_unused z w =
      let (w1, kinds) =
        ask (select_from true npp_s zminny ((z_id, z) ∷ [])) (codes "ERROR SELECT * 76") w in
      let w2 =
        immediate db (delete_from true zminny ((z_id, z) ∷ [])) (codes "ERROR DELETE FROM ZMINNY")
          w1 in
      if first_or (pos 0) kinds ==ℤ pos 0
      then w2
      else immediate db (delete_from true zminny_npp ((z_id, z) ∷ []))
          (codes "ERROR ZMINNY_NPP 102 umova deleted") w2

  unfoldable pub delete_zm : (l z : ℤ) → S → Option (S × Bytes)
  unfolding connect_db ask delete_unused immediate report
  delete_zm l z s = do
    s1 ← connect_db db s
    let (w1, machines) =
        ask (select_from true m_id liry ((l_id, l) ∷ [])) (codes "ERROR SELECT * FROM LIRY 43")
          (s1, [])
    let (w2, uses) =
        ask (select_from true z_id zminny_lira ((z_id, z) ∷ [])) (codes "ERROR SELECT * 76") w1
    let w3 = if length uses == 1 then delete_unused z w2 else w2
    some (
        report (codes "zminna deleted.") (codes "srv_zm_deleted") (
          immediate db (delete_from true zminny_lira ((l_id, l) ∷ (z_id, z) ∷ []))
            (codes "ERROR DELETE FROM ZMINNY_LIRA") w3))

  -- delete_mash behind its second query.
  unfoldable pub drop_mash : (m : ℤ) (switches : List ℤ) → S × Status → S × Bytes
  drop_mash m switches w =
      let drop_from =
        λ (t : Table). immediate db (delete_from true t ((m_id, m) ∷ [])) (codes "ERROR 109") in
      report (codes "OK") [] (
        drop_from mashynes (
          drop_from liry (
            drop_from zminny (
              drop_from zminny_lira (
                each (λ z. delete_from true zminny_npp ((z_id, z) ∷ [])) (codes "ERROR 109")
                  switches w)))))

  -- delete_mash behind its first query.
  unfoldable pub drop_liry : (m : ℤ) (all_liry : List ℤ) → S → S × Bytes
  drop_liry m all_liry s =
      let (s1, st) =
        each (λ l. delete_from true umovy ((l_id, l) ∷ [])) (codes "ERROR 58") all_liry (s, []) in
      let (s2, switches, failed) = query db (switches_of m) s1 in
      if failed then (disconect_db db s2, []) else drop_mash m (take 10 switches) (s2, st)

  unfoldable pub delete_mash : (m : ℤ) → S → Option (S × Bytes)
  delete_mash m s = do
    s1 ← connect_db db s
    let (s2, all_liry, failed) = query db (select_from true l_id liry ((m_id, m) ∷ [])) s1
    some (if failed then (disconect_db db s2, []) else drop_liry m (take 3 all_liry) s2)

  -- delete_lira behind its queries.
  unfoldable pub delete_all_of : (m l : ℤ) (unused switches : List ℤ) → S → S × Bytes
  unfolding each immediate report success html disconect_db
  delete_all_of m l unused switches s =
      let (s1, st) = immediate db (delete_from false liry ((l_id, l) ∷ [])) (codes "ERROR 179") (
        each (λ z. delete_from false zminny ((z_id, z) ∷ [])) (codes "ERROR 167") unused
          (each (λ z. delete_from false zminny_npp ((z_id, z) ∷ [])) (codes "ERROR 154") switches
            (immediate db (delete_from false zminny_lira ((l_id, l) ∷ [])) (codes "ERROR 142") (
              immediate db (delete_from false umovy ((l_id, l) ∷ []))
                (codes "ERROR INSERT INTO ZMINNY NPP_S") (s, []))))) in
      (
        disconect_db db s1,
        if success st
            then codes "<meta http-equiv=\"refresh\" content=\"0;url=./?m_id="
              ++ to_string m
              ++ codes "\">"
            else (html mt st).1,
      )

  unfoldable pub delete_lira : (l : ℤ) → S → Option (S × Bytes)
  unfolding connect_db query first_or delete_all_of disconect_db
  delete_lira l s = do
    s1 ← connect_db db s
    let (s2, machines, failed1) = query db (select_from true m_id liry ((l_id, l) ∷ [])) s1
    let m = first_or (pos 0) machines
    let (s3, unused, failed2) = query db (only_in m l) s2
    let (s4, switches, failed3) = query db (switches_only_in m l) s3
    some (
        if failed1
        then (disconect_db db s2, [])
        else if failed2
        then (disconect_db db s3, [])
        else if failed3
        then (s4, [])
        else delete_all_of m l (take 10 unused) (take 10 switches) s4)
