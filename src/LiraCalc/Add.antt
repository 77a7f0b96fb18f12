-- ===== src/LiraCalc/Add.antt =====
-- servak_na_linux/server/add.cpp: what a POST request adds. The page of get_add_mash is one text
-- and is left out. A statement has room in `sql_query`.
pub mod Roman
pub mod Three
use java_io_tserver.Common.{
  ℕ, suc, Bool, true, false, Option, none, some, List, [], ◌∷◌, ◌++◌, ◌||◌, ◌>>=◌, length, leb,
  if◌then◌else◌,
}
use java_io_tserver.Common.Int.{ℤ, pos, ◌==ℤ◌, leb_ℤ}
use java_io_tserver.Common.Text.{Bytes, codes, to_string}
use java_io_tserver.Http.Request.{c_str}
use java_io_tserver.LiraCalc.MyTime.{MyTime}
use java_io_tserver.LiraCalc.Status.{Status, error, success, html}
use java_io_tserver.LiraCalc.Database.{
  Firebird, Statement, Column, Table, liry, zminny_lira, m_id, l_id, z_id, select_from, count_liry,
  insert_lira, new_lira, name_lira, written, connect_db, disconect_db, query,
}
use java_io_tserver.LiraCalc.Delete.{first_or}
use java_io_tserver.LiraCalc.Add.Roman.{to_roman}

unfoldable pub json : (z zm_poz : ℤ) → Bytes
json z zm_poz =
    codes "{\"z_id\":" ++ to_string z ++ codes ",\"zm_poz\":" ++ to_string zm_poz ++ codes "}"

unfoldable pub link_text : (z l m : ℤ) → Bytes
link_text z l m =
    codes "INSERT INTO ZMINNY_LIRA(Z_ID, L_ID, M_ID) VALUES ("
    ++ to_string z
    ++ codes ", "
    ++ to_string l
    ++ codes ", "
    ++ to_string m
    ++ codes ");"

is_nil_rows : List ℤ → Bool
is_nil_rows [] = true
is_nil_rows (v ∷ vs) = false

module _ {S : Type 0} (db : Firebird S) where
  -- A statement in a transaction of its own, and whether its commit failed.
  unfoldable pub attempt : (sql : Statement) → S → S × Bool
  attempt sql s =
      let (s1, unread) = db.isc_dsql_execute_immediate sql (db.isc_start_transaction s) in
      let (s2, failed) = db.isc_commit_transaction s1 in
      if failed then (db.isc_rollback_transaction s2, true) else (s2, false)

  -- The number that a query finds, and whether the query failed or found none.
  unfoldable pub find_one : (sql : Statement) → S → S × ℤ × Bool
  find_one sql s =
      let (s1, found) = db.rows sql (db.isc_start_transaction s) in
      let (s2, failed) = db.isc_commit_transaction s1 in
      let id = first_or (pos 0) found in
      if failed || id ==ℤ pos 0 then (db.isc_rollback_transaction s2, id, true) else (s2, id, false)

  -- Such a number with no look at a failure.
  unfoldable pub count_rows : (sql : Statement) → S → S × ℤ
  count_rows sql s =
      let (s1, found) = db.rows sql (db.isc_start_transaction s) in
      ((db.isc_commit_transaction s1).0, first_or (pos 0) found)

  -- The end of a request: detached, with its answer.
  unfoldable pub leave : Bytes → S → S × Bytes
  leave answer s = (disconect_db db s, answer)

  -- A last statement, and the answer if it is committed.
  unfoldable pub finish : (sql : Statement) (failure answer : Bytes) → S → S × Bytes
  finish sql failure answer s =
      let (s1, failed) = attempt sql s in leave (if failed then failure else answer) s1

  -- A new row with a mark in it, its number, and what is done with it under that number.
  unfoldable pub add_row :
      (insert find : Statement) (not_inserted not_found : Bytes) (named : ℤ → S → S × Bytes)
      → S
      → S × Bytes
  add_row insert find not_inserted not_found named s =
      let (s1, failed) = attempt insert s in
      let (s2, id, missing) = find_one find s1 in
      if failed then leave not_inserted s1 else if missing then leave not_found s2 else named id s2

  -- add_zminna for a variable that the machine has: it is linked to the lira once.
  unfoldable pub link_zminna : (m l z zm_poz : ℤ) → S → S × Bytes
  link_zminna m l z zm_poz s =
      let (s1, links, failed) =
        query db
          (written (
            codes "SELECT ZL_ID FROM ZMINNY_LIRA WHERE M_ID="
            ++ to_string m
            ++ codes " AND L_ID="
            ++ to_string l
            ++ codes " AND Z_ID="
            ++ to_string z
            ++ codes " "))
          s in
      if failed
      then leave (codes "ERROR SELECT * FROM ZMINNY_LIRA 118") s1
      else if first_or (pos 0) links ==ℤ pos 0
      then finish (written (link_text z l m)) (codes "ERROR INSERT INTO ZMINNY_LIRA 132")
          (json z zm_poz) s1
      else leave (json z zm_poz) s1

  -- The variables of a machine with a letter.
  unfoldable pub with_letter : (m : ℤ) (bukva : ℕ) → Statement
  with_letter m bukva = written (
      c_str (
        codes "SELECT Z_ID FROM ZMINNY WHERE M_ID="
        ++ to_string m
        ++ codes " AND BUKVA='"
        ++ bukva ∷ codes "'"))

  -- add_zminna for a letter that is new to the machine.
  unfoldable pub add_new_zminna : (m l : ℤ) (bukva : ℕ) (zm_poz : ℤ) → S → S × Bytes
  add_new_zminna m l bukva zm_poz =
      add_row
        (written (
          c_str (
            codes "INSERT INTO ZMINNY(M_ID, BUKVA, NPP_S) VALUES ("
            ++ to_string m
            ++ codes ", '"
            ++ bukva ∷ codes "', 0);")))
        (with_letter m bukva) (codes "ERROR INSERT INTO ZMINNY 149")
        (codes "ERROR SELECT * FROM ZMINNY 178")
        (λ new.
          finish (written (link_text new l m)) (codes "ERROR INSERT INTO ZMINNY_LIRA 192")
            (json new zm_poz))

  unfoldable pub add_zminna : (l : ℤ) (bukva : ℕ) (zm_poz : ℤ) → S → Option (S × Bytes)
  add_zminna l bukva zm_poz s = do
    s1 ← connect_db db s
    let (s2, m, missing) = find_one (select_from false m_id liry ((l_id, l) ∷ [])) s1
    let (s3, known, failed) = query db (with_letter m bukva) s2
    let z = first_or (pos 0) known
    some (
        if missing
        then leave (codes "ERROR SELECT * FROM LIRY 46") s2
        else if failed
        then leave (codes "ERROR SELECT * FROM ZMINNY 83") s3
        else if z ==ℤ pos 0
        then add_new_zminna m l bukva zm_poz s3
        else link_zminna m l z zm_poz s3)

  -- The name of a new position is its place among the positions of the switch.
  unfoldable pub name_npp : (z n : ℤ) → S → S × Bytes
  name_npp z n s =
      let (s1, npp_poz) =
        count_rows (written (codes "SELECT COUNT(*) FROM ZMINNY_NPP WHERE Z_ID=" ++ to_string z))
          s in
      finish
        (written (
          codes "UPDATE ZMINNY_NPP SET COMENT='"
          ++ to_roman npp_poz
          ++ codes "' WHERE N_ID="
          ++ to_string n))
        (codes "ERROR UPDATE ZMINNY_NPP 69") (to_string n) s1

  unfoldable pub add_zm_npp : (z : ℤ) → S → Option (S × Bytes)
  add_zm_npp z s = do
    s1 ← connect_db db s
    some (
        add_row
          (written (
            codes "INSERT INTO ZMINNY_NPP(Z_ID, ZNACHENNJA, UMOVA, COMENT) VALUES ("
            ++ to_string z
            ++ codes ", 1, '1=1', 'srakadupakurvamaty');"))
          (written (codes "SELECT N_ID FROM ZMINNY_NPP WHERE COMENT='srakadupakurvamaty'"))
          (codes "ERROR INSERT INTO ZMINNY_NPP 24") (codes "ERROR SELECT L_ID FROM ZMINNY_NPP 57")
          (name_npp z) s1)

  unfoldable pub add_umova : (l : ℤ) → S → Option (S × Bytes)
  add_umova l s = do
    s1 ← connect_db db s
    some (
        add_row
          (written (
            codes "INSERT INTO UMOVY(L_ID, UMOVA) VALUES ("
            ++ to_string l
            ++ codes ", 'qqqqqqqqqqqqqqqqq');"))
          (written (codes "SELECT U_ID FROM UMOVY WHERE UMOVA='qqqqqqqqqqqqqqqqq'"))
          (codes "ERROR INSERT INTO UMOVY 22") (codes "ERROR SELECT U_ID FROM UMOVY 55")
          (λ u.
            finish (written (codes "UPDATE UMOVY SET UMOVA='1=1' WHERE U_ID=" ++ to_string u))
              (codes "ERROR UPDATE ZMINNY_NPP 69") (to_string u))
          s1)

  -- add_lira behind its count.
  unfoldable pub insert_new_lira : (m : ℤ) → S → S × Bytes
  insert_new_lira m =
      add_row (insert_lira m) (new_lira m) (codes "ERROR INSERT INTO LIRY 64")
        (codes "ERROR SELECT L_ID FROM LIRY 97")
        (λ l. finish (name_lira l) (codes "ERROR UPDATE LIRY 109") (to_string l))

  unfoldable pub add_lira : (m : ℤ) → S → Option (S × Bytes)
  add_lira m s = do
    s1 ← connect_db db s
    let (s2, counts, failed) = query db (count_liry m) s1
    some (
        if failed
        then leave (codes "ERROR SELECT * FROM LIRY 43") s2
        else if leb_ℤ (pos 3) (first_or (pos 0) counts)
        then leave (codes "error: max 3 liry") s2
        else insert_new_lira m s2)

  -- post_add_mash behind its checks: the answer is the number of the new machine, or a message.
  unfoldable pub insert_mash : MyTime → (mash m1 : Bytes) → S → S × Bytes
  unfolding is_nil_rows
  insert_mash mt mash m1 s =
      let (s1, failed) =
        attempt
          (written (
            codes "INSERT INTO MASHYNES(NAME, M1) VALUES('"
            ++ mash
            ++ codes "','"
            ++ m1
            ++ codes "')"))
          s in
      let (s2, found) =
        db.rows (written (codes "SELECT M_ID FROM MASHYNES WHERE NAME='" ++ mash ++ codes "'"))
          (db.isc_start_transaction s1) in
      let s3 = (db.isc_commit_transaction s2).0 in
      if failed
      then leave
          (html mt (
            error (codes "M1(M2) maje literu abo NAME maje ne-ASCII symvoly.")
              (codes "srv_m1m2_or_name") [] [])).1
          s1
      else if is_nil_rows found
      then leave (html mt (error (codes "M1(M2) maje literu.") (codes "srv_m1m2") [] [])).1 s3
      else leave (to_string (first_or (pos 0) found)) s3

  unfoldable pub post_add_mash : MyTime → (mash m1 : Bytes) → S → Option (S × Bytes)
  unfolding is_nil_rows
  post_add_mash mt mash m1 s = do
    s1 ← connect_db db s
    let (s2, same_name, failed) =
        query db (written (codes "SELECT M_ID FROM MASHYNES WHERE NAME='" ++ mash ++ codes "'")) s1
    let exists =
        if is_nil_rows same_name
        then []
        else error (codes "taka mashynka vzhe isnuje") (codes "srv_mash_exists") [] []
    let checked =
        if leb (length mash) 1
        then error (codes "im'ja verstata maje buty dovshe 1 symvola.") (codes "srv_name_min1") []
            exists
        else exists
    some (
        if failed
        then leave (codes "ERROR SELECT * FROM MASHYNES") s2
        else if success checked
        then insert_mash mt mash m1 s2
        else leave (html mt checked).1 s2)
