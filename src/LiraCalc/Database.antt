-- ===== src/LiraCalc/Database.antt =====
-- servak_na_linux/server/db.cpp: the connection to the database, and the statements that the other
-- files hand to it. Firebird is not part of the repository: an interface of the functions
-- of its library, over a state `S` that is left open.
pub mod Tables
use java_io_tserver.Common.{
  Bool, true, false, Option, none, some, List, [], ◌∷◌, ◌++◌, if◌then◌else◌,
}
use java_io_tserver.Common.Int.{ℤ}
use java_io_tserver.Common.Text.{Bytes, codes, to_string}
use java_io_tserver.LiraCalc.Status.{Status, error}

pub data Table : Type 0 where
  mashynes : Table
  liry : Table
  zminny : Table
  zminny_npp : Table
  umovy : Table
  zminny_lira : Table

pub data Column : Type 0 where
  m_id : Column
  l_id : Column
  z_id : Column
  n_id : Column
  u_id : Column
  npp_s : Column

unfoldable pub table_name : Table → Bytes
table_name mashynes = codes "MASHYNES"
table_name liry = codes "LIRY"
table_name zminny = codes "ZMINNY"
table_name zminny_npp = codes "ZMINNY_NPP"
table_name umovy = codes "UMOVY"
table_name zminny_lira = codes "ZMINNY_LIRA"

unfoldable pub column_name : Column → Bytes
column_name m_id = codes "M_ID"
column_name l_id = codes "L_ID"
column_name z_id = codes "Z_ID"
column_name n_id = codes "N_ID"
column_name u_id = codes "U_ID"
column_name npp_s = codes "NPP_S"

-- A number in a statement: '%d' or %d.
unfoldable pub number_text : (quoted : Bool) → ℤ → Bytes
number_text true v = codes "'" ++ to_string v ++ codes "'"
number_text false v = to_string v

-- The conditions of a statement.
unfoldable pub where_text : (quoted : Bool) → List (Column × ℤ) → Bytes
unfolding column_name number_text
where_text quoted [] = []
where_text quoted ((c, v) ∷ []) = column_name c ++ codes "=" ++ number_text quoted v
where_text quoted ((c, v) ∷ d ∷ more) =
    column_name c
    ++ codes "="
    ++ number_text quoted v
    ++ codes " AND "
    ++ where_text quoted (d ∷ more)

-- The statements of the program. `written` is one whose text a handler puts together.
pub data Statement : Type 0 where
  delete_from : (quoted : Bool) → Table → List (Column × ℤ) → Statement
  select_from : (quoted : Bool) → Column → Table → List (Column × ℤ) → Statement
  reset_switch : (z : ℤ) → Statement
  switches_of : (m : ℤ) → Statement
  only_in : (m l : ℤ) → Statement
  switches_only_in : (m l : ℤ) → Statement
  count_liry : (m : ℤ) → Statement
  insert_lira : (m : ℤ) → Statement
  new_lira : (m : ℤ) → Statement
  name_lira : (l : ℤ) → Statement
  written : Bytes → Statement

-- The variables that only one lira of a machine uses.
only_in_text : (m l : ℤ) → Bytes
only_in_text m l =
    codes
      "SELECT Z_ID FROM (SELECT * FROM (SELECT ZL_ID, Z_ID, L_ID FROM ZMINNY_LIRA ZMLR1 WHERE M_ID="
    ++ number_text true m
    ++ codes ") ZMLR2 GROUP BY Z_ID HAVING COUNT(Z_ID)=1) ZMLR3 WHERE L_ID="
    ++ number_text true l

-- What is written into `sql_query`.
unfoldable pub sql_text : Statement → Bytes
unfolding table_name column_name where_text number_text only_in_text
sql_text (delete_from quoted t cs) =
    codes "DELETE FROM " ++ table_name t ++ codes " WHERE " ++ where_text quoted cs
sql_text (select_from quoted c t cs) =
    codes "SELECT "
    ++ column_name c
    ++ codes " FROM "
    ++ table_name t
    ++ codes " WHERE "
    ++ where_text quoted cs
sql_text (reset_switch z) = codes "UPDATE ZMINNY SET NPP_S=0 WHERE Z_ID=" ++ number_text true z
sql_text (switches_of m) =
    codes "SELECT Z_ID FROM ZMINNY WHERE M_ID=" ++ number_text true m ++ codes " AND NPP_S!=0"
sql_text (only_in m l) = only_in_text m l
sql_text (switches_only_in m l) =
    codes "SELECT ZMLR4.Z_ID AS Z_ID FROM ("
    ++ only_in_text m l
    ++ codes ") ZMLR4 LEFT JOIN ZMINNY ZM ON ZMLR4.Z_ID=ZM.Z_ID WHERE ZM.NPP_S!=0"
sql_text (count_liry m) =
    codes "SELECT COUNT(M_ID) AS LIRS FROM (SELECT M_ID FROM LIRY WHERE M_ID="
    ++ to_string m
    ++ codes ") LL GROUP BY M_ID"
sql_text (insert_lira m) =
    codes "INSERT INTO LIRY(M_ID, FORM, FORM_ZV, MAGAZ, NAME, BR_KOL_LIR) VALUES ("
    ++ to_string m
    ++ codes ", 'i=x', 'x=i', 1, 'srakadupacurvamaty11', 4);"
sql_text (new_lira m) =
    codes "SELECT L_ID FROM LIRY WHERE NAME='srakadupacurvamaty11' AND M_ID=" ++ to_string m
sql_text (name_lira l) = codes "UPDATE LIRY SET NAME='new lire' WHERE L_ID=" ++ to_string l
sql_text (written sql) = sql

-- The Boolean results are whether `status_vector[1]` is set by the call. `rows` is the statement
-- allocated, prepared, executed and fetched to its end, with the `int` of its one column; no row
-- comes where one of these fails.
pub record Firebird (S : Type 0) : Type 0 where
  pub isc_attach_database : S → S × Bool
  pub isc_detach_database : S → S
  pub isc_start_transaction : S → S
  pub isc_dsql_execute_immediate : Statement → S → S × Bool
  pub rows : Statement → S → S × List ℤ
  pub isc_commit_transaction : S → S × Bool
  pub isc_rollback_transaction : S → S

module _ {S : Type 0} (db : Firebird S) where
  -- `none` is a database that cannot be attached: there the source creates it from its script or
  -- ends the process.
  unfoldable pub connect_db : S → Option S
  connect_db s = let (s1, failed) = db.isc_attach_database s in if failed then none else some s1

  unfoldable pub disconect_db : S → S
  disconect_db s = db.isc_detach_database s

  -- A statement in a transaction of its own. The commit overwrites `status_vector`, so that the
  -- failure of the statement itself is not seen.
  unfoldable pub immediate : (sql : Statement) (message : Bytes) → S × Status → S × Status
  immediate sql message (s, st) =
      let (s1, unread) = db.isc_dsql_execute_immediate sql (db.isc_start_transaction s) in
      let (s2, failed) = db.isc_commit_transaction s1 in
      if failed then (db.isc_rollback_transaction s2, error message [] [] st) else (s2, st)

  -- A query in a transaction of its own, and whether its commit failed.
  unfoldable pub query : (sql : Statement) → S → S × List ℤ × Bool
  query sql s =
      let (s1, found) = db.rows sql (db.isc_start_transaction s) in
      let (s2, failed) = db.isc_commit_transaction s1 in
      if failed then (db.isc_rollback_transaction s2, found, true) else (s2, found, false)
