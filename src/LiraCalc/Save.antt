-- ===== src/LiraCalc/Save.antt =====
-- servak_na_linux/server/save.cpp: what a PUT request stores. The texts have no byte 0, and a
-- statement has room in `sql_query`. A `double` is what `printf` writes and whether it is 0.
pub mod Refused
use java_io_tserver.Common.{
  ℕ, Bool, true, false, not, ◌&&◌, ◌||◌, Option, none, some, List, [], ◌∷◌, ◌++◌, ◌>>=◌, length,
  ltb, ◌==◌, if◌then◌else◌,
}
use java_io_tserver.Common.Int.{ℤ, pos, ◌==ℤ◌, ltb_ℤ}
use java_io_tserver.Common.Text.{Bytes, codes, to_string}
use java_io_tserver.Http.Request.{c_str}
use java_io_tserver.LiraCalc.MyTime.{MyTime}
use java_io_tserver.LiraCalc.Status.{Status, info, error, success, html}
use java_io_tserver.LiraCalc.Database.{Firebird, written, connect_db, disconect_db, immediate}

pub record Double : Type 0 where
  pub printed : Bytes
  pub is_zero : Bool

-- A check: the message where it does not hold.
unfoldable pub refuse : Bool → (message key arg : Bytes) → Status → Status
refuse wrong message key arg st = if wrong then error message key arg st else st

abbrev pub shorter : Bytes → ℕ → Bool
shorter t n = ltb (length t) n

abbrev pub either_zero : (a b : ℤ) → Bool
either_zero a b = a ==ℤ pos 0 || b ==ℤ pos 0

-- "'%s'" and "'%d'".
abbrev pub in_quotes : Bytes → Bytes
in_quotes t = codes "'" ++ t ++ codes "'"

is_nil_text : Bytes → Bool
is_nil_text [] = true
is_nil_text (c ∷ t) = false

-- A text as it is stored: the empty one as null.
unfoldable pub or_null : Bytes → Bytes
unfolding is_nil_text
or_null t = if is_nil_text t then codes "null" else in_quotes t

unfoldable pub check_zm : (m z npp : ℤ) → Status
unfolding refuse
check_zm m z npp =
    refuse (either_zero m z) (codes "indeks M_ID abo Z_ID dorivnjuje nulju.")
      (codes "srv_zm_index_zero") []
      (refuse (ltb_ℤ npp (pos 0) || ltb_ℤ (pos 2) npp) (codes "NPP_S != 0...2") [] [] [])

unfoldable pub check_usl : (u l : ℤ) (umova : Bytes) → Status
unfolding refuse
check_usl u l umova =
    refuse (either_zero u l) (codes "indeks U_ID abo L_ID dorivnjuje nulju.")
      (codes "srv_usl_index_zero") []
      (refuse (shorter umova 3) (codes "umova " ++ umova ++ codes " maje menshe 3-h symvoliv.")
        (codes "srv_umova_short") umova [])

unfoldable pub check_npp : (n z : ℤ) (znach : Double) (umova coment : Bytes) → Status
unfolding refuse
check_npp n z znach umova coment =
    refuse znach.is_zero (codes "konstanta " ++ coment ++ codes " dorivnjuje nulju.")
      (codes "srv_const_zero") coment
      (refuse (either_zero n z) (codes "indeks N_ID abo Z_ID dorivnjuje nulju.")
        (codes "srv_npp_index_zero") []
        (refuse (shorter coment 1)
          (codes "komentar " ++ coment ++ codes " maje menshe 3-h symvoliv.")
          (codes "srv_coment_short") coment
          (refuse (shorter umova 3) (codes "umova " ++ umova ++ codes " maje menshe 3-h symvoliv.")
            (codes "srv_umova_short") umova [])))

unfoldable pub check_mash : (name m1 : Bytes) → Status
unfolding refuse
check_mash name m1 =
    refuse (shorter m1 3) (codes "perelik kolis  maje menshe 3-h symvoliv.")
      (codes "srv_gears_short") []
      (refuse (shorter name 3)
        (codes "im'ja verstata " ++ name ++ codes " maje menshe 3-h symvoliv.")
        (codes "srv_mashname_short") name [])

unfoldable pub check_lira :
    (m l : ℤ) (name : Bytes) (magaz br_kol_lir : ℤ) (form form_zv : Bytes) → Status
unfolding refuse
check_lira m l name magaz br_kol_lir form form_zv =
    let short = name ++ codes " maje menshe 3-h symvoliv." in
    refuse (ltb_ℤ br_kol_lir (pos 2) || ltb_ℤ (pos 4) br_kol_lir) (codes "BR_KOL_LIR != 2...4") []
      []
      (refuse (not (magaz ==ℤ pos 1) && not (magaz ==ℤ pos 2)) (codes "MAGAZ != 1/2") [] [] (
        refuse (either_zero m l)
          (codes "lira " ++ name ++ codes "indeks M_ID abo L_ID dorivnjuje nulju.")
          (codes "srv_lira_index_zero") name
          (refuse (shorter form_zv 3) (codes "zvorotnja formula liry " ++ short)
            (codes "srv_lirainvform_short") name
            (refuse (shorter form 3) (codes "osnovna formula liry " ++ short)
              (codes "srv_liraform_short") name
              (refuse (shorter name 3) (codes "im'ja liry " ++ short) (codes "srv_liraname_short")
                name [])))))

module _ {S : Type 0} (db : Firebird S) (mt : MyTime) where
  -- The UPDATE of a variable or a table, with the message of its failure.
  unfoldable pub update_row : (sql message : Bytes) → S × Status → S × Status
  update_row sql message = immediate db (written sql) message

  -- The statements run only if the checks left no message.
  unfoldable pub if_valid : Status → (S → Option (S × Status)) → S → Option (S × Bytes)
  if_valid checked save s =
      if success checked
      then (do (s1, st) ← save s; some (s1, (html mt st).1))
      else some (s, (html mt checked).1)

  unfoldable pub save_zm :
      (m l z : ℤ) (bukva : ℕ) (npp : ℤ) (name : Bytes) (znach : Double) → S → Option (S × Bytes)
  unfolding if_valid update_row or_null check_zm connect_db disconect_db info
  save_zm m l z bukva npp name znach =
      let row = codes " WHERE Z_ID='" ++ to_string z ++ codes "'" in
      let saved =
        if npp ==ℤ pos 0
        then info (c_str (codes "zminna " ++ bukva ∷ codes " zberezhena.")) (codes "srv_zm_saved")
            (c_str (bukva ∷ [])) []
        else info (c_str (codes "peremykach " ++ bukva ∷ codes " zberezhena."))
            (codes "srv_switch_saved") (c_str (bukva ∷ [])) [] in
      let value = if znach.is_zero then codes "null" else in_quotes znach.printed in
      if_valid (check_zm m z npp) (λ s. do
        s1 ← connect_db db s
        let (s2, st) =
            update_row (codes "UPDATE ZMINNY SET NPP_S='" ++ to_string npp ++ codes "'" ++ row)
              (codes "ERROR INSERT INTO ZMINNY NPP_S")
              (update_row (codes "UPDATE ZMINNY SET NAME=" ++ or_null name ++ row)
                (codes "ERROR INSERT INTO ZMINNY NAME")
                (update_row (codes "UPDATE ZMINNY SET ZNACHENNJA=" ++ value ++ row)
                  (codes "ERROR INSERT INTO ZMINNY ZNACHENNJA") (s1, saved)))
        some (disconect_db db s2, st))

  -- One UPDATE, announced before it runs.
  unfoldable pub save_row : (sql message : Bytes) → Status → S → Option (S × Status)
  unfolding update_row connect_db disconect_db
  save_row sql message saved s = do
    s1 ← connect_db db s
    let (s2, st) = update_row sql message (s1, saved)
    some (disconect_db db s2, st)

  unfoldable pub save_usl : (u l : ℤ) (umova : Bytes) → S → Option (S × Bytes)
  unfolding if_valid save_row check_usl info
  save_usl u l umova = if_valid (check_usl u l umova) (
      save_row
        (codes "UPDATE UMOVY SET UMOVA=" ++ in_quotes umova ++ codes " WHERE U_ID=" ++ to_string u)
        (codes "ERROR INSERT INTO UMOVY")
        (info (codes "umova " ++ umova ++ codes " zberezhena.") (codes "srv_umova_saved") umova []))

  unfoldable pub save_npp :
      (n z : ℤ) (znach : Double) (umova coment : Bytes) → S → Option (S × Bytes)
  unfolding if_valid save_row check_npp info
  save_npp n z znach umova coment = if_valid (check_npp n z znach umova coment) (
      save_row
        (codes "UPDATE ZMINNY_NPP SET UMOVA="
          ++ in_quotes umova
          ++ codes ", COMENT="
          ++ in_quotes coment
          ++ codes ", ZNACHENNJA="
          ++ in_quotes znach.printed
          ++ codes " WHERE N_ID="
          ++ in_quotes (to_string n))
        (codes "ERROR INSERT INTO ZMINNY_NPP")
        (info (codes "konstanta " ++ coment ++ codes " zberezhena.") (codes "srv_const_saved")
          coment []))

  unfoldable pub save_mash : (m : ℤ) (name m1 m2 : Bytes) → S → Option (S × Bytes)
  unfolding if_valid save_row check_mash info or_null
  save_mash m name m1 m2 = if_valid (check_mash name m1) (
      save_row
        (codes "UPDATE MASHYNES SET NAME="
          ++ in_quotes name
          ++ codes ", M1="
          ++ in_quotes m1
          ++ codes ", M2="
          ++ or_null m2
          ++ codes " WHERE M_ID="
          ++ in_quotes (to_string m))
        (codes "ERROR INSERT INTO MASHYNES")
        (info (codes "verstat " ++ name ++ codes " zberezheno.") (codes "srv_mash_saved") name []))

  -- Announced only after it has run.
  unfoldable pub save_lira :
      (m l : ℤ) (name : Bytes) (magaz br_kol_lir : ℤ) (form form_zv : Bytes)
      → S
      → Option (S × Bytes)
  unfolding if_valid update_row check_lira connect_db disconect_db info success
  save_lira m l name magaz br_kol_lir form form_zv =
      if_valid (check_lira m l name magaz br_kol_lir form form_zv) (λ s. do
        s1 ← connect_db db s
        let (s2, st) =
            update_row
              (codes "UPDATE LIRY SET NAME="
                ++ in_quotes name
                ++ codes ", FORM="
                ++ in_quotes form
                ++ codes ", FORM_ZV="
                ++ in_quotes form_zv
                ++ codes ", MAGAZ="
                ++ in_quotes (to_string magaz)
                ++ codes ", BR_KOL_LIR="
                ++ in_quotes (to_string br_kol_lir)
                ++ codes " WHERE L_ID="
                ++ in_quotes (to_string l)
                ++ codes ";")
              (codes "ERROR INSERT INTO LIRY") (s1, [])
        let told =
            if success st
            then info (codes "lira " ++ name ++ codes " zberezhena.") (codes "srv_lira_saved") name
                st
            else st
        some (disconect_db db s2, told))
