-- ===== src/Relay/Names.antt =====
-- relay.cpp: the names of relays and of their outputs, in the database.
use java_io_tserver.Common.{List, [], ◌∷◌, ◌++◌, Option, none, some, if◌then◌else◌}
use java_io_tserver.Common.Int.{ℤ}
use java_io_tserver.Common.Text.{Bytes, codes, to_string}
use java_io_tserver.Relay.Store.{done, not_done, not_prepared, Sqlite}
use java_io_tserver.Relay.Rele.{Relays}
use java_io_tserver.Relay.Buttons.{validate_user}

abbrev pub name_object : Bytes → Bytes
name_object name = codes "{\"name\":\"" ++ (name ++ codes "\"}")

-- The objects behind the first, each with a comma before it.
unfoldable pub more_names : List Bytes → Bytes
more_names [] = []
more_names (name ∷ names) = b',' ∷ (name_object name ++ more_names names)

unfoldable pub name_objects : List Bytes → Bytes
name_objects [] = []
name_objects (name ∷ names) = name_object name ++ more_names names

unfoldable pub display_text : ℤ → Bytes → Bytes
display_text sn [] = to_string sn
display_text sn (c ∷ cs) = c ∷ cs

-- The loop of get_gadgets.
unfoldable pub gadget_html : List (ℤ × Bytes) → Bytes
gadget_html [] = []
gadget_html ((sn, name) ∷ gs) =
    codes "<div class=\"knopka\"><a href=\"edit_relay_names.html?sn="
    ++ (to_string sn
        ++ (codes "\" class=\"knopka\">"
            ++ (display_text sn name ++ (codes "</a></div>" ++ gadget_html gs))))

module _ {S : Type 0} (sql : Sqlite S) where
  unfoldable pub get_gadgets : ℤ → Relays S → Bytes
  get_gadgets user_id st =
      codes "<div class=\"container\">"
      ++ (gadget_html (sql.gadgets user_id st.db) ++ codes "</div>")

  unfoldable pub get_relays : ℤ → ℤ → Relays S → Bytes
  get_relays user_id sn st =
      if validate_user sql user_id sn st.db
      then elim (sql.named_row user_id sn st.db) [
        | none ↦ []
        | some (sn_val, gadget_name, names) ↦
            codes "{\"sn\":\""
            ++ (to_string sn_val
                ++ (codes "\",\"gadget_name\":\""
                    ++ (gadget_name
                        ++ (codes "\",\"relays\":[" ++ (name_objects names ++ codes "]}")))))
      ]
      else []

  unfoldable pub set_relay_name : ℤ → Option Bytes → ℤ → Relays S → Bytes × Relays S
  set_relay_name sn name user_id st =
      if validate_user sql user_id sn st.db
      then (let (o, db) = sql.update_name sn name st.db in
          (
            elim o [
              | done ↦ codes "OK"
              | not_done ↦ codes "Error: Failed to update device name"
              | not_prepared ↦ codes "Error: Database error"
            ],
            record st { db = db },
          ))
      else (codes "false", st)

  unfoldable pub set_relay_names : ℤ → List (Option Bytes) → ℤ → Relays S → Bytes × Relays S
  set_relay_names sn names user_id st =
      if validate_user sql user_id sn st.db
      then (let (o, db) = sql.update_names sn names st.db in
          (
            elim o [
              | done ↦ codes "OK"
              | not_done ↦ codes "Error: Failed to update relay names"
              | not_prepared ↦ codes "Error: Database error"
            ],
            record st { db = db },
          ))
      else (codes "false", st)
