-- ===== src/Relay/LogFile.antt =====
-- relay.cpp: the log file of a relay. A user asks for it, the relay is told with the answer to its
-- report, sends the file in pieces, and the user takes it.
pub mod Delivery
use java_io_tserver.Common.{
  ℕ, zero, suc, ◌+◌, ◌-◌, Bool, true, false, ◌&&◌, not, List, [], ◌∷◌, ◌++◌, Option, none, some,
  ltb, if◌then◌else◌, length, take, drop,
}
use java_io_tserver.Common.Int.{ℤ, pos, ◌==ℤ◌}
use java_io_tserver.Common.Text.{Bytes, codes, atoi}
use java_io_tserver.Relay.Store.{Sqlite}
use java_io_tserver.Relay.Rele.{Rele, Relays, find_rele, put_rele}
use java_io_tserver.Relay.Buttons.{validate_user}

-- The text of `ssn`: it ends at a byte of value 0.
unfoldable pub c_string : Bytes → Bytes
c_string [] = []
c_string (zero ∷ cs) = []
c_string (suc c ∷ cs) = suc c ∷ c_string cs

-- A piece counts if it says whose it is, and a user waits for the file of that relay.
unfoldable pub save_log_file : Bytes → List Rele → List Rele
save_log_file log_file rs =
    let sn = atoi (c_string (take 19 (drop 21 log_file))) in
    if ltb 40 (length log_file)
    then elim (find_rele sn rs) [
      | none ↦ rs
      | some r ↦
          if r.user_id_set_gff ==ℤ pos 0
          then rs
          else put_rele sn (record r { log_file = r.log_file ++ log_file }) rs
    ]
    else rs

abbrev pub html_header : Bytes
html_header =
    codes
      "<!DOCTYPE html>\n<html lang=\"en\">\n<head>\n    <meta charset=\"UTF-8\">\n    <meta name=\"viewport\" content=\"width=device-width, initial-scale=1.0\">\n    <title>Log File</title>\n    <style>\n        body {\n            background-color: #E6F0F3;\n            font-family: monospace;\n            margin: 20px;\n            max-width: 1000px;\n            margin: 0 auto;\n        }\n        pre {\n            background-color: #E6F0F3;\n            padding: 20px;\n            border-radius: 5px;\n            white-space: pre-wrap;\n            word-wrap: break-word;\n        }\n    </style>\n</head>\n<body>\n    <pre>"

abbrev pub html_footer : Bytes
html_footer = codes "</pre>\n</body>\n</html>"

-- The file is handed out once.
unfoldable pub handed_out : Rele → Rele
handed_out r = record r { log_file = []; user_id_set_gff = pos 0; time_set_gff = pos 0 }

unfoldable pub ask : ℤ → ℤ → Rele → Rele
ask t_time user_id r =
    if r.user_id_set_gff ==ℤ pos 0
    then record r { get_log_file_flag = true; user_id_set_gff = user_id; time_set_gff = t_time }
    else r

unfoldable pub unask : ℤ → Rele → Rele
unask user_id r =
    if r.user_id_set_gff ==ℤ user_id
    then record r { get_log_file_flag = false; user_id_set_gff = pos 0; time_set_gff = pos 0 }
    else r

unfoldable pub get_get_log_file_flag : ℤ → List Rele → Bool × List Rele
get_get_log_file_flag sn rs = elim (find_rele sn rs) as (λ f. Bool × List Rele) [
  | none ↦ (false, rs)
  | some r ↦ (r.get_log_file_flag, put_rele sn (record r { get_log_file_flag = false }) rs)
]

module _ {S : Type 0} (sql : Sqlite S) where
  unfoldable pub send_for_user_log_file : ℤ → ℤ → Relays S → Bytes × Relays S
  send_for_user_log_file sn user_id st =
      if validate_user sql user_id sn st.db
      then elim (find_rele sn st.rele_list) as (λ f. Bytes × Relays S) [
        | none ↦ ([], st)
        | some r ↦
            if ltb 0 (length r.log_file) && user_id ==ℤ r.user_id_set_gff
            then (
              html_header ++ (r.log_file ++ html_footer),
              record st { rele_list = put_rele sn (handed_out r) st.rele_list },
            )
            else ([], st)
      ]
      else ([], st)

  unfoldable pub set_get_log_file_flag : ℤ → ℤ → ℤ → Bool → Relays S → Relays S
  set_get_log_file_flag t_time sn user_id flag st =
      if validate_user sql user_id sn st.db
      then elim (find_rele sn st.rele_list) [
        | none ↦ st
        | some r ↦
            let x = if flag then ask t_time user_id r else unask user_id r in
            record st { rele_list = put_rele sn x st.rele_list }
      ]
      else st
