-- ===== src/Tests/Relay.antt =====
-- Runs of the relay server on concrete reports and requests.
use java_io_tserver.Common.{
  ℕ, ◌≡◌, refl, true, false, List, [], ◌∷◌, ◌++◌, none, some, set, arith, Holds, ap, ◌∙◌, ◌≢◌, ◌≤◌,
  get_or, length, map,
}
use java_io_tserver.Common.Int.{pos, ◌+ℤ◌, ◌-ℤ◌}
use java_io_tserver.Common.Text.{Bytes, codes, equal, atoi}
use java_io_tserver.Relay.Rand.{rand, sum_on}
use java_io_tserver.Relay.Store.{Sqlite, done}
use java_io_tserver.Relay.Rele.{Rele, Relays, new_rele, unknown, find_rele}
use java_io_tserver.Relay.Rele.Table.{IsRelays, contains, once}
use java_io_tserver.Relay.Update.{Report, well_formed, contr_sum, refusal, answer_text}
use java_io_tserver.Relay.Update.InStep.{
  sender, receiver, answer_sum, server_rand, report_step, known_before, known_after, before,
  sent_command, exchange,
}
use java_io_tserver.Relay.Update.Delivery.{brings_outputs, opposite, checksum_refused}
use java_io_tserver.Relay.Buttons.{
  press, rr_get_status, get_knopky_list, list_buttons, add_seen, relay_buttons,
}
use java_io_tserver.Relay.Buttons.Shown.{button_state, rr_get_status_lem}
use java_io_tserver.Relay.LogFile.{set_get_log_file_flag}
use java_io_tserver.Relay.LogFile.Delivery.{save_pieces}
use java_io_tserver.Http.Request.{c_str}
use java_io_tserver.Relay.Decode.{
  decod_request, read_lines, line_end, request_line, read_space, read_path, to_mark, header_line,
  until, method_code, convert_window, read_rest, read_content, read_params,
}
use java_io_tserver.Relay.Decode.Bounds.{decod_request-length}
use java_io_tserver.Relay.Request.{new_request, Request, get_code, put_code, param, znach}
use java_io_tserver.Relay.Handlers.{Outside, obrobka_put}
use java_io_tserver.Relay.Server.{State, answered, delegate, serve, connection}
use java_io_tserver.Relay.Server.Answers.{Answers, serve-Answers}
use java_io_tserver.Relay.Established.Requests.{connection-IsRelays}

abbrev sql : Sqlite ℕ
sql = record {
  init_tables = λ s. s;
  relay_id = λ sn s. pos 1;
  insert_relay = λ sn s. s;
  owns = λ user_id sn s. true;
  user_relays = λ user_id s. pos 1 ∷ [];
  relay_row = λ r_id s. some (pos 5, codes "lamp" ∷ [] ∷ codes "pump" ∷ []);
  named_row = λ user_id sn s. none;
  gadgets = λ user_id s. [];
  update_name = λ sn name s. (done, s);
  update_names = λ sn names s. (done, s);
}

abbrev report_with : Bytes → Report
report_with cs = record {
  sn_txt = codes "0000000005";
  acp_txt = codes "1.20000000";
  relays = codes "01010101";
  init_txt = codes "none";
  cs_txt = cs;
  pin_txt = none;
}

abbrev lamp_relay : Rele
lamp_relay = record (new_rele 7) { sn = pos 5; rr_status = codes "01010101"; rr_command = unknown }

abbrev one_lamp : Relays ℕ
one_lamp = record { rele_list = lamp_relay ∷ []; db = 0; tables_ready = true }

one_lamp-IsRelays : IsRelays one_lamp.rele_list
unfolding contains once
one_lamp-IsRelays = record { each = ((refl, refl), tt); single = refl }

abbrev good_report : Report
good_report = report_with (codes "4348")

good_report-well_formed : well_formed good_report ≡ true
good_report-well_formed = refl

lamp_known : known_before sql 7 (pos 100) good_report one_lamp ≡ some lamp_relay
unfolding find_rele atoi
lamp_known = refl

good_report-contr_sum : atoi good_report.cs_txt ≡ pos (contr_sum good_report 7).0
unfolding atoi contr_sum sum_on rand
good_report-contr_sum = refl

good_report-server_rand : server_rand 7 good_report (some lamp_relay) ≡ 7
unfolding equal
good_report-server_rand = refl

outputs_brought : brings_outputs good_report.pin_txt good_report.relays ≡ true
unfolding equal
outputs_brought = refl

exchange_example :
    ((report_step sql 7 (pos 100) good_report one_lamp).0
      ≡ answer_text
          (sent_command sql 7 (pos 100) good_report one_lamp)
          (before sql 7 (pos 100) good_report one_lamp).online
          (answer_sum
            (sent_command sql 7 (pos 100) good_report one_lamp)
            (before sql 7 (pos 100) good_report one_lamp).online
            (sender good_report 7)).0)
    × ((r : Rele) × (known_after sql 7 (pos 100) good_report one_lamp ≡ some r)
        × (r.my_rand
            ≡ receiver
                (sent_command sql 7 (pos 100) good_report one_lamp)
                (before sql 7 (pos 100) good_report one_lamp).online
                (sender good_report 7)))
exchange_example =
    exchange sql 7 (pos 100) good_report one_lamp 7 good_report-well_formed one_lamp-IsRelays
      (ap (server_rand 7 good_report) lamp_known ∙ good_report-server_rand) good_report-contr_sum

abbrev pressed_command : Bytes
pressed_command = set unknown 0 (opposite (get_or (codes "01010101") 0 0))

-- A second press before the report takes the command of the first away.
pressed_twice : (press 0 (press 0 lamp_relay)).rr_command ≡ unknown
unfolding press
pressed_twice = refl

abbrev bad_report : Report
bad_report = report_with (codes "4349")

bad_report-contr_sum :
    atoi bad_report.cs_txt
    ≢ pos (contr_sum bad_report (server_rand 7 bad_report (some lamp_relay))).0
unfolding atoi contr_sum sum_on rand equal
bad_report-contr_sum e = absurd (ground (arith, e))

lamp_known_bad : known_before sql 7 (pos 100) bad_report one_lamp ≡ some lamp_relay
unfolding find_rele atoi
lamp_known_bad = refl

checksum_refused_example :
    ((report_step sql 7 (pos 100) bad_report one_lamp).0 ≡ refusal)
    × ((r2 : Rele) × (known_after sql 7 (pos 100) bad_report one_lamp ≡ some r2)
        × (r2.put ≡ false)
        × (r2.rr_command ≡ unknown))
checksum_refused_example =
    checksum_refused sql 7 (pos 100) bad_report one_lamp lamp_relay refl one_lamp-IsRelays
      lamp_known_bad outputs_brought bad_report-contr_sum

abbrev piece : Bytes
piece = codes "Gadget serial number: 0000000005\nstarted 12:00:00\n"

abbrev asked_relays : Relays ℕ
asked_relays = set_get_log_file_flag sql (pos 100) (pos 5) (pos 3) true one_lamp

abbrev filled_relays : Relays ℕ
filled_relays = record asked_relays { rele_list = save_pieces (piece ∷ []) asked_relays.rele_list }

abbrev buttons_shown : Bytes
buttons_shown =
    map (button_state (get_knopky_list sql 7 (pos 100) (pos 3) one_lamp).1)
      (get_knopky_list sql 7 (pos 100) (pos 3) one_lamp).0

rr_get_status_example :
    (rs2 : List Rele) × (rr_get_status sql 7 (pos 100) (pos 3) one_lamp
      ≡ some (
        codes "{\"buttons\":\"" ++ (buttons_shown ++ codes "\"}"),
        record one_lamp { rele_list = rs2 },
      ))
rr_get_status_example = rr_get_status_lem sql 7 (pos 100) (pos 3) one_lamp one_lamp-IsRelays

-- The relay has buttons for its first and its third output.
buttons_shown_runs : buttons_shown ≡ codes "00"
unfolding get_knopky_list list_buttons add_seen relay_buttons find_rele
buttons_shown_runs = refl

abbrev outside : Outside
outside = record { date = []; t_time = pos 100; def_rand = 7; files = λ path. none }

abbrev status_request : Request
status_request = record {
  method = get_code;
  path = codes "/get_status";
  body = [];
  query = record { param = codes "userID"; znach = codes "3" } ∷ [];
}

abbrev state_at : State ℕ
state_at = record { relays = one_lamp; hide_log = true }

abbrev press_bytes : Bytes
press_bytes = codes "PUT /put_status HTTP/1.1\r\ncontent-length: 22\r\n\r\nsn=5&button=1&userID"

connection-IsRelays_example :
    Holds
      (λ r. IsRelays r.1.relays.rele_list)
      (connection outside sql press_bytes (codes "=3") state_at)
connection-IsRelays_example =
    connection-IsRelays outside sql press_bytes (codes "=3") state_at one_lamp-IsRelays

decod_request-length_example :
    Holds (λ (rq : Request). length rq.query ≤ 256) (decod_request press_bytes (codes "=3"))
decod_request-length_example = decod_request-length press_bytes (codes "=3")

-- PUT /put_status without a user reads a null pointer.
put_without_user_faults :
    serve outside sql
      (record status_request {
        method = put_code;
        path = codes "/put_status";
        query =
            record { param = codes "sn"; znach = codes "5" }
            ∷ record { param = codes "button"; znach = codes "1" }
            ∷ [];
      })
      state_at
    ≡ none
unfolding serve param znach c_str equal answered delegate obrobka_put
put_without_user_faults = refl

-- What a client sends for the root, and what is kept of it: the path has the byte 0 behind it.
abbrev root_bytes : Bytes
root_bytes = codes "GET / HTTP/1.1\r\nhost: a\r\n\r\n"

root_path_runs :
    decod_request root_bytes []
    ≡ some (record new_request { method = get_code; path = b'/' ∷ 0 ∷ [] })
unfolding decod_request read_lines line_end request_line read_space read_path to_mark header_line
    until method_code equal c_str convert_window read_rest read_content read_params
root_path_runs = refl

-- A body that arrives in two pieces.
press_body_runs :
    decod_request press_bytes (codes "=3")
    ≡ some (record new_request {
      method = put_code;
      path = codes "/put_status" ++ 0 ∷ [];
      query =
          record { param = codes "sn"; znach = codes "5" }
          ∷ record { param = codes "button"; znach = codes "1" }
          ∷ record { param = codes "userID"; znach = codes "3" }
          ∷ [];
    })
unfolding decod_request read_lines line_end request_line read_space read_path to_mark header_line
    until method_code equal c_str convert_window read_rest read_content read_params atoi ◌+ℤ◌ ◌-ℤ◌
press_body_runs = refl

abbrev press_request : Request
press_request = record new_request {
  method = put_code;
  path = codes "/put_status";
  query =
      record { param = codes "sn"; znach = codes "5" }
      ∷ record { param = codes "button"; znach = codes "1" }
      ∷ record { param = codes "userID"; znach = codes "3" }
      ∷ [];
}

user_given : param (codes "userID") press_request.query ≡ true
unfolding param c_str equal
user_given = refl

sn_given : param (codes "sn") press_request.query ≡ true
unfolding param c_str equal
sn_given = refl

no_command : param (codes "command") press_request.query ≡ false
unfolding param c_str equal
no_command = refl

serve-Answers_example : Answers (serve outside sql press_request state_at)
serve-Answers_example =
    serve-Answers outside sql press_request state_at one_lamp-IsRelays user_given sn_given
      no_command
