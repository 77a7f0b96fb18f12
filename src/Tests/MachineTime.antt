-- ===== src/Tests/MachineTime.antt =====
-- MachineTime and the router: runs on one device with a database of tables, and the uses of the
-- theorems.
use java_io_tserver.Common.{
  ◌++◌, ◌≡◌, refl, arith, true, false, All, ◌≤◌, length, ◌+◌, ◌/◌, ◌%◌, List, [], ◌∷◌, Option, none,
  some,
}
use java_io_tserver.Common.Int.{ℤ, pos, negsuc, ◌+ℤ◌, quot, to_i32}
use java_io_tserver.Common.Text.{Bytes, codes, to_u32}
use java_io_tserver.Setup.{SetupConfig}
use java_io_tserver.Http.Request.{Request, new_request, post_code, head_code}
use java_io_tserver.MachineTime.Day.{new_channel, seconds_of_day}
use java_io_tserver.MachineTime.Day.Hysteresis.{works, run_channel, run_channel_balance}
use java_io_tserver.MachineTime.Day.Signals.{changes, signals}
use java_io_tserver.MachineTime.Store.{Sqlite, Session}
use java_io_tserver.MachineTime.Device.{
  MachineTime, back, db_load_names, db_save_session, new_session,
}
use java_io_tserver.MachineTime.Device.Invariant.{IsDevice}
use java_io_tserver.MachineTime.Device.Totals.{Kept, new_session-Kept}
use java_io_tserver.MachineTime.Device.Start.{
  new_machine_time, load, resume, ensure_today, delete_stale, load_events, load_history, blank,
}
use java_io_tserver.MachineTime.Device.Start.Established.{new_machine_time-IsDevice}
use java_io_tserver.MachineTime.Device.Start.Resume.{SameSession}
use java_io_tserver.MachineTime.Device.Start.Restored.{new_machine_time-db_save_session}
use java_io_tserver.MachineTime.Device.Report.{escape}
use java_io_tserver.MachineTime.Device.Report.Names.{read_string, read_string-escape}
use java_io_tserver.Http.Response.{Response, with_body, send_response}
use java_io_tserver.Http.Response.Head.{body_sent, send_response-head}
use java_io_tserver.MachineTime.Handlers.{Shop, Outside}
use java_io_tserver.Router.{dispatch}
use java_io_tserver.Router.Established.{Leaves, IsTable, dispatch-IsTable}

abbrev setup : SetupConfig
setup = record { path = []; items = [] }

-- A database that keeps the session alone; the other tables stay empty.
abbrev KeptRow : Type 0
KeptRow = Option Session

abbrev sessions_only : Sqlite KeptRow
sessions_only = record {
  select_names = λ id s. none;
  replace_names = λ id names s. s;
  select_history = λ id day s. none;
  select_all_history = λ id s. [];
  replace_history = λ id day ts s. s;
  add_history = λ id day ts s. s;
  select_events = λ id s. [];
  insert_event = λ id e s. s;
  delete_events = λ id day s. s;
  delete_events_before = λ id day s. s;
  select_session = λ id s. s;
  replace_session = λ id k s. some k;
  begin = λ s. s;
  commit = λ s. s;
}

-- Years of 372 days, which are enough to tell two months apart.
abbrev gmtime : ℤ → ℤ × ℤ
gmtime (pos t) = (pos (t / 32140800), pos (t / 2678400 % 12))
gmtime (negsuc t) = (pos 0, pos 0)

abbrev now : ℤ
now = pos 1700000000

abbrev device : MachineTime
device = (new_machine_time sessions_only gmtime setup [] (codes "m1") (pos 0) now (some none)).0

no_names : (id : Bytes) (s : KeptRow) (names : List Bytes) → none ≡ some names → length names ≡ 18
no_names id s names e = absurd (ground (arith, e))

device-IsDevice : IsDevice device
device-IsDevice =
    new_machine_time-IsDevice sessions_only gmtime setup [] (codes "m1") (pos 0) now (some none)
      no_names

new_machine_time-IsDevice_example :
    IsDevice (new_machine_time sessions_only gmtime setup [] (codes "m1") (pos 0) now (some none)).0
new_machine_time-IsDevice_example =
    new_machine_time-IsDevice sessions_only gmtime setup [] (codes "m1") (pos 0) now (some none)
      no_names

abbrev rise : List (ℤ × ℤ)
rise = (pos 1, pos 5) ∷ (pos 2, pos 6) ∷ (pos 3, pos 7) ∷ []

run_channel_balance_example :
    length (run_channel rise new_channel new_channel).1.channel_start + works false + 0
    ≡ 0
      + works (run_channel rise new_channel new_channel).0.working_now
      + length (run_channel rise new_channel new_channel).1.channel_stop
run_channel_balance_example = run_channel_balance rise new_channel new_channel

-- Two rises, a time that has fallen, a third rise and three times the same.
abbrev packets : List (ℤ × ℤ)
packets =
    (pos 1, pos 5)
    ∷ (pos 2, pos 6)
    ∷ (pos 3, pos 4)
    ∷ (pos 4, pos 7)
    ∷ (pos 5, pos 7)
    ∷ (pos 6, pos 7)
    ∷ (pos 7, pos 7)
    ∷ []

changes_run :
    changes false none none (signals (pos 0) packets) ≡ (pos 4, true) ∷ (pos 7, false) ∷ []
unfolding changes signals
changes_run = refl

new_session-Kept_example : Kept device (new_session sessions_only gmtime now device (some none)).0
new_session-Kept_example =
    new_session-Kept sessions_only gmtime now device (some none) device-IsDevice

today_again : to_i32 (to_u32 (quot (now +ℤ pos 0) seconds_of_day)) ≡ (back device.month).time
unfolding new_machine_time load resume ensure_today back ◌+ℤ◌ delete_stale load_events load_history
    db_load_names blank
today_again = refl

new_machine_time-db_save_session_example :
    (s' : KeptRow) × (db_save_session sessions_only device (some none) ≡ some s')
    × SameSession
        (new_machine_time sessions_only gmtime setup [] device.id
          (pos 0)
          now
          (some s')).0.this_session
        device.this_session
new_machine_time-db_save_session_example =
    new_machine_time-db_save_session sessions_only gmtime setup [] (pos 0) now device none
      (λ id k s. refl) (λ id other ep s. refl) device-IsDevice today_again

abbrev outside : Outside KeptRow
outside = record {
  sql = sessions_only;
  gmtime = gmtime;
  now = now;
  calendar = record {
    my_time_str = [];
    my_time_str_offset = λ z. [];
    my_time_str_calendar_day = λ z. [];
  };
  offset_time_zone = λ z. some (pos 0);
  buf = [];
}

abbrev post_request : Request
post_request = record new_request {
  method = post_code;
  path = codes "/MachineTime18Channels/";
  query = record { param = codes "id"; znach = codes "m1" } ∷ [];
}

abbrev no_shop : Shop KeptRow
no_shop = record { table = []; db = some none }

dispatch-IsTable_example :
    Leaves (λ r. IsTable r.1.table) (dispatch outside setup (λ p. none) post_request no_shop)
dispatch-IsTable_example =
    dispatch-IsTable outside setup no_names (λ p. none) post_request no_shop tt

plain_text : All (λ c. 0x20 ≤ c) (codes "a\"b")
plain_text = (omega arith, (omega arith, (omega arith, tt)))

read_string-escape_example :
    read_string (escape (codes "a\"b") ++ b'"' ∷ codes "]}") ≡ some (codes "a\"b", codes "]}")
read_string-escape_example = read_string-escape (codes "a\"b") (codes "]}") plain_text

abbrev ok_response : Response
ok_response = with_body 200 (codes "hello") (codes "text/plain")

send_response-head_example :
    send_response setup [] post_request ok_response
    ≡ send_response setup [] (record post_request { method = head_code }) ok_response
      ++ body_sent ok_response
send_response-head_example = send_response-head setup [] post_request ok_response refl
