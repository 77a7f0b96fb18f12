-- ===== src/MachineTime/Device/Report.antt =====
-- What class MachineTime answers: get, get_events and get_names, as the text of JSON objects. The
-- texts of my_time.cpp, which `strftime` makes, are arguments.
pub mod Names
use java_io_tserver.Common.{
  ℕ, suc, Bool, true, false, ◌&&◌, ◌||◌, List, [], ◌∷◌, ◌++◌, Option, none, some, ◌==◌,
  if◌then◌else◌, get_or, take, drop,
}
use java_io_tserver.Common.Int.{ℤ, pos, pos_part, ◌+ℤ◌, ◌==ℤ◌, ltb_ℤ, leb_ℤ}
use java_io_tserver.Common.Text.{Bytes, codes, to_string}
use java_io_tserver.MachineTime.Day.{Channel, Day, new_channel}
use java_io_tserver.MachineTime.Store.{Sqlite}
use java_io_tserver.MachineTime.Device.{MachineTime, back, find_day}

-- `my_time_str`, `my_time_str_offset` and `my_time_str_calendar_day` at the moment of a request.
pub record Calendar : Type 0 where
  pub my_time_str : Bytes
  pub my_time_str_offset : ℤ → Bytes
  pub my_time_str_calendar_day : ℤ → Bytes

abbrev pub comma : Bool → Bytes
comma true = []
comma false = codes ","

-- The object of one channel; the source writes it to a buffer of 64 bytes.
unfoldable pub channel_entry : ℕ → ℤ → Bool → Bytes
channel_entry i ch_time wn =
    comma (i == 0)
    ++ (codes "{\"id\":"
        ++ (to_string (pos i)
            ++ (codes ",\"time_seconds\":"
                ++ (to_string ch_time
                    ++ (codes ",\"working_now\":"
                        ++ ((if wn then codes "true" else codes "false") ++ codes "}"))))))

-- The loop of get_day_info from channel `i` on; the session counts on the current day alone.
unfoldable pub channel_entries : ℕ → Bool → List Channel → List Channel → Bytes
channel_entries i is_current (d ∷ ds) (s ∷ ss) =
    channel_entry i (if is_current then d.channel_time +ℤ s.channel_time else d.channel_time)
      (is_current && s.working_now)
    ++ channel_entries (suc i) is_current ds ss
channel_entries i is_current _ _ = []

unfoldable pub get_day_info : Calendar → MachineTime → Day → Bytes
get_day_info cal m day =
    codes "{\"server_time\":\""
    ++ (cal.my_time_str
        ++ (codes "\",\"gadget_time\":\""
            ++ (cal.my_time_str_offset m.tz_offset
                ++ (codes "\",\"channels\":["
                    ++ (channel_entries 0 ((back m.month).time ==ℤ day.time) day.channels
                          m.this_session.channels
                        ++ codes "]}")))))

unfoldable pub day_entries : Calendar → Bool → List Day → Bytes
day_entries cal first [] = []
day_entries cal first (d ∷ ds) =
    comma first
    ++ (codes "{\"epoch\":"
        ++ (to_string d.time
            ++ (codes ",\"date\":\""
                ++ (cal.my_time_str_calendar_day d.time
                    ++ (codes "\"}" ++ day_entries cal false ds)))))

unfoldable pub get_month_info : Calendar → MachineTime → Bytes
get_month_info cal m =
    codes "{\"server_time\":\""
    ++ (cal.my_time_str
        ++ (codes "\",\"gadget_time\":\""
            ++ (cal.my_time_str_offset m.tz_offset
                ++ (codes "\",\"days\":["
                    ++ (day_entries cal true (m.old_month ++ m.month) ++ codes "]}")))))

unfoldable pub history_entries : ℕ → List ℤ → Bytes
history_entries i [] = []
history_entries i (t ∷ ts) = channel_entry i t false ++ history_entries (suc i) ts

unfoldable pub get_from_db : {S : Type 0} → Sqlite S → ℤ → MachineTime → Option S → Bytes
get_from_db sql day_epoch m none = []
get_from_db sql day_epoch m (some s) = elim (sql.select_history m.id day_epoch s) [
  | none ↦ []
  | some ts ↦
      codes "{\"server_time\":\"\",\"gadget_time\":\"\",\"channels\":["
      ++ (history_entries 0 ts ++ codes "]}")
]

-- `earliest`, where `INT_MAX` stands for there being no day at all.
unfoldable pub earliest : List Day → List Day → ℤ
earliest (d ∷ ds) month = d.time
earliest [] (d ∷ ds) = d.time
earliest [] [] = pos 2147483647

-- The empty answer stands for a day that is not known.
unfoldable pub get : {S : Type 0} → Sqlite S → Calendar → ℤ → MachineTime → Option S → Bytes
get sql cal day m db =
    if day ==ℤ pos 0
    then get_month_info cal m
    else if ltb_ℤ day (earliest m.old_month m.month)
    then get_from_db sql day m db
    else elim (find_day day (m.old_month ++ m.month)) as (λ o. Bytes) [
      | none ↦ []
      | some d ↦ get_day_info cal m d
    ]

unfoldable pub seconds_list : Bool → List ℤ → Bytes
seconds_list first [] = []
seconds_list first (s ∷ ss) = comma first ++ (to_string s ++ seconds_list false ss)

unfoldable pub get_events : ℤ → ℤ → MachineTime → Bytes
get_events day channel m =
    let target = find_day day (m.old_month ++ m.month) in
    if ltb_ℤ channel (pos 0) || leb_ℤ (pos 19) channel
    then codes "{\"error\":\"channel out of range\"}"
    else elim target as (λ o. Bytes) [
      | none ↦ codes "{\"error\":\"day not found\"}"
      | some d ↦
          let c = get_or d.channels (pos_part channel) new_channel in
          codes "{\"day\":"
          ++ (to_string day
              ++ (codes ",\"channel\":"
                  ++ (to_string channel
                      ++ (codes ",\"starts\":["
                          ++ (seconds_list true c.channel_start
                              ++ (codes "],\"stops\":["
                                  ++ (seconds_list true c.channel_stop ++ codes "]}")))))))
    ]

-- A quotation mark and a backslash get a backslash.
unfoldable pub escape : Bytes → Bytes
escape [] = []
escape (c ∷ cs) =
    let rest = escape cs in
    if c == b'"'
    then codes "\\\"" ++ rest
    else if c == b'\\'
    then codes "\\\\" ++ rest
    else c ∷ rest

unfoldable pub name_entries : Bool → List Bytes → Bytes
name_entries first [] = []
name_entries first (n ∷ ns) =
    comma first ++ (codes "\"" ++ (escape n ++ (codes "\"" ++ name_entries false ns)))

-- The loop runs over the names 1 to 18.
unfoldable pub get_names : MachineTime → Bytes
get_names m =
    codes "{\"names\":[" ++ (name_entries true (take 18 (drop 1 m.channel_names)) ++ codes "]}")
