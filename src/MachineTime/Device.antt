-- ===== src/MachineTime/Device.antt =====
-- class MachineTime: one device, with the days of this month and of the last one, the session that
-- runs, and the database if there is one. Its methods hold the lock of the object from beginning to
-- end, so that each is one step. The clock, `gmtime_r` and SQLite are arguments;
-- the clock does not move within a step.
pub mod Packet
pub mod Start
pub mod Days
pub mod Order
pub mod Invariant
pub mod Totals
pub mod Report
use java_io_tserver.Common.{
  ℕ, zero, suc, ◌+◌, ◌*◌, ◌^◌, Bool, true, false, ◌&&◌, ◌||◌, not, List, [], ◌∷◌, ◌++◌, Option,
  none, some, ◌==◌, if◌then◌else◌, map, replicate, get_or, set, length, leb, bit_or,
}
use java_io_tserver.Common.Int.{
  ℤ, pos, pos_part, ◌+ℤ◌, ◌==ℤ◌, ltb_ℤ, quot, rem, times, to_i32, shift_right,
}
use java_io_tserver.Common.Text.{Bytes, codes, to_u32}
use java_io_tserver.Setup.{SetupConfig, get}
use java_io_tserver.Cripter.Session.{MyCripter, decrypt, encrypt}
use java_io_tserver.MachineTime.Day.{
  Channel, Day, day_at, day_now, seconds_of_day, set_channels, add_times, clear_times,
}
use java_io_tserver.MachineTime.Store.{Sqlite, Event, Session}

pub record MachineTime : Type 0 where
  pub id : Bytes
  pub cripter : MyCripter
  pub tz_offset : ℤ
  pub month : List Day
  pub old_month : List Day
  pub this_session : Day
  pub channel_names : List Bytes

-- `back()` of a list of days; the code calls it on an empty one nowhere, where it is undefined.
unfoldable pub back : List Day → Day
back [] = day_at (pos 0)
back (d ∷ []) = d
back (d ∷ e ∷ ds) = back (e ∷ ds)

unfoldable pub set_back : Day → List Day → List Day
set_back x [] = []
set_back x (d ∷ []) = x ∷ []
set_back x (d ∷ e ∷ ds) = d ∷ set_back x (e ∷ ds)

abbrev pub is_empty : List Day → Bool
is_empty [] = true
is_empty (d ∷ ds) = false

-- `tm_year * 12 + tm_mon` of a time.
abbrev pub month_of : (ℤ → ℤ × ℤ) → ℤ → ℤ
month_of gmtime t = let (tm_year, tm_mon) = gmtime t in times 12 tm_year +ℤ tm_mon

-- The second of the day is counted in an `int`.
unfoldable pub month_epoch : (ℤ → ℤ × ℤ) → ℤ → ℤ
month_epoch gmtime day_epoch = month_of gmtime (to_i32 (to_u32 (times 86400 day_epoch +ℤ pos 1)))

-- `find_or_create_day`: the place of the day in the list, and the list with the day in it.
unfoldable pub find_day : ℤ → List Day → Option Day
find_day epoch [] = none
find_day epoch (d ∷ ds) = let rest = find_day epoch ds in if d.time ==ℤ epoch then some d else rest

unfoldable pub insert_day : ℤ → List Day → List Day
insert_day epoch [] = day_at epoch ∷ []
insert_day epoch (d ∷ ds) =
    let rest = insert_day epoch ds in if ltb_ℤ d.time epoch then d ∷ rest else day_at epoch ∷ d ∷ ds

unfoldable pub change_first : (Day → Day) → ℤ → List Day → List Day
change_first f epoch [] = []
change_first f epoch (d ∷ ds) =
    let rest = change_first f epoch ds in if d.time ==ℤ epoch then f d ∷ ds else d ∷ rest

-- What the caller does to the day it gets a reference to.
unfoldable pub change_day : (Day → Day) → ℤ → List Day → List Day
change_day f epoch ds = elim (find_day epoch ds) [
  | some d ↦ change_first f epoch ds
  | none ↦ change_first f epoch (insert_day epoch ds)
]

-- `working` of db_save_session, from channel `i` on.
unfoldable pub working_from : ℕ → ℕ → List Channel → ℕ
working_from i working [] = working
working_from i working (c ∷ cs) =
    working_from (suc i) (if c.working_now then bit_or working (2 ^ i) else working) cs

abbrev pub channel_times : List Channel → List ℤ
channel_times = map (λ c. c.channel_time)

-- The rows of one channel, and of all from channel `i` on, for db_save_events_day.
unfoldable pub event_rows : ℤ → ℤ → ℤ → List ℤ → List Event
event_rows day ch kind [] = []
event_rows day ch kind (s ∷ ss) =
    record { day_epoch = day; channel = ch; event_type = kind; sec_of_day = s }
    ∷ event_rows day ch kind ss

unfoldable pub day_rows : ℤ → ℕ → List Channel → List Event
day_rows day i [] = []
day_rows day i (c ∷ cs) =
    event_rows day (pos i) (pos 0) c.channel_start
    ++ (event_rows day (pos i) (pos 1) c.channel_stop ++ day_rows day (suc i) cs)

-- The times of the session go to the last day, and the session starts at 0.
unfoldable pub merge_session : MachineTime → MachineTime
merge_session m =
    let last = back m.month in
    record m {
      month =
          set_back (record last { channels = add_times m.this_session.channels last.channels })
            m.month;
      this_session = record m.this_session { channels = clear_times m.this_session.channels };
    }

module _ {S : Type 0} (sql : Sqlite S) where
  unfoldable pub db_load_names : MachineTime → Option S → MachineTime
  db_load_names m none = m
  db_load_names m (some s) = elim (sql.select_names m.id s) [
    | none ↦ m
    | some names ↦ record m { channel_names = [] ∷ names }
  ]

  unfoldable pub db_save_names : MachineTime → Option S → Option S
  db_save_names m none = none
  db_save_names m (some s) = some (sql.replace_names m.id m.channel_names s)

  unfoldable pub db_save_history_day : MachineTime → Day → Option S → Option S
  db_save_history_day m d none = none
  db_save_history_day m d (some s) =
      some (sql.replace_history m.id d.time (channel_times d.channels) s)

  unfoldable pub insert_events : Bytes → List Event → S → S
  insert_events id [] s = s
  insert_events id (e ∷ es) s = insert_events id es (sql.insert_event id e s)

  unfoldable pub db_save_events_day : MachineTime → Day → Option S → Option S
  db_save_events_day m d none = none
  db_save_events_day m d (some s) =
      some (insert_events m.id (day_rows d.time 0 d.channels) (sql.delete_events m.id d.time s))

  unfoldable pub db_save_session : MachineTime → Option S → Option S
  db_save_session m none = none
  db_save_session m (some s) =
      if is_empty m.month
      then some s
      else some (
          sql.replace_session m.id
            (record {
              day_epoch = (back m.month).time;
              times = channel_times m.this_session.channels;
              working = working_from 0 0 m.this_session.channels;
            })
            s)

  unfoldable pub db_add_history_times : MachineTime → ℤ → List ℤ → Option S → Option S
  db_add_history_times m day_epoch add none = none
  db_add_history_times m day_epoch add (some s) = some (sql.add_history m.id day_epoch add s)

  abbrev pub exec : (S → S) → Option S → Option S
  exec f none = none
  exec f (some s) = some (f s)

  -- The day at the back with its events, in one transaction.
  unfoldable pub save_back : MachineTime → Option S → Option S
  save_back m db =
      if is_empty m.month
      then db
      else exec sql.commit (
          db_save_events_day m (back m.month)
            (db_save_history_day m (back m.month) (exec sql.begin db)))

  unfoldable pub new_day : ℤ → MachineTime → Option S → MachineTime × Option S
  new_day now m db = (record m { month = m.month ++ day_now now m.tz_offset ∷ [] }, save_back m db)

  -- What happens to the events of the month that leaves the window.
  unfoldable pub drop_events : MachineTime → Option S → Option S
  drop_events m db = elim m.old_month [
    | [] ↦ db
    | d ∷ ds ↦ exec (sql.delete_events_before m.id d.time) db
  ]

  unfoldable pub new_month : MachineTime → Option S → MachineTime × Option S
  new_month m db = (record m { old_month = m.month; month = [] }, drop_events m (save_back m db))

  unfoldable pub new_session : (ℤ → ℤ × ℤ) → ℤ → MachineTime → Option S → MachineTime × Option S
  new_session gmtime now m db =
      let m' = merge_session m in
      let db' = db_save_session m' db in
      let t = now +ℤ m'.tz_offset in
      let last = (back m'.month).time in
      let (m'', db'') = new_month m' db' in
      if not (last ==ℤ quot t seconds_of_day)
      then (if not (month_of gmtime t ==ℤ month_epoch gmtime last)
          then new_day now m'' db''
          else new_day now m' db')
      else (m', db')

  -- The destructor.
  unfoldable pub destroy : MachineTime → Option S → Option S
  destroy m db =
      if is_empty m.month
      then db
      else exec sql.commit (
          db_save_events_day m (back m.month)
            (db_save_session m (db_save_history_day m (back m.month) (exec sql.begin db))))

  unfoldable pub update_today : MachineTime → Option S → Option S
  update_today m db =
      if is_empty m.month then db else db_save_session m (db_save_history_day m (back m.month) db)

  unfoldable pub set_name : ℤ → Bytes → MachineTime → Option S → Bool × MachineTime × Option S
  set_name ch name m db =
      if ltb_ℤ ch (pos 1) || ltb_ℤ (pos 18) ch
      then (false, m, db)
      else let m' = record m { channel_names = set m.channel_names (pos_part ch) name } in
        (true, m', db_save_names m' db)

  unfoldable pub delete_name : ℤ → MachineTime → Option S → Bool × MachineTime × Option S
  delete_name ch m db = set_name ch [] m db
