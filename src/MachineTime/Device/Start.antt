-- ===== src/MachineTime/Device/Start.antt =====
-- The constructor of class MachineTime: the days, events and session that the database kept.
pub mod Established
pub mod Resume
pub mod Restored
use java_io_tserver.Common.{
  ℕ, zero, suc, ◌+◌, ◌/◌, ◌%◌, ◌^◌, Bool, true, false, ◌&&◌, ◌||◌, not, List, [], ◌∷◌, ◌++◌, Option,
  none, some, ◌==◌, if◌then◌else◌, replicate, get_or, set,
}
use java_io_tserver.Common.Int.{ℤ, pos, negsuc, pos_part, ◌+ℤ◌, ◌==ℤ◌, ltb_ℤ, leb_ℤ, quot, to_i32}
use java_io_tserver.Common.Text.{Bytes, to_u32}
use java_io_tserver.Setup.{SetupConfig}
use java_io_tserver.Cripter.Session.{new_cripter}
use java_io_tserver.MachineTime.Day.{Channel, Day, new_channel, day_at, day_now, seconds_of_day}
use java_io_tserver.MachineTime.Store.{Sqlite, Event, Session}
use java_io_tserver.MachineTime.Device.{
  MachineTime, back, is_empty, month_epoch, find_day, change_day, db_load_names,
  db_save_history_day, db_save_session, db_add_history_times, new_day,
}

-- The loops that assign and that add 19 times.
unfoldable pub assign_times : List ℤ → List Channel → List Channel
assign_times (t ∷ ts) (c ∷ cs) = record c { channel_time = t } ∷ assign_times ts cs
assign_times _ cs = cs

unfoldable pub increase_times : List ℤ → List Channel → List Channel
increase_times (t ∷ ts) (c ∷ cs) =
    record c { channel_time = c.channel_time +ℤ t } ∷ increase_times ts cs
increase_times _ cs = cs

-- The loop that assigns the times and the bits of `working`, from channel `i` on.
unfoldable pub restore_channels : ℕ → ℕ → List ℤ → List Channel → List Channel
restore_channels i working (t ∷ ts) (c ∷ cs) =
    record c { channel_time = t; working_now = (working / 2 ^ i) % 2 == 1 }
    ∷ restore_channels (suc i) working ts cs
restore_channels i working _ cs = cs

abbrev pub on_channels : (List Channel → List Channel) → Day → Day
on_channels f d = record d { channels = f d.channels }

-- An event at the end of the log it belongs to.
unfoldable pub log_event : Event → Channel → Channel
log_event e c =
    if e.event_type ==ℤ pos 0
    then record c { channel_start = c.channel_start ++ e.sec_of_day ∷ [] }
    else record c { channel_stop = c.channel_stop ++ e.sec_of_day ∷ [] }

abbrev day_or_new : ℤ → Option Day → Day
day_or_new epoch none = day_at epoch
day_or_new epoch (some d) = d

module _ (gmtime : ℤ → ℤ × ℤ) (today_epoch : ℤ) where
  abbrev today_m : ℤ
  today_m = month_epoch gmtime today_epoch

  abbrev prev_m : ℤ
  prev_m = today_m +ℤ negsuc 0

  -- A change of the day `ep`, in this month or in the last one.
  unfoldable pub change_in_window : (Day → Day) → ℤ → MachineTime → MachineTime
  change_in_window f ep m =
      let epoch_m = month_epoch gmtime ep in
      if epoch_m ==ℤ today_m
      then record m { month = change_day f ep m.month }
      else if epoch_m ==ℤ prev_m
      then record m { old_month = change_day f ep m.old_month }
      else m

  abbrev pub in_window : ℤ → Bool
  in_window ep = let epoch_m = month_epoch gmtime ep in epoch_m ==ℤ today_m || epoch_m ==ℤ prev_m

  unfoldable pub load_history : List (ℤ × List ℤ) → MachineTime → MachineTime
  load_history [] m = m
  load_history ((ep, ts) ∷ rows) m =
      load_history rows (change_in_window (on_channels (assign_times ts)) ep m)

  abbrev in_range : ℤ → Bool
  in_range ch = leb_ℤ (pos 0) ch && ltb_ℤ ch (pos 19)

  unfoldable pub load_event : Event → MachineTime → MachineTime
  load_event e m =
      let ch = pos_part e.channel in
      let log = on_channels (λ cs. set cs ch (log_event e (get_or cs ch new_channel))) in
      if in_range e.channel then change_in_window log e.day_epoch m else m

  unfoldable pub load_events : List Event → MachineTime → MachineTime
  load_events [] m = m
  load_events (e ∷ es) m = load_events es (load_event e m)

  -- The last day of the month is today.
  unfoldable pub ensure_today : MachineTime → MachineTime
  ensure_today m =
      if is_empty m.month || not ((back m.month).time ==ℤ today_epoch)
      then record m { month = m.month ++ day_at today_epoch ∷ [] }
      else m

  module _ {S : Type 0} (sql : Sqlite S) where
    -- The days of the events that are outside of both months go.
    unfoldable pub delete_stale : Bytes → List Event → S → S
    delete_stale id [] s = s
    delete_stale id (e ∷ es) s = delete_stale id es (
        if in_range e.channel && not (in_window e.day_epoch)
        then sql.delete_events id e.day_epoch s
        else s)

    -- What becomes of the session that was kept.
    unfoldable pub resume : Option Session → MachineTime → Option S → MachineTime × Option S
    resume none m db = (m, db)
    resume (some k) m db =
        let add = on_channels (increase_times k.times) in
        let m' = change_in_window add k.day_epoch m in
        let days = if month_epoch gmtime k.day_epoch ==ℤ today_m then m'.month else m'.old_month in
        let d = day_or_new k.day_epoch (find_day k.day_epoch days) in
        let restored = restore_channels 0 k.working k.times m.this_session.channels in
        if k.day_epoch ==ℤ today_epoch
        then (record m { this_session = record m.this_session { channels = restored } }, db)
        else if ltb_ℤ (pos 0) k.day_epoch
        then (if in_window k.day_epoch
            then (m', db_save_history_day sql m' d db)
            else (m, db_add_history_times sql m k.day_epoch k.times db))
        else (m, db)

    -- The constructor where there is a database.
    unfoldable pub load : S → MachineTime → MachineTime × Option S
    load s m =
        let named = db_load_names sql m (some s) in
        let dated = load_history (sql.select_all_history m.id s) named in
        let rows = sql.select_events m.id s in
        let s' = delete_stale m.id rows s in
        let (m', db) = resume (sql.select_session m.id s') (load_events rows dated) (some s') in
        let m'' = ensure_today m' in (m'', db_save_session sql m'' db)

-- The object before the database is read; `buf` is what the generator's array happens to hold.
unfoldable pub blank : SetupConfig → Bytes → Bytes → ℤ → ℤ → MachineTime
blank s buf id tz_offset now = record {
  id = id;
  cripter = new_cripter s buf;
  tz_offset = tz_offset;
  month = [];
  old_month = [];
  this_session = day_now now tz_offset;
  channel_names = replicate 19 [];
}

unfoldable pub new_machine_time :
    {S : Type 0}
    → Sqlite S
    → (ℤ → ℤ × ℤ)
    → SetupConfig
    → Bytes
    → Bytes
    → ℤ
    → ℤ
    → Option S
    → MachineTime × Option S
new_machine_time sql gmtime s buf id tz_offset now none =
    new_day sql now (blank s buf id tz_offset now) none
new_machine_time sql gmtime s buf id tz_offset now (some db) =
    let today_epoch = to_i32 (to_u32 (quot (now +ℤ tz_offset) seconds_of_day)) in
    load gmtime today_epoch sql db (blank s buf id tz_offset now)
