-- ===== src/MachineTime/Device/Start/Restored.antt =====
-- MachineTime.cpp: the constructor on the database that db_save_session has left.
use java_io_tserver.Common.{
  ◌≡◌, ◌∙◌, refl, sym, if_both, List, [], ◌∷◌, some, Option-cases, inl, inr, length, ap, get_or,
  set, arith,
}
use java_io_tserver.Common.Int.{ℤ, pos_part, ◌+ℤ◌, quot, to_i32}
use java_io_tserver.Common.Text.{Bytes, to_u32}
use java_io_tserver.Setup.{SetupConfig}
use java_io_tserver.MachineTime.Day.{Day, new_channel, seconds_of_day}
use java_io_tserver.MachineTime.Store.{Sqlite, Event, Session}
use java_io_tserver.MachineTime.Device.{
  MachineTime, back, working_from, channel_times, db_load_names, db_save_session,
}
use java_io_tserver.MachineTime.Device.Invariant.{IsDevice}
use java_io_tserver.MachineTime.Device.Start.{
  change_in_window, on_channels, assign_times, load_history, log_event, restore_channels,
  load_event, load_events, delete_stale, resume, ensure_today, load, blank, new_machine_time,
}
use java_io_tserver.MachineTime.Device.Start.Resume.{SameSession, restored_session, resume_today}

-- The session that an object has before is the one that it has after.
abbrev KeepsSession : MachineTime → MachineTime → Type 0
KeepsSession m n = n.this_session ≡ m.this_session

module _ (gmtime : ℤ → ℤ × ℤ) (today_epoch : ℤ) where
  change_in_window-KeepsSession :
      (f : Day → Day) (ep : ℤ) (m : MachineTime)
      → KeepsSession m (change_in_window gmtime today_epoch f ep m)
  unfolding change_in_window
  change_in_window-KeepsSession f ep m = ground arith

  load_history-KeepsSession :
      (rows : List (ℤ × List ℤ)) (m : MachineTime)
      → KeepsSession m (load_history gmtime today_epoch rows m)
  unfolding load_history
  load_history-KeepsSession [] m = refl
  load_history-KeepsSession ((ep, ts) ∷ rows) m =
      load_history-KeepsSession rows _
      ∙ change_in_window-KeepsSession (on_channels (assign_times ts)) ep m

  load_event-KeepsSession :
      (e : Event) (m : MachineTime) → KeepsSession m (load_event gmtime today_epoch e m)
  unfolding load_event
  load_event-KeepsSession e m =
      let ch = pos_part e.channel in
      let log = on_channels (λ cs. set cs ch (log_event e (get_or cs ch new_channel))) in
      ground (arith, change_in_window-KeepsSession log e.day_epoch m)

  load_events-KeepsSession :
      (es : List Event) (m : MachineTime) → KeepsSession m (load_events gmtime today_epoch es m)
  unfolding load_events
  load_events-KeepsSession [] m = refl
  load_events-KeepsSession (e ∷ es) m = load_events-KeepsSession es _ ∙ load_event-KeepsSession e m

  ensure_today-KeepsSession : (m : MachineTime) → KeepsSession m (ensure_today gmtime today_epoch m)
  unfolding ensure_today
  ensure_today-KeepsSession m = ground arith

module _ {S : Type 0} (sql : Sqlite S) (gmtime : ℤ → ℤ × ℤ) where
  db_load_names-KeepsSession :
      (m : MachineTime) (s : S) → KeepsSession m (db_load_names sql m (some s))
  unfolding db_load_names
  db_load_names-KeepsSession m s = elim (Option-cases (sql.select_names m.id s)) [
    | inl absent ↦ rw (absent, db_load_names) refl
    | inr (names, found) ↦ rw (found, db_load_names) refl
  ]

  -- The days of the events that go do not concern the session.
  select_session-delete_stale :
      ((id other : Bytes) (ep : ℤ) (s : S)
        → sql.select_session id (sql.delete_events other ep s) ≡ sql.select_session id s)
      → (today : ℤ) (id : Bytes) (es : List Event) (s : S)
      → sql.select_session id (delete_stale gmtime today sql id es s) ≡ sql.select_session id s
  unfolding delete_stale
  select_session-delete_stale law today id [] s = refl
  select_session-delete_stale law today id (e ∷ es) s =
      select_session-delete_stale law today id es _
      ∙ if_both (λ x. sql.select_session id x ≡ sql.select_session id s) _
          (sql.delete_events id e.day_epoch s) s (law id id e.day_epoch s) refl

  -- The session of an object whose database has the row of a session of today.
  load_today :
      ((id other : Bytes) (ep : ℤ) (s : S)
        → sql.select_session id (sql.delete_events other ep s) ≡ sql.select_session id s)
      → (k : Session) (s : S) (m : MachineTime) → sql.select_session m.id s ≡ some k
      → (load gmtime k.day_epoch sql s m).0.this_session.channels
        ≡ restore_channels 0 k.working k.times m.this_session.channels
  unfolding load
  load_today law k s m found =
      let today = k.day_epoch in
      let named = db_load_names sql m (some s) in
      let dated = load_history gmtime today (sql.select_all_history m.id s) named in
      let rows = sql.select_events m.id s in
      let n = load_events gmtime today rows dated in
      let s' = delete_stale gmtime today sql m.id rows s in
      let kept : n.this_session ≡ m.this_session =
        load_events-KeepsSession gmtime today rows dated
        ∙ load_history-KeepsSession gmtime today (sql.select_all_history m.id s) named
        ∙ db_load_names-KeepsSession m s in
      let row : sql.select_session m.id s' ≡ some k =
        select_session-delete_stale law today m.id rows s ∙ found in
      let r = resume gmtime today sql (sql.select_session m.id s') n (some s') in
      ap (λ d. d.channels) (ensure_today-KeepsSession gmtime today r.0)
      ∙ ap (λ o. (resume gmtime today sql o n (some s')).0.this_session.channels) row
      ∙ resume_today sql gmtime k n (some s')
      ∙ ap (λ d. restore_channels 0 k.working k.times d.channels) kept

  -- A session that db_save_session writes for a device is the one that the constructor of a new
  -- object with the same id has, with its times and the states of its channels, where it runs on the
  -- day that the device has last and on the database as it has been left. Of the database it is asked
  -- that the SELECT of the session gives the row that was written last for the device, and that
  -- a DELETE of events leaves that row.
  pub new_machine_time-db_save_session :
      (setup : SetupConfig) (buf : Bytes) (tz_offset now : ℤ) (m : MachineTime) (s : S)
      → ((id : Bytes) (k : Session) (s : S)
          → sql.select_session id (sql.replace_session id k s) ≡ some k)
      → ((id other : Bytes) (ep : ℤ) (s : S)
          → sql.select_session id (sql.delete_events other ep s) ≡ sql.select_session id s)
      → IsDevice m
      → to_i32 (to_u32 (quot (now +ℤ tz_offset) seconds_of_day)) ≡ (back m.month).time
      → (s' : S) × (db_save_session sql m (some s) ≡ some s')
        × SameSession
            (new_machine_time sql gmtime setup buf m.id tz_offset now (some s')).0.this_session
            m.this_session
  unfolding db_save_session new_machine_time blank
  new_machine_time-db_save_session setup buf tz_offset now m s law law2 h day =
      let k : Session = record {
        day_epoch = (back m.month).time;
        times = channel_times m.this_session.channels;
        working = working_from 0 0 m.this_session.channels;
      } in
      let s' = sql.replace_session m.id k s in
      let n = blank setup buf m.id tz_offset now in
      let fresh : length n.this_session.channels ≡ 19 = refl in
      let on_day = load_today law2 k s' n (law m.id k s) in
      (
        s',
        rw h.current refl,
        rw (day, on_day)
            (restored_session m.this_session.channels n.this_session.channels
              (fresh ∙ sym h.session)),
      )
