-- ===== src/MachineTime/Device/Start/Established.antt =====
-- The constructor gives a well formed device, whatever rows the database holds.
use java_io_tserver.Common.{
  ℕ, zero, suc, ◌≡◌, ◌∙◌, refl, inl, inr, not, ◌&&◌, ◌||◌, if_both, List, [], ◌∷◌, Option, none,
  some, All, All-append, Bool-cases, Option-cases, length, length-set, replicate, arith,
}
use java_io_tserver.Common.Int.{ℤ, pos, negsuc, ◌+ℤ◌, ◌==ℤ◌, ltb_ℤ, leb_ℤ}
use java_io_tserver.Common.Text.{Bytes}
use java_io_tserver.Setup.{SetupConfig}
use java_io_tserver.MachineTime.Day.{Channel, Day, new_channel}
use java_io_tserver.MachineTime.Store.{Sqlite, Event, Session}
use java_io_tserver.MachineTime.Device.{
  MachineTime, back, is_empty, month_epoch, db_load_names, new_day,
}
use java_io_tserver.MachineTime.Device.Days.{All-change_day, is_empty-append}
use java_io_tserver.MachineTime.Device.Invariant.{IsDay, IsPending, IsDevice}
use java_io_tserver.MachineTime.Device.Start.{
  assign_times, increase_times, restore_channels, on_channels, change_in_window, load_history,
  load_event, load_events, in_window, resume, ensure_today, load, blank, new_machine_time,
}

-- What holds before there is a day for today.
record IsLoading (m : MachineTime) : Type 0 where
  days : All IsDay m.month
  old_days : All IsDay m.old_month
  session : IsDay m.this_session
  pending : All IsPending m.this_session.channels
  names : length m.channel_names ≡ 19

length-assign_times : (ts : List ℤ) (cs : List Channel) → length (assign_times ts cs) ≡ length cs
unfolding assign_times
length-assign_times [] cs = refl
length-assign_times (t ∷ ts) [] = refl
length-assign_times (t ∷ ts) (c ∷ cs) = omega (arith, length-assign_times ts cs)

length-increase_times :
    (ts : List ℤ) (cs : List Channel) → length (increase_times ts cs) ≡ length cs
unfolding increase_times
length-increase_times [] cs = refl
length-increase_times (t ∷ ts) [] = refl
length-increase_times (t ∷ ts) (c ∷ cs) = omega (arith, length-increase_times ts cs)

length-restore_channels :
    (i w : ℕ) (ts : List ℤ) (cs : List Channel) → length (restore_channels i w ts cs) ≡ length cs
unfolding restore_channels
length-restore_channels i w [] cs = refl
length-restore_channels i w (t ∷ ts) [] = refl
length-restore_channels i w (t ∷ ts) (c ∷ cs) =
    omega (arith, length-restore_channels (suc i) w ts cs)

restore_channels-IsPending :
    (i w : ℕ) (ts : List ℤ) (cs : List Channel)
    → All IsPending cs
    → All IsPending (restore_channels i w ts cs)
unfolding restore_channels
restore_channels-IsPending i w [] cs h = h
restore_channels-IsPending i w (t ∷ ts) [] h = h
restore_channels-IsPending i w (t ∷ ts) (c ∷ cs) h =
    (h.0, restore_channels-IsPending (suc i) w ts cs h.1)

module _ (gmtime : ℤ → ℤ × ℤ) (today_epoch : ℤ) where
  change_in_window-IsLoading :
      (f : Day → Day) (ep : ℤ) (m : MachineTime)
      → IsLoading m
      → ((d : Day) → IsDay d → IsDay (f d))
      → IsLoading (change_in_window gmtime today_epoch f ep m)
  unfolding change_in_window
  change_in_window-IsLoading f ep m h k =
      let now_m = month_epoch gmtime today_epoch in
      elim (Bool-cases (month_epoch gmtime ep ==ℤ now_m)) [
        | inl e ↦ rw e (record {
          days = All-change_day IsDay f ep m.month h.days refl k;
          old_days = h.old_days;
          session = h.session;
          pending = h.pending;
          names = h.names;
        })
        | inr e ↦ rw e (elim (Bool-cases (month_epoch gmtime ep ==ℤ (now_m +ℤ negsuc 0))) [
          | inl g ↦ rw g (record {
            days = h.days;
            old_days = All-change_day IsDay f ep m.old_month h.old_days refl k;
            session = h.session;
            pending = h.pending;
            names = h.names;
          })
          | inr g ↦ rw g h
        ])
      ]

  load_history-IsLoading :
      (rows : List (ℤ × List ℤ)) (m : MachineTime)
      → IsLoading m
      → IsLoading (load_history gmtime today_epoch rows m)
  unfolding load_history
  load_history-IsLoading [] m h = h
  load_history-IsLoading ((ep, ts) ∷ rows) m h =
      load_history-IsLoading rows _
        (change_in_window-IsLoading _ ep m h (λ d p. length-assign_times ts d.channels ∙ p))

  load_events-IsLoading :
      (es : List Event) (m : MachineTime)
      → IsLoading m
      → IsLoading (load_events gmtime today_epoch es m)
  unfolding load_events load_event
  load_events-IsLoading [] m h = h
  load_events-IsLoading (e ∷ es) m h =
      load_events-IsLoading es _
        (elim (Bool-cases (leb_ℤ (pos 0) e.channel && ltb_ℤ e.channel (pos 19))) [
          | inl g ↦
              rw g (
                change_in_window-IsLoading _ e.day_epoch m h (λ d p. length-set d.channels _ _ ∙ p))
          | inr g ↦ rw g h
        ])

  ensure_today-IsDevice :
      (m : MachineTime) → IsLoading m → IsDevice (ensure_today gmtime today_epoch m)
  unfolding ensure_today
  ensure_today-IsDevice m h =
      elim (Bool-cases (is_empty m.month || not ((back m.month).time ==ℤ today_epoch))) [
        | inl e ↦ rw e (record {
          current = is_empty-append m.month _;
          days = All-append IsDay m.month _ h.days (refl, tt);
          old_days = h.old_days;
          session = h.session;
          pending = h.pending;
          names = h.names;
        })
        | inr e ↦ rw e (record {
          current = ground (arith, e);
          days = h.days;
          old_days = h.old_days;
          session = h.session;
          pending = h.pending;
          names = h.names;
        })
      ]

  module _ {S : Type 0} (sql : Sqlite S) where
    resume-IsLoading :
        (k : Option Session) (m : MachineTime) (db : Option S)
        → IsLoading m
        → IsLoading (resume gmtime today_epoch sql k m db).0
    unfolding resume
    resume-IsLoading none m db h = h
    resume-IsLoading (some k) m db h =
        let added =
          change_in_window-IsLoading (on_channels (increase_times k.times)) k.day_epoch m h
            (λ d p. length-increase_times k.times d.channels ∙ p) in
        if_both (λ (r : MachineTime × Option S). IsLoading r.0) (k.day_epoch ==ℤ today_epoch) _ _
          (record {
            days = h.days;
            old_days = h.old_days;
            session = length-restore_channels 0 k.working k.times _ ∙ h.session;
            pending = restore_channels-IsPending 0 k.working k.times _ h.pending;
            names = h.names;
          })
          (if_both (λ (r : MachineTime × Option S). IsLoading r.0) (ltb_ℤ (pos 0) k.day_epoch) _ _
            (if_both (λ (r : MachineTime × Option S). IsLoading r.0)
              (in_window gmtime today_epoch k.day_epoch) _ _ added h)
            h)

    db_load_names-IsLoading :
        (m : MachineTime) (s : S)
        → ((id : Bytes) (s : S) (names : List Bytes)
            → sql.select_names id s ≡ some names
            → length names ≡ 18)
        → IsLoading m
        → IsLoading (db_load_names sql m (some s))
    unfolding db_load_names
    db_load_names-IsLoading m s law h = elim (Option-cases (sql.select_names m.id s)) [
      | inl e ↦ rw (e, db_load_names) h
      | inr (names, e) ↦
          rw (e, db_load_names)
            (record {
              days = h.days;
              old_days = h.old_days;
              session = h.session;
              pending = h.pending;
              names = omega (arith, law m.id s names e);
            })
    ]

    load-IsDevice :
        (s : S) (m : MachineTime)
        → ((id : Bytes) (s : S) (names : List Bytes)
            → sql.select_names id s ≡ some names
            → length names ≡ 18)
        → IsLoading m
        → IsDevice (load gmtime today_epoch sql s m).0
    unfolding load
    load-IsDevice s m law h = ensure_today-IsDevice _ (
        resume-IsLoading _ _ _ (
          load_events-IsLoading _ _
            (load_history-IsLoading _ _ (db_load_names-IsLoading m s law h))))

fresh : (n : ℕ) → All IsPending (replicate n new_channel)
fresh zero = tt
fresh (suc n) = (omega arith, fresh n)

blank-IsLoading :
    (s : SetupConfig) (buf id : Bytes) (tz_offset now : ℤ)
    → IsLoading (blank s buf id tz_offset now)
unfolding blank
blank-IsLoading s buf id tz_offset now = record {
  days = tt;
  old_days = tt;
  session = refl;
  pending = fresh 19;
  names = refl;
}

-- Where the SELECT of the names gives the 18 columns it asks for, the constructor gives a well formed
-- device, with a day at the back of its month, whatever else the database holds and with none.
pub new_machine_time-IsDevice :
    {S : Type 0} (sql : Sqlite S) (gmtime : ℤ → ℤ × ℤ) (s : SetupConfig) (buf id : Bytes)
    (tz_offset now : ℤ) (db : Option S)
    → ((id : Bytes) (s : S) (names : List Bytes)
        → sql.select_names id s ≡ some names
        → length names ≡ 18)
    → IsDevice (new_machine_time sql gmtime s buf id tz_offset now db).0
unfolding new_machine_time new_day
new_machine_time-IsDevice sql gmtime s buf id tz_offset now none law =
    let h = blank-IsLoading s buf id tz_offset now in
    record {
      current = is_empty-append _ _;
      days = All-append IsDay _ _ h.days (refl, tt);
      old_days = h.old_days;
      session = h.session;
      pending = h.pending;
      names = h.names;
    }
new_machine_time-IsDevice sql gmtime s buf id tz_offset now (some db) law =
    load-IsDevice gmtime _ sql db _ law (blank-IsLoading s buf id tz_offset now)
