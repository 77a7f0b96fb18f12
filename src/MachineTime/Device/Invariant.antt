-- ===== src/MachineTime/Device/Invariant.antt =====
-- What holds of every device between two requests.
use java_io_tserver.Common.{
  ◌<◌, ◌≡◌, ◌∙◌, refl, inl, inr, false, ◌||◌, List, [], ◌∷◌, Option, All, All-append, Bool-cases,
  length, length-set, ◌==◌, arith,
}
use java_io_tserver.Common.Int.{ℤ, pos, pos_part, ◌+ℤ◌, ◌==ℤ◌, ltb_ℤ, quot}
use java_io_tserver.MachineTime.Day.{
  Channel, Day, set_channels, add_times, clear_times, seconds_of_day,
}
use java_io_tserver.MachineTime.Day.Hysteresis.{set_channel_bounded}
use java_io_tserver.MachineTime.Store.{Sqlite}
use java_io_tserver.MachineTime.Device.{
  MachineTime, back, is_empty, month_of, month_epoch, new_day, new_month, merge_session,
  new_session, set_name,
}
use java_io_tserver.MachineTime.Device.Packet.{
  four_bytes_to_int, reply, take_times, set_packet, set,
}
use java_io_tserver.Cripter.Session.{MyCripter, decrypt}
use java_io_tserver.Setup.{SetupConfig}
use java_io_tserver.Common.Text.{Bytes}
use java_io_tserver.MachineTime.Device.Days.{
  All-set_back, All-back, is_empty-set_back, is_empty-append,
}

abbrev pub IsDay : Day → Type 0
IsDay d = length d.channels ≡ 19

abbrev pub IsPending : Channel → Type 0
IsPending c = c.pending_count < 3

-- There is a day at the back of the month, every day and the session have 19 channels, there are 19
-- names, and no channel of the session has counted three packets.
pub record IsDevice (m : MachineTime) : Type 0 where
  pub current : is_empty m.month ≡ false
  pub days : All IsDay m.month
  pub old_days : All IsDay m.old_month
  pub session : IsDay m.this_session
  pub pending : All IsPending m.this_session.channels
  pub names : length m.channel_names ≡ 19

length-set_channels :
    (sec : ℤ) (ts : List ℤ) (ss ds : List Channel)
    → (length (set_channels sec ts ss ds).0 ≡ length ss)
      × (length (set_channels sec ts ss ds).1 ≡ length ds)
unfolding set_channels
length-set_channels sec [] ss ds = (refl, refl)
length-set_channels sec (t ∷ ts) [] ds = (refl, refl)
length-set_channels sec (t ∷ ts) (s ∷ ss) [] = (refl, refl)
length-set_channels sec (t ∷ ts) (s ∷ ss) (d ∷ ds) =
    let rest = length-set_channels sec ts ss ds in (omega (arith, rest), omega (arith, rest))

set_channels-IsPending :
    (sec : ℤ) (ts : List ℤ) (ss ds : List Channel)
    → All IsPending ss
    → All IsPending (set_channels sec ts ss ds).0
unfolding set_channels
set_channels-IsPending sec [] ss ds h = h
set_channels-IsPending sec (t ∷ ts) [] ds h = h
set_channels-IsPending sec (t ∷ ts) (s ∷ ss) [] h = h
set_channels-IsPending sec (t ∷ ts) (s ∷ ss) (d ∷ ds) h =
    (set_channel_bounded sec t s d h.0, set_channels-IsPending sec ts ss ds h.1)

length-add_times : (ss ds : List Channel) → length (add_times ss ds) ≡ length ds
unfolding add_times
length-add_times [] ds = refl
length-add_times (s ∷ ss) [] = refl
length-add_times (s ∷ ss) (d ∷ ds) = omega (arith, length-add_times ss ds)

length-clear_times : (ss : List Channel) → length (clear_times ss) ≡ length ss
unfolding clear_times
length-clear_times [] = refl
length-clear_times (s ∷ ss) = omega (arith, length-clear_times ss)

clear_times-IsPending : (ss : List Channel) → All IsPending ss → All IsPending (clear_times ss)
unfolding clear_times
clear_times-IsPending [] h = h
clear_times-IsPending (s ∷ ss) h = (h.0, clear_times-IsPending ss h.1)

take_times-IsDevice :
    (sec : ℤ) (ts : List ℤ) (m : MachineTime) → IsDevice m → IsDevice (take_times sec ts m)
unfolding take_times
take_times-IsDevice sec ts m h =
    let lens = length-set_channels sec ts m.this_session.channels (back m.month).channels in
    record {
      current = is_empty-set_back _ m.month ∙ h.current;
      days = All-set_back IsDay _ m.month h.days (lens.1 ∙ All-back IsDay m.month h.current h.days);
      old_days = h.old_days;
      session = lens.0 ∙ h.session;
      pending = set_channels-IsPending sec ts _ _ h.pending;
      names = h.names;
    }

merge_session-IsDevice : (m : MachineTime) → IsDevice m → IsDevice (merge_session m)
unfolding merge_session
merge_session-IsDevice m h = record {
  current = is_empty-set_back _ m.month ∙ h.current;
  days =
      All-set_back IsDay _ m.month h.days
        (length-add_times _ _ ∙ All-back IsDay m.month h.current h.days);
  old_days = h.old_days;
  session = length-clear_times _ ∙ h.session;
  pending = clear_times-IsPending _ h.pending;
  names = h.names;
}

-- The cipher does not matter.
pub recrypted : (c : MyCripter) (m : MachineTime) → IsDevice m → IsDevice (record m { cripter = c })
recrypted c m h = record {
  current = h.current;
  days = h.days;
  old_days = h.old_days;
  session = h.session;
  pending = h.pending;
  names = h.names;
}

module _ {S : Type 0} (sql : Sqlite S) (gmtime : ℤ → ℤ × ℤ) where
  new_day-IsDevice :
      (now : ℤ) (m : MachineTime) (db : Option S) → IsDevice m → IsDevice (new_day sql now m db).0
  unfolding new_day
  new_day-IsDevice now m db h = record {
    current = is_empty-append m.month _;
    days = All-append IsDay m.month _ h.days (refl, tt);
    old_days = h.old_days;
    session = h.session;
    pending = h.pending;
    names = h.names;
  }

  new_month_day-IsDevice :
      (now : ℤ) (m : MachineTime) (db db' : Option S)
      → IsDevice m
      → IsDevice (new_day sql now (new_month sql m db).0 db').0
  unfolding new_day new_month
  new_month_day-IsDevice now m db db' h = record {
    current = refl;
    days = (refl, tt);
    old_days = h.days;
    session = h.session;
    pending = h.pending;
    names = h.names;
  }

  pub new_session-IsDevice :
      (now : ℤ) (m : MachineTime) (db : Option S)
      → IsDevice m
      → IsDevice (new_session sql gmtime now m db).0
  unfolding new_session
  new_session-IsDevice now m db h =
      let merged = merge_session-IsDevice m h in
      let m' = merge_session m in
      let t = now +ℤ m'.tz_offset in
      elim (Bool-cases ((back m'.month).time ==ℤ quot t seconds_of_day)) [
        | inl e ↦ rw e merged
        | inr e ↦
            rw e
              (elim (Bool-cases (month_of gmtime t ==ℤ month_epoch gmtime (back m'.month).time)) [
                | inl f ↦ rw f (new_day-IsDevice now m' _ merged)
                | inr f ↦ rw f (new_month_day-IsDevice now m' _ _ merged)
              ])
      ]

  set_packet-IsDevice :
      (s : SetupConfig) (now : ℤ) (packet : Bytes) (m : MachineTime) (db : Option S)
      → IsDevice m
      → IsDevice (set_packet sql gmtime s now packet m db).0
  unfolding set_packet
  set_packet-IsDevice s now packet m db h =
      elim (Bool-cases (four_bytes_to_int packet 11 ==ℤ pos 0)) [
        | inl e ↦ rw e (take_times-IsDevice _ _ m h)
        | inr e ↦ rw e (take_times-IsDevice _ _ _ (new_session-IsDevice now m db h))
      ]

  -- `set` keeps a device well formed, whatever the message.
  pub set-IsDevice :
      (s : SetupConfig) (now : ℤ) (value : Bytes) (m : MachineTime) (db : Option S)
      → IsDevice m
      → IsDevice (set sql gmtime s now value m db).1
  unfolding set reply
  set-IsDevice s now value m db h =
      let received = record m { cripter = (decrypt s value m.cripter).1 } in
      let h' : IsDevice received = recrypted _ m h in
      elim (Bool-cases (length (decrypt s value m.cripter).0 == 80)) [
        | inl e ↦ rw e (recrypted _ _ (set_packet-IsDevice s now _ received db h'))
        | inr e ↦ rw e (recrypted _ received h')
      ]

  pub set_name-IsDevice :
      (ch : ℤ) (name : Bytes) (m : MachineTime) (db : Option S)
      → IsDevice m
      → IsDevice (set_name sql ch name m db).1
  unfolding set_name
  set_name-IsDevice ch name m db h = elim (Bool-cases (ltb_ℤ ch (pos 1) || ltb_ℤ (pos 18) ch)) [
    | inl e ↦ rw e h
    | inr e ↦ rw e (record {
      current = h.current;
      days = h.days;
      old_days = h.old_days;
      session = h.session;
      pending = h.pending;
      names = length-set m.channel_names (pos_part ch) name ∙ h.names;
    })
  ]
