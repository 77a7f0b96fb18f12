-- ===== src/MachineTime/Device/Totals.antt =====
-- The times that a device shows: those of the day at the back with those of the session on top.
use java_io_tserver.Common.{
  ℕ, zero, suc, ◌≡◌, ◌∙◌, refl, sym, true, false, not, List, [], ◌∷◌, ◌++◌, Option, if_both, length,
  get_or, ltb, arith,
}
use mathlib.Core.List.{Mem, mem-cons_self, mem-cons_of_mem, mem-append_right, mem-append_left}
use java_io_tserver.Common.Int.{ℤ, pos, ◌+ℤ◌, ◌==ℤ◌, quot}
use java_io_tserver.MachineTime.Day.{
  Channel, Day, new_channel, set_channel, set_channels, add_times, clear_times, seconds_of_day,
}
use java_io_tserver.MachineTime.Store.{Sqlite}
use java_io_tserver.MachineTime.Device.{
  MachineTime, back, is_empty, channel_times, month_of, month_epoch, merge_session, new_session,
  new_day, new_month,
}
use java_io_tserver.MachineTime.Device.Days.{back-set_back, All-back, is_empty-set_back}
use java_io_tserver.MachineTime.Device.Invariant.{IsDay, IsDevice}

-- `channel_time + this_session.channel_time` of get_day_info, channel by channel.
unfoldable pub shown : List Channel → List Channel → List ℤ
shown (s ∷ ss) (d ∷ ds) = (d.channel_time +ℤ s.channel_time) ∷ shown ss ds
shown _ _ = []

-- The loop of `set` treats each channel on its own, where there are as many times as channels.
set_channels-get_or :
    (sec : ℤ) (i : ℕ) (ts : List ℤ) (ss ds : List Channel)
    → length ts ≡ length ss
    → length ds ≡ length ss
    → ltb i (length ss) ≡ true
    → (
      get_or (set_channels sec ts ss ds).0 i new_channel,
      get_or (set_channels sec ts ss ds).1 i new_channel,
    )
      ≡ set_channel sec (get_or ts i (pos 0)) (get_or ss i new_channel) (get_or ds i new_channel)
unfolding set_channels
set_channels-get_or sec zero (t ∷ ts) (s ∷ ss) (d ∷ ds) l l' h = refl
set_channels-get_or sec (suc i) (t ∷ ts) (s ∷ ss) (d ∷ ds) l l' h =
    set_channels-get_or sec i ts ss ds (omega (arith, l)) (omega (arith, l')) (ground (arith, h))
set_channels-get_or sec i ts [] ds l l' h = absurd (ground arith)
set_channels-get_or sec i [] (s ∷ ss) ds l l' h = absurd (omega (arith, l))
set_channels-get_or sec i (t ∷ ts) (s ∷ ss) [] l l' h = absurd (omega (arith, l'))

add_times-shown :
    (ss ds : List Channel) → length ss ≡ length ds → channel_times (add_times ss ds) ≡ shown ss ds
unfolding shown add_times
add_times-shown [] [] l = refl
add_times-shown [] (d ∷ ds) l = absurd (omega (arith, l))
add_times-shown (s ∷ ss) [] l = absurd (omega (arith, l))
add_times-shown (s ∷ ss) (d ∷ ds) l = rw (add_times-shown ss ds (omega (arith, l))) refl

back-Mem : (ds : List Day) → is_empty ds ≡ false → Mem (back ds) ds
unfolding back
back-Mem [] n = absurd (ground arith)
back-Mem (d ∷ []) n = mem-cons_self
back-Mem (d ∷ e ∷ ds) n = mem-cons_of_mem d (back-Mem (e ∷ ds) refl)

-- The day that was at the back of `m` is among the days of `n`, with what was shown for it, and the
-- session of `n` has the channels of `m` with all times 0.
unfoldable pub Kept : MachineTime → MachineTime → Type 0
Kept m n =
    ((d : Day) × Mem d (n.old_month ++ n.month)
      × (d.time ≡ (back m.month).time)
      × (channel_times d.channels ≡ shown m.this_session.channels (back m.month).channels))
    × (n.this_session.channels ≡ clear_times m.this_session.channels)

merge_session-Kept :
    (m n : MachineTime)
    → IsDevice m
    → Mem (back (merge_session m).month) (n.old_month ++ n.month)
    → n.this_session.channels ≡ (merge_session m).this_session.channels
    → Kept m n
unfolding Kept merge_session
merge_session-Kept m n h i same =
    let last = back m.month in
    let at =
      back-set_back (record last { channels = add_times m.this_session.channels last.channels })
        m.month h.current in
    (
      (
        back (merge_session m).month,
        i,
        rw at refl,
        rw at (add_times-shown _ _ (h.session ∙ sym (All-back IsDay m.month h.current h.days))),
      ),
      same,
    )

merged-Mem :
    (m : MachineTime) → IsDevice m → Mem (back (merge_session m).month) (merge_session m).month
unfolding merge_session
merged-Mem m h = back-Mem _ (is_empty-set_back _ m.month ∙ h.current)

-- new_session loses no time: the session starts again at 0, and the day that was at the back is
-- kept, in this month or in the last one, with the times that were shown for it.
pub new_session-Kept :
    {S : Type 0} (sql : Sqlite S) (gmtime : ℤ → ℤ × ℤ) (now : ℤ) (m : MachineTime) (db : Option S)
    → IsDevice m
    → Kept m (new_session sql gmtime now m db).0
unfolding new_session new_day new_month
new_session-Kept {S = S} sql gmtime now m db h =
    let i = merged-Mem m h in
    let m' = merge_session m in
    let t = now +ℤ m'.tz_offset in
    let P : MachineTime × Option S → Type 0 = λ p. Kept m p.0 in
    if_both P (not ((back m'.month).time ==ℤ quot t seconds_of_day)) _ _
      (if_both P (not (month_of gmtime t ==ℤ month_epoch gmtime (back m'.month).time)) _ _
        (merge_session-Kept m _ h (mem-append_left _ i) refl)
        (merge_session-Kept m _ h (mem-append_right _ (mem-append_left _ i)) refl))
      (merge_session-Kept m _ h (mem-append_right _ i) refl)
