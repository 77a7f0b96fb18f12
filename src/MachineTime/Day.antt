-- ===== src/MachineTime/Day.antt =====
-- esp8266_decoder/source/MachineTime.cpp, struct Day, and what `set` does for one channel. The five
-- arrays of a Day, all of 19 entries, are one list of 19 channels.
pub mod Hysteresis
pub mod Signals
use java_io_tserver.Common.{
  ℕ, zero, suc, ◌+◌, ◌*◌, Bool, true, false, ◌&&◌, ◌||◌, not, List, [], ◌∷◌, ◌++◌, leb,
  if◌then◌else◌, replicate,
}
use java_io_tserver.Common.Int.{ℤ, pos, ◌+ℤ◌, ◌==ℤ◌, ltb_ℤ, quot, to_i32}
use java_io_tserver.Common.Text.{to_u32}

pub record Channel : Type 0 where
  pub channel_time : ℤ
  pub working_now : Bool
  pub pending_count : ℕ
  pub channel_start : List ℤ
  pub channel_stop : List ℤ

pub record Day : Type 0 where
  pub time : ℤ
  pub channels : List Channel

abbrev pub seconds_of_day : ℕ
seconds_of_day = 24 * 3600

abbrev pub new_channel : Channel
new_channel = record {
  channel_time = pos 0;
  working_now = false;
  pending_count = 0;
  channel_start = [];
  channel_stop = [];
}

-- The constructor with the number of the day.
abbrev pub day_at : ℤ → Day
day_at day_epoch = record { time = day_epoch; channels = replicate 19 new_channel }

-- The constructor at a moment: the sum is stored in an `int` before it is divided.
abbrev pub day_now : ℤ → ℤ → Day
day_now now tz_offset = day_at (quot (to_i32 (to_u32 (now +ℤ tz_offset))) seconds_of_day)

-- The body of the loop of `set` for one channel of the session and of the day, up to the last
-- assignment: the third packet that is counted turns the state.
unfoldable pub turn : ℤ → ℤ → Channel → Channel → Channel × Channel
turn sec time_tmp s d =
    let increased = ltb_ℤ s.channel_time time_tmp in
    let unchanged = time_tmp ==ℤ s.channel_time in
    let bumped = suc s.pending_count in
    if increased && not s.working_now
    then (if leb 3 bumped
        then (
          record s { working_now = true; pending_count = 0 },
          record d { channel_start = d.channel_start ++ sec ∷ [] },
        )
        else (record s { pending_count = bumped }, d))
    else if unchanged && s.working_now
    then (if leb 3 bumped
        then (
          record s { working_now = false; pending_count = 0 },
          record d { channel_stop = d.channel_stop ++ sec ∷ [] },
        )
        else (record s { pending_count = bumped }, d))
    else if (increased && s.working_now) || (unchanged && not s.working_now)
    then (record s { pending_count = 0 }, d)
    else (s, d)

unfoldable pub set_channel : ℤ → ℤ → Channel → Channel → Channel × Channel
set_channel sec time_tmp s d =
    let (s', d') = turn sec time_tmp s d in (record s' { channel_time = time_tmp }, d')

-- The loop of `set` over the channels, with the times of the packet.
unfoldable pub set_channels : ℤ → List ℤ → List Channel → List Channel → List Channel × List Channel
set_channels sec (t ∷ ts) (s ∷ ss) (d ∷ ds) =
    let (s', d') = set_channel sec t s d in
    let (ss', ds') = set_channels sec ts ss ds in (s' ∷ ss', d' ∷ ds')
set_channels sec _ ss ds = (ss, ds)

-- The loop of `new_session`: the times of the session go to the day.
unfoldable pub add_times : List Channel → List Channel → List Channel
add_times (s ∷ ss) (d ∷ ds) =
    record d { channel_time = d.channel_time +ℤ s.channel_time } ∷ add_times ss ds
add_times ss ds = ds

unfoldable pub clear_times : List Channel → List Channel
clear_times [] = []
clear_times (s ∷ ss) = record s { channel_time = pos 0 } ∷ clear_times ss
