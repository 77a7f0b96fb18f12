-- ===== src/MachineTime/Day/Hysteresis.antt =====
-- The hysteresis of a channel: when it turns, and what its log says.
use java_io_tserver.Common.{
  ℕ, ◌+◌, ◌<◌, ◌≡◌, refl, Bool, true, false, List, [], ◌∷◌, ◌++◌, length, length-append, arith,
}
use java_io_tserver.Common.Int.{ℤ, ltb_ℤ}
use java_io_tserver.MachineTime.Day.{Channel, turn, set_channel}

-- One for a channel that works.
unfoldable pub works : Bool → ℕ
works true = 1
works false = 0

pub set_channel_bounded :
    (sec t : ℤ) (s d : Channel) → s.pending_count < 3 → (set_channel sec t s d).0.pending_count < 3
unfolding set_channel turn
set_channel_bounded sec t s d = ground arith

turn_balance :
    (sec t : ℤ) (s d : Channel)
    → (length (turn sec t s d).1.channel_start + works s.working_now + length d.channel_stop
        ≡ length d.channel_start
          + works (turn sec t s d).0.working_now
          + length (turn sec t s d).1.channel_stop)
unfolding turn works
turn_balance sec t s d =
    ground
      (arith, length-append d.channel_start (sec ∷ []), length-append d.channel_stop (sec ∷ []))

-- Packets one after another, each with the second of the day it comes at and its time.
unfoldable pub run_channel : List (ℤ × ℤ) → Channel → Channel → Channel × Channel
run_channel [] s d = (s, d)
run_channel ((sec, t) ∷ ps) s d = let (s', d') = set_channel sec t s d in run_channel ps s' d'

-- A channel's balance: as many starts as stops and one more while it works, on top of what there
-- was.
abbrev Balanced : Channel → Channel → Channel → Channel → Type 0
Balanced s d s' d' =
    length d'.channel_start + works s.working_now + length d.channel_stop
    ≡ length d.channel_start + works s'.working_now + length d'.channel_stop

balance :
    (sec t : ℤ) (s d : Channel) → Balanced s d (set_channel sec t s d).0 (set_channel sec t s d).1
unfolding set_channel
balance sec t s d = turn_balance sec t s d

-- Over any run of packets a channel logs as many starts as stops, and one more of the one if its
-- state at the end is not that at the beginning.
pub run_channel_balance :
    (ps : List (ℤ × ℤ)) (s d : Channel) → Balanced s d (run_channel ps s d).0 (run_channel ps s d).1
unfolding run_channel
run_channel_balance [] s d = refl
run_channel_balance ((sec, t) ∷ ps) s d =
    let (s', d') = set_channel sec t s d in
    omega (arith, balance sec t s d, run_channel_balance ps s' d')

-- A channel that rests starts with the third packet of a rise, at that packet's second, and with
-- none before.
run_channel_rise :
    (s d : Channel) (c1 c2 c3 t1 t2 t3 : ℤ)
    → s.working_now ≡ false
    → s.pending_count ≡ 0
    → ltb_ℤ s.channel_time t1 ≡ true
    → ltb_ℤ t1 t2 ≡ true
    → ltb_ℤ t2 t3 ≡ true
    → (((run_channel ((c1, t1) ∷ (c2, t2) ∷ []) s d).1 ≡ d)
        × (run_channel ((c1, t1) ∷ (c2, t2) ∷ (c3, t3) ∷ []) s d ≡ (
          record s { channel_time = t3; working_now = true; pending_count = 0 },
          record d { channel_start = d.channel_start ++ c3 ∷ [] },
        )))
unfolding run_channel set_channel turn
run_channel_rise s d c1 c2 c3 t1 t2 t3 w p h1 h2 h3 = ground arith
