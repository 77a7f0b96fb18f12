-- ===== src/MachineTime/Day/Signals.antt =====
-- MachineTime.cpp, set: when a channel turns, told from the packets alone.
use java_io_tserver.Common.{
  ℕ, ◌≡◌, Bool, true, false, ◌&&◌, not, List, [], ◌∷◌, ◌++◌, Option, none, some, if◌then◌else◌,
}
use java_io_tserver.Common.Int.{ℤ, ◌==ℤ◌, ltb_ℤ}
use java_io_tserver.MachineTime.Day.{Channel}

-- What the packets say of a channel, each with its second: `true` where the time has risen since
-- the packet before it, `false` where it is the same. A packet whose time has fallen says nothing.
unfoldable pub signals : (time : ℤ) → List (ℤ × ℤ) → List (ℤ × Bool)
signals time [] = []
signals time ((sec, t) ∷ ps) =
    let more = signals t ps in
    if ltb_ℤ time t then (sec, true) ∷ more else if t ==ℤ time then (sec, false) ∷ more else more

abbrev pub is_signal : Bool → Option Bool → Bool
is_signal x none = false
is_signal x (some y) = if x then y else not y

-- The changes of state, each with its second: a signal changes the state where it differs from the
-- state and is the third of its kind in a row. `a` and `b` are the two signals before.
unfoldable pub changes : (state : Bool) (a b : Option Bool) → List (ℤ × Bool) → List (ℤ × Bool)
changes state a b [] = []
changes state a b ((sec, x) ∷ l) =
    let changed = changes x b (some x) l in
    let same = changes state b (some x) l in
    if is_signal x a && is_signal x b && is_signal x (some (not state))
    then (sec, x) ∷ changed
    else same

-- The state behind the changes, and the seconds of those to one state.
unfoldable pub last_state : Bool → List (ℤ × Bool) → Bool
last_state state [] = state
last_state state ((sec, x) ∷ l) = last_state x l

unfoldable pub seconds_to : Bool → List (ℤ × Bool) → List ℤ
seconds_to state [] = []
seconds_to state ((sec, x) ∷ l) =
    let more = seconds_to state l in if is_signal state (some x) then sec ∷ more else more

-- What is counted while the two last signals are `a` and `b`.
unfoldable counted : (state : Bool) (a b : Option Bool) → ℕ
counted state a b =
    if is_signal (not state) b then (if is_signal (not state) a then 2 else 1) else 0

-- A channel of the session and of the day behind the changes `l`.
pub record Follows (s d s' d' : Channel) (l : List (ℤ × Bool)) : Type 0 where
  pub state : s'.working_now ≡ last_state s.working_now l
  pub starts : d'.channel_start ≡ d.channel_start ++ seconds_to true l
  pub stops : d'.channel_stop ≡ d.channel_stop ++ seconds_to false l

abbrev changing : (x state : Bool) (a b : Option Bool) → Bool
changing x state a b = is_signal x a && is_signal x b && is_signal x (some (not state))

-- What one signal does.
record IsStep (sec : ℤ) (x : Bool) (a b : Option Bool) (s d s' d' : Channel) : Type 0 where
  state : s'.working_now ≡ (if changing x s.working_now a b then x else s.working_now)
  count : s'.pending_count ≡ counted s'.working_now b (some x)
  starts :
      d'.channel_start
      ≡ d.channel_start ++ (if changing x s.working_now a b && x then sec ∷ [] else [])
  stops :
      d'.channel_stop
      ≡ d.channel_stop ++ (if changing x s.working_now a b && not x then sec ∷ [] else [])
