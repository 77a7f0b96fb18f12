-- ===== src/LiraCalc/Relay/Press.antt =====
-- relay.cpp: rr_get_status of one relay and rr_put_status, in memory. The loops are on fuel. The
-- percentage that is computed in `double` is an argument.
pub mod Loop
pub mod Kept
use java_io_tserver.Common.{
  ℕ, zero, suc, Bool, true, false, ◌&&◌, not, Option, none, some, List, ◌++◌, ◌>>=◌, ◌==◌, ltb,
  get_elem?, set, length, if◌then◌else◌,
}
use java_io_tserver.Common.Int.{ℤ, pos, negsuc, ◌-ℤ◌, ◌==ℤ◌, ltb_ℤ}
use java_io_tserver.Common.Text.{Bytes, codes, to_string}
use java_io_tserver.LiraCalc.Relay.{
  Rele, Memory, write, Outcome, done, crashed, running, rr_get_status_all,
}

-- What *rr is after the loop: a relay at its address, or null; or it lies in memory that is not
-- allocated, or the loop has not ended.
pub data Found : Type 0 where
  at : Memory → ℕ → Rele → Found
  absent : Memory → Found
  lost : Found
  searching : Found

abbrev pub offline : ℤ
offline = negsuc 4094

-- A relay that has been silent for more than a minute is offline.
unfoldable pub heard : (tmm : ℤ) → Rele → Rele
heard tmm r = if ltb_ℤ (pos 60) (tmm -ℤ r.time_onl) then record r { acp_status = offline } else r

unfoldable pub find_rele : (tmm sn : ℤ) (fuel : ℕ) → Memory → Option ℕ → Found
unfolding heard write
find_rele tmm sn zero mem rr = searching
find_rele tmm sn (suc fuel) mem none = absent mem
find_rele tmm sn (suc fuel) mem (some a) = elim (mem.nodes a) [
  | none ↦ lost
  | some r ↦
      let mem' = write a (some (heard tmm r)) mem in
      let rest = find_rele tmm sn fuel mem' r.next in
      if r.sn ==ℤ sn then at mem' a (heard tmm r) else rest
]

abbrev pub is_offline : Rele → Bool
is_offline r = r.acp_status ==ℤ offline

abbrev pub shown_status : (percent : ℤ → ℤ) → Rele → Bytes
shown_status percent r =
    if is_offline r
    then codes "{\"buttons\":\"XXXXXXXX\",\"output\":\"offline\"}"
    else codes "{\"buttons\":\""
      ++ r.rr_status
      ++ codes "\",\"output\":\""
      ++ to_string (percent r.acp_status)
      ++ codes "%\"}"

abbrev pub unknown_relay : Bytes
unknown_relay = codes "{\"buttons\":\"XX0110XX\",\"output\":\"-1%\"}"

-- The relay is asked to report without delay.
unfoldable pub hurry : ℕ → Rele → Memory → Memory
unfolding write
hurry a r mem = write a (some (record r { online = pos 50 })) mem

unfoldable pub rr_get_status_one :
    (percent : ℤ → ℤ) (tmm : ℤ) (fuel : ℕ) (sn : ℤ) → Memory → Outcome
unfolding find_rele hurry
rr_get_status_one percent tmm fuel sn mem = elim (find_rele tmm sn fuel mem mem.rele) [
  | at mem' a r ↦ done (hurry a r mem') (shown_status percent r)
  | absent mem' ↦ done mem' unknown_relay
  | lost ↦ crashed
  | searching ↦ running
]

unfoldable pub rr_get_status : (percent : ℤ → ℤ) (tmm : ℤ) (fuel : ℕ) (sn : ℤ) → Memory → Outcome
unfolding rr_get_status_all rr_get_status_one
rr_get_status percent tmm fuel sn mem =
    if sn ==ℤ pos 0
    then rr_get_status_all tmm fuel mem
    else rr_get_status_one percent tmm fuel sn mem

-- The output is asked to turn, and is not known until the relay has reported. `none` is a place
-- that is not in the two texts.
unfoldable pub press : (button : ℤ) → Rele → Option Rele
press (negsuc i) r = none
press (pos i) r = do
  old ← get_elem? r.rr_status i
  kept ← get_elem? r.rr_command i
  some (record r {
    rr_status = set r.rr_status i b'X';
    rr_command = set r.rr_command i (if old == b'0' then b'1' else b'0');
    put = true;
  })

-- A place that is not in the texts ends as a use of memory that is not the program's.
unfoldable pub rr_put_status :
    (percent : ℤ → ℤ) (tmm : ℤ) (fuel : ℕ) (sn button : ℤ) → Memory → Outcome
unfolding find_rele hurry press
rr_put_status percent tmm fuel sn button mem = elim (find_rele tmm sn fuel mem mem.rele) [
  | at mem' a r ↦
      if is_offline r
      then done (hurry a r mem') (shown_status percent r)
      else elim (press (button -ℤ pos 1) r) as (λ o. Outcome) [
        | none ↦ crashed
        | some r' ↦ done (hurry a r' mem') (shown_status percent r')
      ]
  | absent mem' ↦ done mem' unknown_relay
  | lost ↦ crashed
  | searching ↦ running
]
