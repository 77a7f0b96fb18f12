-- ===== src/LiraCalc/Relay.antt =====
-- servak_na_linux/server/relay.cpp: the list of relays as it lies in memory, and rr_get_status for
-- the number 0, which walks along it and takes relays out. A relay is a node at an address; a
-- `Rele**` is one of the places that hold an address.
pub mod Chain
pub mod Places
pub mod Freed
pub mod Press
use java_io_tserver.Common.{
  ℕ, zero, suc, ◌+◌, Bool, true, false, Option, none, some, List, [], ◌∷◌, ◌++◌, ◌>>=◌, ◌==◌,
  if◌then◌else◌,
}
use java_io_tserver.Common.Int.{ℤ, pos, negsuc, ◌-ℤ◌, ltb_ℤ}
use java_io_tserver.Common.Text.{Bytes, codes, to_string}

pub record Rele : Type 0 where
  pub rr_status : Bytes
  pub rr_command : Bytes
  pub acp_status : ℤ
  pub sn : ℤ
  pub time_onl : ℤ
  pub put : Bool
  -- `none` is a null pointer.
  pub next : Option ℕ
  pub online : ℤ
  pub my_rand : ℕ

-- The variable `rele`, and what stands at an address: `none` where nothing is allocated.
pub record Memory : Type 0 where
  pub rele : Option ℕ
  pub nodes : ℕ → Option Rele

pub data Place : Type 0 where
  -- &rele, &(node->next), &rr_tmp2
  at_rele : Place
  next_of : ℕ → Place
  at_tmp2 : Place

unfoldable pub write : ℕ → Option Rele → Memory → Memory
write a node mem = record mem { nodes = λ b. if b == a then node else mem.nodes b }

-- What a place holds; `none` where it lies in memory that is not allocated.
unfoldable pub deref : Memory → (rr_tmp2 : Option ℕ) → Place → Option (Option ℕ)
deref mem rr_tmp2 at_rele = some mem.rele
deref mem rr_tmp2 (next_of a) = do r ← mem.nodes a; some r.next
deref mem rr_tmp2 at_tmp2 = some rr_tmp2

-- How a walk ends: with its text; with the use of a null pointer or of freed memory; or not yet.
pub data Outcome : Type 0 where
  done : Memory → Bytes → Outcome
  crashed : Outcome
  running : Outcome

-- rr_tmp2 is already the address behind the relay that is to go: the list is closed over it, and
-- what `rr` then holds is printed and deleted.
unfoldable pub take_out :
    Memory → (rr_tmp2 : Option ℕ) (rr rr_tmp : Place) (fl : Bool) → Option Memory
unfolding deref write
take_out mem rr_tmp2 rr rr_tmp fl = do
  closed ←
      (if fl then some (record mem { rele = rr_tmp2 }) else (do
        before ← deref mem rr_tmp2 rr_tmp
        q ← before
        r ← mem.nodes q
        some (write q (some (record r { next = rr_tmp2 })) mem)))
  held ← deref closed rr_tmp2 rr
  b ← held
  printed ← closed.nodes b
  some (write b none closed)

-- The loop of rr_get_status(0), on fuel. `tmm` is the time.
unfoldable pub list_relays :
    (tmm : ℤ) (fuel : ℕ)
    → Memory
    → (rr_tmp2 : Option ℕ) (rr rr_tmp : Place) (fl : Bool) → Bytes
    → Outcome
unfolding deref take_out write
list_relays tmm zero mem rr_tmp2 rr rr_tmp fl buff = running
list_relays tmm (suc fuel) mem rr_tmp2 rr rr_tmp fl buff = elim (deref mem rr_tmp2 rr) [
  | none ↦ crashed
  | some none ↦ done mem (buff ++ codes "]}")
  | some (some a) ↦ elim (mem.nodes a) [
    | none ↦ crashed
    | some r ↦
        let shown =
          buff ++ (if fl then [] else codes ",") ++ codes "\"" ++ to_string r.sn ++ codes "\"" in
        let marked = write a (some (record r { acp_status = negsuc 4094 })) mem in
        let kept = list_relays tmm fuel mem rr_tmp2 (next_of a) rr false shown in
        let kept_marked = list_relays tmm fuel marked rr_tmp2 (next_of a) rr false shown in
        let gone = elim (take_out marked r.next rr rr_tmp fl) as (λ o. Outcome) [
          | none ↦ crashed
          | some mem' ↦ list_relays tmm fuel mem' r.next at_tmp2 rr_tmp fl buff
        ] in
        if ltb_ℤ (pos 8) (tmm -ℤ r.time_onl)
        then (if ltb_ℤ (pos 172800) (tmm -ℤ r.time_onl) then gone else kept_marked)
        else kept
  ]
]

unfoldable pub rr_get_status_all : (tmm : ℤ) (fuel : ℕ) → Memory → Outcome
unfolding list_relays
rr_get_status_all tmm fuel mem =
    list_relays tmm fuel mem none at_rele at_rele true (codes "{\"rr\":[")
