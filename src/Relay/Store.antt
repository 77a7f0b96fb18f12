-- ===== src/Relay/Store.antt =====
-- relay.cpp and sqlite_helper.h: SQLite is not part of the program, so each statement that the
-- server runs is an operation of an interface over a state that is left open. A text that is NULL
-- is the empty one.
use java_io_tserver.Common.{Bool, List, Option}
use java_io_tserver.Common.Int.{ℤ}
use java_io_tserver.Common.Text.{Bytes}

-- How an UPDATE ends: done, failed in its step, or not prepared.
pub data Outcome : Type 0 where
  done not_done not_prepared : Outcome

pub record Sqlite (S : Type 0) : Type 0 where
  -- CREATE TABLE IF NOT EXISTS relays and user_relays
  pub init_tables : S → S
  -- SELECT r_id FROM relays WHERE sn, as get_int reads it: -1 where there is none
  pub relay_id : ℤ → S → ℤ
  -- INSERT INTO relays, with empty names
  pub insert_relay : ℤ → S → S
  -- whether SELECT ... WHERE user_relays.userID AND relays.sn gives a row
  pub owns : ℤ → ℤ → S → Bool
  -- SELECT r_id FROM user_relays WHERE userID
  pub user_relays : ℤ → S → List ℤ
  -- SELECT sn, r1, ..., r8 FROM relays WHERE r_id
  pub relay_row : ℤ → S → Option (ℤ × List Bytes)
  -- SELECT sn, gadget_name, r1, ..., r8 of a user's relay
  pub named_row : ℤ → ℤ → S → Option (ℤ × Bytes × List Bytes)
  -- SELECT sn, gadget_name of all relays of a user
  pub gadgets : ℤ → S → List (ℤ × Bytes)
  -- UPDATE relays SET gadget_name, and SET r1, ..., r8; a null pointer is bound as NULL
  pub update_name : ℤ → Option Bytes → S → Outcome × S
  pub update_names : ℤ → List (Option Bytes) → S → Outcome × S
