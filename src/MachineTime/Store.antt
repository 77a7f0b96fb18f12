-- ===== src/MachineTime/Store.antt =====
-- The database of MachineTime.cpp: SQLite is not part of the program, so each statement that the
-- class prepares is an operation of an interface over a state that is left open. Every statement
-- has the id of the device as its first argument.
use java_io_tserver.Common.{ℕ, List, Option}
use java_io_tserver.Common.Int.{ℤ}
use java_io_tserver.Common.Text.{Bytes}

-- A row of channel_events: the day, the channel, 0 for a start and 1 for a stop, the second.
pub record Event : Type 0 where
  pub day_epoch : ℤ
  pub channel : ℤ
  pub event_type : ℤ
  pub sec_of_day : ℤ

-- The row of channel_session.
pub record Session : Type 0 where
  pub day_epoch : ℤ
  pub times : List ℤ
  pub working : ℕ

pub record Sqlite (S : Type 0) : Type 0 where
  -- SELECT ... FROM channel_names and INSERT OR REPLACE INTO channel_names
  pub select_names : Bytes → S → Option (List Bytes)
  pub replace_names : Bytes → List Bytes → S → S
  -- SELECT ... FROM channel_history: of one day, or of all days in ascending order
  pub select_history : Bytes → ℤ → S → Option (List ℤ)
  pub select_all_history : Bytes → S → List (ℤ × List ℤ)
  -- INSERT OR REPLACE INTO channel_history, and the INSERT that adds on a conflict
  pub replace_history : Bytes → ℤ → List ℤ → S → S
  pub add_history : Bytes → ℤ → List ℤ → S → S
  -- SELECT ... FROM channel_events in the order of the rows, INSERT, DELETE of a day and before it
  pub select_events : Bytes → S → List Event
  pub insert_event : Bytes → Event → S → S
  pub delete_events : Bytes → ℤ → S → S
  pub delete_events_before : Bytes → ℤ → S → S
  -- SELECT ... FROM channel_session and INSERT OR REPLACE INTO channel_session
  pub select_session : Bytes → S → Option Session
  pub replace_session : Bytes → Session → S → S
  -- BEGIN and COMMIT
  pub begin : S → S
  pub commit : S → S
