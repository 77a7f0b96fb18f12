-- ===== src/Relay/Rele.antt =====
-- relay.cpp, struct Rele and the list `rele_list`: what the server knows of each relay.
pub mod Table
use java_io_tserver.Common.{ℕ, Bool, true, false, List, [], ◌∷◌, Option, none, some, if◌then◌else◌}
use java_io_tserver.Common.Int.{ℤ, pos, negsuc, ◌-ℤ◌, ◌==ℤ◌, leb_ℤ}
use java_io_tserver.Common.Text.{Bytes, codes}
use java_io_tserver.Relay.Store.{Sqlite}

-- `rr_status` and `rr_command` are C strings of 8 characters in arrays of 9.
pub record Rele : Type 0 where
  pub rr_status : Bytes
  pub rr_command : Bytes
  pub acp_status : ℤ
  pub sn : ℤ
  pub time_onl : ℤ
  pub put : Bool
  pub online : ℤ
  pub get_log_file_flag : Bool
  pub user_id_set_gff : ℤ
  pub time_set_gff : ℤ
  pub log_file : Bytes
  pub pin : ℕ
  pub my_rand : ℕ

-- The constructor.
abbrev pub new_rele : ℕ → Rele
new_rele def_rand = record {
  rr_status = [];
  rr_command = [];
  acp_status = pos 0;
  sn = pos 0;
  time_onl = pos 0;
  put = false;
  online = pos 0;
  get_log_file_flag = false;
  user_id_set_gff = pos 0;
  time_set_gff = pos 0;
  log_file = [];
  pin = 0;
  my_rand = def_rand;
}

-- "XXXXXXXX": no output is known, or no command is given.
abbrev pub unknown : Bytes
unknown = codes "XXXXXXXX"

-- `acp_status` of a relay that has not reported for more than 15 seconds.
abbrev pub silent : ℤ
silent = negsuc 4094

unfoldable pub find_rele : ℤ → List Rele → Option Rele
find_rele sn [] = none
find_rele sn (r ∷ rs) = let rest = find_rele sn rs in if r.sn ==ℤ sn then some r else rest

-- What is written through the pointer that `find_rele` gives.
unfoldable pub put_rele : ℤ → Rele → List Rele → List Rele
put_rele sn x [] = []
put_rele sn x (r ∷ rs) = let rest = put_rele sn x rs in if r.sn ==ℤ sn then x ∷ rs else r ∷ rest

-- The loop of obrobnyk_relay over all relays, for one of them.
unfoldable pub age : ℤ → Rele → Rele
age t_time r = if leb_ℤ (t_time -ℤ r.time_onl) (pos 15) then r else record r { acp_status = silent }

-- clear_flags_and_log_file
unfoldable pub clear_flags_and_log_file : Rele → Rele
clear_flags_and_log_file r = record r {
  get_log_file_flag = false;
  user_id_set_gff = pos 0;
  log_file = [];
}

-- The state of the server: `rele_list`, the database, and whether `init_db_tables` has run.
pub record Relays (S : Type 0) : Type 0 where
  pub rele_list : List Rele
  pub db : S
  pub tables_ready : Bool
