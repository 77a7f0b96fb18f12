-- ===== src/Relay/Update.antt =====
-- relay.cpp, obrobnyk_relay: the report of a relay and the answer to it.
pub mod InStep
pub mod Delivery
use java_io_tserver.Common.{
  ℕ, ◌+◌, ◌%◌, ◌^◌, Bool, true, false, ◌&&◌, ◌||◌, not, List, [], ◌∷◌, ◌++◌, map, Option, none,
  some, ltb, ◌==◌, if◌then◌else◌, length,
}
use java_io_tserver.Common.Int.{ℤ, pos, negsuc, ◌-ℤ◌, ◌==ℤ◌, ltb_ℤ}
use java_io_tserver.Common.Text.{Bytes, codes, equal, atoi, to_u32, to_string}
use java_io_tserver.Relay.Rand.{srand, correct, sum_on}
use java_io_tserver.Relay.Store.{Sqlite}
use java_io_tserver.Relay.Rele.{
  Rele, Relays, new_rele, unknown, find_rele, put_rele, age, clear_flags_and_log_file,
}

-- The parameters of a report that is not refused for its form.
pub record Report : Type 0 where
  pub sn_txt : Bytes
  pub acp_txt : Bytes
  pub relays : Bytes
  pub init_txt : Bytes
  pub cs_txt : Bytes
  pub pin_txt : Option Bytes

abbrev pub well_formed : Report → Bool
well_formed p =
    length p.sn_txt == 10
    && length p.relays == 8
    && length p.acp_txt == 10
    && length p.init_txt == 4
    && not (ltb (length p.cs_txt) 2)

-- The checks of the parameters: a null pointer and a text of a wrong length are refused.
unfoldable pub report_of :
    Option Bytes
    → Option Bytes
    → Option Bytes
    → Option Bytes
    → Option Bytes
    → Option Bytes
    → Option Report
report_of (some sn) (some acp) (some relays) (some init) (some cs) pin =
    let p : Report = record {
      sn_txt = sn;
      acp_txt = acp;
      relays = relays;
      init_txt = init;
      cs_txt = cs;
      pin_txt = pin;
    } in
    if well_formed p then some p else none
report_of _ _ _ _ _ _ = none

abbrev pub refusal : Bytes
refusal = codes "{\"relays\":\"XXXXXXXX\",\"online\":\"0\",\"cs\":\"0\"}"

abbrev pub serial : Report → ℤ
serial p = atoi p.sn_txt

abbrev pub is_init : Report → Bool
is_init p = equal p.init_txt (codes "true")

-- `(unsigned short)atoi(pin_txt)`, and 0 where there is none.
abbrev pub pin_of : Option Bytes → ℕ
pin_of none = 0
pin_of (some t) = to_u32 (atoi t) % 2 ^ 16

-- A relay that reports for the first time since the server has started.
unfoldable pub first_report : ℕ → ℤ → Report → Rele
first_report def_rand t_time p = record (new_rele def_rand) {
  sn = serial p;
  rr_status = p.relays;
  rr_command = unknown;
  time_onl = t_time;
  my_rand = srand def_rand (to_u32 (serial p));
  pin = pin_of p.pin_txt;
}

-- The outputs that are reported count, unless a command waits or none are reported.
abbrev pub report_status : Report → Rele → Rele
report_status p r =
    if not r.put && not (equal p.relays unknown) then record r { rr_status = p.relays } else r

abbrev pub report_init : ℕ → ℤ → Report → Rele → Rele
report_init def_rand t_time p r =
    if is_init p
    then record r { my_rand = srand def_rand (to_u32 (serial p)) }
    else record r { time_onl = t_time }

-- The pin, or else a report without outputs, which is answered with the outputs last known.
abbrev pub report_pin : Option Bytes → Bytes → Rele → Rele
report_pin (some t) relays r = record r { pin = pin_of (some t) }
report_pin none relays r =
    if equal relays unknown then record r { rr_command = r.rr_status; put = true } else r

-- A request for the log file is dropped after 120 seconds.
abbrev pub expire_flag : ℤ → Rele → Rele
expire_flag t_time r =
    if ltb_ℤ (pos 0) r.time_set_gff && ltb_ℤ (pos 120) (t_time -ℤ r.time_set_gff)
    then clear_flags_and_log_file (record r { time_set_gff = pos 0 })
    else r

-- What a report changes of a relay that is known, before its checksum is looked at.
unfoldable pub next_report : ℕ → ℤ → Report → Rele → Rele
next_report def_rand t_time p r =
    let r1 = record (report_status p r) { acp_status = pos 0 } in
    expire_flag t_time (report_pin p.pin_txt p.relays (report_init def_rand t_time p r1))

abbrev pub pin_bytes : Option Bytes → Bytes
pin_bytes none = []
pin_bytes (some t) = t

-- `contr_sum` and the generator behind it.
unfoldable pub contr_sum : Report → ℕ → ℕ × ℕ
contr_sum p a =
    sum_on (pin_bytes p.pin_txt)
      (sum_on p.init_txt (sum_on p.acp_txt (sum_on p.relays (sum_on p.sn_txt (0, a)))))

-- The command that is sent: none at an `init` report, or where none waits.
abbrev pub command_sent : Bool → Rele → Bytes
command_sent init r = if init || not r.put then unknown else r.rr_command

abbrev pub answer_text : Bytes → ℤ → ℕ → Bytes
answer_text command online cs =
    codes "{\"relays\":\""
    ++ (command
        ++ (codes "\",\"online\":\""
            ++ (to_string online ++ (codes "\",\"cs\":\"" ++ (to_string (pos cs) ++ codes "\"}")))))

-- The answer to a report whose checksum is right.
unfoldable pub answer : Bool → Rele → Bytes × Rele
answer init r =
    let command = command_sent init r in
    let (contr_sum2, a) = sum_on (command ++ to_string r.online) (0, r.my_rand) in
    let sent = record r { rr_command = command; my_rand = correct contr_sum2 a; online = pos 0 } in
    (
      answer_text command r.online contr_sum2,
      (if init then sent else record sent { put = false; rr_command = unknown }),
    )

-- From the checksum on.
unfoldable pub check_report : Report → Rele → Bytes × Rele
check_report p r =
    let (sum, a) = contr_sum p r.my_rand in
    if atoi p.cs_txt ==ℤ pos sum
    then answer (is_init p) (record r { my_rand = correct sum a })
    else (refusal, record r { my_rand = a })

module _ {S : Type 0} (sql : Sqlite S) (def_rand : ℕ) where
  -- The row of a relay that the database does not hold yet.
  unfoldable pub register : ℤ → Relays S → S
  register sn st =
      let db = if st.tables_ready then st.db else sql.init_tables st.db in
      if sql.relay_id sn db ==ℤ negsuc 0 then sql.insert_relay sn db else db

  unfoldable pub take_report : ℤ → Report → Relays S → Bytes × Relays S
  take_report t_time p st =
      let aged = map (age t_time) st.rele_list in
      elim (find_rele (serial p) aged) as (λ f. Bytes × Relays S) [
        | none ↦
            let (out, r) = check_report p (first_report def_rand t_time p) in
            (
              out,
              record {
                rele_list = aged ++ r ∷ [];
                db = register (serial p) st;
                tables_ready = true;
              },
            )
        | some known ↦
            let (out, r) = check_report p (next_report def_rand t_time p known) in
            (out, record st { rele_list = put_rele (serial p) r aged })
      ]

  unfoldable pub obrobnyk_relay :
      ℤ
      → Option Bytes
      → Option Bytes
      → Option Bytes
      → Option Bytes
      → Option Bytes
      → Option Bytes
      → Relays S
      → Bytes × Relays S
  obrobnyk_relay t_time sn acp relays init cs pin st =
      elim (report_of sn acp relays init cs pin) as (λ f. Bytes × Relays S) [
        | none ↦ (refusal, st)
        | some p ↦ take_report t_time p st
      ]
