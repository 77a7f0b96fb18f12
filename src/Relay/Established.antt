-- ===== src/Relay/Established.antt =====
-- The list of relays stays well formed, whatever the requests.
pub mod Users
pub mod Requests
use java_io_tserver.Common.{
  ℕ, suc, ◌≡◌, refl, ◌∙◌, Bool, true, false, ◌&&◌, not, List, [], ◌∷◌, ◌++◌, map, Option, none,
  some, inl, inr, take, drop, if◌then◌else◌, if_both, option_both, length, length-set,
  length-append, set, Option-cases, Holds, Holds->>=, Holds-some, Bool-cases, get_or, All, ==_iff,
  ltb, arith,
}
use java_io_tserver.Common.Int.{ℤ, pos, negsuc, ◌-ℤ◌, ◌==ℤ◌}
use java_io_tserver.Common.Text.{Bytes, equal, atoi, to_string}
use java_io_tserver.Relay.Store.{Sqlite}
use java_io_tserver.Relay.Rele.{
  Rele, Relays, unknown, find_rele, put_rele, age, clear_flags_and_log_file,
}
use java_io_tserver.Relay.Rele.Table.{
  IsRele, IsReleAt, IsRelays, found-IsReleAt, append-IsRelays, put-IsRelays, age-IsRelays,
}
use java_io_tserver.Relay.Rand.{sum_on, correct}
use java_io_tserver.Relay.Update.{
  Report, well_formed, report_of, serial, is_init, first_report, report_status, report_init,
  report_pin, expire_flag, next_report, contr_sum, answer, check_report, take_report,
  obrobnyk_relay,
}
use java_io_tserver.Relay.Buttons.{
  KnopkaInfo, seen_rele, add_seen, turned, press, press_at, show_buttons, list_buttons,
  get_knopky_list, get_knopky, rr_get_status, validate_user, rr_put_status,
}
use java_io_tserver.Relay.LogFile.{
  c_string, save_log_file, handed_out, ask, unask, get_get_log_file_flag, send_for_user_log_file,
  set_get_log_file_flag,
}

module _ (sn : ℤ) where
  answer-IsReleAt : (init : Bool) (r : Rele) → IsReleAt sn r → IsReleAt sn (answer init r).1
  unfolding answer
  answer-IsReleAt true r h = ((h.0.0, refl), h.1)
  answer-IsReleAt false r h = ((h.0.0, refl), h.1)

  pub check_report-IsReleAt :
      (p : Report) (r : Rele) → IsReleAt sn r → IsReleAt sn (check_report p r).1
  unfolding check_report
  check_report-IsReleAt p r h =
      let (sum, a) = contr_sum p r.my_rand in
      if_both (λ (x : Bytes × Rele). IsReleAt sn x.1) (atoi p.cs_txt ==ℤ pos sum) _ _
        (answer-IsReleAt (is_init p) (record r { my_rand = correct sum a }) h) h

  expire_flag-IsReleAt :
      (t_time : ℤ) (r : Rele) → IsReleAt sn r → IsReleAt sn (expire_flag t_time r)
  unfolding clear_flags_and_log_file
  expire_flag-IsReleAt t_time r h = if_both (IsReleAt sn) _ _ _ h h

  report_init-IsReleAt :
      (def_rand : ℕ) (t_time : ℤ) (p : Report) (r : Rele)
      → IsReleAt sn r
      → IsReleAt sn (report_init def_rand t_time p r)
  report_init-IsReleAt def_rand t_time p r h = if_both (IsReleAt sn) _ _ _ h h

  report_status-IsReleAt :
      (p : Report) (r : Rele)
      → length p.relays ≡ 8
      → IsReleAt sn r
      → IsReleAt sn (report_status p r)
  report_status-IsReleAt p r eight h = if_both (IsReleAt sn) _ _ _ ((eight, h.0.1), h.1) h

  report_pin-IsReleAt :
      (pin : Option Bytes) (relays : Bytes) (r : Rele)
      → IsReleAt sn r
      → IsReleAt sn (report_pin pin relays r)
  report_pin-IsReleAt (some t) relays r h = h
  report_pin-IsReleAt none relays r h = if_both (IsReleAt sn) _ _ _ ((h.0.0, h.0.0), h.1) h

  pub next_report-IsReleAt :
      (def_rand : ℕ) (t_time : ℤ) (p : Report) (r : Rele)
      → length p.relays ≡ 8
      → IsReleAt sn r
      → IsReleAt sn (next_report def_rand t_time p r)
  unfolding next_report
  next_report-IsReleAt def_rand t_time p r eight h =
      let a = report_status-IsReleAt p r eight h in
      let b =
        report_init-IsReleAt def_rand t_time p (record (report_status p r) { acp_status = pos 0 })
          a in
      let c = report_pin-IsReleAt p.pin_txt p.relays _ b in expire_flag-IsReleAt t_time _ c

pub well_formed-eight : (p : Report) → well_formed p ≡ true → length p.relays ≡ 8
well_formed-eight p h = ground (arith, ==_iff (length p.relays) 8, h)

-- What report_of lets through has a text of 8 outputs.
report_of-eight :
    (sn acp relays init cs pin : Option Bytes)
    → Holds (λ p. length p.relays ≡ 8) (report_of sn acp relays init cs pin)
unfolding report_of Holds
report_of-eight (some sn) (some acp) (some relays) (some init) (some cs) pin =
    let p : Report = record {
      sn_txt = sn;
      acp_txt = acp;
      relays = relays;
      init_txt = init;
      cs_txt = cs;
      pin_txt = pin;
    } in
    elim (Bool-cases (well_formed p)) [
      | inl good ↦ rw good (well_formed-eight p good)
      | inr bad ↦ rw bad tt
    ]
report_of-eight none acp relays init cs pin = tt
report_of-eight (some sn) none relays init cs pin = tt
report_of-eight (some sn) (some acp) none init cs pin = tt
report_of-eight (some sn) (some acp) (some relays) none cs pin = tt
report_of-eight (some sn) (some acp) (some relays) (some init) none pin = tt

pub first_report-IsReleAt :
    (def_rand : ℕ) (t_time : ℤ) (p : Report)
    → length p.relays ≡ 8
    → IsReleAt (serial p) (first_report def_rand t_time p)
unfolding first_report
first_report-IsReleAt def_rand t_time p eight = ((eight, refl), refl)

module _ {S : Type 0} (sql : Sqlite S) (def_rand : ℕ) where
  take_report-IsRelays :
      (t_time : ℤ) (p : Report) (st : Relays S)
      → length p.relays ≡ 8
      → IsRelays st.rele_list
      → IsRelays (take_report sql def_rand t_time p st).1.rele_list
  unfolding take_report
  take_report-IsRelays t_time p st eight h =
      let aged = age-IsRelays t_time st.rele_list h in
      option_both (λ (r : Bytes × Relays S). IsRelays r.1.rele_list)
        (find_rele (serial p) (map (age t_time) st.rele_list)) _ _
        (λ e.
          let first = first_report def_rand t_time p in
          append-IsRelays (serial p) (map (age t_time) st.rele_list) (check_report p first).1 e
            (check_report-IsReleAt (serial p) p first
              (first_report-IsReleAt def_rand t_time p eight))
            aged)
        (λ known e.
          let at = found-IsReleAt (serial p) (map (age t_time) st.rele_list) known aged.each e in
          let next = next_report def_rand t_time p known in
          put-IsRelays (serial p) (check_report p next).1 (map (age t_time) st.rele_list)
            (check_report-IsReleAt (serial p) p next
              (next_report-IsReleAt (serial p) def_rand t_time p known eight at))
            aged)

  pub obrobnyk_relay-IsRelays :
      (t_time : ℤ) (sn acp relays init cs pin : Option Bytes) (st : Relays S)
      → IsRelays st.rele_list
      → IsRelays (obrobnyk_relay sql def_rand t_time sn acp relays init cs pin st).1.rele_list
  unfolding obrobnyk_relay
  obrobnyk_relay-IsRelays t_time sn acp relays init cs pin st h =
      option_both (λ (r : Bytes × Relays S). IsRelays r.1.rele_list)
        (report_of sn acp relays init cs pin) _ _ (λ e. h)
        (λ p e.
          let eight =
            Holds-some (λ (q : Report). length q.relays ≡ 8) (report_of sn acp relays init cs pin) p
              (report_of-eight sn acp relays init cs pin) e in
          take_report-IsRelays t_time p st eight h)
