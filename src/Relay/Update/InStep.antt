-- ===== src/Relay/Update/InStep.antt =====
-- relay.cpp, obrobnyk_relay: the relay and the server keep their generators in step, and a command
-- that waits is handed over once.
use java_io_tserver.Common.{
  ℕ, ◌≡◌, refl, ap, ◌∙◌, inl, inr, Bool, true, false, ◌++◌, map, Option, none, some, if◌then◌else◌,
  if_both, Bool-cases,
}
use java_io_tserver.Common.Int.{ℤ, pos, ==ℤ_iff}
use java_io_tserver.Common.Text.{Bytes, atoi, to_u32, to_string}
use java_io_tserver.Relay.Rand.{srand, correct, sum_on}
use java_io_tserver.Relay.Store.{Sqlite}
use java_io_tserver.Relay.Rele.{Rele, Relays, find_rele, age, clear_flags_and_log_file}
use java_io_tserver.Relay.Rele.Table.{
  IsRelays, found-IsReleAt, age-IsRelays, find_rele-put_self, find_rele-append_self,
  find_rele-age_absent, find_rele-age_found,
}
use java_io_tserver.Relay.Update.{
  Report, well_formed, report_of, serial, is_init, first_report, report_status, report_init,
  report_pin, expire_flag, next_report, contr_sum, command_sent, answer_text, answer, check_report,
  take_report, obrobnyk_relay,
}
use java_io_tserver.Relay.Established.{
  well_formed-eight, check_report-IsReleAt, first_report-IsReleAt, next_report-IsReleAt,
}

-- The generator of a relay behind a report it has sent, and behind an answer it has read.
abbrev pub sender : Report → ℕ → ℕ
sender p g = let (sum, a) = contr_sum p g in correct sum a

abbrev pub answer_sum : Bytes → ℤ → ℕ → ℕ × ℕ
answer_sum command online g = sum_on (command ++ to_string online) (0, g)

abbrev pub receiver : Bytes → ℤ → ℕ → ℕ
receiver command online g = let (sum, a) = answer_sum command online g in correct sum a

-- The generator that the server reads a report with.
abbrev pub server_rand : ℕ → Report → Option Rele → ℕ
server_rand def_rand p none = srand def_rand (to_u32 (serial p))
server_rand def_rand p (some r) =
    if is_init p then srand def_rand (to_u32 (serial p)) else r.my_rand

pub accepted :
    (p : Report) (r : Rele) (g : ℕ)
    → r.my_rand ≡ g
    → atoi p.cs_txt ≡ pos (contr_sum p g).0
    → check_report p r ≡ answer (is_init p) (record r { my_rand = sender p g })
unfolding check_report
accepted p r g e cs = rw (e, (==ℤ_iff (atoi p.cs_txt) (pos (contr_sum p g).0)).1 cs) refl

my_rand-answer :
    (init : Bool) (r : Rele)
    → (answer init r).1.my_rand ≡ receiver (command_sent init r) r.online r.my_rand
unfolding answer
my_rand-answer true r = refl
my_rand-answer false r = refl

text-answer :
    (init : Bool) (r : Rele)
    → (answer init r).0
      ≡ answer_text
          (command_sent init r)
          r.online
          (answer_sum (command_sent init r) r.online r.my_rand).0
unfolding answer
text-answer init r = refl

my_rand-next_report :
    (def_rand : ℕ) (t_time : ℤ) (p : Report) (r : Rele)
    → (next_report def_rand t_time p r).my_rand ≡ server_rand def_rand p (some r)
unfolding next_report clear_flags_and_log_file
my_rand-next_report def_rand t_time p r =
    let r1 : Rele = record (report_status p r) { acp_status = pos 0 } in
    let r2 = report_init def_rand t_time p r1 in
    expired (report_pin p.pin_txt p.relays r2)
    ∙ pinned p.pin_txt r2
    ∙ inited r1
    ∙ ap (λ g. if is_init p then srand def_rand (to_u32 (serial p)) else g) (status r)
  where
    expired : (x : Rele) → (expire_flag t_time x).my_rand ≡ x.my_rand
    expired x = if_both (λ (y : Rele). y.my_rand ≡ x.my_rand) _ _ _ refl refl

    pinned : (o : Option Bytes) (x : Rele) → (report_pin o p.relays x).my_rand ≡ x.my_rand
    pinned none x = if_both (λ (y : Rele). y.my_rand ≡ x.my_rand) _ _ _ refl refl
    pinned (some t) x = refl

    inited :
        (x : Rele) → (report_init def_rand t_time p x).my_rand ≡ server_rand def_rand p (some x)
    inited x = elim (Bool-cases (is_init p)) [
      | inl yes_init ↦ rw yes_init refl
      | inr no_init ↦ rw no_init refl
    ]

    status : (x : Rele) → (report_status p x).my_rand ≡ x.my_rand
    status x = if_both (λ (y : Rele). y.my_rand ≡ x.my_rand) _ _ _ refl refl

my_rand-age : (t_time : ℤ) (r : Rele) → (age t_time r).my_rand ≡ r.my_rand
unfolding age
my_rand-age t_time r = if_both (λ (x : Rele). x.my_rand ≡ r.my_rand) _ _ _ refl refl

-- The relay as the server knows it when it looks at the checksum.
abbrev pub reported : ℕ → ℤ → Report → Option Rele → Rele
reported def_rand t_time p none = first_report def_rand t_time p
reported def_rand t_time p (some r) = next_report def_rand t_time p (age t_time r)

pub my_rand-reported :
    (def_rand : ℕ) (t_time : ℤ) (p : Report) (o : Option Rele)
    → (reported def_rand t_time p o).my_rand ≡ server_rand def_rand p o
unfolding first_report
my_rand-reported def_rand t_time p none = refl
my_rand-reported def_rand t_time p (some r) =
    my_rand-next_report def_rand t_time p (age t_time r)
    ∙ ap (λ g. if is_init p then srand def_rand (to_u32 (serial p)) else g) (my_rand-age t_time r)

module _ {S : Type 0} (sql : Sqlite S) (def_rand : ℕ) (t_time : ℤ) (p : Report)
    (st : Relays S) where
  -- What obrobnyk_relay does with the texts of a report that has the right form.
  abbrev pub report_step : Bytes × Relays S
  report_step =
      obrobnyk_relay sql def_rand t_time (some p.sn_txt) (some p.acp_txt) (some p.relays)
        (some p.init_txt) (some p.cs_txt) p.pin_txt st

  abbrev pub known_before : Option Rele
  known_before = find_rele (serial p) st.rele_list

  abbrev pub known_after : Option Rele
  known_after = find_rele (serial p) report_step.1.rele_list

  report_of-well_formed :
      well_formed p ≡ true
      → report_of
          (some p.sn_txt)
          (some p.acp_txt)
          (some p.relays)
          (some p.init_txt)
          (some p.cs_txt)
          p.pin_txt
        ≡ some p
  unfolding report_of
  report_of-well_formed good = rw good refl

  report_step_lem : well_formed p ≡ true → report_step ≡ take_report sql def_rand t_time p st
  unfolding obrobnyk_relay
  report_step_lem good = rw (report_of-well_formed good, report_step, obrobnyk_relay) refl

  taken :
      (o : Option Rele)
      → known_before ≡ o
      → well_formed p ≡ true
      → IsRelays st.rele_list
      → ((take_report sql def_rand t_time p st).0
          ≡ (check_report p (reported def_rand t_time p o)).0)
        × (find_rele (serial p) (take_report sql def_rand t_time p st).1.rele_list
            ≡ some (check_report p (reported def_rand t_time p o)).1)
  unfolding take_report
  taken none e good h =
      let first = first_report def_rand t_time p in
      let at =
        check_report-IsReleAt (serial p) p first
          (first_report-IsReleAt def_rand t_time p (well_formed-eight p good)) in
      let absent = find_rele-age_absent (serial p) t_time st.rele_list e in
      rw (absent, take_report)
        (
          refl,
          find_rele-append_self (serial p) (map (age t_time) st.rele_list) (check_report p first).1
              absent at.1,
        )
  taken (some r) e good h =
      let found = find_rele-age_found (serial p) t_time st.rele_list r e in
      let at =
        found-IsReleAt (serial p) (map (age t_time) st.rele_list) (age t_time r)
          (age-IsRelays t_time st.rele_list h).each found in
      let next = next_report def_rand t_time p (age t_time r) in
      let next_at = check_report-IsReleAt (serial p) p next (
        next_report-IsReleAt (serial p) def_rand t_time p (age t_time r) (well_formed-eight p good)
          at) in
      rw (found, take_report)
        (
          refl,
          find_rele-put_self (serial p) (check_report p next).1 (age t_time r)
              (map (age t_time) st.rele_list) next_at.1 found,
        )

  -- The answer is that of check_report, and what it leaves of the relay is kept.
  report_step-check_report :
      well_formed p ≡ true
      → IsRelays st.rele_list
      → (report_step.0 ≡ (check_report p (reported def_rand t_time p known_before)).0)
        × (known_after ≡ some (check_report p (reported def_rand t_time p known_before)).1)
  report_step-check_report good h = rw (report_step_lem good) (taken known_before refl good h)

  -- The same, for a relay that is known.
  pub report_step-known :
      (r : Rele)
      → well_formed p ≡ true
      → IsRelays st.rele_list
      → known_before ≡ some r
      → (report_step.0 ≡ (check_report p (reported def_rand t_time p (some r))).0)
        × (known_after ≡ some (check_report p (reported def_rand t_time p (some r))).1)
  report_step-known r good h found = rw (report_step_lem good) (taken (some r) found good h)

  abbrev pub before : Rele
  before = reported def_rand t_time p known_before

  abbrev pub sent_command : Bytes
  sent_command = command_sent (is_init p) before

  -- In step, on a well formed list of relays: a report of the right form whose checksum the relay has made with the generator that the server reads it
  -- with is answered, not refused. The answer has the checksum that the relay expects of it, and the
  -- generator that the server keeps is the one that the relay has after reading the answer. With an
  -- init report, and with a first one, the generator is the one that the serial number gives,
  -- whatever the server kept before.
  pub exchange :
      (g : ℕ)
      → well_formed p ≡ true
      → IsRelays st.rele_list
      → server_rand def_rand p known_before ≡ g
      → atoi p.cs_txt ≡ pos (contr_sum p g).0
      → (report_step.0
          ≡ answer_text sent_command before.online
              (answer_sum sent_command before.online (sender p g)).0)
        × ((r : Rele) × (known_after ≡ some r)
            × (r.my_rand ≡ receiver sent_command before.online (sender p g)))
  exchange g good h agree cs =
      let (out, kept) = report_step-check_report good h in
      let met = accepted p before g (my_rand-reported def_rand t_time p known_before ∙ agree) cs in
      let r1 : Rele = record before { my_rand = sender p g } in
      (
        out ∙ ap (λ x. x.0) met ∙ text-answer (is_init p) r1,
        (
          (check_report p before).1,
          kept,
          ap (λ x. x.1.my_rand) met ∙ my_rand-answer (is_init p) r1,
        ),
      )
