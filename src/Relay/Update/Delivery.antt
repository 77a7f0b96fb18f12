-- ===== src/Relay/Update/Delivery.antt =====
-- relay.cpp: a press waits for the report of its relay, survives reports that are refused, and is
-- handed over once.
use java_io_tserver.Common.{
  ℕ, ◌≡◌, ◌≢◌, refl, ap, ◌∙◌, inl, inr, Bool, true, false, not, Option, none, some, if_both,
  Bool-cases, ◌==◌, if◌then◌else◌, arith,
}
use java_io_tserver.Common.Int.{ℤ, pos, ◌==ℤ◌, ==ℤ_iff}
use java_io_tserver.Common.Text.{Bytes, equal, atoi}
use java_io_tserver.Relay.Store.{Sqlite}
use java_io_tserver.Relay.Rele.{Rele, Relays, unknown, age, clear_flags_and_log_file}
use java_io_tserver.Relay.Rele.Table.{IsRelays}
use java_io_tserver.Relay.Update.{
  Report, well_formed, refusal, report_status, report_init, report_pin, expire_flag, next_report,
  contr_sum, check_report,
}
use java_io_tserver.Relay.Update.InStep.{
  server_rand, reported, my_rand-reported, report_step, known_before, known_after,
  report_step-known,
}

-- The report does not ask for the outputs last known: it has a pin, or outputs.
abbrev pub brings_outputs : Option Bytes → Bytes → Bool
brings_outputs (some t) relays = true
brings_outputs none relays = not (equal relays unknown)

-- The command that waits, if one does, and the seconds that are sent with it.
abbrev waiting : Rele → Bool × Bytes × ℤ
waiting r = (r.put, r.rr_command, r.online)

abbrev WaitsAs : Rele → Rele → Type 0
WaitsAs r x = waiting x ≡ waiting r

expire_flag-WaitsAs : (t_time : ℤ) (r x : Rele) → WaitsAs r x → WaitsAs r (expire_flag t_time x)
unfolding clear_flags_and_log_file
expire_flag-WaitsAs t_time r x h = if_both (WaitsAs r) _ _ _ h h

report_pin-WaitsAs :
    (pin : Option Bytes) (relays : Bytes) (r x : Rele)
    → brings_outputs pin relays ≡ true
    → WaitsAs r x
    → WaitsAs r (report_pin pin relays x)
report_pin-WaitsAs (some t) relays r x b h = h
report_pin-WaitsAs none relays r x b h =
    let other : equal relays unknown ≡ false = ground (arith, b) in rw other h

next_report-WaitsAs :
    (def_rand : ℕ) (t_time : ℤ) (p : Report) (r : Rele)
    → brings_outputs p.pin_txt p.relays ≡ true
    → WaitsAs r (next_report def_rand t_time p (age t_time r))
unfolding next_report age
next_report-WaitsAs def_rand t_time p r b =
    let aged : WaitsAs r (age t_time r) = if_both (WaitsAs r) _ _ _ refl refl in
    let a : WaitsAs r (report_status p (age t_time r)) = if_both (WaitsAs r) _ _ _ aged aged in
    let r1 : Rele = record (report_status p (age t_time r)) { acp_status = pos 0 } in
    let c : WaitsAs r (report_init def_rand t_time p r1) = if_both (WaitsAs r) _ _ _ a a in
    expire_flag-WaitsAs t_time r _ (report_pin-WaitsAs p.pin_txt p.relays r _ b c)

-- The other state of an output.
abbrev pub opposite : ℕ → ℕ
opposite c = if c == b'0' then b'1' else b'0'

unequal :
    (p : Report) (x : Rele)
    → atoi p.cs_txt ≢ pos (contr_sum p x.my_rand).0
    → check_report p x ≡ (refusal, record x { my_rand = (contr_sum p x.my_rand).1 })
unfolding check_report
unequal p x wrong = elim (Bool-cases (atoi p.cs_txt ==ℤ pos (contr_sum p x.my_rand).0)) [
  | inl same ↦ absurd (wrong ((==ℤ_iff (atoi p.cs_txt) (pos (contr_sum p x.my_rand).0)).0 same))
  | inr other ↦ rw other refl
]

module _ {S : Type 0} (sql : Sqlite S) (def_rand : ℕ) (t_time : ℤ) (p : Report) where
  abbrev pub next_known : Rele → Rele
  next_known r = reported def_rand t_time p (some r)

  -- On a well formed list of relays, a report of the right form of a known relay, with a pin or with
  -- outputs, whose checksum is wrong is refused, and no command is lost by it: what waits before
  -- waits after.
  pub checksum_refused :
      (st : Relays S) (r : Rele)
      → well_formed p ≡ true
      → IsRelays st.rele_list
      → known_before sql def_rand t_time p st ≡ some r
      → brings_outputs p.pin_txt p.relays ≡ true
      → atoi p.cs_txt ≢ pos (contr_sum p (server_rand def_rand p (some r))).0
      → ((report_step sql def_rand t_time p st).0 ≡ refusal)
        × ((r2 : Rele) × (known_after sql def_rand t_time p st ≡ some r2)
            × (r2.put ≡ r.put)
            × (r2.rr_command ≡ r.rr_command))
  checksum_refused st r good h found brings wrong =
      let next = next_known r in
      let w = next_report-WaitsAs def_rand t_time p r brings in
      let base = report_step-known sql def_rand t_time p st r good h found in
      let off : check_report p next
          ≡ (refusal, record next { my_rand = (contr_sum p next.my_rand).1 }) =
        unequal p next (λ e.
          wrong
            (e ∙ ap (λ g. pos (contr_sum p g).0) (my_rand-reported def_rand t_time p (some r)))) in
      (
        base.0 ∙ ap (λ y. y.0) off,
        (
          record next { my_rand = (contr_sum p next.my_rand).1 },
          base.1 ∙ ap (λ y. some y.1) off,
          ap (λ y. y.0) w,
          ap (λ y. y.1) w,
        ),
      )
