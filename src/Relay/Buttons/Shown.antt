-- ===== src/Relay/Buttons/Shown.antt =====
-- relay.cpp, rr_get_status: every button that get_knopky_list gives is one of a relay that is known.
use java_io_tserver.Common.{
  ℕ, suc, ◌≡◌, refl, sym, ap, ◌∙◌, ◌⊎◌, inl, inr, List, [], ◌∷◌, ◌++◌, map, Option, none, some, All,
  All-append, Bool-cases, option_both, take,
}
use mathlib.Core.Path.{subst}
use java_io_tserver.Common.Int.{ℤ, pos, ◌==ℤ◌, ==ℤ_iff}
use java_io_tserver.Common.Text.{Bytes, codes}
use java_io_tserver.Relay.Store.{Sqlite}
use java_io_tserver.Relay.Rele.{Rele, Relays, find_rele, put_rele}
use java_io_tserver.Relay.Rele.Table.{
  IsRelays, found-IsReleAt, put-IsRelays, find_rele-put_self, find_rele-put_other, IsKnown,
  known-found, found-IsKnown, append-IsKnown, put-IsKnown,
}
use java_io_tserver.Relay.Established.Users.{list_buttons-IsRelays}
use java_io_tserver.Relay.Buttons.{
  KnopkaInfo, relay_buttons, seen_rele, add_seen, status_char, show_buttons, list_buttons,
  get_knopky_list, rr_get_status,
}

-- The character of a button, by what the list of relays holds.
abbrev pub state_of : ℕ → Option Rele → ℕ
state_of r_idx none = b'X'
state_of r_idx (some r) = status_char r r_idx

abbrev pub button_state : List Rele → KnopkaInfo → ℕ
button_state rs k = state_of k.r_idx (find_rele k.sn rs)

-- That the online seconds of one relay are set changes no button.
button_state-asked :
    (sn : ℤ) (r : Rele) (rs : List Rele) (k : KnopkaInfo)
    → find_rele sn rs ≡ some r
    → r.sn ≡ sn
    → button_state (put_rele sn (record r { online = pos 50 }) rs) k ≡ button_state rs k
button_state-asked sn r rs k found at = elim (Bool-cases (sn ==ℤ k.sn)) [
  | inl same ↦
      let eq : sn ≡ k.sn = (==ℤ_iff sn k.sn).0 same in
      let before : find_rele k.sn rs ≡ some r = subst (λ s. find_rele s rs ≡ some r) eq found in
      let after : find_rele k.sn (put_rele sn (record r { online = pos 50 }) rs)
          ≡ some (record r { online = pos 50 }) =
        subst
          (λ s.
            find_rele s (put_rele sn (record r { online = pos 50 }) rs)
            ≡ some (record r { online = pos 50 }))
          eq (find_rele-put_self sn (record r { online = pos 50 }) r rs at found) in
      ap (state_of k.r_idx) after ∙ sym (ap (state_of k.r_idx) before)
  | inr other ↦
      ap (state_of k.r_idx) (find_rele-put_other k.sn sn (record r { online = pos 50 }) rs at other)
]

map-button_state :
    (p rs : List Rele) (ks : List KnopkaInfo)
    → ((k : KnopkaInfo) → button_state p k ≡ button_state rs k)
    → map (button_state p) ks ≡ map (button_state rs) ks
map-button_state p rs [] h = refl
map-button_state p rs (k ∷ ks) h =
    rw (h k) (ap (λ t. button_state rs k ∷ t) (map-button_state p rs ks h))

All-IsKnown-put :
    (sn : ℤ) (x : Rele) (rs : List Rele) (ks : List KnopkaInfo)
    → x.sn ≡ sn
    → All (λ (k : KnopkaInfo). IsKnown rs k.sn) ks
    → All (λ (k : KnopkaInfo). IsKnown (put_rele sn x rs) k.sn) ks
All-IsKnown-put sn x rs [] e h = tt
All-IsKnown-put sn x rs (k ∷ ks) e h =
    (put-IsKnown k.sn sn x rs e h.0, All-IsKnown-put sn x rs ks e h.1)

show_buttons_lem :
    (ks : List KnopkaInfo) (rs : List Rele)
    → IsRelays rs
    → All (λ (k : KnopkaInfo). IsKnown rs k.sn) ks
    → (rs2 : List Rele) × (show_buttons ks rs ≡ some (map (button_state rs) ks, rs2))
unfolding show_buttons
show_buttons_lem [] rs h known = (rs, refl)
show_buttons_lem (k ∷ ks) rs h known =
    let (r, found) = known-found k.sn rs known.0 in
    let at = found-IsReleAt k.sn rs r h.each found in
    let x : Rele = record r { online = pos 50 } in
    let p = put_rele k.sn x rs in
    let (rs2, rest) =
      show_buttons_lem ks p (put-IsRelays k.sn x rs at h)
        (All-IsKnown-put k.sn x rs ks at.1 known.1) in
    let same = map-button_state p rs ks (λ k2. button_state-asked k.sn r rs k2 found at.1) in
    (rs2, rw (found, rest, same) refl)

abbrev AllKnown : List Rele → List KnopkaInfo → Type 0
AllKnown rs = All (λ (k : KnopkaInfo). IsKnown rs k.sn)

relay_buttons-AllKnown :
    (sn : ℤ) (i : ℕ) (names : List Bytes) (rs : List Rele)
    → IsKnown rs sn
    → AllKnown rs (relay_buttons sn i names)
unfolding relay_buttons
relay_buttons-AllKnown sn i [] rs h = tt
relay_buttons-AllKnown sn i ([] ∷ names) rs h = relay_buttons-AllKnown sn (suc i) names rs h
relay_buttons-AllKnown sn i ((c ∷ cs) ∷ names) rs h =
    (h, relay_buttons-AllKnown sn (suc i) names rs h)

add_seen-IsKnown :
    (def_rand : ℕ) (t_time sn s : ℤ) (rs : List Rele)
    → IsKnown rs s ⊎ (sn ≡ s)
    → IsKnown (add_seen def_rand t_time sn rs) s
unfolding add_seen
add_seen-IsKnown def_rand t_time sn s rs h =
    option_both (λ (x : List Rele). IsKnown x s) (find_rele sn rs) _ _
      (λ e. append-IsKnown s rs (seen_rele def_rand t_time sn) h)
      (λ r e. elim h [
        | inl known ↦ known
        | inr same ↦ subst (IsKnown rs) same (found-IsKnown sn rs r e)
      ])

module _ {S : Type 0} (sql : Sqlite S) (def_rand : ℕ) where
  list_buttons-IsKnown :
      (t_time : ℤ) (db : S) (ids : List ℤ) (rs : List Rele) (s : ℤ)
      → IsKnown rs s
      → IsKnown (list_buttons sql def_rand t_time db ids rs).1 s
  unfolding list_buttons
  list_buttons-IsKnown t_time db [] rs s h = h
  list_buttons-IsKnown t_time db (r_id ∷ ids) rs s h =
      option_both (λ (r : List KnopkaInfo × List Rele). IsKnown r.1 s) (sql.relay_row r_id db) _ _
        (λ e. list_buttons-IsKnown t_time db ids rs s h)
        (λ row e.
          list_buttons-IsKnown t_time db ids (add_seen def_rand t_time row.0 rs) s
            (add_seen-IsKnown def_rand t_time row.0 s rs (inl h)))

  list_buttons-AllKnown :
      (t_time : ℤ) (db : S) (ids : List ℤ) (rs : List Rele)
      → AllKnown
          (list_buttons sql def_rand t_time db ids rs).1
          (list_buttons sql def_rand t_time db ids rs).0
  unfolding list_buttons
  list_buttons-AllKnown t_time db [] rs = tt
  list_buttons-AllKnown t_time db (r_id ∷ ids) rs =
      option_both (λ (r : List KnopkaInfo × List Rele). AllKnown r.1 r.0) (sql.relay_row r_id db) _
        _ (λ e. list_buttons-AllKnown t_time db ids rs)
        (λ row e.
          let rs1 = add_seen def_rand t_time row.0 rs in
          let rs2 = (list_buttons sql def_rand t_time db ids rs1).1 in
          All-append (λ (k : KnopkaInfo). IsKnown rs2 k.sn) (relay_buttons row.0 1 (take 8 row.1)) _
            (relay_buttons-AllKnown row.0 1 (take 8 row.1) rs2 (
              list_buttons-IsKnown t_time db ids rs1 row.0
                (add_seen-IsKnown def_rand t_time row.0 row.0 rs (inr refl))))
            (list_buttons-AllKnown t_time db ids rs1))

  -- On a well formed list of relays rr_get_status never writes through a null pointer, whatever the
  -- database holds: it answers with one character for each button of get_knopky_list, in its order,
  -- each that of the relay and the output of the button.
  pub rr_get_status_lem :
      (t_time user_id : ℤ) (st : Relays S)
      → IsRelays st.rele_list
      → (rs2 : List Rele) × (rr_get_status sql def_rand t_time user_id st
          ≡ some (
            codes "{\"buttons\":\""
                ++ (map
                      (button_state (get_knopky_list sql def_rand t_time user_id st).1)
                      (get_knopky_list sql def_rand t_time user_id st).0
                    ++ codes "\"}"),
            record st { rele_list = rs2 },
          ))
  unfolding rr_get_status get_knopky_list
  rr_get_status_lem t_time user_id st h =
      let ids = sql.user_relays user_id st.db in
      let listed = list_buttons sql def_rand t_time st.db ids st.rele_list in
      let (rs2, shown) =
        show_buttons_lem listed.0 listed.1
          (list_buttons-IsRelays sql def_rand t_time st.db ids st.rele_list h)
          (list_buttons-AllKnown t_time st.db ids st.rele_list) in
      (rs2, rw shown refl)
