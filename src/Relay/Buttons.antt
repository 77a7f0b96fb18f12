-- ===== src/Relay/Buttons.antt =====
-- relay.cpp: who may use a relay, the buttons of a user, their state, and a press of one.
pub mod Shown
use java_io_tserver.Common.{
  ℕ, suc, ◌-◌, Bool, true, false, ◌&&◌, ◌||◌, not, List, [], ◌∷◌, ◌++◌, Option, none, some, ltb,
  leb, ◌==◌, ◌>>=◌, if◌then◌else◌, get_or, set, take,
}
use java_io_tserver.Common.Int.{ℤ, pos, negsuc, ◌-ℤ◌, ◌==ℤ◌, leb_ℤ}
use java_io_tserver.Common.Text.{Bytes, codes, to_string}
use java_io_tserver.Relay.Store.{Sqlite}
use java_io_tserver.Relay.Rele.{Rele, Relays, new_rele, unknown, silent, find_rele, put_rele}

-- A button: the relay, which of its outputs, and the name of that output.
pub record KnopkaInfo : Type 0 where
  pub sn : ℤ
  pub r_idx : ℕ
  pub text : Bytes

-- The buttons of one relay: an output with an empty name has none.
unfoldable pub relay_buttons : ℤ → ℕ → List Bytes → List KnopkaInfo
relay_buttons sn i [] = []
relay_buttons sn i ([] ∷ names) = relay_buttons sn (suc i) names
relay_buttons sn i ((c ∷ cs) ∷ names) =
    record { sn = sn; r_idx = i; text = c ∷ cs } ∷ relay_buttons sn (suc i) names

-- A relay that a user has and that has not reported since the server has started.
abbrev pub seen_rele : ℕ → ℤ → ℤ → Rele
seen_rele def_rand t_time sn = record (new_rele def_rand) {
  sn = sn;
  acp_status = silent;
  time_onl = t_time;
  rr_status = unknown;
  rr_command = unknown;
}

unfoldable pub add_seen : ℕ → ℤ → ℤ → List Rele → List Rele
add_seen def_rand t_time sn rs = elim (find_rele sn rs) [
  | none ↦ rs ++ seen_rele def_rand t_time sn ∷ []
  | some r ↦ rs
]

-- `rr_status` of an output, unless the relay is silent.
abbrev pub status_char : Rele → ℕ → ℕ
status_char r r_idx =
    if leb 1 r_idx && leb r_idx 8 && not (r.acp_status ==ℤ silent)
    then get_or r.rr_status (r_idx - 1) 0
    else b'X'

-- The loop of rr_get_status. `none`: the pointer that find_rele gives is null, and it is written
-- through all the same.
unfoldable pub show_buttons : List KnopkaInfo → List Rele → Option (Bytes × List Rele)
show_buttons [] rs = some ([], rs)
show_buttons (k ∷ ks) rs = do
  r ← find_rele k.sn rs
  (out, rs2) ← show_buttons ks (put_rele k.sn (record r { online = pos 50 }) rs)
  some (status_char r k.r_idx ∷ out, rs2)

-- The output that is asked for is turned round, and is not known until the relay has reported.
abbrev pub turned : ℕ → ℕ
turned c = if c == b'0' then b'1' else if c == b'1' then b'0' else b'X'

unfoldable pub press : ℕ → Rele → Rele
press b r = record r {
  rr_status = set r.rr_status b b'X';
  rr_command = set r.rr_command b (turned (get_or r.rr_status b 0));
  put = true;
}

-- `button >= 0 && button < 8`, and the press.
unfoldable pub press_at : ℤ → Rele → Rele
press_at (negsuc n) r = r
press_at (pos b) r = if ltb b 8 && not (r.acp_status ==ℤ silent) then press b r else r

-- The loop of get_knopky.
unfoldable pub button_html : List KnopkaInfo → Bytes
button_html [] = []
button_html (k ∷ ks) =
    codes "<button class=\"button\" b_id=\""
    ++ (to_string (pos k.r_idx)
        ++ (codes "\" sn=\""
            ++ (to_string k.sn
                ++ (codes "\">" ++ (k.text ++ (codes "</button>\n" ++ button_html ks))))))

module _ {S : Type 0} (sql : Sqlite S) where
  unfoldable pub validate_user : ℤ → ℤ → S → Bool
  validate_user user_id sn db =
      if leb_ℤ user_id (pos 0) || leb_ℤ sn (pos 0) then false else sql.owns user_id sn db

  -- The answer is empty on every path.
  unfoldable pub rr_put_status : ℤ → ℤ → ℤ → Relays S → Relays S
  rr_put_status sn button user_id st =
      if validate_user user_id sn st.db
      then elim (find_rele sn st.rele_list) [
        | none ↦ st
        | some r ↦ record st { rele_list = put_rele sn (press_at (button -ℤ pos 1) r) st.rele_list }
      ]
      else st

module _ {S : Type 0} (sql : Sqlite S) (def_rand : ℕ) where
  -- The loop of get_knopky_list over the user's relays: their buttons, and the relays known then.
  unfoldable pub list_buttons : ℤ → S → List ℤ → List Rele → List KnopkaInfo × List Rele
  list_buttons t_time db [] rs = ([], rs)
  list_buttons t_time db (r_id ∷ ids) rs = elim (sql.relay_row r_id db) [
    | none ↦ list_buttons t_time db ids rs
    | some (sn, names) ↦
        let (ks, rs2) = list_buttons t_time db ids (add_seen def_rand t_time sn rs) in
        (relay_buttons sn 1 (take 8 names) ++ ks, rs2)
  ]

  unfoldable pub get_knopky_list : ℤ → ℤ → Relays S → List KnopkaInfo × List Rele
  get_knopky_list t_time user_id st =
      list_buttons t_time st.db (sql.user_relays user_id st.db) st.rele_list

  unfoldable pub get_knopky : ℤ → ℤ → Relays S → Bytes × Relays S
  get_knopky t_time user_id st =
      let (ks, rs) = get_knopky_list t_time user_id st in
      (button_html ks, record st { rele_list = rs })

  unfoldable pub rr_get_status : ℤ → ℤ → Relays S → Option (Bytes × Relays S)
  rr_get_status t_time user_id st =
      let (ks, rs) = get_knopky_list t_time user_id st in
      (do
        (out, rs2) ← show_buttons ks rs
        some (codes "{\"buttons\":\"" ++ (out ++ codes "\"}"), record st { rele_list = rs2 }))
