-- ===== src/Relay/Established/Users.antt =====
-- relay.cpp: the list of relays stays well formed in what users do.
use java_io_tserver.Common.{
  ℕ, refl, ◌∙◌, Bool, false, ◌&&◌, List, [], ◌∷◌, ◌++◌, take, drop, if◌then◌else◌, if_both,
  option_both, length, length-set, Holds, Holds->>=, Holds-some, get_or, ltb,
}
use java_io_tserver.Common.Int.{ℤ, pos, negsuc, ◌-ℤ◌, ◌==ℤ◌}
use java_io_tserver.Common.Text.{Bytes, atoi}
use java_io_tserver.Relay.Store.{Sqlite}
use java_io_tserver.Relay.Rele.{Rele, Relays, find_rele, put_rele}
use java_io_tserver.Relay.Rele.Table.{
  IsReleAt, IsRelays, found-IsReleAt, append-IsRelays, put-IsRelays,
}
use java_io_tserver.Relay.Buttons.{
  KnopkaInfo, seen_rele, add_seen, turned, press, press_at, show_buttons, list_buttons,
  get_knopky_list, get_knopky, rr_get_status, validate_user, rr_put_status,
}
use java_io_tserver.Relay.LogFile.{
  c_string, save_log_file, handed_out, ask, unask, get_get_log_file_flag, send_for_user_log_file,
  set_get_log_file_flag,
}

add_seen-IsRelays :
    (def_rand : ℕ) (t_time sn : ℤ) (rs : List Rele)
    → IsRelays rs
    → IsRelays (add_seen def_rand t_time sn rs)
unfolding add_seen
add_seen-IsRelays def_rand t_time sn rs h =
    option_both IsRelays (find_rele sn rs) _ _
      (λ e. append-IsRelays sn rs (seen_rele def_rand t_time sn) e ((refl, refl), refl) h)
      (λ r e. h)

module _ {S : Type 0} (sql : Sqlite S) (def_rand : ℕ) where
  pub list_buttons-IsRelays :
      (t_time : ℤ) (db : S) (ids : List ℤ) (rs : List Rele)
      → IsRelays rs
      → IsRelays (list_buttons sql def_rand t_time db ids rs).1
  unfolding list_buttons
  list_buttons-IsRelays t_time db [] rs h = h
  list_buttons-IsRelays t_time db (r_id ∷ ids) rs h =
      option_both (λ (r : List KnopkaInfo × List Rele). IsRelays r.1) (sql.relay_row r_id db) _ _
        (λ e. list_buttons-IsRelays t_time db ids rs h)
        (λ row e.
          list_buttons-IsRelays t_time db ids (add_seen def_rand t_time row.0 rs)
            (add_seen-IsRelays def_rand t_time row.0 rs h))

  pub get_knopky-IsRelays :
      (t_time user_id : ℤ) (st : Relays S)
      → IsRelays st.rele_list
      → IsRelays (get_knopky sql def_rand t_time user_id st).1.rele_list
  unfolding get_knopky get_knopky_list
  get_knopky-IsRelays t_time user_id st h =
      list_buttons-IsRelays t_time st.db (sql.user_relays user_id st.db) st.rele_list h

show_buttons-IsRelays :
    (ks : List KnopkaInfo) (rs : List Rele)
    → IsRelays rs
    → Holds (λ r. IsRelays r.1) (show_buttons ks rs)
unfolding show_buttons Holds
show_buttons-IsRelays [] rs h = h
show_buttons-IsRelays (k ∷ ks) rs h =
    Holds->>= (λ (x : Bytes × List Rele). IsRelays x.1) (find_rele k.sn rs) _
      (λ r e.
        let x : Rele = record r { online = pos 50 } in
        let at = found-IsReleAt k.sn rs r h.each e in
        let rest = show_buttons ks (put_rele k.sn x rs) in
        Holds->>= (λ (x : Bytes × List Rele). IsRelays x.1) rest _
          (λ shown e2.
            Holds-some (λ (x : Bytes × List Rele). IsRelays x.1) rest shown
              (show_buttons-IsRelays ks (put_rele k.sn x rs) (put-IsRelays k.sn x rs at h)) e2))

module _ {S : Type 0} (sql : Sqlite S) (def_rand : ℕ) where
  pub rr_get_status-IsRelays :
      (t_time user_id : ℤ) (st : Relays S)
      → IsRelays st.rele_list
      → Holds
          (λ (r : Bytes × Relays S). IsRelays r.1.rele_list)
          (rr_get_status sql def_rand t_time user_id st)
  unfolding rr_get_status get_knopky_list Holds
  rr_get_status-IsRelays t_time user_id st h =
      let listed =
        list_buttons sql def_rand t_time st.db (sql.user_relays user_id st.db) st.rele_list in
      Holds->>= (λ (r : Bytes × Relays S). IsRelays r.1.rele_list) (show_buttons listed.0 listed.1)
        _
        (λ r e.
          Holds-some (λ (x : Bytes × List Rele). IsRelays x.1) (show_buttons listed.0 listed.1) r
            (show_buttons-IsRelays listed.0 listed.1 (
              list_buttons-IsRelays sql def_rand t_time st.db (sql.user_relays user_id st.db)
                st.rele_list h))
            e)

press-IsReleAt : (sn : ℤ) (b : ℕ) (r : Rele) → IsReleAt sn r → IsReleAt sn (press b r)
unfolding press
press-IsReleAt sn b r h = (
  (
    length-set r.rr_status b b'X' ∙ h.0.0,
    length-set r.rr_command b (turned (get_or r.rr_status b 0)) ∙ h.0.1,
  ),
  h.1,
)

press_at-IsReleAt : (sn button : ℤ) (r : Rele) → IsReleAt sn r → IsReleAt sn (press_at button r)
unfolding press_at
press_at-IsReleAt sn (negsuc n) r h = h
press_at-IsReleAt sn (pos b) r h = if_both (IsReleAt sn) _ _ _ (press-IsReleAt sn b r h) h

ask-IsReleAt :
    (sn t_time user_id : ℤ) (r : Rele) → IsReleAt sn r → IsReleAt sn (ask t_time user_id r)
unfolding ask
ask-IsReleAt sn t_time user_id r h = if_both (IsReleAt sn) _ _ _ h h

unask-IsReleAt : (sn user_id : ℤ) (r : Rele) → IsReleAt sn r → IsReleAt sn (unask user_id r)
unfolding unask
unask-IsReleAt sn user_id r h = if_both (IsReleAt sn) _ _ _ h h

module _ {S : Type 0} (sql : Sqlite S) where
  pub rr_put_status-IsRelays :
      (sn button user_id : ℤ) (st : Relays S)
      → IsRelays st.rele_list
      → IsRelays (rr_put_status sql sn button user_id st).rele_list
  unfolding rr_put_status
  rr_put_status-IsRelays sn button user_id st h =
      if_both (λ (x : Relays S). IsRelays x.rele_list) (validate_user sql user_id sn st.db) _ _
        (option_both (λ (x : Relays S). IsRelays x.rele_list) (find_rele sn st.rele_list) _ _
          (λ e. h)
          (λ r e.
            put-IsRelays sn (press_at (button -ℤ pos 1) r) st.rele_list
              (press_at-IsReleAt sn (button -ℤ pos 1) r (found-IsReleAt sn st.rele_list r h.each e))
              h))
        h

  pub send_for_user_log_file-IsRelays :
      (sn user_id : ℤ) (st : Relays S)
      → IsRelays st.rele_list
      → IsRelays (send_for_user_log_file sql sn user_id st).1.rele_list
  unfolding send_for_user_log_file handed_out
  send_for_user_log_file-IsRelays sn user_id st h =
      if_both (λ (x : Bytes × Relays S). IsRelays x.1.rele_list)
        (validate_user sql user_id sn st.db) _ _
        (option_both (λ (x : Bytes × Relays S). IsRelays x.1.rele_list) (find_rele sn st.rele_list)
          _ _ (λ e. h)
          (λ r e.
            if_both (λ (x : Bytes × Relays S). IsRelays x.1.rele_list)
              (ltb 0 (length r.log_file) && user_id ==ℤ r.user_id_set_gff) _ _
              (put-IsRelays sn (handed_out r) st.rele_list
                (found-IsReleAt sn st.rele_list r h.each e) h)
              h))
        h

  pub set_get_log_file_flag-IsRelays :
      (t_time sn user_id : ℤ) (flag : Bool) (st : Relays S)
      → IsRelays st.rele_list
      → IsRelays (set_get_log_file_flag sql t_time sn user_id flag st).rele_list
  unfolding set_get_log_file_flag
  set_get_log_file_flag-IsRelays t_time sn user_id flag st h =
      if_both (λ (x : Relays S). IsRelays x.rele_list) (validate_user sql user_id sn st.db) _ _
        (option_both (λ (x : Relays S). IsRelays x.rele_list) (find_rele sn st.rele_list) _ _
          (λ e. h)
          (λ r e.
            let at = found-IsReleAt sn st.rele_list r h.each e in
            put-IsRelays sn (if flag then ask t_time user_id r else unask user_id r) st.rele_list
              (if_both (IsReleAt sn) flag _ _ (ask-IsReleAt sn t_time user_id r at)
                (unask-IsReleAt sn user_id r at))
              h))
        h

pub save_log_file-IsRelays :
    (log_file : Bytes) (rs : List Rele) → IsRelays rs → IsRelays (save_log_file log_file rs)
unfolding save_log_file
save_log_file-IsRelays log_file rs h =
    let sn = atoi (c_string (take 19 (drop 21 log_file))) in
    if_both IsRelays (ltb 40 (length log_file)) _ _
      (option_both IsRelays (find_rele sn rs) _ _ (λ e. h)
        (λ r e. if_both IsRelays (r.user_id_set_gff ==ℤ pos 0) _ _ h (
          put-IsRelays sn (record r { log_file = r.log_file ++ log_file }) rs
            (found-IsReleAt sn rs r h.each e) h)))
      h

pub get_get_log_file_flag-IsRelays :
    (sn : ℤ) (rs : List Rele) → IsRelays rs → IsRelays (get_get_log_file_flag sn rs).1
unfolding get_get_log_file_flag
get_get_log_file_flag-IsRelays sn rs h =
    option_both (λ (x : Bool × List Rele). IsRelays x.1) (find_rele sn rs) _ _ (λ e. h)
      (λ r e.
        put-IsRelays sn (record r { get_log_file_flag = false }) rs
          (found-IsReleAt sn rs r h.each e) h)
