-- ===== src/Relay/Established/Requests.antt =====
-- relay_http_handlers.cpp and server_relays.cpp: the list of relays stays well formed over requests.
use java_io_tserver.Common.{
  Bool, true, false, ◌&&◌, map, Option, if◌then◌else◌, if_both, option_both, Holds, holds,
  Holds->>=, Holds-some, ◌==◌, length,
}
use java_io_tserver.Common.Int.{◌==ℤ◌}
use java_io_tserver.Common.Text.{Bytes, codes}
use java_io_tserver.Relay.Store.{Sqlite}
use java_io_tserver.Relay.Rele.{Relays}
use java_io_tserver.Relay.Rele.Table.{IsRelays}
use java_io_tserver.Relay.Request.{
  Request, is_text, param, check_param, znach, get_code, head_code, post_code, put_code,
}
use java_io_tserver.Relay.Buttons.{validate_user, rr_get_status}
use java_io_tserver.Relay.Names.{set_relay_name, set_relay_names}
use java_io_tserver.Relay.Handlers.{
  Outside, number, relay_names, obrobka_get, send_post, obrobka_post, obrobka_put,
}
use java_io_tserver.Relay.Server.{
  Served, State, order_log_file, delegate, answered, command, serve, connection,
}
use java_io_tserver.Relay.Decode.{decod_request}
use java_io_tserver.Relay.Established.{obrobnyk_relay-IsRelays}
use java_io_tserver.Relay.Established.Users.{
  get_knopky-IsRelays, rr_get_status-IsRelays, rr_put_status-IsRelays,
  send_for_user_log_file-IsRelays, set_get_log_file_flag-IsRelays, save_log_file-IsRelays,
  get_get_log_file_flag-IsRelays,
}

module _ {S : Type 0} where
  abbrev pub IsKept {ℓ} : {A : Type ℓ} → A × Relays S → Type 0
  IsKept r = IsRelays r.1.rele_list

  module _ (out : Outside) (sql : Sqlite S) where
    -- One branch of a chain of conditions.
    branch :
        (b : Bool) (x y : Option (Bytes × Relays S))
        → Holds IsKept x
        → Holds IsKept y
        → Holds IsKept (if b then x else y)
    branch b x y = if_both (Holds IsKept) b x y

    obrobka_get-IsRelays :
        (head : Bool) (rq : Request) (st : Relays S)
        → IsRelays st.rele_list
        → Holds IsKept (obrobka_get out sql head rq st)
    unfolding obrobka_get
    obrobka_get-IsRelays head rq st h =
        let user = number (codes "userID") rq.query in
        let sn = number (codes "sn") rq.query in
        let has_user = param (codes "userID") rq.query in
        let has_sn = param (codes "sn") rq.query in
        branch (is_text rq.path (codes "/get_status") && has_user) _ _
          (Holds->>= IsKept user _ (λ u e.
            Holds->>= IsKept (rr_get_status sql out.def_rand out.t_time u st) _ (λ r e2.
              holds IsKept (
                Holds-some IsKept _ r (rr_get_status-IsRelays sql out.def_rand out.t_time u st h)
                  e2))))
          (branch (is_text rq.path (codes "/get_knopky") && has_user) _ _
            (Holds->>= IsKept user _
              (λ u e. holds IsKept (get_knopky-IsRelays sql out.def_rand out.t_time u st h)))
            (branch (is_text rq.path (codes "/get_gadgets") && has_user) _ _
              (Holds->>= IsKept user _ (λ u e. holds IsKept h))
              (branch (is_text rq.path (codes "/get_relays") && (has_user && has_sn)) _ _
                (Holds->>= IsKept user _ (λ u e. Holds->>= IsKept sn _ (λ n e2. holds IsKept h)))
                (branch (is_text rq.path (codes "/log_file") && (has_user && has_sn)) _ _
                  (Holds->>= IsKept sn _ (λ n e.
                    Holds->>= IsKept user _
                      (λ u e2. holds IsKept (send_for_user_log_file-IsRelays sql n u st h))))
                  (holds IsKept h)))))

    send_post-IsRelays :
        (rq : Request) (r : Bytes × Relays S) → IsKept r → Holds IsKept (send_post out sql rq r)
    unfolding send_post
    send_post-IsRelays rq (body, st) h =
        branch (length rq.query == 5 && is_text rq.path (codes "/update_state")) _ _
          (Holds->>= IsKept (number (codes "sn") rq.query) _
            (λ sn e. holds IsKept (get_get_log_file_flag-IsRelays sn st.rele_list h)))
          (holds IsKept h)

    obrobka_post-IsRelays :
        (rq : Request) (st : Relays S)
        → IsRelays st.rele_list
        → Holds IsKept (obrobka_post out sql rq st)
    unfolding obrobka_post set_relay_name set_relay_names
    obrobka_post-IsRelays rq st h =
        let q = rq.query in
        let sn = number (codes "sn") q in
        let user = number (codes "userID") q in
        branch (is_text rq.path (codes "/update_state")) _ _
          (send_post-IsRelays rq _ (
            obrobnyk_relay-IsRelays sql out.def_rand out.t_time (znach (codes "sn") q)
              (znach (codes "acp") q) (znach (codes "relays") q) (znach (codes "init") q)
              (znach (codes "cs") q) (znach (codes "pin") q) st h))
          (branch (is_text rq.path (codes "/log_file")) _ _
            (send_post-IsRelays rq _ (save_log_file-IsRelays rq.body st.rele_list h))
            (branch (is_text rq.path (codes "/set_relay_name")) _ _
              (Holds->>= IsKept sn _ (λ n e. Holds->>= IsKept user _ (λ u e2.
                send_post-IsRelays rq (set_relay_name sql n (znach (codes "name") q) u st)
                  (if_both IsKept (validate_user sql u n st.db) _ _ h h))))
              (branch (is_text rq.path (codes "/set_relay_names")) _ _
                (Holds->>= IsKept sn _ (λ n e. Holds->>= IsKept user _ (λ u e2.
                  send_post-IsRelays rq
                    (set_relay_names sql n (map (λ n. znach n q) relay_names) u st)
                    (if_both IsKept (validate_user sql u n st.db) _ _ h h))))
                (holds IsKept h))))

    obrobka_put-IsRelays :
        (rq : Request) (st : Relays S)
        → IsRelays st.rele_list
        → Holds IsKept (obrobka_put out sql rq st)
    unfolding obrobka_put
    obrobka_put-IsRelays rq st h =
        branch
          (is_text rq.path (codes "/put_status")
            && (param (codes "sn") rq.query && param (codes "button") rq.query))
          _ _
          (Holds->>= IsKept (number (codes "sn") rq.query) _ (λ sn e.
            Holds->>= IsKept (number (codes "button") rq.query) _ (λ button e2.
              Holds->>= IsKept (number (codes "userID") rq.query) _
                (λ user_id e3. holds IsKept (rr_put_status-IsRelays sql sn button user_id st h)))))
          (holds IsKept h)

    delegate-IsRelays :
        (rq : Request) (st : Relays S)
        → IsRelays st.rele_list
        → Holds IsKept (delegate out sql rq st)
    unfolding delegate
    delegate-IsRelays rq st h =
        branch (rq.method ==ℤ get_code) _ _ (obrobka_get-IsRelays false rq st h) (
          branch (rq.method ==ℤ head_code) _ _ (obrobka_get-IsRelays true rq st h) (
            branch (rq.method ==ℤ post_code) _ _ (obrobka_post-IsRelays rq st h) (
              branch (rq.method ==ℤ put_code) _ _ (obrobka_put-IsRelays rq st h) (holds IsKept h))))

    abbrev pub IsServed : Served × State S → Type 0
    IsServed r = IsRelays r.1.relays.rele_list

    answered-IsRelays :
        (hide : Bool) (rq : Request) (st : Relays S)
        → IsRelays st.rele_list
        → Holds IsServed (answered out sql hide rq st)
    unfolding answered
    answered-IsRelays hide rq st h = Holds->>= IsServed (delegate out sql rq st) _ (λ r e.
        holds IsServed (Holds-some IsKept (delegate out sql rq st) r (delegate-IsRelays rq st h) e))

    order_log_file-IsRelays :
        (flag : Bool) (rq : Request) (st : Relays S)
        → IsRelays st.rele_list
        → Holds IsKept (order_log_file out sql flag rq st)
    unfolding order_log_file
    order_log_file-IsRelays flag rq st h =
        if_both (Holds IsKept) (param (codes "sn") rq.query) _ _
          (Holds->>= IsKept (number (codes "sn") rq.query) _ (λ sn e.
            Holds->>= IsKept (number (codes "userID") rq.query) _ (λ user_id e2.
              holds IsKept (set_get_log_file_flag-IsRelays sql out.t_time sn user_id flag st h))))
          (holds IsKept h)

    command-IsRelays :
        (rq : Request) (s : State S)
        → IsRelays s.relays.rele_list
        → Holds IsServed (command out sql rq s)
    unfolding command
    command-IsRelays rq s h =
        let ordered = λ (flag : Bool). order_log_file-IsRelays flag rq s.relays h in
        let log_file = check_param (codes "command") (codes "log_file") rq.query in
        if_both (Holds IsServed) (log_file && is_text rq.path (codes "/view_log_order.html")) _ _
          (Holds->>= IsServed (order_log_file out sql true rq s.relays) _
            (λ r e. answered-IsRelays _ _ r.1 (Holds-some IsKept _ r (ordered true) e)))
          (if_both (Holds IsServed) (log_file && is_text rq.path (codes "/clear_get_log_file_flag"))
            _ _
            (Holds->>= IsServed (order_log_file out sql false rq s.relays) _
              (λ r e. holds IsServed (Holds-some IsKept _ r (ordered false) e)))
            (answered-IsRelays _ _ s.relays h))

    serve-IsRelays :
        (rq : Request) (s : State S)
        → IsRelays s.relays.rele_list
        → Holds IsServed (serve out sql rq s)
    unfolding serve
    serve-IsRelays rq s h =
        if_both (Holds IsServed) (param (codes "command") rq.query) _ _
          (if_both (Holds IsServed) (check_param (codes "command") (codes "exit") rq.query) _ _
            (holds IsServed h) (command-IsRelays rq s h))
          (answered-IsRelays s.hide_log rq s.relays h)

    -- A connection, whatever bytes it gives, leaves a list of relays in which each relay has 8 outputs
    -- and 8 commands and no serial number stands twice, if the list was such before, unless its
    -- request ends in a null pointer.
    pub connection-IsRelays :
        (first more : Bytes) (s : State S)
        → IsRelays s.relays.rele_list
        → Holds IsServed (connection out sql first more s)
    unfolding connection
    connection-IsRelays first more s h =
        option_both (Holds IsServed) (decod_request first more) _ _ (λ e. holds IsServed h)
          (λ rq e. serve-IsRelays rq s h)
