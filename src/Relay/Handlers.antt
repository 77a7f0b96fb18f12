-- ===== src/Relay/Handlers.antt =====
-- servak_na_winapi_relays/source/relay_http_handlers.cpp: the handlers of the methods. `none`: a
-- null pointer is read, by `atoi` of a parameter that is not there or through a relay that is not
-- known. The files, the clock and the date are arguments. What a handler returns is not used.
use java_io_tserver.Common.{
  ℕ, Bool, false, ◌&&◌, List, [], ◌∷◌, ◌++◌, Option, none, some, ◌==◌, ◌||◌, ◌>>=◌, if◌then◌else◌,
  length, map,
}
use java_io_tserver.Common.Int.{ℤ}
use java_io_tserver.Common.Text.{Bytes, codes, equal, atoi}
use java_io_tserver.Http.Request.{c_str}
use java_io_tserver.Http.FirstLine.{before_dots}
use java_io_tserver.Http.Response.{content_type_at}
use java_io_tserver.Relay.Store.{Sqlite}
use java_io_tserver.Relay.Rele.{Relays}
use java_io_tserver.Relay.Request.{Query, Request, is_text, param, znach}
use java_io_tserver.Relay.Answer.{send_kap, send_err}
use java_io_tserver.Relay.Update.{obrobnyk_relay}
use java_io_tserver.Relay.Buttons.{get_knopky, rr_get_status, rr_put_status}
use java_io_tserver.Relay.LogFile.{save_log_file, send_for_user_log_file, get_get_log_file_flag}
use java_io_tserver.Relay.Names.{get_gadgets, get_relays, set_relay_name, set_relay_names}

-- `atoi(rq->znach(pr))`
abbrev pub number : Bytes → List Query → Option ℤ
number pr qs = elim (znach pr qs) [ none ↦ none | some t ↦ some (atoi t) ]

-- What the code that sends needs of its surroundings: the text of the date, the seconds of the
-- clock, the value of DEF_RAND, and the file at a path, `none` where it cannot be opened.
pub record Outside : Type 0 where
  pub date : Bytes
  pub t_time : ℤ
  pub def_rand : ℕ
  pub files : Bytes → Option Bytes

abbrev pub relay_names : List Bytes
relay_names =
    codes "relay1"
    ∷ codes "relay2"
    ∷ codes "relay3"
    ∷ codes "relay4"
    ∷ codes "relay5"
    ∷ codes "relay6"
    ∷ codes "relay7"
    ∷ codes "relay8"
    ∷ []

module _ (out : Outside) where
  -- The body behind a head that counts it; none for HEAD.
  abbrev pub sent_body : ℕ → Option Bytes → Bool → Bool → Bytes → Bytes
  sent_body typ typstr flag head body =
      send_kap out.date 200 (length body) typ typstr flag ++ (if head then [] else body)

  -- The files under www.
  unfoldable pub send_file : Bool → Bytes → Bytes
  send_file head path0 = elim (before_dots path0) [
    | some p ↦ send_err out.date 403
    | none ↦
        let path =
          if equal path0 [] || equal path0 (codes "/") then codes "/knopky.html" else path0 in
        elim (out.files (c_str (codes "www" ++ path))) [
          | none ↦ send_err out.date 404
          | some content ↦ sent_body 0 (some (content_type_at path)) false head content
        ]
  ]

  module _ {S : Type 0} (sql : Sqlite S) where
    unfoldable pub obrobka_get : Bool → Request → Relays S → Option (Bytes × Relays S)
    obrobka_get head rq st =
        let user = number (codes "userID") rq.query in
        let sn = number (codes "sn") rq.query in
        let has_user = param (codes "userID") rq.query in
        let has_sn = param (codes "sn") rq.query in
        if is_text rq.path (codes "/get_status") && has_user
        then (do
          user_id ← user
          (bb, st2) ← rr_get_status sql out.def_rand out.t_time user_id st
          some (sent_body 3 (some []) false head bb, st2))
        else if is_text rq.path (codes "/get_knopky") && has_user
        then (do
          user_id ← user
          let (bb, st2) = get_knopky sql out.def_rand out.t_time user_id st
          some (sent_body 1 (some []) false head bb, st2))
        else if is_text rq.path (codes "/get_gadgets") && has_user
        then (do
          user_id ← user
          some (sent_body 1 (some []) false head (get_gadgets sql user_id st), st))
        else if is_text rq.path (codes "/get_relays") && (has_user && has_sn)
        then (do
          user_id ← user
          number_sn ← sn
          some (sent_body 3 (some []) false head (get_relays sql user_id number_sn st), st))
        else if is_text rq.path (codes "/log_file") && (has_user && has_sn)
        then (do
          number_sn ← sn
          user_id ← user
          let (bbb, st2) = send_for_user_log_file sql number_sn user_id st
          some (sent_body 1 (some []) false head bbb, st2))
        else some (send_file head rq.path, st)

    -- The end of obrobka_post: a report with five parameters is told of a log file that is wanted.
    unfoldable pub send_post : Request → Bytes × Relays S → Option (Bytes × Relays S)
    send_post rq (body, st) =
        if length rq.query == 5 && is_text rq.path (codes "/update_state")
        then (do
          sn ← number (codes "sn") rq.query
          let (flag, rs) = get_get_log_file_flag sn st.rele_list
          some (sent_body 3 (some []) flag false body, record st { rele_list = rs }))
        else some (sent_body 3 none false false body, st)

    unfoldable pub obrobka_post : Request → Relays S → Option (Bytes × Relays S)
    obrobka_post rq st =
        let q = rq.query in
        if is_text rq.path (codes "/update_state")
        then send_post rq (
            obrobnyk_relay sql out.def_rand out.t_time (znach (codes "sn") q)
              (znach (codes "acp") q) (znach (codes "relays") q) (znach (codes "init") q)
              (znach (codes "cs") q) (znach (codes "pin") q) st)
        else if is_text rq.path (codes "/log_file")
        then send_post rq (codes "OK", record st { rele_list = save_log_file rq.body st.rele_list })
        else if is_text rq.path (codes "/set_relay_name")
        then (do
          sn ← number (codes "sn") q
          user_id ← number (codes "userID") q
          send_post rq (set_relay_name sql sn (znach (codes "name") q) user_id st))
        else if is_text rq.path (codes "/set_relay_names")
        then (do
          sn ← number (codes "sn") q
          user_id ← number (codes "userID") q
          send_post rq (set_relay_names sql sn (map (λ n. znach n q) relay_names) user_id st))
        else some (send_err out.date 400, st)

    unfoldable pub obrobka_put : Request → Relays S → Option (Bytes × Relays S)
    obrobka_put rq st =
        let q = rq.query in
        if is_text rq.path (codes "/put_status")
          && (param (codes "sn") q && param (codes "button") q)
        then (do
          sn ← number (codes "sn") q
          button ← number (codes "button") q
          user_id ← number (codes "userID") q
          some (sent_body 3 none false false [], rr_put_status sql sn button user_id st))
        else some (send_err out.date 400, st)
