-- ===== src/Relay/Server.antt =====
-- servak_na_winapi_relays/source/server_relays.cpp: what the loop of `main` does with a connection.
pub mod Answers
use java_io_tserver.Common.{
  Bool, true, false, ◌&&◌, ◌>>=◌, List, [], Option, none, some, if◌then◌else◌,
}
use java_io_tserver.Common.Int.{◌==ℤ◌}
use java_io_tserver.Common.Text.{Bytes, codes}
use java_io_tserver.Relay.Store.{Sqlite}
use java_io_tserver.Relay.Rele.{Relays}
use java_io_tserver.Relay.Request.{
  Query, Request, get_code, head_code, post_code, put_code, is_text, param, check_param,
  delete_param,
}
use java_io_tserver.Relay.Decode.{decod_request}
use java_io_tserver.Relay.Answer.{send_err}
use java_io_tserver.Relay.Handlers.{Outside, number, obrobka_get, obrobka_post, obrobka_put}
use java_io_tserver.Relay.LogFile.{set_get_log_file_flag}

-- What has gone to the socket, whether it is closed, and whether the server goes on.
pub record Served : Type 0 where
  pub bytes : Bytes
  pub closed : Bool
  pub running : Bool

pub record State (S : Type 0) : Type 0 where
  pub relays : Relays S
  pub hide_log : Bool

-- `log_on` and `log_off`
abbrev pub hidden : List Query → Bool → Bool
hidden q h =
    let shown = if check_param (codes "command") (codes "log_on") q then false else h in
    if check_param (codes "command") (codes "log_off") q then true else shown

module _ (out : Outside) {S : Type 0} (sql : Sqlite S) where
  -- The flag of the log file, where the request names a relay.
  unfoldable pub order_log_file : Bool → Request → Relays S → Option (Request × Relays S)
  order_log_file flag rq st =
      if param (codes "sn") rq.query
      then (do
        sn ← number (codes "sn") rq.query
        user_id ← number (codes "userID") rq.query
        some (
          record rq { query = delete_param (codes "sn") rq.query },
          set_get_log_file_flag sql out.t_time sn user_id flag st,
        ))
      else some (rq, st)

  -- The handler of the method.
  unfoldable pub delegate : Request → Relays S → Option (Bytes × Relays S)
  delegate rq st =
      if rq.method ==ℤ get_code
      then obrobka_get out sql false rq st
      else if rq.method ==ℤ head_code
      then obrobka_get out sql true rq st
      else if rq.method ==ℤ post_code
      then obrobka_post out sql rq st
      else if rq.method ==ℤ put_code
      then obrobka_put out sql rq st
      else some (send_err out.date 405, st)

  -- The request goes to its handler, and the socket is closed.
  unfoldable pub answered : Bool → Request → Relays S → Option (Served × State S)
  answered h rq st = do
    (bytes, st2) ← delegate rq st
    some (
      record { bytes = bytes; closed = true; running = true },
      record { relays = st2; hide_log = h },
    )

  -- A command that is not `exit`.
  unfoldable pub command : Request → State S → Option (Served × State S)
  command rq s =
      let h = hidden rq.query s.hide_log in
      let log_file = check_param (codes "command") (codes "log_file") rq.query in
      let strip : Request → Request =
        λ q. record q { query = delete_param (codes "command") q.query } in
      if log_file && is_text rq.path (codes "/view_log_order.html")
      then (do (rq2, st) ← order_log_file true rq s.relays; answered h (strip rq2) st)
      else if log_file && is_text rq.path (codes "/clear_get_log_file_flag")
      then (do
        (rq2, st) ← order_log_file false rq s.relays
        some (
          record { bytes = send_err out.date 200; closed = false; running = true },
          record { relays = st; hide_log = h },
        ))
      else answered h (strip rq) s.relays

  unfoldable pub serve : Request → State S → Option (Served × State S)
  serve rq s =
      if param (codes "command") rq.query
      then (if check_param (codes "command") (codes "exit") rq.query
          then some (record { bytes = send_err out.date 200; closed = true; running = false }, s)
          else command rq s)
      else answered s.hide_log rq s.relays

  -- One connection: a request that is not read closes the socket.
  unfoldable pub connection : Bytes → Bytes → State S → Option (Served × State S)
  connection first more s = elim (decod_request first more) [
    | none ↦ some (record { bytes = []; closed = true; running = true }, s)
    | some rq ↦ serve rq s
  ]
