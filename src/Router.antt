-- ===== src/Router.antt =====
-- esp8266_decoder/source/router.cpp and the choice of a handler in WorkerPool::worker_func.
pub mod Established
use java_io_tserver.Common.{
  ℕ, Bool, true, false, ◌&&◌, ◌||◌, List, ◌++◌, Option, none, some, ltb, if◌then◌else◌, length,
}
use java_io_tserver.Common.Int.{◌==ℤ◌}
use java_io_tserver.Common.Text.{Bytes, codes, equal}
use java_io_tserver.Setup.{SetupConfig}
use java_io_tserver.Http.Request.{Request, get_code, head_code, post_code, put_code, delete_code}
use java_io_tserver.Http.Response.{Response, bare, recv_file}
use java_io_tserver.MachineTime.Handlers.{
  Shop, Outside, get_machine_time, post_machine_time, put_machine_time, delete_machine_time,
}

abbrev pub is_machine_time : Request → Bool
is_machine_time rq = equal rq.path (codes "/MachineTime18Channels/")

module _ {S : Type 0} (o : Outside S) (s : SetupConfig) (files : Bytes → Option Bytes) where
  unfoldable pub obrobka_get : Request → Shop S → Response
  obrobka_get rq shop =
      if is_machine_time rq && ltb 1 (length rq.query)
      then get_machine_time o s rq shop
      else if is_machine_time rq
      then recv_file files (record rq { path = rq.path ++ codes "index.html" })
      else recv_file files rq

  unfoldable pub obrobka_post : Request → Shop S → Option (Response × Shop S)
  obrobka_post rq shop =
      if is_machine_time rq && ltb 0 (length rq.query)
      then post_machine_time o s rq shop
      else some (bare 400, shop)

  unfoldable pub obrobka_put : Request → Shop S → Option (Response × Shop S)
  obrobka_put rq shop =
      if is_machine_time rq && ltb 0 (length rq.query)
      then put_machine_time o s rq shop
      else some (bare 400, shop)

  unfoldable pub obrobka_delete : Request → Shop S → Response × Shop S
  obrobka_delete rq shop =
      if is_machine_time rq && ltb 0 (length rq.query)
      then delete_machine_time o s rq shop
      else (bare 400, shop)

  -- The handler of a request by its method.
  unfoldable pub dispatch : Request → Shop S → Option (Response × Shop S)
  dispatch rq shop =
      if rq.method ==ℤ get_code || rq.method ==ℤ head_code
      then some (obrobka_get rq shop, shop)
      else if rq.method ==ℤ post_code
      then obrobka_post rq shop
      else if rq.method ==ℤ put_code
      then obrobka_put rq shop
      else if rq.method ==ℤ delete_code
      then some (obrobka_delete rq shop)
      else some (bare 405, shop)
