-- ===== src/MachineTime/Handlers.antt =====
-- The handlers of MachineTime.cpp: the table of devices and what GET, POST, PUT and DELETE do to it.
-- A handler is one step; `none` stands for the exception of `locate_zone` on a name it does not
-- know, which no handler catches.
pub mod Table
use java_io_tserver.Common.{
  ℕ, suc, ◌+◌, Bool, true, false, ◌&&◌, ◌||◌, not, List, [], ◌∷◌, ◌++◌, Option, none, some, ltb,
  ◌==◌, if◌then◌else◌, length,
}
use java_io_tserver.Common.Int.{ℤ, pos}
use java_io_tserver.Common.Text.{Bytes, codes, equal, atoi}
use java_io_tserver.Setup.{SetupConfig}
use java_io_tserver.Http.Request.{Request, ParamList, query, headers, param, znach}
use java_io_tserver.Http.Response.{Response, bare, with_body}
use java_io_tserver.MachineTime.Store.{Sqlite}
use java_io_tserver.MachineTime.Device.{MachineTime, set_name, delete_name}
use java_io_tserver.MachineTime.Device.Packet.{set, set_post}
use java_io_tserver.MachineTime.Device.Start.{new_machine_time}
use java_io_tserver.MachineTime.Device.Report.{Calendar, comma, escape, get, get_events, get_names}

-- `std::map` from ids to devices: its entries in ascending order of the ids.
abbrev pub Table : Type 0
Table = List (Bytes × MachineTime)

-- `<` on texts.
unfoldable pub text_ltb : Bytes → Bytes → Bool
text_ltb a [] = false
text_ltb [] (y ∷ b) = true
text_ltb (x ∷ a) (y ∷ b) = let rest = text_ltb a b in if x == y then rest else ltb x y

unfoldable pub find : Bytes → Table → Option MachineTime
find id [] = none
find id ((k, m) ∷ t) = let rest = find id t in if equal k id then some m else rest

-- `machineTime[id] = obj`, and what a handler leaves of the object that it found.
unfoldable pub put : Bytes → MachineTime → Table → Table
put id m [] = (id, m) ∷ []
put id m ((k, n) ∷ t) =
    let rest = put id m t in
    if equal k id then (k, m) ∷ t else if text_ltb id k then (id, m) ∷ (k, n) ∷ t else (k, n) ∷ rest

unfoldable pub id_entries : Bool → Table → Bytes
id_entries first [] = []
id_entries first ((k, m) ∷ t) =
    comma first ++ (codes "\"" ++ (escape k ++ (codes "\"" ++ id_entries false t)))

-- The table and the database that all devices share.
pub record Shop (S : Type 0) : Type 0 where
  pub table : Table
  pub db : Option S

-- What the handlers get from outside: the statements of the database, the clock and the calendar,
-- the offset of a time zone, and what the generator of a new object happens to hold.
pub record Outside (S : Type 0) : Type 0 where
  pub sql : Sqlite S
  pub gmtime : ℤ → ℤ × ℤ
  pub now : ℤ
  pub calendar : Calendar
  pub offset_time_zone : Bytes → Option ℤ
  pub buf : Bytes

module _ {S : Type 0} (o : Outside S) (s : SetupConfig) where
  abbrev pub json : Bytes → Response
  json body = with_body 200 body (codes "application/json")

  abbrev pub octets : Bytes → Response
  octets body = with_body 200 body (codes "application/octet-stream")

  -- getMachineTime18Channels for the device that was found.
  unfoldable pub get_device : Request → MachineTime → Option S → Response
  get_device rq m db =
      let day = atoi (znach (codes "day") query rq) in
      let resp = get o.sql o.calendar day m db in
      if param (codes "name") query rq
      then json (get_names m)
      else if param (codes "channel") query rq
      then (if not (param (codes "day") query rq)
          then bare 400
          else json (get_events day (atoi (znach (codes "channel") query rq)) m))
      else if param (codes "day") query rq
      then (if length resp == 0 then bare 404 else json resp)
      else json (get o.sql o.calendar (pos 0) m db)

  unfoldable pub get_machine_time : Request → Shop S → Response
  get_machine_time rq shop =
      if param (codes "ids") query rq
      then json (codes "{\"ids\":[" ++ (id_entries true shop.table ++ codes "]}"))
      else elim (find (znach (codes "id") query rq) shop.table) as (λ f. Response) [
        | none ↦ bare 404
        | some m ↦ get_device rq m shop.db
      ]

  -- set_timeOffset with the header X-Timezone, if there is one.
  unfoldable pub zoned : Request → MachineTime → Option MachineTime
  zoned rq m =
      if param (codes "x-timezone") headers rq
      then elim (o.offset_time_zone (znach (codes "x-timezone") headers rq))
          as (λ f. Option MachineTime) [
            | none ↦ none
            | some offset ↦ some (record m { tz_offset = offset })
          ]
      else some m

  abbrev pub zone_name : Request → Bytes
  zone_name rq =
      if param (codes "x-timezone") headers rq
      then znach (codes "x-timezone") headers rq
      else codes "UTC"

  -- set_post on the device, which goes back to the table.
  abbrev pub posted : Request → MachineTime → Option S → Table → Response × Shop S
  posted rq m db t =
      let (out, m') = set_post s rq.body_str m in
      (octets out, record { table = put (znach (codes "id") query rq) m' t; db = db })

  -- postMachineTime18Channels: a device that is not known is made.
  unfoldable pub post_machine_time : Request → Shop S → Option (Response × Shop S)
  post_machine_time rq shop =
      let id = znach (codes "id") query rq in
      elim (find id shop.table) as (λ f. Option (Response × Shop S)) [
        | some m ↦ elim (zoned rq m) as (λ f. Option (Response × Shop S)) [
          | none ↦ none
          | some m' ↦ some (posted rq m' shop.db shop.table)
        ]
        | none ↦ elim (o.offset_time_zone (zone_name rq)) as (λ f. Option (Response × Shop S)) [
          | none ↦ none
          | some offset ↦
              let (m, db) = new_machine_time o.sql o.gmtime s o.buf id offset o.now shop.db in
              some (posted rq m db shop.table)
        ]
      ]

  -- A change of a name, answered with its success.
  abbrev pub named : Bytes → Bool × MachineTime × Option S → Shop S → Response × Shop S
  named id (ok, m, db) shop =
      ((if ok then bare 200 else bare 400), record { table = put id m shop.table; db = db })

  -- putMachineTime18Channels for the device that was found.
  unfoldable pub put_device : Request → MachineTime → Shop S → Option (Response × Shop S)
  put_device rq m shop =
      let id = znach (codes "id") query rq in
      let ch = atoi (znach (codes "channel") query rq) in
      if param (codes "name") query rq
      then (if not (param (codes "channel") query rq)
          then some (bare 400, shop)
          else some (named id (set_name o.sql ch (znach (codes "name") query rq) m shop.db) shop))
      else elim (zoned rq m) as (λ f. Option (Response × Shop S)) [
        | none ↦ none
        | some m' ↦
            let (out, m'', db) = set o.sql o.gmtime s o.now rq.body_str m' shop.db in
            some (octets out, record { table = put id m'' shop.table; db = db })
      ]

  unfoldable pub put_machine_time : Request → Shop S → Option (Response × Shop S)
  put_machine_time rq shop =
      elim (find (znach (codes "id") query rq) shop.table) as (λ f. Option (Response × Shop S)) [
        | none ↦ some (bare 404, shop)
        | some m ↦ put_device rq m shop
      ]

  unfoldable pub delete_machine_time : Request → Shop S → Response × Shop S
  delete_machine_time rq shop =
      let id = znach (codes "id") query rq in
      elim (find id shop.table) as (λ f. Response × Shop S) [
        | none ↦ (bare 404, shop)
        | some m ↦
            let ch = atoi (znach (codes "channel") query rq) in
            if not (param (codes "channel") query rq)
            then (bare 400, shop)
            else named id (delete_name o.sql ch m shop.db) shop
      ]
