-- ===== src/Router/Established.antt =====
-- Every device of the table is well formed after every request.
use mathlib.Core.Path.{subst}
use java_io_tserver.Common.{
  ◌≡◌, not, ◌&&◌, ◌||◌, Option, none, some, ltb, if_both, option_both, List, [], length, All, arith,
}
use java_io_tserver.Common.Int.{ℤ, ◌==ℤ◌}
use java_io_tserver.Common.Text.{Bytes, codes, atoi}
use java_io_tserver.Setup.{SetupConfig}
use java_io_tserver.Http.Request.{
  Request, query, headers, param, znach, get_code, head_code, post_code, put_code, delete_code,
}
use java_io_tserver.Http.Response.{Response}
use java_io_tserver.MachineTime.Store.{Sqlite}
use java_io_tserver.MachineTime.Device.{MachineTime, delete_name}
use java_io_tserver.MachineTime.Device.Packet.{set_post, reply}
use java_io_tserver.MachineTime.Device.Invariant.{
  IsDevice, recrypted, set-IsDevice, set_name-IsDevice,
}
use java_io_tserver.MachineTime.Device.Start.Established.{new_machine_time-IsDevice}
use java_io_tserver.MachineTime.Handlers.{
  Table, Shop, Outside, find, zoned, zone_name, post_machine_time, put_device, put_machine_time,
  delete_machine_time,
}
use java_io_tserver.MachineTime.Handlers.Table.{All-put, All-find}
use java_io_tserver.Router.{is_machine_time, obrobka_post, obrobka_put, obrobka_delete, dispatch}

abbrev pub IsTable : Table → Type 0
IsTable = All (λ e. IsDevice e.1)

-- What a step leaves, if it does not end in an exception.
abbrev pub Leaves {ℓ} :
    {S : Type 0} → (Response × Shop S → Type ℓ) → Option (Response × Shop S) → Type ℓ
Leaves P none = Unit
Leaves P (some r) = P r

-- The SELECT of the names gives the 18 columns it asks for.
abbrev pub NamesHave18 : {S : Type 0} → Sqlite S → Type 0
NamesHave18 {S = S} sql =
    (id : Bytes) (s : S) (names : List Bytes)
    → sql.select_names id s ≡ some names
    → length names ≡ 18

set_post-IsDevice :
    (s : SetupConfig) (value : Bytes) (m : MachineTime)
    → IsDevice m
    → IsDevice (set_post s value m).1
unfolding set_post reply
set_post-IsDevice s value m h =
    if_both (λ (r : Bytes × MachineTime). IsDevice r.1) _ _ _ (recrypted _ m h) (recrypted _ m h)

rezoned : (offset : ℤ) (m : MachineTime) → IsDevice m → IsDevice (record m { tz_offset = offset })
rezoned offset m h = record {
  current = h.current;
  days = h.days;
  old_days = h.old_days;
  session = h.session;
  pending = h.pending;
  names = h.names;
}

some_inj : (a b : MachineTime) → some a ≡ some b → a ≡ b
some_inj a b e = ground (arith, e)

module _ {S : Type 0} (o : Outside S) (s : SetupConfig) (law : NamesHave18 o.sql) where
  abbrev Good : Response × Shop S → Type 0
  Good r = IsTable r.1.table

  abbrev GoodStep : Option (Response × Shop S) → Type 0
  GoodStep = Leaves {S = S} Good

  zoned-IsDevice :
      (rq : Request) (m n : MachineTime) → IsDevice m → zoned o s rq m ≡ some n → IsDevice n
  unfolding zoned
  zoned-IsDevice rq m n h =
      let P : Option MachineTime → Type 0 = λ z. z ≡ some n → IsDevice n in
      if_both P (param (codes "x-timezone") headers rq) _ _
        (option_both P (o.offset_time_zone (znach (codes "x-timezone") headers rq)) _ _
          (λ f e. absurd (ground (arith, e)))
          (λ offset f e. subst IsDevice (some_inj _ n e) (rezoned offset m h)))
        (λ e. subst IsDevice (some_inj m n e) h)

  post-Good :
      (rq : Request) (shop : Shop S) → IsTable shop.table → GoodStep (post_machine_time o s rq shop)
  unfolding post_machine_time
  post-Good rq shop h =
      let id = znach (codes "id") query rq in
      option_both GoodStep (find id shop.table) _ _
        (λ e.
          option_both GoodStep (o.offset_time_zone (zone_name o s rq)) _ _ (λ f. tt)
            (λ offset f. All-put IsDevice id _ shop.table h (
              set_post-IsDevice s rq.body_str _
                (new_machine_time-IsDevice o.sql o.gmtime s o.buf id offset o.now shop.db law))))
        (λ m e.
          option_both GoodStep (zoned o s rq m) _ _ (λ f. tt)
            (λ m' z. All-put IsDevice id _ shop.table h (
              set_post-IsDevice s rq.body_str m'
                (zoned-IsDevice rq m m' (All-find IsDevice id m shop.table h e) z))))

  put-Good :
      (rq : Request) (shop : Shop S) → IsTable shop.table → GoodStep (put_machine_time o s rq shop)
  unfolding put_machine_time put_device
  put-Good rq shop h =
      let id = znach (codes "id") query rq in
      let ch = atoi (znach (codes "channel") query rq) in
      option_both GoodStep (find id shop.table) _ _ (λ e. h)
        (λ m e.
          let p = All-find IsDevice id m shop.table h e in
          if_both GoodStep (param (codes "name") query rq) _ _
            (if_both GoodStep (not (param (codes "channel") query rq)) _ _ h (
              All-put IsDevice id _ shop.table h
                (set_name-IsDevice o.sql o.gmtime ch (znach (codes "name") query rq) m shop.db p)))
            (option_both GoodStep (zoned o s rq m) _ _ (λ f. tt)
              (λ m' z. All-put IsDevice id _ shop.table h (
                set-IsDevice o.sql o.gmtime s o.now rq.body_str m' shop.db
                  (zoned-IsDevice rq m m' p z)))))

  delete-Good :
      (rq : Request) (shop : Shop S) → IsTable shop.table → Good (delete_machine_time o s rq shop)
  unfolding delete_machine_time delete_name
  delete-Good rq shop h =
      let id = znach (codes "id") query rq in
      let ch = atoi (znach (codes "channel") query rq) in
      option_both Good (find id shop.table) _ _ (λ e. h)
        (λ m e. if_both Good (not (param (codes "channel") query rq)) _ _ h (
          All-put IsDevice id _ shop.table h (
            set_name-IsDevice o.sql o.gmtime ch [] m shop.db
              (All-find IsDevice id m shop.table h e))))

  -- Every request leaves a table of well formed devices, whatever its method, its path and its
  -- parameters, unless it ends in the exception of `locate_zone`.
  pub dispatch-IsTable :
      (files : Bytes → Option Bytes) (rq : Request) (shop : Shop S)
      → IsTable shop.table
      → Leaves (λ r. IsTable r.1.table) (dispatch o s files rq shop)
  unfolding dispatch obrobka_post obrobka_put obrobka_delete
  dispatch-IsTable files rq shop h =
      let here = is_machine_time rq && ltb 0 (length rq.query) in
      if_both GoodStep (rq.method ==ℤ get_code || rq.method ==ℤ head_code) _ _ h (
        if_both GoodStep (rq.method ==ℤ post_code) _ _
          (if_both GoodStep here _ _ (post-Good rq shop h) h)
          (if_both GoodStep (rq.method ==ℤ put_code) _ _
            (if_both GoodStep here _ _ (put-Good rq shop h) h)
            (if_both GoodStep (rq.method ==ℤ delete_code) _ _
              (if_both Good here _ _ (delete-Good rq shop h) h) h)))
