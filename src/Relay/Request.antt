-- ===== src/Relay/Request.antt =====
-- servak_na_winapi_relays/source/request.h: the request as the relay server keeps it, and the
-- parameters of its query, which `query_len` counts. The texts that are only printed (the header, the
-- protocol, the host, the language, the agent) are left out.
use java_io_tserver.Common.{Bool, true, false, List, [], ◌∷◌, Option, none, some, if◌then◌else◌}
use java_io_tserver.Common.Int.{ℤ, pos, negsuc}
use java_io_tserver.Common.Text.{Bytes, equal}
use java_io_tserver.Http.Request.{c_str}

pub record Query : Type 0 where
  pub param : Bytes
  pub znach : Bytes

pub record Request : Type 0 where
  pub method : ℤ
  pub path : Bytes
  pub body : Bytes
  pub query : List Query

-- The codes of the methods, from relay_http_handlers.h.
abbrev pub get_code : ℤ
get_code = pos 1001

abbrev pub head_code : ℤ
head_code = pos 1003

abbrev pub post_code : ℤ
post_code = pos 1004

abbrev pub put_code : ℤ
put_code = pos 1005

abbrev pub delete_code : ℤ
delete_code = pos 1007

-- The constructor.
abbrev pub new_request : Request
new_request = record { method = negsuc 0; path = []; body = []; query = [] }

-- `strcmp` of a kept text with a C string is 0.
abbrev pub is_text : Bytes → Bytes → Bool
is_text kept pr = equal (c_str kept) pr

unfoldable pub param : Bytes → List Query → Bool
param pr [] = false
param pr (q ∷ qs) = let rest = param pr qs in if is_text q.param pr then true else rest

unfoldable pub check_param : Bytes → Bytes → List Query → Bool
check_param pr zn [] = false
check_param pr zn (q ∷ qs) =
    let rest = check_param pr zn qs in
    if is_text q.param pr then (if is_text q.znach zn then true else rest) else rest

-- `none` is the null pointer.
unfoldable pub znach : Bytes → List Query → Option Bytes
znach pr [] = none
znach pr (q ∷ qs) =
    let rest = znach pr qs in if is_text q.param pr then some (c_str q.znach) else rest

unfoldable pub delete_param : Bytes → List Query → List Query
delete_param pr [] = []
delete_param pr (q ∷ qs) =
    let rest = delete_param pr qs in if is_text q.param pr then qs else q ∷ rest
