-- ===== src/Http/Request.antt =====
-- esp8266_decoder/source/request.h, struct Request: the parsed request and its two lists of
-- parameters, that of the query and that of the headers.
pub mod Lookup
use java_io_tserver.Common.{
  ℕ, suc, ◌+◌, ◌-◌, Bool, true, false, ◌&&◌, ◌||◌, not, List, [], ◌∷◌, ◌++◌, leb, ◌==◌,
  if◌then◌else◌, map, take, drop,
}
use java_io_tserver.Common.Int.{ℤ, pos, negsuc}
use java_io_tserver.Common.Text.{Bytes}

pub record Param : Type 0 where
  pub param : Bytes
  pub znach : Bytes

pub record Request : Type 0 where
  pub method : ℤ
  pub path : Bytes
  pub prot : Bytes
  pub header : Bytes
  pub body : Bytes
  pub body_str : Bytes
  pub query : List Param
  pub headers : List Param

-- `q_arr`
pub data ParamList : Type 0 where
  query headers : ParamList

-- The codes of the methods.
abbrev pub get_code : ℤ
get_code = pos 1590

abbrev pub head_code : ℤ
head_code = pos 1591

abbrev pub post_code : ℤ
post_code = pos 1592

abbrev pub put_code : ℤ
put_code = pos 1593

abbrev pub delete_code : ℤ
delete_code = pos 1594

-- The constructor of Request.
abbrev pub new_request : Request
new_request = record {
  method = negsuc 0;
  path = [];
  prot = [];
  header = [];
  body = [];
  body_str = [];
  query = [];
  headers = [];
}

-- The C string in a text: what stands before the first 0.
unfoldable pub c_str : Bytes → Bytes
c_str [] = []
c_str (c ∷ cs) = elim (c == 0) [ true ↦ [] | false ↦ c ∷ c_str cs ]

-- The comparison of two C strings; where a text ends stands its 0.
unfoldable pub my_strcmp : Bytes → Bytes → Bool
my_strcmp [] [] = true
my_strcmp [] (y ∷ ys) = 0 == y
my_strcmp (x ∷ xs) [] = x == 0
my_strcmp (x ∷ xs) (y ∷ ys) =
    let rest = my_strcmp xs ys in
    if x == 0 || y == 0 then x == y else if x == y then rest else false

abbrev pub params_of : ParamList → Request → List Param
params_of query rq = rq.query
params_of headers rq = rq.headers

unfoldable pub any_param : Bytes → List Param → Bool
any_param pr [] = false
any_param pr (q ∷ qs) = let rest = any_param pr qs in if my_strcmp q.param pr then true else rest

-- `Request::param`
pub param : Bytes → ParamList → Request → Bool
param pr arr rq = any_param pr (params_of arr rq)

unfoldable pub any_value : Bytes → Bytes → List Param → Bool
any_value pr zn [] = false
any_value pr zn (q ∷ qs) =
    let rest = any_value pr zn qs in
    if my_strcmp q.param pr then (if my_strcmp q.znach zn then true else rest) else rest

-- `Request::check_param`
pub check_param : Bytes → Bytes → ParamList → Request → Bool
check_param pr zn arr rq = any_value pr zn (params_of arr rq)

unfoldable pub first_value : Bytes → List Param → Bytes
first_value pr [] = []
first_value pr (q ∷ qs) =
    let rest = first_value pr qs in if my_strcmp q.param pr then c_str q.znach else rest

-- `Request::znach`: a C string, empty for a parameter that is not there.
unfoldable pub znach : Bytes → ParamList → Request → Bytes
znach pr arr rq = first_value pr (params_of arr rq)

unfoldable pub erase_first : Bytes → List Param → List Param
erase_first pr [] = []
erase_first pr (q ∷ qs) =
    let rest = erase_first pr qs in if my_strcmp q.param pr then qs else q ∷ rest

-- `Request::deleteParam`
unfoldable pub delete_param : Bytes → ParamList → Request → Request
delete_param pr query rq = record rq { query = erase_first pr rq.query }
delete_param pr headers rq = record rq { headers = erase_first pr rq.headers }

unfoldable pub push_query : Bytes → Bytes → Request → Request
push_query p z rq = record rq { query = rq.query ++ record { param = p; znach = z } ∷ [] }

abbrev pub lower_char : ℕ → ℕ
lower_char c = if leb b'A' c && leb c b'Z' then c + 32 else c

-- The two loops of `push_header`: the spaces at the front, then the length up to a line end.
unfoldable pub spaces : Bytes → ℕ
spaces [] = 0
spaces (c ∷ cs) = let more = suc (spaces cs) in if c == b' ' then more else 0

unfoldable pub to_line_end : Bytes → ℕ
to_line_end [] = 0
to_line_end (c ∷ cs) =
    let more = suc (to_line_end cs) in if not (c == b'\r') && not (c == b'\n') then more else 0

unfoldable pub header_value : Bytes → Bytes
header_value z = let start = spaces z in let rest = drop start z in take (to_line_end rest) rest

-- `Request::push_header`: a name with no value at all is dropped.
unfoldable pub push_header : Bytes → Bytes → Request → Request
push_header p [] rq = rq
push_header p (c ∷ cs) rq = record rq {
  headers = rq.headers ++ record { param = map lower_char p; znach = header_value (c ∷ cs) } ∷ [];
}
