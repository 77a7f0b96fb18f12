-- ===== src/Server/Ports.antt =====
-- esp8266_decoder/source/server.cpp: the ports that the configuration asks for, and those that the
-- server listens on.
pub mod Bounds
use java_io_tserver.Common.{
  ℕ, zero, suc, ◌%◌, ◌^◌, Bool, ◌&&◌, ◌||◌, not, List, [], ◌∷◌, ◌++◌, Option, none, some, ltb, ◌==◌,
  ◌>>=◌, if◌then◌else◌, length,
}
use java_io_tserver.Common.Int.{pos}
use java_io_tserver.Common.Text.{Bytes, codes, equal, is_digit, digits_value, to_string}
use java_io_tserver.Http.Request.{c_str}
use java_io_tserver.Server.Arguments.{configured}
use java_io_tserver.Setup.{SetupConfig, get, get_defined}

pub record PortConfig : Type 0 where
  pub port : ℕ
  pub workers : ℕ
  pub id : Bytes

-- A number of the configuration: 0 where it is not set. `some none` is a text that does not begin
-- with a digit, at which the port is left out; `none` is the exception of `std::stoi`.
unfoldable pub number_of : Bytes → Option (Option ℕ)
number_of [] = some none
number_of (c ∷ cs) =
    if is_digit c
    then (let n = digits_value 0 (c ∷ cs) in if ltb n (2 ^ 31) then some (some n) else none)
    else some none

unfoldable pub number_at : SetupConfig → Bytes → Option (Option ℕ)
number_at s key = if get_defined s key == 0 then some (some 0) else number_of (get s key)

abbrev pub port_key : ℕ → Bytes
port_key i = codes "port_" ++ to_string (pos i)

unfoldable pub port_of : Bytes → Option ℕ → Option ℕ → List PortConfig
port_of id none workers = []
port_of id (some port) none = []
port_of id (some port) (some workers) =
    if port == 0 || workers == 0
    then []
    else record { port = port; workers = workers; id = id } ∷ []

-- The number of threads is read only where the port is not left out.
unfoldable pub read_port : SetupConfig → Bytes → Option (List PortConfig)
read_port s key = do
  port ← number_at s (key ++ codes "_port")
  elim port [
    | none ↦ some []
    | some n ↦
        number_at s (key ++ codes "_workers") >>= λ workers. some (port_of key (some n) workers)
  ]

-- The loop from `i`, of `k` rounds.
unfoldable pub read_ports : SetupConfig → ℕ → ℕ → Option (List PortConfig)
read_ports s i zero = some []
read_ports s i (suc k) =
    let key = port_key i in
    let asked = not (get_defined s key == 0) && equal (c_str (get s key)) (codes "true") in
    (if asked then read_port s key else some []) >>= λ here.
    read_ports s (suc i) k >>= λ rest. some (here ++ rest)

unfoldable pub read_port_configs : SetupConfig → Option (List PortConfig)
read_port_configs s = read_ports s 0 256

-- The ports that main starts a thread for: none, and the program ends, where the arguments or the
-- configuration are no good, a number of it is too large, or no port is asked for.
unfoldable pub started : (Bytes → Option Bytes) → List Bytes → Option (List PortConfig)
started files argv = do
  s ← configured files argv
  g_port_configs ← read_port_configs s
  if length g_port_configs == 0 then none else some g_port_configs

-- `htons` takes sixteen bits of the `int`.
abbrev pub htons : ℕ → ℕ
htons port = port % 2 ^ 16

-- A socket that listens, with the threads of its pool.
pub record Porter : Type 0 where
  pub sin_port : ℕ
  pub num_workers : ℕ

abbrev pub porter_of : PortConfig → Porter
porter_of cfg = record { sin_port = htons cfg.port; num_workers = cfg.workers }

-- The beginning of porter_thread_func for each port: the thread ends where `socket`, `bind` or
-- `listen` fails, which `opens` tells.
unfoldable pub porters : (opens : PortConfig → Bool) → List PortConfig → List Porter
porters opens [] = []
porters opens (cfg ∷ cfgs) =
    let others = porters opens cfgs in if opens cfg then porter_of cfg ∷ others else others
