-- ===== src/Tests/Server.antt =====
-- Runs of the start of the server and of its threads.
use java_io_tserver.Common.{
  ◌+◌, ◌≡◌, ◌≢◌, refl, true, false, List, [], ◌∷◌, ◌++◌, Option, some, ◌==◌, arith,
}
use java_io_tserver.Common.Int.{ℤ, pos}
use java_io_tserver.Common.Text.{
  Bytes, codes, lacks, equal, lines_from, break_at, digits_value, is_digit, to_string, decimal_fuel,
}
use java_io_tserver.Setup.{
  SetupConfig, open_config, get_defined, find_value, starts_ignored, get, open_lines, open_line,
  is_ignored_line, trim, split_line, put, drop_cr,
}
use java_io_tserver.Server.Arguments.{configured, parse_arguments, parse_loop, apply_overrides}
use java_io_tserver.Server.Arguments.Overrides.{param_args, overridden, get-configured}
use java_io_tserver.Server.Ports.{
  started, porters, read_port_configs, read_ports, read_port, number_at, number_of, port_of,
}
use java_io_tserver.Http.Request.{c_str}
use java_io_tserver.Server.Pool.{
  idle, serving, WorkerPool, invalid, new_pool, start, enqueue, turn, locked, Label, arrives,
  begins, finishes, Step, accepted, turned, Run, here, next,
}
use java_io_tserver.Server.Pool.Fifo.{
  Refines, refines, arrived, begun, finished, count, in_service, served_once,
}
use java_io_tserver.Server.Pool.Drain.{drained}

abbrev files : Bytes → Option Bytes
files path = some (codes "port_0=true\ndb_path=a.db\n")

abbrev overrides : List (Bytes × Bytes)
overrides = (codes "db_path", codes "b.db") ∷ (codes "db_path", codes "c.db") ∷ []

overrides-lack : (lacks b'=' (codes "db_path") ≡ true)
unfolding lacks
overrides-lack = refl

file_counts : ((open_config (codes "conf") (files (codes "conf"))).1 == 0) ≡ false
unfolding open_config open_lines open_line is_ignored_line trim split_line put drop_cr equal
    lines_from
file_counts = refl

get-configured_example :
    (s : SetupConfig) × (configured files
        (codes "server" ∷ codes "-c" ∷ codes "conf" ∷ param_args overrides)
      ≡ some s)
    × (get s (codes "db_path")
        ≡ overridden
            (codes "db_path")
            overrides
            (get (open_config (codes "conf") (files (codes "conf"))).0 (codes "db_path")))
get-configured_example =
    get-configured files (codes "server") (codes "conf") overrides (codes "db_path")
      (overrides-lack, (overrides-lack, tt)) file_counts

valid_7 : pos 7 ≢ invalid
valid_7 e = absurd (ground (arith, e))

abbrev pool_at : WorkerPool
pool_at = record { m_queue = pos 7 ∷ []; m_running = true; m_workers = idle ∷ idle ∷ [] }

abbrev pool_taken : WorkerPool
pool_taken = record { m_queue = []; m_running = true; m_workers = idle ∷ serving (pos 7) ∷ [] }

-- The second thread takes the socket that waits.
take_example : Step (λ fd. true) pool_at (begins (pos 7)) pool_taken
unfolding turn locked
take_example = turned 1 refl

refines_example : Refines pool_at (begins (pos 7)) pool_taken
refines_example = refines (valid_7, tt) take_example

abbrev pool_closed : WorkerPool
pool_closed = record { m_queue = []; m_running = true; m_workers = idle ∷ idle ∷ [] }

one_served :
    Run
      (λ fd. true)
      (start 2 new_pool)
      (arrives (pos 7) ∷ begins (pos 7) ∷ finishes (pos 7) ∷ [])
      pool_closed
unfolding start enqueue turn locked
one_served = next (accepted (pos 7) valid_7) (next (turned 1 refl) (next (turned 1 refl) here))

abbrev events : List Label
events = arrives (pos 7) ∷ begins (pos 7) ∷ finishes (pos 7) ∷ []

served_once_example :
    (arrived events ≡ begun events ++ pool_closed.m_queue)
    × ((fd : ℤ)
        → count fd (begun events)
          ≡ count fd (finished events) + in_service pool_closed.m_workers fd)
served_once_example = served_once 2 one_served

drained_example :
    (q : WorkerPool) × (ls : List Label) × Run (λ fd. true) pool_at ls q
    × (q.m_queue ≡ [])
    × (finished ls ≡ pos 7 ∷ [])
drained_example = drained (λ fd. true) (pos 7 ∷ []) pool_at 1 (valid_7, tt) (refl, tt) refl refl

abbrev port_file : Bytes → Option Bytes
port_file path = some (codes "port_0=true\nport_0_port=80\nport_0_workers=4\n")

-- A port above 65535 is another one on the socket.
port_wraps :
    porters (λ c. true) (record { port = 70000; workers = 4; id = codes "port_0" } ∷ [])
    ≡ record { sin_port = 4464; num_workers = 4 } ∷ []
unfolding porters
port_wraps = refl

-- The configuration asks for one port.
started_runs :
    started port_file (codes "server" ∷ codes "-c" ∷ codes "conf" ∷ [])
    ≡ some (record { port = 80; workers = 4; id = codes "port_0" } ∷ [])
unfolding started configured parse_arguments parse_loop apply_overrides open_config open_lines
    open_line is_ignored_line trim split_line put drop_cr equal lines_from read_port_configs
    read_ports read_port number_at number_of port_of get get_defined find_value starts_ignored
    break_at c_str digits_value is_digit to_string decimal_fuel
started_runs = refl
