-- ===== src/Server/Ports/Bounds.antt =====
-- server.cpp: the ports that the server asks for and listens on.
use java_io_tserver.Common.{
  ℕ, ◌^◌, ◌<◌, ◌≤◌, List, Option, All, Holds, length, Bool, false, ◌⊎◌, ◌≡◌,
}
use mathlib.Core.List.{Mem}
use java_io_tserver.Server.Ports.{PortConfig, Porter, porter_of}

-- A port with a number and at least one thread, both of which an `int` holds.
abbrev pub IsPort : PortConfig → Type 0
IsPort c = (0 < c.port) × (c.port < 2 ^ 31) × (0 < c.workers) × (c.workers < 2 ^ 31)

-- A number that is read fits an `int`.
abbrev IsSmall : Option ℕ → Type 0
IsSmall = Holds (λ n. n < 2 ^ 31)

-- At most one port is made of two numbers, and it is a good one.
abbrev Few : List PortConfig → Type 0
Few cs = All IsPort cs × (length cs ≤ 1)

abbrev AtMost : ℕ → List PortConfig → Type 0
AtMost k cs = All IsPort cs × (length cs ≤ k)

abbrev pub IsAsked : List PortConfig → Type 0
IsAsked cs = All IsPort cs × (0 < length cs) × (length cs ≤ 256)

-- The socket that listens for a port that is asked for.
abbrev pub IsPorterOf : List PortConfig → Porter → Type 0
IsPorterOf cs l = (l.sin_port < 2 ^ 16) × ((c : PortConfig) × Mem c cs × (l ≡ porter_of c))

-- The socket of a port, where it opens.
abbrev pub Listens : (PortConfig → Bool) → List Porter → PortConfig → Type 0
Listens opens ls c = (opens c ≡ false) ⊎ Mem (porter_of c) ls

-- The sockets of some ports.
abbrev pub Opened : (PortConfig → Bool) → List PortConfig → List Porter → Type 0
Opened opens cs ls = All (IsPorterOf cs) ls × All (Listens opens ls) cs × (length ls ≤ length cs)
