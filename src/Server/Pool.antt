-- ===== src/Server/Pool.antt =====
-- esp8266_decoder/source/worker_pool.cpp: the threads of one port and the queue between them and the
-- thread that accepts. What a thread does under the lock is one step; what it does with a socket
-- outside it, up to closing it, is the reading of a request and the dispatch of the router, and is one
-- step here where it comes to its end. Where it does not, `ends` is false of the socket: the thread
-- keeps it.
pub mod Fifo
pub mod Drain
pub mod Held
use java_io_tserver.Common.{
  ℕ, Bool, true, false, List, [], ◌∷◌, ◌++◌, Option, none, some, ◌≡◌, ◌≢◌, if◌then◌else◌, get_elem?,
  set, replicate,
}
use java_io_tserver.Common.Int.{ℤ, negsuc, ◌==ℤ◌}

-- A thread of worker_func: before the lock, with a socket it has taken, or at its end.
pub data Worker : Type 0 where
  idle : Worker
  serving : ℤ → Worker
  ended : Worker

pub record WorkerPool : Type 0 where
  pub m_queue : List ℤ
  pub m_running : Bool
  pub m_workers : List Worker

-- INVALID_SOCKET_HANDLE
abbrev pub invalid : ℤ
invalid = negsuc 0

abbrev pub new_pool : WorkerPool
new_pool = record { m_queue = []; m_running = false; m_workers = [] }

unfoldable pub start : ℕ → WorkerPool → WorkerPool
start num_workers p = record p {
  m_running = true;
  m_workers = p.m_workers ++ replicate num_workers idle;
}

-- What stop does before it waits for the threads.
unfoldable pub stop : WorkerPool → WorkerPool
stop p = record p { m_running = false }

unfoldable pub enqueue : ℤ → WorkerPool → WorkerPool
enqueue client_fd p = record p { m_queue = p.m_queue ++ client_fd ∷ [] }

abbrev pub put_worker : ℕ → Worker → WorkerPool → WorkerPool
put_worker i w p = record p { m_workers = set p.m_workers i w }

-- The block of worker_func under the lock, for thread `i`; `none` while it waits.
unfoldable pub locked : ℕ → WorkerPool → Option WorkerPool
locked i p = elim p.m_queue [
  | [] ↦ if p.m_running then none else some (put_worker i ended p)
  | client_fd ∷ rest ↦ some (
      put_worker i (if client_fd ==ℤ invalid then idle else serving client_fd)
        (record p { m_queue = rest }))
]

-- The next step of thread `i`, where it has one: none while it waits, while it is at a request that
-- does not end, and at its end.
unfoldable pub turn : (ends : ℤ → Bool) → ℕ → WorkerPool → Option WorkerPool
turn ends i p = elim (get_elem? p.m_workers i) [
  | none ↦ none
  | some idle ↦ locked i p
  | some (serving client_fd) ↦ if ends client_fd then some (put_worker i idle p) else none
  | some ended ↦ none
]

-- What a step shows to the clients.
pub data Label : Type 0 where
  arrives begins finishes : ℤ → Label
  silent : Label

abbrev pub front_label : List ℤ → Label
front_label [] = silent
front_label (fd ∷ rest) = begins fd

abbrev pub turn_label : Option Worker → List ℤ → Label
turn_label none queue = silent
turn_label (some idle) queue = front_label queue
turn_label (some (serving fd)) queue = finishes fd
turn_label (some ended) queue = silent

-- The steps of all threads, in any order: the thread that accepts queues a socket that is valid,
-- thread `i` takes its turn, or the pool is stopped.
pub data Step (ends : ℤ → Bool) : WorkerPool → Label → WorkerPool → Type 0 where
  accepted : {p : WorkerPool} (fd : ℤ) → fd ≢ invalid → Step ends p (arrives fd) (enqueue fd p)
  turned :
      {p q : WorkerPool} (i : ℕ)
      → turn ends i p ≡ some q
      → Step ends p (turn_label (get_elem? p.m_workers i) p.m_queue) q
  stopped : {p : WorkerPool} → Step ends p silent (stop p)

pub data Run (ends : ℤ → Bool) : WorkerPool → List Label → WorkerPool → Type 0 where
  here : {p : WorkerPool} → Run ends p [] p
  next :
      {p q r : WorkerPool} {l : Label} {ls : List Label}
      → Step ends p l q
      → Run ends q ls r
      → Run ends p (l ∷ ls) r
