-- ===== src/Server/Pool/Fifo.antt =====
-- worker_pool.cpp: the pool is a service that takes sockets in the order of their arrival.
use java_io_tserver.Common.{
  ℕ, zero, suc, ◌+◌, ◌≡◌, ◌≢◌, refl, sym, ap, ◌∙◌, Bool, true, false, List, [], ◌∷◌, ◌++◌,
  append-nil, append_assoc, Option, none, some, if◌then◌else◌, inl, inr, Bool-cases, All,
  All-append, get_elem?, set, replicate, arith,
}
use mathlib.Core.Path.{subst}
use java_io_tserver.Common.Int.{ℤ, ◌==ℤ◌, ==ℤ_iff}
use java_io_tserver.Server.Pool.{
  Worker, idle, serving, ended, WorkerPool, invalid, new_pool, start, stop, enqueue, locked, turn,
  Label, arrives, begins, finishes, silent, put_worker, front_label, turn_label, Step, accepted,
  turned, stopped, Run, here, next,
}

-- How often a socket is the one.
abbrev pub one : ℤ → ℤ → ℕ
one fd x = if fd ==ℤ x then 1 else 0

abbrev pub weight : Worker → ℤ → ℕ
weight idle x = 0
weight (serving fd) x = one fd x
weight ended x = 0

-- How many threads have the socket `x`.
unfoldable pub in_service : List Worker → ℤ → ℕ
in_service [] x = 0
in_service (w ∷ ws) x = weight w x + in_service ws x

-- The abstract service: the sockets that wait, in order, and how often each is being answered.
pub record Service : Type 0 where
  pub waiting : List ℤ
  pub answering : ℤ → ℕ

abbrev pub service : WorkerPool → Service
service p = record { waiting = p.m_queue; answering = in_service p.m_workers }

-- What the service does at each event.
abbrev pub Does : Service → Label → Service → Type 0
Does s (arrives fd) t =
    (t.waiting ≡ s.waiting ++ fd ∷ []) × ((x : ℤ) → t.answering x ≡ s.answering x)
Does s (begins fd) t =
    (s.waiting ≡ fd ∷ t.waiting) × ((x : ℤ) → t.answering x ≡ one fd x + s.answering x)
Does s (finishes fd) t =
    (t.waiting ≡ s.waiting) × ((x : ℤ) → s.answering x ≡ one fd x + t.answering x)
Does s silent t = (t.waiting ≡ s.waiting) × ((x : ℤ) → t.answering x ≡ s.answering x)

-- Every socket in the queue is valid.
abbrev pub IsPool : WorkerPool → Type 0
IsPool p = All (λ fd. fd ≢ invalid) p.m_queue

in_service-set :
    (ws : List Worker) (i : ℕ) (v w : Worker) (x : ℤ)
    → get_elem? ws i ≡ some w
    → in_service (set ws i v) x + weight w x ≡ in_service ws x + weight v x
unfolding in_service
in_service-set [] i v w x h = absurd (ground (arith, h))
in_service-set (u ∷ ws) zero v w x h =
    let same : u ≡ w = ground (arith, h) in
    let eq : weight u x ≡ weight w x = ap (λ z. weight z x) same in omega (arith, eq)
in_service-set (u ∷ ws) (suc i) v w x h = omega (arith, in_service-set ws i v w x h)

not_invalid : (fd : ℤ) → fd ≢ invalid → (fd ==ℤ invalid) ≡ false
not_invalid fd h = elim (Bool-cases (fd ==ℤ invalid)) [
  | inl same ↦ absurd (h ((==ℤ_iff fd invalid).0 same))
  | inr other ↦ other
]

abbrev pub Refines : WorkerPool → Label → WorkerPool → Type 0
Refines p l q = IsPool q × Does (service p) l (service q)

-- A thread without a socket that gets `v` to do.
from_idle :
    (ws : List Worker) (i : ℕ) (v : Worker) (x : ℤ)
    → get_elem? ws i ≡ some idle
    → in_service (set ws i v) x ≡ weight v x + in_service ws x
from_idle ws i v x at = omega (arith, in_service-set ws i v idle x at)

locked_waits : (p : WorkerPool) (i : ℕ) → p.m_queue ≡ [] → p.m_running ≡ true → locked i p ≡ none
unfolding locked
locked_waits p i e runs = rw (e, runs) refl

locked_ends :
    (p : WorkerPool) (i : ℕ)
    → p.m_queue ≡ []
    → p.m_running ≡ false
    → locked i p ≡ some (put_worker i ended p)
unfolding locked
locked_ends p i e stops = rw (e, stops) refl

pub locked_takes :
    (p : WorkerPool) (i : ℕ) (fd : ℤ) (rest : List ℤ)
    → p.m_queue ≡ fd ∷ rest
    → fd ≢ invalid
    → locked i p ≡ some (put_worker i (serving fd) (record p { m_queue = rest }))
unfolding locked
locked_takes p i fd rest e valid = rw (e, not_invalid fd valid) refl

-- What thread `i` does when it has the lock and does not wait.
locked_lem :
    (p q : WorkerPool) (i : ℕ) (queue : List ℤ)
    → IsPool p
    → p.m_queue ≡ queue
    → get_elem? p.m_workers i ≡ some idle
    → locked i p ≡ some q
    → Refines p (front_label queue) q
locked_lem p q i [] h e at eq = elim (Bool-cases p.m_running) [
  | inl runs ↦ absurd (ground (arith, locked_waits p i e runs, eq))
  | inr stops ↦
      let same : put_worker i ended p ≡ q = ground (arith, locked_ends p i e stops, eq) in
      subst (Refines p silent) same
        (h, (refl, λ x. omega (arith, in_service-set p.m_workers i ended idle x at)))
]
locked_lem p q i (fd ∷ rest) h e at eq =
    let all : All (λ y. y ≢ invalid) (fd ∷ rest) = subst (All (λ y. y ≢ invalid)) e h in
    let next : WorkerPool = put_worker i (serving fd) (record p { m_queue = rest }) in
    let same : next ≡ q = ground (arith, locked_takes p i fd rest e all.0, eq) in
    subst (Refines p (begins fd)) same (all.1, (e, λ x. from_idle p.m_workers i (serving fd) x at))

turn_lem :
    (ends : ℤ → Bool) (p q : WorkerPool) (i : ℕ) (w : Option Worker)
    → IsPool p
    → get_elem? p.m_workers i ≡ w
    → turn ends i p ≡ some q
    → Refines p (turn_label w p.m_queue) q
unfolding turn
turn_lem ends p q i none h at = rw (at, turn) (λ eq. absurd (ground (arith, eq)))
turn_lem ends p q i (some ended) h at = rw (at, turn) (λ eq. absurd (ground (arith, eq)))
turn_lem ends p q i (some idle) h at = rw (at, turn) (λ eq. locked_lem p q i p.m_queue h refl at eq)
turn_lem ends p q i (some (serving fd)) h at =
    rw (at, turn)
      (λ eq.
        let same : put_worker i idle p ≡ q = ground (arith, eq) in
        subst (Refines p (finishes fd)) same
          (h, (refl, λ x. omega (arith, in_service-set p.m_workers i idle (serving fd) x at))))

-- A step of a pool with valid sockets in its queue is what the service does at the event that it
-- shows, and leaves valid sockets in the queue.
pub refines :
    {ends : ℤ → Bool} {p q : WorkerPool} {l : Label} → IsPool p → Step ends p l q → Refines p l q
unfolding enqueue stop
refines {p = p} h (accepted fd valid) =
    (All-append (λ y. y ≢ invalid) p.m_queue (fd ∷ []) h (valid, tt), (refl, λ x. refl))
refines {ends} {p} {q} h (turned i e) = turn_lem ends p q i (get_elem? p.m_workers i) h refl e
refines h stopped = (h, (refl, λ x. refl))

-- The sockets of the events of one kind, in order.
unfoldable pub arrived : List Label → List ℤ
arrived [] = []
arrived (arrives fd ∷ ls) = fd ∷ arrived ls
arrived (begins fd ∷ ls) = arrived ls
arrived (finishes fd ∷ ls) = arrived ls
arrived (silent ∷ ls) = arrived ls

unfoldable pub begun : List Label → List ℤ
begun [] = []
begun (arrives fd ∷ ls) = begun ls
begun (begins fd ∷ ls) = fd ∷ begun ls
begun (finishes fd ∷ ls) = begun ls
begun (silent ∷ ls) = begun ls

unfoldable pub finished : List Label → List ℤ
finished [] = []
finished (arrives fd ∷ ls) = finished ls
finished (begins fd ∷ ls) = finished ls
finished (finishes fd ∷ ls) = fd ∷ finished ls
finished (silent ∷ ls) = finished ls

-- How often a socket stands in a list.
unfoldable pub count : ℤ → List ℤ → ℕ
count x [] = 0
count x (fd ∷ fds) = one fd x + count x fds

step_order :
    (s t : Service) (l : Label) (ls : List Label) (queue : List ℤ)
    → Does s l t
    → t.waiting ++ arrived ls ≡ begun ls ++ queue
    → s.waiting ++ arrived (l ∷ ls) ≡ begun (l ∷ ls) ++ queue
unfolding arrived begun
step_order s t (arrives fd) ls queue d h =
    sym (append_assoc s.waiting (fd ∷ []) (arrived ls)) ∙ ap (λ w. w ++ arrived ls) (sym d.0) ∙ h
step_order s t (begins fd) ls queue d h = ap (λ w. w ++ arrived ls) d.0 ∙ ap (λ w. fd ∷ w) h
step_order s t (finishes fd) ls queue d h = ap (λ w. w ++ arrived ls) (sym d.0) ∙ h
step_order s t silent ls queue d h = ap (λ w. w ++ arrived ls) (sym d.0) ∙ h

step_count :
    (s t : Service) (l : Label) (ls : List Label) (n : ℕ) (fd : ℤ)
    → Does s l t
    → t.answering fd + count fd (begun ls) ≡ count fd (finished ls) + n
    → s.answering fd + count fd (begun (l ∷ ls)) ≡ count fd (finished (l ∷ ls)) + n
unfolding begun finished count
step_count s t (arrives y) ls n fd d h = omega (arith, d.1 fd)
step_count s t (begins y) ls n fd d h = omega (arith, d.1 fd)
step_count s t (finishes y) ls n fd d h = omega (arith, d.1 fd)
step_count s t silent ls n fd d h = omega (arith, d.1 fd)

order_kept :
    {ends : ℤ → Bool} {p q : WorkerPool} {ls : List Label}
    → IsPool p
    → Run ends p ls q
    → p.m_queue ++ arrived ls ≡ begun ls ++ q.m_queue
unfolding arrived begun
order_kept {p = p} h here = append-nil p.m_queue
order_kept {p = p} {q = q} h (next {q = m} {l = l} {ls = ls} s r) =
    let met = refines h s in
    step_order (service p) (service m) l ls q.m_queue met.1 (order_kept met.0 r)

count_kept :
    {ends : ℤ → Bool} {p q : WorkerPool} {ls : List Label} (fd : ℤ)
    → IsPool p
    → Run ends p ls q
    → in_service p.m_workers fd + count fd (begun ls)
      ≡ count fd (finished ls) + in_service q.m_workers fd
unfolding begun finished count
count_kept {p = p} fd h here = omega arith
count_kept {p = p} {q = q} fd h (next {q = m} {l = l} {ls = ls} s r) =
    let met = refines h s in
    step_count (service p) (service m) l ls (in_service q.m_workers fd) fd met.1
      (count_kept fd met.0 r)

none_in_service : (n : ℕ) (fd : ℤ) → in_service (replicate n idle) fd ≡ 0
unfolding in_service
none_in_service zero fd = refl
none_in_service (suc n) fd = omega (arith, none_in_service n fd)

-- Over any run of a pool with any number of threads, sockets are taken in the order in which they
-- have come, what is not taken is in the queue, and a socket has been taken as often as it has been
-- closed, and once more for each thread that has it.
pub served_once :
    {ends : ℤ → Bool} {q : WorkerPool} {ls : List Label} (n : ℕ)
    → Run ends (start n new_pool) ls q
    → (arrived ls ≡ begun ls ++ q.m_queue)
      × ((fd : ℤ) → count fd (begun ls) ≡ count fd (finished ls) + in_service q.m_workers fd)
unfolding start
served_once n r = (order_kept tt r, λ fd. omega (arith, count_kept fd tt r, none_in_service n fd))
