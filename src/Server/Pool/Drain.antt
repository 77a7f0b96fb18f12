-- ===== src/Server/Pool/Drain.antt =====
-- worker_pool.cpp: what one thread does with the sockets that wait.
use java_io_tserver.Common.{
  ℕ, zero, suc, ◌≡◌, ◌≢◌, refl, ap, ◌∙◌, Bool, true, List, [], ◌∷◌, some, All, get_elem?, set,
  arith,
}
use mathlib.Core.Path.{subst}
use java_io_tserver.Common.Int.{ℤ}
use java_io_tserver.Server.Pool.{
  Worker, idle, serving, WorkerPool, invalid, put_worker, turn, Label, begins, finishes,
  front_label, turn_label, Step, turned, Run, here, next,
}
use java_io_tserver.Server.Pool.Fifo.{IsPool, locked_takes, finished}

get_elem?-set :
    (ws : List Worker) (i : ℕ) (v w : Worker)
    → get_elem? ws i ≡ some w
    → get_elem? (set ws i v) i ≡ some v
get_elem?-set [] i v w h = absurd (ground (arith, h))
get_elem?-set (u ∷ ws) zero v w h = refl
get_elem?-set (u ∷ ws) (suc i) v w h = get_elem?-set ws i v w h

-- The pool once thread `i` has taken the first socket, and once it has closed it.
abbrev taking : ℕ → ℤ → List ℤ → WorkerPool → WorkerPool
taking i fd rest p = put_worker i (serving fd) (record p { m_queue = rest })

module _ (ends : ℤ → Bool) where
  take_step :
      (p : WorkerPool) (i : ℕ) (fd : ℤ) (rest : List ℤ)
      → p.m_queue ≡ fd ∷ rest
      → fd ≢ invalid
      → get_elem? p.m_workers i ≡ some idle
      → Step ends p (begins fd) (taking i fd rest p)
  unfolding turn
  take_step p i fd rest e valid at =
      let moved : turn ends i p ≡ some (taking i fd rest p) =
        rw (at, turn) (locked_takes p i fd rest e valid) in
      let labelled : turn_label (get_elem? p.m_workers i) p.m_queue ≡ begins fd =
        ap (λ w. turn_label w p.m_queue) at ∙ ap front_label e in
      subst (λ l. Step ends p l (taking i fd rest p)) labelled (turned i moved)

  close_step :
      (p : WorkerPool) (i : ℕ) (fd : ℤ)
      → get_elem? p.m_workers i ≡ some (serving fd)
      → ends fd ≡ true
      → Step ends p (finishes fd) (put_worker i idle p)
  unfolding turn
  close_step p i fd at over =
      let moved : turn ends i p ≡ some (put_worker i idle p) = rw (at, turn) (rw over refl) in
      let labelled : turn_label (get_elem? p.m_workers i) p.m_queue ≡ finishes fd =
        ap (λ w. turn_label w p.m_queue) at in
      subst (λ l. Step ends p l (put_worker i idle p)) labelled (turned i moved)

  -- With valid sockets in the queue whose requests come to their end, and whether the pool has been
  -- stopped or not, a thread that has no socket and has not ended can go on until no socket waits,
  -- and it closes those that waited, in their order.
  pub drained :
      (queue : List ℤ) (p : WorkerPool) (i : ℕ)
      → IsPool p
      → All (λ fd. ends fd ≡ true) queue
      → p.m_queue ≡ queue
      → get_elem? p.m_workers i ≡ some idle
      → (q : WorkerPool) × (ls : List Label) × Run ends p ls q
        × (q.m_queue ≡ [])
        × (finished ls ≡ queue)
  unfolding finished
  drained [] p i h over e at = (p, [], here, e, refl)
  drained (fd ∷ rest) p i h (now, later) e at =
      let all : All (λ y. y ≢ invalid) (fd ∷ rest) = subst (All (λ y. y ≢ invalid)) e h in
      let p1 = taking i fd rest p in
      let at1 = get_elem?-set p.m_workers i (serving fd) idle at in
      let p2 = put_worker i idle p1 in
      let at2 = get_elem?-set p1.m_workers i idle (serving fd) at1 in
      let (q, ls, r, empty, closed) = drained rest p2 i all.1 later refl at2 in
      (
        q,
        begins fd ∷ finishes fd ∷ ls,
        next (take_step p i fd rest e all.0 at) (next (close_step p1 i fd at1 now) r),
        empty,
        ap (λ fds. fd ∷ fds) closed,
      )
