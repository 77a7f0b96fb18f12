-- ===== src/Server/Pool/Held.antt =====
-- worker_pool.cpp: a thread at a request that does not end.
use java_io_tserver.Common.{
  ℕ, zero, suc, ◌≡◌, refl, sym, ap, ◌∙◌, Bool, false, Bool-cases, inl, inr, Option, none, some,
  List, [], ◌∷◌, get_elem?, set, ◌==◌, if◌then◌else◌, arith,
}
use java_io_tserver.Common.Int.{ℤ, ◌==ℤ◌}
use java_io_tserver.Server.Pool.{
  Worker, invalid, idle, serving, ended, WorkerPool, put_worker, locked, turn, stop, enqueue, Label,
  Step, accepted, turned, stopped, Run, here, next,
}

get_elem?-set_other :
    (ws : List Worker) (i j : ℕ) (v : Worker)
    → (j == i) ≡ false
    → get_elem? (set ws j v) i ≡ get_elem? ws i
get_elem?-set_other [] i j v h = refl
get_elem?-set_other (w ∷ ws) zero zero v h = absurd (ground (arith, h))
get_elem?-set_other (w ∷ ws) zero (suc j) v h = refl
get_elem?-set_other (w ∷ ws) (suc i) zero v h = refl
get_elem?-set_other (w ∷ ws) (suc i) (suc j) v h = get_elem?-set_other ws i j v (ground (arith, h))

-- A thread that takes its turn changes no other thread.
Changes : ℕ → WorkerPool → WorkerPool → Type 0
Changes j p q = (v : Worker) × (q.m_workers ≡ set p.m_workers j v)

locked-Changes :
    (p q : WorkerPool) (j : ℕ) (queue : List ℤ)
    → p.m_queue ≡ queue
    → locked j p ≡ some q
    → Changes j p q
unfolding locked Changes
locked-Changes p q j [] e h = elim (Bool-cases p.m_running) [
  | inl runs ↦ absurd (ground (arith, rw (e, runs) at h))
  | inr stops ↦
      let same : put_worker j ended p ≡ q = ground (arith, rw (e, stops) at h) in
      (ended, ap (λ z. z.m_workers) (sym same))
]
locked-Changes p q j (fd ∷ rest) e h =
    let v = if fd ==ℤ invalid then idle else serving fd in
    let same : put_worker j v (record p { m_queue = rest }) ≡ q = ground (arith, rw e at h) in
    (v, ap (λ z. z.m_workers) (sym same))

turn-Changes :
    (ends : ℤ → Bool) (p q : WorkerPool) (j : ℕ) (w : Option Worker)
    → get_elem? p.m_workers j ≡ w
    → turn ends j p ≡ some q
    → Changes j p q
unfolding turn Changes
turn-Changes ends p q j none at = rw (at, turn) (λ h. absurd (ground (arith, h)))
turn-Changes ends p q j (some ended) at = rw (at, turn) (λ h. absurd (ground (arith, h)))
turn-Changes ends p q j (some idle) at = rw (at, turn) (λ h. locked-Changes p q j p.m_queue refl h)
turn-Changes ends p q j (some (serving fd)) at =
    rw (at, turn)
      (λ h.
        let same : put_worker j idle p ≡ q = ground (arith, h) in
        (idle, ap (λ z. z.m_workers) (sym same)))

turn_stuck :
    (ends : ℤ → Bool) (p : WorkerPool) (i : ℕ) (fd : ℤ)
    → ends fd ≡ false
    → get_elem? p.m_workers i ≡ some (serving fd)
    → turn ends i p ≡ none
unfolding turn
turn_stuck ends p i fd never at = rw (at, turn) (rw never refl)

module _ {ends : ℤ → Bool} (i : ℕ) (fd : ℤ) (never : ends fd ≡ false) where
  -- One step of any thread.
  step_held :
      {p q : WorkerPool} {l : Label}
      → Step ends p l q
      → get_elem? p.m_workers i ≡ some (serving fd)
      → get_elem? q.m_workers i ≡ some (serving fd)
  unfolding enqueue stop Changes
  step_held (accepted x valid) at = at
  step_held stopped at = at
  step_held {p} {q} (turned j e) at = elim (Bool-cases (j == i)) [
    | inl self ↦
        let same : j ≡ i = ground arith in
        let stuck = turn_stuck ends p i fd never at in
        absurd (ground (arith, stuck, ap (λ k. turn ends k p) same, e))
    | inr other ↦
        let (v, moved) = turn-Changes ends p q j (get_elem? p.m_workers j) refl e in
        ap (λ ws. get_elem? ws i) moved ∙ get_elem?-set_other p.m_workers i j v other ∙ at
  ]

  pub held :
      {p q : WorkerPool} {ls : List Label}
      → get_elem? p.m_workers i ≡ some (serving fd)
      → Run ends p ls q
      → get_elem? q.m_workers i ≡ some (serving fd)
  held at here = at
  held at (next s r) = held (step_held s at) r
