-- ===== src/Scheduling/ThreadPool/Safety.antt =====
-- What the pool promises: order, nothing lost at shutdown, and no sleeper left behind.
use renn.Prelude.{ℕ, ◌<◌, ◌≡◌, ◌≢◌, ◌⊎◌, inl, inr, true, [], ◌++◌, refl, sym, ap, ◌∙◌}
use mathlib.Core.List.{append-nil}
use renn.Scheduling.ThreadPool.{
  Worker, unborn, polling, waiting, woken, running, exited, outside, announcing, joining, returned,
  Pool, Reach,
}
use renn.Scheduling.ThreadPool.Invariant.{busy, nothing, by_worker, by_producer}
use renn.Scheduling.ThreadPool.Management.{begun}
use renn.Scheduling.ThreadPool.Steps.{Reach-Inv}

module _ {ℓ} {T : Type ℓ} {n : ℕ} {s : Pool T} (pos : 0 < n) (r : Reach n s) where
  open (Reach-Inv pos r) use {
    born, fifo, ended, closed_stopped, quiet, shut_closed, awake, gone, served,
  }

  -- In every reachable state of a pool with at least one worker the items that workers took,
  -- followed by those in the queue, are the items that were pushed, in the order of the pushes.
  pub taken-append-tasks : s.taken ++ s.renns.tasks ≡ s.pushed
  taken-append-tasks = fifo

  -- When `stop` has returned, in a pool of at least one worker that no `submit` overlapped, every
  -- pushed item was taken, in the order of the pushes, the queue is empty, every worker has left its
  -- loop, and no thread is inside `submit`.
  pub returned-drained :
      s.manager ≡ returned
      → (s.taken ≡ s.pushed)
        × (s.renns.tasks ≡ [])
        × ((i : ℕ) → i < n → s.worker i ≡ exited)
        × ((j : ℕ) → s.producer j ≡ outside)
  returned-drained m =
      let out : s.worker 0 ≡ exited = gone m 0 pos in
      let (closed, bare) = ended 0 out in
      (
        sym (append-nil s.taken) ∙ ap (λ q. s.taken ++ q) (sym bare) ∙ fifo,
        bare,
        gone m,
        quiet (closed_stopped closed),
      )

  -- While an item is in the queue of a pool with at least one worker, some worker is about to take
  -- the mutex or runs a task, or some thread is about to notify a worker.
  pub tasks-served :
      s.renns.tasks ≢ []
      → ((i : ℕ) × (i < n) × (busy (s.worker i) ≡ true)) ⊎ ((j : ℕ) × (s.producer j ≡ announcing))
  tasks-served ne = elim served [
    | nothing e ↦ absurd (ne e)
    | by_worker i lt b ↦ inl (i, lt, b)
    | by_producer j e ↦ inr (j, e)
  ]

  -- Once `stop` waits for the workers of a pool with at least one, each of them has left its loop or
  -- goes on without being woken.
  pub joining-awake :
      s.manager ≡ joining → (i : ℕ) → (s.worker i ≡ exited) ⊎ (busy (s.worker i) ≡ true)
  joining-awake m i = go (s.worker i) refl
    where
      go : (w : Worker T) → s.worker i ≡ w → (s.worker i ≡ exited) ⊎ (busy (s.worker i) ≡ true)
      go unborn h = absurd (born (begun (Reach-Inv pos r) (λ e. cc (sym m ∙ e))) i h)
      go waiting h = absurd (awake (rw m) i h)
      go exited h = inl h
      go polling h = inr (rw h)
      go woken h = inr (rw h)
      go (running t) h = inr (rw h)
