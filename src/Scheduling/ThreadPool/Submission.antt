-- ===== src/Scheduling/ThreadPool/Submission.antt =====
-- The steps of the threads that submit keep the invariant.
use renn.Prelude.{
  update, ℕ, ◌<◌, ◌≡◌, ◌≢◌, true, false, Option, none, some, [], ◌∷◌, ◌++◌, if◌then◌else◌, arith,
  refl, ap, sym, ◌∙◌,
}
use mathlib.Core.List.{append_assoc}
use renn.Scheduling.Queue.{push_back}
use renn.Scheduling.ThreadPool.{
  Worker, unborn, polling, waiting, woken, running, exited, Producer, outside, admitted, announcing,
  Pool, submit, enqueue,
}
use renn.Scheduling.ThreadPool.Invariant.{Served, nothing, by_worker, by_producer, Inv}

module _ {ℓ} {T : Type ℓ} {n : ℕ} {s : Pool T} (inv : Inv n s) where
  -- A thread that submits goes on, and the workers and the queue stay.
  Served-producer :
      (j : ℕ) (p : Producer T)
      → s.producer j ≢ announcing
      → Served n (record s { producer = update s.producer j p })
  Served-producer j p ne = elim inv.served [
    | nothing e ↦ nothing e
    | by_worker i lt b ↦ by_worker i lt b
    | by_producer k e ↦ by_producer k (ground arith)
  ]

  admit-Inv :
      (j : ℕ) (t : T)
      → s.producer j ≡ outside
      → s.started ≡ true
      → s.stopped ≡ false
      → Inv n (record s { producer = update s.producer j (admitted t) })
  admit-Inv j t e st sp = record {
    fifo = inv.fifo;
    ended = inv.ended;
    closed_stopped = inv.closed_stopped;
    quiet = λ h k. ground arith;
    idle_start = λ h k. ground arith;
    born = inv.born;
    created_start = inv.created_start;
    halting = inv.halting;
    shut_closed = inv.shut_closed;
    awake = inv.awake;
    gone = inv.gone;
    served = Served-producer j (admitted t) (ground arith);
  }

  pub submit-Inv :
      (j : ℕ) (t : Option T)
      → s.producer j ≡ outside
      → s.started ≡ true
      → s.stopped ≡ false
      → Inv n (submit j t s)
  unfolding submit
  submit-Inv j none e st sp = inv
  submit-Inv j (some t) e st sp =
      elim s.renns.is_closed
        as (λ b.
          Inv n (if b then s else record s { producer = update s.producer j (admitted t) })) [
            | true ↦ inv
            | false ↦ admit-Inv j t e st sp
          ]

  running_pool :
      (j : ℕ)
      → s.producer j ≢ outside
      → (s.started ≡ true) × (s.stopped ≡ false) × (s.renns.is_closed ≡ false)
  running_pool j ne = ground (
    arith,
    inv.idle_start,
    λ (h : s.started ≡ false). inv.idle_start h j,
    λ (h : s.stopped ≡ true). inv.quiet h j,
    inv.closed_stopped,
  )

  pub enqueue-Inv : (j : ℕ) (t : T) → s.producer j ≡ admitted t → Inv n (enqueue j t s)
  unfolding enqueue push_back
  enqueue-Inv j t e =
      let (started, stopped, closed) = running_pool j (ground arith) in
      record {
        fifo = sym (append_assoc s.taken s.renns.tasks (t ∷ [])) ∙ ap (λ q. q ++ t ∷ []) inv.fifo;
        ended = λ k h. ground (arith, inv.ended k h, closed);
        closed_stopped = inv.closed_stopped;
        quiet = λ h k. ground (arith, stopped);
        idle_start = λ h k. ground (arith, started);
        born = inv.born;
        created_start = inv.created_start;
        halting = inv.halting;
        shut_closed = inv.shut_closed;
        awake = inv.awake;
        gone = inv.gone;
        served = by_producer j (ground arith);
      }

  -- `notify_one` woke a worker or found none asleep, and the thread is done.
  pub announced-Inv :
      (j : ℕ)
      → s.producer j ≡ announcing
      → Served n (record s { producer = update s.producer j outside })
      → Inv n (record s { producer = update s.producer j outside })
  announced-Inv j e served = record {
    fifo = inv.fifo;
    ended = inv.ended;
    closed_stopped = inv.closed_stopped;
    quiet = λ h k. ground (arith, inv.quiet h k);
    idle_start = λ h k. ground (arith, inv.idle_start h k);
    born = inv.born;
    created_start = inv.created_start;
    halting = inv.halting;
    shut_closed = inv.shut_closed;
    awake = inv.awake;
    gone = inv.gone;
    served = served;
  }

  -- With nobody asleep a first worker is busy, or has left behind an empty queue.
  pub Served-awake :
      (j : ℕ)
      → 0 < n
      → s.producer j ≡ announcing
      → ((i : ℕ) → i < n → s.worker i ≢ waiting)
      → Served n (record s { producer = update s.producer j outside })
  Served-awake j pos e awake = go (s.worker 0) refl
    where
      go :
          (w : Worker T)
          → s.worker 0 ≡ w
          → Served n (record s { producer = update s.producer j outside })
      go unborn h = absurd (inv.born (running_pool j (ground arith)).0 0 h)
      go waiting h = absurd (awake 0 pos h)
      go exited h = nothing (inv.ended 0 h).1
      go polling h = by_worker 0 pos (rw h)
      go woken h = by_worker 0 pos (rw h)
      go (running t) h = by_worker 0 pos (rw h)
