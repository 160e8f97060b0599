-- ===== src/Scheduling/ThreadPool/Steps.antt =====
-- Every step keeps the invariant, so every reachable state has it.
use renn.Prelude.{update, ℕ, ◌<◌, ◌≡◌, ◌≢◌, true, arith, refl, sym, ◌∙◌}
use renn.Scheduling.ThreadPool.{
  Worker, polling, woken, exited, returned, Pool, new_pool, Step, starts, polls_queue, wakes_up,
  finishes, submits, enqueues, notifies, notifies_nobody, stops, closes, notifies_all, joins, Reach,
  initial, later,
}
use renn.Scheduling.ThreadPool.Invariant.{busy, nothing, by_worker, Inv, poll-Inv}
use renn.Scheduling.ThreadPool.Submission.{submit-Inv, enqueue-Inv, announced-Inv, Served-awake}
use renn.Scheduling.ThreadPool.Management.{
  begun, notify_all-Inv, manager-Inv, start-Inv, stop-Inv, close-Inv,
}

module _ {ℓ} {T : Type ℓ} {n : ℕ} {s : Pool T} (inv : Inv n s) where
  -- A worker goes from one of its states to a busy one.
  worker-Inv :
      (i : ℕ) (w : Worker T)
      → i < n
      → s.worker i ≢ exited
      → busy w ≡ true
      → Inv n (record s { worker = update s.worker i w })
  worker-Inv i w lt alive now = record {
    fifo = inv.fifo;
    ended = λ k e. inv.ended k (ground arith);
    closed_stopped = inv.closed_stopped;
    quiet = inv.quiet;
    idle_start = inv.idle_start;
    born = λ h k e. ground (arith, inv.born h k);
    created_start = inv.created_start;
    halting = inv.halting;
    shut_closed = inv.shut_closed;
    awake = λ h k e. ground (arith, inv.awake h k);
    gone = λ h k below. absurd (alive (inv.gone h i lt));
    served = by_worker i lt (ground arith);
  }

module _ {ℓ} {T : Type ℓ} {n : ℕ} (pos : 0 < n) where
  pub Step-Inv : {s t : Pool T} → Step n s t → Inv n s → Inv n t
  Step-Inv (starts m st) inv = start-Inv inv pos m st
  Step-Inv (polls_queue i lt ready) inv = poll-Inv inv i lt ready
  Step-Inv (wakes_up i lt e) inv = worker-Inv inv i woken lt (λ h. cc (sym e ∙ h)) refl
  Step-Inv (finishes i t lt e) inv = worker-Inv inv i polling lt (λ h. cc (sym e ∙ h)) refl
  Step-Inv (submits j t e st sp) inv = submit-Inv inv j t e st sp
  Step-Inv (enqueues j t e) inv = enqueue-Inv inv j t e
  Step-Inv (notifies j i e lt h) inv =
      let woke : Inv n _ = worker-Inv inv i woken lt (λ g. cc (sym h ∙ g)) refl in
      announced-Inv woke j e (by_worker i lt (ground arith))
  Step-Inv (notifies_nobody j e awake) inv = announced-Inv inv j e (Served-awake inv j pos e awake)
  Step-Inv (stops m st sp still) inv = stop-Inv inv m st still
  Step-Inv (closes m) inv = close-Inv inv m
  Step-Inv (notifies_all m) inv = notify_all-Inv inv m
  Step-Inv (joins m out) inv =
      manager-Inv inv returned (begun inv (λ h. cc (sym m ∙ h))) (λ h. cc h)
        (λ h. inv.shut_closed (rw m)) (λ h. inv.awake (rw m)) (λ h. out)

  new_pool-Inv : Inv n (new_pool {T = T})
  unfolding new_pool
  new_pool-Inv = record {
    fifo = refl;
    ended = λ i h. absurd (cc h);
    closed_stopped = λ h. absurd (cc h);
    quiet = λ h. absurd (cc h);
    idle_start = λ h j. refl;
    born = λ h. absurd (cc h);
    created_start = λ h. refl;
    halting = λ h. absurd (cc h);
    shut_closed = λ h. absurd (cc h);
    awake = λ h. absurd (cc h);
    gone = λ h. absurd (cc h);
    served = nothing refl;
  }

  pub Reach-Inv : {s : Pool T} → Reach n s → Inv n s
  Reach-Inv initial = new_pool-Inv
  Reach-Inv (later r st) = Step-Inv st (Reach-Inv r)
