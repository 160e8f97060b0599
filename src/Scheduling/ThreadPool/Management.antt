-- ===== src/Scheduling/ThreadPool/Management.antt =====
-- The steps of the managing thread keep the invariant.
use renn.Prelude.{ℕ, ◌<◌, ◌≡◌, ◌≢◌, true, false, arith, refl}
use renn.Scheduling.Queue.{close}
use renn.Scheduling.ThreadPool.{
  Worker, polling, waiting, exited, outside, Manager, created, up, stopping, closing, joining,
  returned, Pool, wake,
}
use renn.Scheduling.ThreadPool.Invariant.{
  busy, shut, notified, Served, nothing, by_worker, by_producer, Inv, Served-congr,
}

module _ {ℓ} {T : Type ℓ} {n : ℕ} {s : Pool T} (inv : Inv n s) where
  wake-busy : (w : Worker T) → busy w ≡ true → busy (wake w) ≡ true
  wake-busy w h = ground arith

  wake-ne-waiting : (w : Worker T) → wake w ≢ waiting
  wake-ne-waiting w h = ground arith

  Served-wake : Served n (record s { worker = λ i. wake (s.worker i); manager = joining })
  Served-wake = elim inv.served [
    | nothing e ↦ nothing e
    | by_worker i lt b ↦ by_worker i lt (wake-busy (s.worker i) b)
    | by_producer j e ↦ by_producer j e
  ]

  pub notify_all-Inv :
      s.manager ≡ closing → Inv n (record s { worker = λ i. wake (s.worker i); manager = joining })
  notify_all-Inv e = record {
    fifo = inv.fifo;
    ended = λ k h. inv.ended k (ground (arith, h));
    closed_stopped = inv.closed_stopped;
    quiet = inv.quiet;
    idle_start = inv.idle_start;
    born = λ h k f. inv.born h k (ground (arith, f));
    created_start = λ h. ground (arith, inv.created_start h);
    halting = λ h. absurd (cc h);
    shut_closed = λ h. inv.shut_closed (rw e);
    awake = λ h k. wake-ne-waiting (s.worker k);
    gone = λ h. absurd (cc h);
    served = Served-wake;
  }

  -- The managing thread goes on with the workers as they are.
  pub manager-Inv :
      (m : Manager)
      → s.started ≡ true
      → m ≢ stopping
      → (shut m ≡ true → s.renns.is_closed ≡ true)
      → (notified m ≡ true → (i : ℕ) → s.worker i ≢ waiting)
      → (m ≡ returned → (i : ℕ) → i < n → s.worker i ≡ exited)
      → Inv n (record s { manager = m })
  manager-Inv m st going closed awake gone = record {
    fifo = inv.fifo;
    ended = inv.ended;
    closed_stopped = inv.closed_stopped;
    quiet = inv.quiet;
    idle_start = inv.idle_start;
    born = inv.born;
    created_start = λ h. absurd (ground (arith, st));
    halting = λ h. absurd (going h);
    shut_closed = closed;
    awake = awake;
    gone = gone;
    served = Served-congr s _ refl refl refl inv.served;
  }

  pub begun : s.manager ≢ created → s.started ≡ true
  begun ne = ground (arith, inv.created_start)

  pub start-Inv :
      0 < n
      → s.manager ≡ created
      → s.started ≡ false
      → Inv n (record s { started = true; worker = λ _. polling; manager = up })
  start-Inv pos m st = record {
    fifo = inv.fifo;
    ended = λ k h. absurd (cc h);
    closed_stopped = inv.closed_stopped;
    quiet = inv.quiet;
    idle_start = λ h k. inv.idle_start st k;
    born = λ h k e. cc e;
    created_start = λ h. absurd (cc h);
    halting = λ h. absurd (cc h);
    shut_closed = λ h. absurd (cc h);
    awake = λ h k e. cc e;
    gone = λ h. absurd (cc h);
    served = by_worker 0 pos refl;
  }

  pub stop-Inv :
      s.manager ≡ up
      → s.started ≡ true
      → ((j : ℕ) → s.producer j ≡ outside)
      → Inv n (record s { stopped = true; manager = stopping })
  stop-Inv m st still = record {
    fifo = inv.fifo;
    ended = inv.ended;
    closed_stopped = λ h. refl;
    quiet = λ h. still;
    idle_start = inv.idle_start;
    born = inv.born;
    created_start = λ h. absurd (ground (arith, st));
    halting = λ h. refl;
    shut_closed = λ h. absurd (cc h);
    awake = λ h. absurd (cc h);
    gone = λ h. absurd (cc h);
    served = Served-congr s _ refl refl refl inv.served;
  }

  pub close-Inv :
      s.manager ≡ stopping → Inv n (record s { renns = close s.renns; manager = closing })
  unfolding close
  close-Inv m =
      let st : s.stopped ≡ true = inv.halting m in
      record {
        fifo = inv.fifo;
        ended = λ k h. (refl, (inv.ended k h).1);
        closed_stopped = λ h. st;
        quiet = inv.quiet;
        idle_start = inv.idle_start;
        born = inv.born;
        created_start = λ h. ground (arith, inv.created_start h);
        halting = λ h. st;
        shut_closed = λ h. refl;
        awake = λ h. absurd (cc h);
        gone = λ h. absurd (cc h);
        served = Served-congr s _ refl refl refl inv.served;
      }
