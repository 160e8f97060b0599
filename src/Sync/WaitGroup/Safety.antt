-- ===== src/Sync/WaitGroup/Safety.antt =====
-- What src/Sync/WaitGroup.hpp promises: nobody sleeps through the end, and the counter counts.
use renn.Prelude.{ℕ, ◌+◌, ◌^◌, ◌<◌, ◌≡◌, ◌≢◌, refl, arith}
use renn.Sync.WaitGroup.{
  Waiter, outside, testing, sleeping, passed, WaitGroup, new_group, add, wake, finish, test, Step,
  adds, finishes, waits, tests, wakes_up, Reach, initial, later,
}

pub record Inv (s : WaitGroup) : Type 0 where
  pub awake : s.added < 2 ^ 64 → s.count ≡ 0 → (i : ℕ) → s.waiter i ≢ sleeping
  pub counts : s.added < 2 ^ 64 → s.count + s.finished ≡ s.added

wake-sleeping : (w : Waiter) → wake w ≢ sleeping
wake-sleeping outside e = cc e
wake-sleeping testing e = cc e
wake-sleeping sleeping e = cc e
wake-sleeping passed e = cc e

Step-Inv : {s t : WaitGroup} → Step s t → Inv s → Inv t
unfolding add finish test
Step-Inv {s} (adds n) inv = record {
  awake = λ lt z i. inv.awake (omega arith) (omega (arith, inv.counts)) i;
  counts = λ lt. omega (arith, inv.counts (omega arith));
}
Step-Inv {s} (finishes pos) inv = record {
  awake = λ lt z i. ground (arith, wake-sleeping (s.waiter i));
  counts = λ lt. omega (arith, inv.counts lt);
}
Step-Inv {s} (waits i e) inv = record {
  awake = λ lt z j. ground (arith, inv.awake lt z j);
  counts = inv.counts;
}
Step-Inv {s} (tests i e) inv = record {
  awake = λ lt z j. ground (arith, inv.awake lt z j);
  counts = inv.counts;
}
Step-Inv {s} (wakes_up i e) inv = record {
  awake = λ lt z j. ground (arith, inv.awake lt z j);
  counts = inv.counts;
}

Reach-Inv : {s : WaitGroup} → Reach s → Inv s
unfolding new_group
Reach-Inv initial = record { awake = λ lt z i e. cc e; counts = λ lt. refl }
Reach-Inv (later r st) = Step-Inv st (Reach-Inv r)

-- In every reachable state in which fewer than 2^64 were added, the counter is what was added less
-- the calls of `done`, and no thread is blocked in `wait` when `done` was called as often as was
-- added.
pub count-awake :
    {s : WaitGroup}
    → Reach s
    → s.added < 2 ^ 64
    → (s.count + s.finished ≡ s.added) × (s.added ≡ s.finished → (i : ℕ) → s.waiter i ≢ sleeping)
count-awake {s} r lt =
    let inv = Reach-Inv r in (inv.counts lt, λ e i. inv.awake lt (omega (arith, inv.counts lt)) i)
