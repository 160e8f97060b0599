-- ===== src/Sync/WaitGroup/Tests.antt =====
-- A run of src/Sync/WaitGroup.hpp: one unit of work, and a thread that waits for it.
use renn.Prelude.{ℕ, ◌+◌, ◌<◌, ◌≡◌, ◌≢◌, refl, arith}
use renn.Sync.WaitGroup.{
  WaitGroup, sleeping, testing, new_group, add, finish, test, Reach, initial, later, adds, finishes,
  waits, tests,
}
use renn.Sync.WaitGroup.Safety.{count-awake}

abbrev Trace : Type 0
Trace = (s : WaitGroup) × Reach s

abbrev asleep : Trace
unfolding new_group add test
asleep =
    let a : Trace = (_, later initial (adds 1)) in
    let b : Trace = (_, later a.1 (waits 0 refl)) in (_, later b.1 (tests 0 refl))

one_positive : 0 < asleep.0.count
unfolding new_group add test
one_positive = omega arith

abbrev over : Trace
over = (_, later asleep.1 (finishes one_positive))

-- The waiter sleeps until the work is done, and tests again then.
sleeper_wakes : (asleep.0.waiter 0 ≡ sleeping) × (over.0.waiter 0 ≡ testing)
unfolding new_group add test finish
sleeper_wakes = (refl, refl)

count-awake_example :
    (over.0.count + over.0.finished ≡ over.0.added)
    × (over.0.added ≡ over.0.finished → (i : ℕ) → over.0.waiter i ≢ sleeping)
unfolding new_group add test finish
count-awake_example = count-awake over.1 (omega arith)
