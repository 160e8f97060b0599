-- ===== src/Sync/Spinlock/Tests.antt =====
-- Runs of src/Sync/Spinlock/Spinlock.cc, and its theorems at one of them.
use renn.Prelude.{ℕ, ◌≡◌, refl, true, false, ◌↔◌}
use renn.Sync.Spinlock.{
  Spinlock, lock, holding, inner_load, untimed, new_lock, start, act, run, Reach, initial, later,
  calls, accesses, spin, retry,
}
use renn.Sync.Spinlock.Exclusion.{holding-exclusive}
use renn.Sync.Spinlock.Progress.{Reach-IsBounded, IsBounded, alone, alone-holding}

-- Thread 0 has taken the lock, and thread 1 has begun to spin.
abbrev Trace : Type 0
Trace = (s : Spinlock) × Reach s

abbrev spinning : Trace
unfolding new_lock run act start
spinning =
    let a : Trace = (_, later initial (calls 0 lock refl)) in
    let b : Trace = (_, later a.1 (accesses 0 false)) in
    let c : Trace = (_, later b.1 (accesses 0 false)) in
    let d : Trace = (_, later c.1 (calls 1 lock refl)) in (_, later d.1 (accesses 1 false))

contended : (spinning.0.thread 0 ≡ holding) × (spinning.0.thread 1 ≡ inner_load untimed 0 4)
unfolding new_lock run act start retry spin
contended = (refl, refl)

holding-exclusive_example :
    ((i j : ℕ) → spinning.0.thread i ≡ holding → spinning.0.thread j ≡ holding → i ≡ j)
    × ((spinning.0.flag ≡ true) ↔ ((i : ℕ) × (spinning.0.thread i ≡ holding)))
holding-exclusive_example = holding-exclusive spinning.1

Reach-IsBounded_example : IsBounded (spinning.0.thread 1)
Reach-IsBounded_example = Reach-IsBounded spinning.1 1

alone-holding_example : alone 3 false (false, inner_load untimed 2 8) ≡ (true, holding)
alone-holding_example = alone-holding (inner_load untimed 2 8) false refl
