-- ===== src/Sync/WaitGroup.antt =====
-- src/Sync/WaitGroup.hpp: any number of threads on the counter, whose calls run under the mutex.
pub mod Safety
mod Tests
use renn.Prelude.{
  update, ℕ, suc, ◌+◌, ◌-◌, ◌*◌, ◌<◌, ◌≡◌, Bool, true, false, ◌==◌, if◌then◌else◌, u64,
}

-- A thread that waits: not in `wait`, about to test the counter under the mutex, blocked on the
-- condition variable, or behind `wait`.
pub data Waiter : Type 0 where
  outside : Waiter
  testing : Waiter
  sleeping : Waiter
  passed : Waiter

-- `added` and `finished` record the calls of `add`, with their counts, and of `done`.
pub record WaitGroup : Type 0 where
  pub count : ℕ
  pub waiter : ℕ → Waiter
  pub added : ℕ
  pub finished : ℕ

unfoldable pub new_group : WaitGroup
new_group = record { count = 0; waiter = λ i. outside; added = 0; finished = 0 }

unfoldable pub add : ℕ → WaitGroup → WaitGroup
add n s = record s { count = u64 (s.count + n); added = s.added + n }

-- `notify_all`
abbrev pub wake : Waiter → Waiter
wake sleeping = testing
wake w = w

-- `done`, whose assertion is a premise of its step.
unfoldable pub finish : WaitGroup → WaitGroup
finish s = record s {
  count = s.count - 1;
  waiter = if s.count - 1 == 0 then (λ i. wake (s.waiter i)) else s.waiter;
  finished = s.finished + 1;
}

-- The test of the predicate in `wait`: pass, or go to sleep.
unfoldable pub test : ℕ → WaitGroup → WaitGroup
test i s = record s { waiter = update s.waiter i (if s.count == 0 then passed else sleeping) }

pub data Step (s : WaitGroup) : WaitGroup → Type 0 where
  adds : (n : ℕ) → Step s (add n s)
  finishes : 0 < s.count → Step s (finish s)
  waits : (i : ℕ) → s.waiter i ≡ outside → Step s (record s { waiter = update s.waiter i testing })
  tests : (i : ℕ) → s.waiter i ≡ testing → Step s (test i s)
  wakes_up :
      (i : ℕ) → s.waiter i ≡ sleeping → Step s (record s { waiter = update s.waiter i testing })

pub data Reach : WaitGroup → Type 0 where
  initial : Reach new_group
  later : {s t : WaitGroup} → Reach s → Step s t → Reach t
