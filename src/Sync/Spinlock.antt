-- ===== src/Sync/Spinlock.antt =====
-- src/Sync/Spinlock/Spinlock.hpp and Spinlock.cc: any number of threads on one flag. Each access to
-- the flag or the clock is one step, what a thread does between two accesses belongs to the first.
pub mod Exclusion
pub mod Progress
mod Tests
use renn.Prelude.{
  update, ℕ, zero, suc, ◌+◌, ◌*◌, ◌%◌, ◌^◌, min, ◌≡◌, Bool, true, false, ltb, ◌==◌, if◌then◌else◌,
}

-- `lock`, `try_lock`, and the two timed calls, which differ in whether the clock is read first.
pub data Call : Type 0 where
  lock : Call
  try_lock : Call
  try_lock_for : Call
  try_lock_until : Call

-- The calls that spin.
pub data Spin : Type 0 where
  untimed : Spin
  timed : Spin

-- Where a thread stands: its next access. A call that fails returns to `outside`.
pub data Thread : Type 0 where
  outside : Thread
  first_clock : Thread
  first_load : (retries : Bool) → Thread
  first_exchange : (retries : Bool) → Thread
  outer_clock : (backoff : ℕ) → Thread
  inner_clock : (i backoff : ℕ) → Thread
  inner_load : Spin → (i backoff : ℕ) → Thread
  outer_load : Spin → (backoff : ℕ) → Thread
  outer_exchange : Spin → (backoff : ℕ) → Thread
  holding : Thread

abbrev pub spin_initial_backoff : ℕ
spin_initial_backoff = 4

abbrev pub spin_max_backoff : ℕ
spin_max_backoff = 1024

-- `std::min(backoff << 1, SPIN_MAX_BACKOFF)` on 32 bits.
unfoldable pub next_backoff : ℕ → ℕ
next_backoff backoff = min (backoff * 2 % 2 ^ 32) spin_max_backoff

unfoldable pub start : Call → Thread
start lock = outer_load untimed spin_initial_backoff
start try_lock = first_load false
start try_lock_for = first_load true
start try_lock_until = first_clock

-- `try_lock` within the call has failed.
abbrev pub refused : (retries : Bool) → Thread
refused false = outside
refused true = outer_clock spin_initial_backoff

-- Behind the inner loop.
unfoldable pub leave_spin : Spin → ℕ → Thread
unfolding next_backoff
leave_spin untimed backoff = outer_load untimed (next_backoff backoff)
leave_spin timed backoff = outer_load timed backoff

-- The head of the inner loop.
unfoldable pub spin : Spin → (i backoff : ℕ) → Thread
unfolding leave_spin
spin untimed i backoff =
    if ltb i backoff then inner_load untimed i backoff else leave_spin untimed backoff
spin timed i backoff = if ltb i backoff then inner_clock i backoff else leave_spin timed backoff

-- The outer test or the exchange has found the lock taken.
unfoldable pub retry : Spin → ℕ → Thread
unfolding spin next_backoff
retry untimed backoff = spin untimed 0 backoff
retry timed backoff = outer_clock (next_backoff backoff)

-- One access: whether the deadline has passed, the flag before it, and the thread.
unfoldable pub act : (expired flag : Bool) → Thread → Bool × Thread
unfolding spin retry leave_spin
act expired flag outside = (flag, outside)
act expired flag first_clock = (flag, if expired then outside else first_load true)
act expired flag (first_load retries) =
    (flag, if flag then refused retries else first_exchange retries)
act expired flag (first_exchange retries) = (true, if flag then refused retries else holding)
act expired flag (outer_clock backoff) = (flag, if expired then outside else spin timed 0 backoff)
act expired flag (inner_clock i backoff) =
    (flag, if expired then outside else inner_load timed i backoff)
act expired flag (inner_load c i backoff) =
    (flag, if flag then spin c (suc i) backoff else leave_spin c backoff)
act expired flag (outer_load c backoff) =
    (flag, if flag then retry c backoff else outer_exchange c backoff)
act expired flag (outer_exchange c backoff) = (true, if flag then retry c backoff else holding)
act expired flag holding = (flag, holding)

pub record Spinlock : Type 0 where
  pub flag : Bool
  pub thread : ℕ → Thread

unfoldable pub new_lock : Spinlock
new_lock = record { flag = false; thread = λ j. outside }

-- `unlock`
unfoldable pub unlock : ℕ → Spinlock → Spinlock
unlock j s = record { flag = false; thread = update s.thread j outside }

unfoldable pub run : (expired : Bool) → ℕ → Spinlock → Spinlock
unfolding act
run expired j s = record {
  flag = (act expired s.flag (s.thread j)).0;
  thread = update s.thread j ((act expired s.flag (s.thread j)).1);
}

-- A thread calls when it is outside, and unlocks only what it holds.
pub data Step (s : Spinlock) : Spinlock → Type 0 where
  calls :
      (j : ℕ) (c : Call)
      → s.thread j ≡ outside
      → Step s (record s { thread = update s.thread j (start c) })
  accesses : (j : ℕ) (expired : Bool) → Step s (run expired j s)
  unlocks : (j : ℕ) → s.thread j ≡ holding → Step s (unlock j s)

pub data Reach : Spinlock → Type 0 where
  initial : Reach new_lock
  later : {s t : Spinlock} → Reach s → Step s t → Reach t
