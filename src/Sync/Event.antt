-- ===== src/Sync/Event.antt =====
-- src/Sync/Event.hpp: any number of threads that wait, and one that fires. The futex is third-party
-- code: `WaitOnce` is one step that blocks only while the word has the value that it is given, and
-- may return at any time; `WakeAll` wakes every thread that is blocked.
pub mod Safety
mod Tests
use renn.Prelude.{update, ℕ, ◌≡◌, Bool, true, false, ◌==◌, if◌then◌else◌}

-- Not in `wait`, before the load, before `WaitOnce`, blocked in it, or behind `wait`.
pub data Waiter : Type 0 where
  outside : Waiter
  loading : Waiter
  suspending : Waiter
  blocked : Waiter
  passed : Waiter

-- The thread that fires: before `PrepareWake`, before the store, before `WakeAll`, or behind `fire`.
pub data Firer : Type 0 where
  unfired : Firer
  prepared : Firer
  stored : Firer
  fired : Firer

pub record Event : Type 0 where
  pub ready : Bool
  pub waiter : ℕ → Waiter
  pub firer : Firer

unfoldable pub new_event : Event
new_event = record { ready = false; waiter = λ i. outside; firer = unfired }

-- The test of the loop.
unfoldable pub load_ready : ℕ → Event → Event
load_ready i s = record s { waiter = update s.waiter i (if s.ready then passed else suspending) }

-- `WaitOnce(ready_, 0)`
unfoldable pub wait_once : ℕ → Event → Event
wait_once i s = record s { waiter = update s.waiter i (if s.ready then loading else blocked) }

-- The next step of `fire`.
abbrev pub wake : Waiter → Waiter
wake blocked = loading
wake w = w

unfoldable pub fire : Firer → Event → Event
fire unfired s = record s { firer = prepared }
fire prepared s = record s { ready = true; firer = stored }
fire stored s = record s { waiter = λ i. wake (s.waiter i); firer = fired }
fire fired s = s

pub data Step (s : Event) : Event → Type 0 where
  waits : (i : ℕ) → s.waiter i ≡ outside → Step s (record s { waiter = update s.waiter i loading })
  loads : (i : ℕ) → s.waiter i ≡ loading → Step s (load_ready i s)
  suspends : (i : ℕ) → s.waiter i ≡ suspending → Step s (wait_once i s)
  wakes_up :
      (i : ℕ) → s.waiter i ≡ blocked → Step s (record s { waiter = update s.waiter i loading })
  fires : (f : Firer) → s.firer ≡ f → Step s (fire f s)

pub data Reach : Event → Type 0 where
  initial : Reach new_event
  later : {s t : Event} → Reach s → Step s t → Reach t
