-- ===== src/Fiber/Workers.antt =====
-- src/Fiber and src/Coroutine on many threads: each takes tasks from one queue, resumes their fibers,
-- and submits or deletes them. A step is what a thread does up to its next access of what the threads
-- share: the queue, and the fibers; `Fiber::current_` is the thread's own.
pub mod Invariant
pub mod Keeping
pub mod Placement
pub mod Work
pub mod Draining
pub mod Boundedness
pub mod Completion
mod Tests
use renn.Prelude.{update, ℕ, ◌≡◌, Bool, true, false, Option, none, some, List, [], ◌∷◌, ◌++◌}
use renn.Fiber.{Routine, done, yields, goes}

-- A thread has no task, has a fiber from `go` that is not yet submitted, runs a fiber, has a child of
-- its fiber that is not yet submitted, is behind the resumption of a fiber, or ran into undefined
-- behaviour.
pub data Worker : Type 0 where
  idle : Worker
  launching : (child : ℕ) → Worker
  running : (f : ℕ) → (previous : Option ℕ) → (rest : Routine) → Worker
  starting : (child f : ℕ) → (previous : Option ℕ) → (rest : Routine) → Worker
  returned : (f : ℕ) → (is_done : Bool) → Worker
  crashed : Worker

-- `fibers` holds the rest of the routine of each fiber that is alive.
pub record Runtime : Type 0 where
  pub fibers : ℕ → Option Routine
  pub tasks : List ℕ
  pub worker : ℕ → Worker
  pub current : ℕ → Option ℕ

unfoldable pub new_runtime : Runtime
new_runtime = record { fibers = λ f. none; tasks = []; worker = λ w. idle; current = λ w. none }

abbrev pub moves : ℕ → Worker → Runtime → Runtime
moves w k s = record s { worker = update s.worker w k }

-- `Fiber::schedule`, and what the thread does next.
unfoldable pub submit : (f w : ℕ) → Worker → Runtime → Runtime
submit f w k s = record s { tasks = s.tasks ++ f ∷ []; worker = update s.worker w k }

-- `new Fiber(sched, proc)` at an address that is free.
unfoldable pub allocate : (f : ℕ) → Routine → (w : ℕ) → Worker → Runtime → Runtime
allocate f r w k s = record s { fibers = update s.fibers f (some r); worker = update s.worker w k }

-- `Fiber::step` of the oldest task, up to the routine.
unfoldable pub take : (w f : ℕ) → List ℕ → Runtime → Runtime
take w f fs s = elim (s.fibers f) [
  | none ↦ record s { tasks = fs; worker = update s.worker w crashed }
  | some r ↦ record s {
    tasks = fs;
    worker = update s.worker w (running f (s.current w) r);
    current = update s.current w (some f);
  }
]

-- `yield`: the coroutine of the thread's current fiber is suspended, and its `resume` returns.
unfoldable pub suspend : (w : ℕ) → (previous : Option ℕ) → Routine → Runtime → Runtime
suspend w previous rest s = elim (s.current w) [
  | none ↦ moves w crashed s
  | some g ↦ record s {
    fibers = update s.fibers g (some rest);
    worker = update s.worker w (returned g false);
    current = update s.current w previous;
  }
]

-- The end of `Coroutine::Run`.
unfoldable pub finish : (w f : ℕ) → (previous : Option ℕ) → Runtime → Runtime
finish w f previous s = record s {
  worker = update s.worker w (returned f true);
  current = update s.current w previous;
}

-- `delete this`
unfoldable pub remove : (w f : ℕ) → Runtime → Runtime
remove w f s = record s { fibers = update s.fibers f none; worker = update s.worker w idle }

pub data Step (s : Runtime) : Runtime → Type 0 where
  takes : (w f : ℕ) (fs : List ℕ) → s.worker w ≡ idle → s.tasks ≡ f ∷ fs → Step s (take w f fs s)
  launches :
      (w c : ℕ) (r : Routine)
      → s.worker w ≡ idle
      → s.fibers c ≡ none
      → Step s (allocate c r w (launching c) s)
  launched : (w c : ℕ) → s.worker w ≡ launching c → Step s (submit c w idle s)
  allocates :
      (w c f : ℕ) (previous : Option ℕ) (child rest : Routine)
      → s.worker w ≡ running f previous (goes child rest)
      → s.fibers c ≡ none
      → Step s (allocate c child w (starting c f previous rest) s)
  submits :
      (w c f : ℕ) (previous : Option ℕ) (rest : Routine)
      → s.worker w ≡ starting c f previous rest
      → Step s (submit c w (running f previous rest) s)
  suspends :
      (w f : ℕ) (previous : Option ℕ) (rest : Routine)
      → s.worker w ≡ running f previous (yields rest)
      → Step s (suspend w previous rest s)
  finishes :
      (w f : ℕ) (previous : Option ℕ)
      → s.worker w ≡ running f previous done
      → Step s (finish w f previous s)
  resubmits : (w f : ℕ) → s.worker w ≡ returned f false → Step s (submit f w idle s)
  removes : (w f : ℕ) → s.worker w ≡ returned f true → Step s (remove w f s)

pub data Reach : Runtime → Type 0 where
  initial : Reach new_runtime
  later : {s t : Runtime} → Reach s → Step s t → Reach t
