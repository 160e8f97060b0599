-- ===== src/Fiber.antt =====
-- src/Fiber and src/Coroutine: fibers that are resumed by a scheduler.
-- A routine is what it does to the library up to its end; the machine context of a coroutine, which is
-- third-party code, is the rest of its routine. The scheduler runs what was submitted in order.
pub mod Queued
pub mod Resumption
pub mod Termination
pub mod Workers
pub mod Handle
mod Tests
use renn.Prelude.{
  update, ℕ, zero, suc, ◌+◌, ◌≡◌, Bool, true, false, Option, none, some, List, [], ◌∷◌, ◌++◌, ◌==◌,
  if◌then◌else◌,
}
use renn.Prelude.Effect.{
  Run, ok, throws, fault, State, pure, undefined, get, put, ◌>>=◌, ◌>>◌, dangling, no_return,
}

-- It ends, calls `yield`, or calls `go` with another routine.
pub data Routine : Type 0 where
  done : Routine
  yields : Routine → Routine
  goes : (child rest : Routine) → Routine

-- The fibers that are alive, the tasks of the scheduler in order, `Fiber::current_`, and the
-- addresses from `next_free` on, which the allocator has not used. `resumed` records the
-- resumptions.
pub record Runtime : Type 0 where
  pub fibers : ℕ → Option Routine
  pub tasks : List ℕ
  pub current : Option ℕ
  pub next_free : ℕ
  pub resumed : List ℕ

-- `Fiber::schedule`
unfoldable pub schedule : ℕ → Runtime → Runtime
schedule f s = record s { tasks = s.tasks ++ f ∷ [] }

-- `go(sched, proc)`
unfoldable pub go : Routine → Runtime → Runtime
unfolding schedule
go r s =
    schedule s.next_free
      (record s { fibers = update s.fibers s.next_free (some r); next_free = suc s.next_free })

-- `Coroutine::resume` and `Run`: on to the next `yield`, with the rest, or to the end.
unfoldable pub resume : Routine → Runtime → Option Routine × Runtime
unfolding go
resume done s = (none, s)
resume (yields rest) s = (some rest, s)
resume (goes child rest) s = resume rest (go child s)

-- Behind the resumption: `Fiber::step` submits the fiber again, or deletes it.
unfoldable pub settle : ℕ → (previous : Option ℕ) → Option Routine × Runtime → Runtime
unfolding schedule
settle f previous (none, s) = record s { current = previous; fibers = update s.fibers f none }
settle f previous (some rest, s) =
    schedule f (record s { current = previous; fibers = update s.fibers f (some rest) })

-- `Fiber::step`
unfoldable pub step : ℕ → State Runtime (Unit {0})
unfolding resume settle
step f s = elim (s.fibers f) [
  | none ↦ fault dangling
  | some r ↦
      ok tt (
        settle f s.current
          (resume r (record s { current = some f; resumed = s.resumed ++ f ∷ [] })))
]

-- The scheduler takes the oldest task, `fuel` times at most.
unfoldable pub run_tasks : (fuel : ℕ) → State Runtime (Unit {0})
unfolding step
run_tasks zero s = ok tt s
run_tasks (suc fuel) s = elim s.tasks [
  | [] ↦ ok tt s
  | f ∷ fs ↦ (do put (record s { tasks = fs }); step f; run_tasks fuel) s
]
