-- ===== src/Fiber/Tests.antt =====
-- Runs of src/Fiber: two fibers that yield, one of which starts a third.
use renn.Prelude.{◌≡◌, refl, none, [], ◌∷◌, arith}
use renn.Prelude.Effect.{ok}
use renn.Fiber.{done, yields, goes, Runtime, go, schedule, resume, settle, step, run_tasks}
use renn.Fiber.Resumption.{Idle}
use renn.Fiber.Termination.{Finished, run_tasks-Finished}

abbrev nothing : Runtime
nothing = record { fibers = λ p. none; tasks = []; current = none; next_free = 1; resumed = [] }

abbrev pair : Runtime
unfolding go schedule
pair = go (yields done) (go (goes done (yields done)) nothing)

-- The fibers take turns, the started one after those that were there.
fibers_take_turns :
    (t : Runtime) × (run_tasks 9 pair ≡ ok tt t) × (t.resumed ≡ 1 ∷ 2 ∷ 3 ∷ 1 ∷ 2 ∷ [])
unfolding go schedule resume settle step run_tasks
fibers_take_turns = (_, refl, refl)

pair-Idle : Idle pair
unfolding go schedule
pair-Idle = record {
  alive = λ p. ground arith;
  distinct = (refl, (refl, tt));
  fresh = λ p le. ground arith;
}

run_tasks-Finished_example : (t : Runtime) × (run_tasks 5 pair ≡ ok tt t) × Finished pair t
unfolding go schedule
run_tasks-Finished_example = run_tasks-Finished 5 pair pair-Idle (omega arith)
