-- ===== src/Fiber/Workers/Tests.antt =====
-- A run of src/Fiber on two threads: a fiber starts another, yields, and is resumed by the other thread.
use renn.Prelude.{◌≡◌, ◌≤◌, ◌<◌, refl, none, some, [], ◌∷◌, arith}
use renn.Fiber.{done, yields, goes}
use renn.Fiber.Workers.{
  running, Runtime, new_runtime, submit, allocate, take, suspend, finish, remove, takes, launches,
  launched, allocates, submits, suspends, finishes, resubmits, removes, Reach, initial, later,
}
use renn.Fiber.Workers.Placement.{IsSound, Reach-IsSound}
use renn.Fiber.Workers.Work.{Execution, steps_taken, steps_brought}
use renn.Fiber.Workers.Completion.{Halted, CanStep, steps_taken-drains}

abbrev Trace : Type 0
Trace = (s : Runtime) × Reach s

-- The thread 0 starts the fiber 7, which starts the fiber 8 on the thread 1 and yields.
abbrev yielded : Trace
unfolding new_runtime submit allocate take suspend
yielded =
    let a : Trace = (_, later initial (launches 0 7 (goes done (yields done)) refl refl)) in
    let b : Trace = (_, later a.1 (launched 0 7 refl)) in
    let c : Trace = (_, later b.1 (takes 1 7 [] refl refl)) in
    let d : Trace = (_, later c.1 (allocates 1 8 7 none done (yields done) refl refl)) in
    let e : Trace = (_, later d.1 (submits 1 8 7 none (yields done) refl)) in
    let f : Trace = (_, later e.1 (suspends 1 7 none done refl)) in
    (_, later f.1 (resubmits 1 7 refl))

-- The thread 0 takes the fiber 8 and the thread 1 the fiber 7; both end, and one is deleted.
abbrev ended : Trace
unfolding new_runtime submit allocate take suspend finish remove
ended =
    let a : Trace = (_, later yielded.1 (takes 0 8 (7 ∷ []) refl refl)) in
    let b : Trace = (_, later a.1 (takes 1 7 [] refl refl)) in
    let c : Trace = (_, later b.1 (finishes 1 7 none refl)) in (_, later c.1 (removes 1 7 refl))

-- The fiber 8 still runs, on the thread 0.
one_fiber_is_left :
    (ended.0.fibers 7 ≡ none)
    × (ended.0.worker 0 ≡ running 8 none done)
    × (ended.0.current 0 ≡ some 8)
unfolding new_runtime submit allocate take suspend finish remove
one_fiber_is_left = (refl, refl, refl)

Reach-IsSound_example : IsSound ended.0
Reach-IsSound_example = Reach-IsSound ended.1

abbrev Drain : Type 0
Drain = (s : Runtime) × Execution 2 s

-- The thread 0 starts a fiber that yields once; the two threads resume it in turn, to its end.
abbrev drained : Drain
unfolding new_runtime submit allocate take suspend finish remove
drained =
    let a : Drain =
      (_, Execution.later Execution.initial (launches 0 7 (yields done) refl refl) (omega arith)) in
    let b : Drain = (_, Execution.later a.1 (launched 0 7 refl) (omega arith)) in
    let c : Drain = (_, Execution.later b.1 (takes 1 7 [] refl refl) (omega arith)) in
    let d : Drain = (_, Execution.later c.1 (suspends 1 7 none done refl) (omega arith)) in
    let e : Drain = (_, Execution.later d.1 (resubmits 1 7 refl) (omega arith)) in
    let f : Drain = (_, Execution.later e.1 (takes 0 7 [] refl refl) (omega arith)) in
    let g : Drain = (_, Execution.later f.1 (finishes 0 7 none refl) (omega arith)) in
    (_, Execution.later g.1 (removes 0 7 refl) (omega arith))

steps_are_used_up : steps_taken drained.1 ≡ 7
unfolding drained
steps_are_used_up = refl

steps_taken-drains_example :
    (steps_taken drained.1 ≤ steps_brought drained.1)
    × (steps_taken drained.1 ≡ steps_brought drained.1 → Halted drained.0)
    × (steps_taken drained.1 < steps_brought drained.1 → CanStep 2 drained.0)
steps_taken-drains_example = steps_taken-drains drained.1 (omega arith)
