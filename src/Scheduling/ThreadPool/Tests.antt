-- ===== src/Scheduling/ThreadPool/Tests.antt =====
-- A pool of one worker from its start to the return of `stop`, step by step.
use renn.Prelude.{ℕ, ◌<◌, ◌≡◌, ◌⊎◌, true, some, [], ◌++◌, arith, refl}
use renn.Scheduling.Queue.{pop, push_back, close}
use renn.Scheduling.ThreadPool.{
  exited, outside, announcing, Pool, new_pool, poll, submit, enqueue, Step, starts, polls_queue,
  finishes, submits, enqueues, notifies, stops, closes, notifies_all, joins, Reach, initial, later,
}
use renn.Scheduling.ThreadPool.Invariant.{busy}
use renn.Scheduling.ThreadPool.Safety.{
  taken-append-tasks, returned-drained, tasks-served, joining-awake,
}

-- A reachable state with its derivation.
record Trace : Type 0 where
  state : Pool ℕ
  reach : Reach 1 state

step : (x : Trace) {t : Pool ℕ} → Step 1 x.state t → Trace
step x {t} st = record { state = t; reach = later x.reach st }

-- Every definition that the steps run.
pool : Unit {0}
unfolding step new_pool poll pop submit enqueue push_back close
pool = tt

-- The worker has gone to sleep, and an item is in the queue.
abbrev loaded : Trace
unfolding pool
loaded =
    let a : Trace = record { state = new_pool; reach = initial } in
    let b : Trace = step a (starts refl refl) in
    let c : Trace = step b (polls_queue 0 (omega arith) refl) in
    let d : Trace = step c (submits 4 (some 9) refl refl refl) in step d (enqueues 4 9 refl)

-- The worker was notified, ran the item and is at the head of its loop.
abbrev idle : Trace
unfolding pool
idle =
    let a : Trace = step loaded (notifies 4 0 refl (omega arith) refl) in
    let b : Trace = step a (polls_queue 0 (omega arith) refl) in
    step b (finishes 0 9 (omega arith) refl)

idle_quiet : (j : ℕ) → idle.state.producer j ≡ outside
unfolding pool
idle_quiet j = ground arith

-- `stop` has notified all.
abbrev waits : Trace
unfolding pool
waits =
    let a : Trace = step idle (stops refl refl refl idle_quiet) in
    let b : Trace = step a (closes refl) in step b (notifies_all refl)

abbrev emptied : Trace
unfolding pool
emptied = step waits (polls_queue 0 (omega arith) refl)

emptied_gone : (i : ℕ) → i < 1 → emptied.state.worker i ≡ exited
unfolding pool
emptied_gone i lt = ground arith

abbrev over : Trace
unfolding pool
over = step emptied (joins refl emptied_gone)

taken-append-tasks_example : loaded.state.taken ++ loaded.state.renns.tasks ≡ loaded.state.pushed
unfolding pool
taken-append-tasks_example = taken-append-tasks (omega arith) loaded.reach

returned-drained_example :
    (over.state.taken ≡ over.state.pushed)
    × (over.state.renns.tasks ≡ [])
    × ((i : ℕ) → i < 1 → over.state.worker i ≡ exited)
    × ((j : ℕ) → over.state.producer j ≡ outside)
unfolding pool
returned-drained_example = returned-drained (omega arith) over.reach refl

tasks-served_example :
    ((i : ℕ) × (i < 1) × (busy (loaded.state.worker i) ≡ true))
    ⊎ ((j : ℕ) × (loaded.state.producer j ≡ announcing))
unfolding pool
tasks-served_example = tasks-served (omega arith) loaded.reach (λ h. cc h)

joining-awake_example : (waits.state.worker 0 ≡ exited) ⊎ (busy (waits.state.worker 0) ≡ true)
unfolding pool
joining-awake_example = joining-awake (omega arith) waits.reach refl 0
