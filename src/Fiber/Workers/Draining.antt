-- ===== src/Fiber/Workers/Draining.antt =====
-- The fibers of src/Fiber come to their end on any number of threads.
use renn.Prelude.{
  update, ℕ, zero, suc, ◌+◌, ◌<◌, ◌≡◌, refl, ap, true, false, Option, none, some, List, ◌∷◌, ◌==◌,
  arith,
}
use renn.Fiber.{Routine, done, yields}
use renn.Fiber.Workers.{
  Worker, idle, launching, running, starting, returned, Runtime, Step, takes, launches, launched,
  allocates, submits, suspends, finishes, resubmits, removes, new_runtime, submit, allocate, take,
  suspend, finish, remove, Reach,
}
use renn.Fiber.Workers.Invariant.{Inv, holds, is_some-some}
use renn.Fiber.Workers.Keeping.{take-some, suspend-some, taken, suspended}
use renn.Fiber.Workers.Placement.{runs-current, Reach-Inv}
use renn.Fiber.Workers.Work.{
  steps, queued_steps, queue_steps, worker_steps, sum_below, remaining, actor, brought, counted,
  Execution, initial, later, steps_taken, steps_brought, sum_below-except, queue_steps-append,
  queue_steps-update, worker_steps-update,
}

-- The thread `w` and the queue do the work; the other threads keep theirs.
balance :
    (n w a b : ℕ) (s t : Runtime)
    → w < n
    → ((v : ℕ)
        → (w == v) ≡ false
        → worker_steps t.fibers (t.worker v) ≡ worker_steps s.fibers (s.worker v))
    → queue_steps t.fibers t.tasks + worker_steps t.fibers (t.worker w) + a
      ≡ queue_steps s.fibers s.tasks + worker_steps s.fibers (s.worker w) + b
    → remaining n t + a ≡ remaining n s + b
balance n w a b s t lt others own = omega (
  arith,
  own,
  sum_below-except n w (λ v. worker_steps t.fibers (t.worker v))
      (λ v. worker_steps s.fibers (s.worker v)) lt others,
)

take-remaining :
    (n w f : ℕ) (fs : List ℕ) (s : Runtime)
    → w < n
    → s.worker w ≡ idle
    → s.tasks ≡ f ∷ fs
    → Inv s
    → remaining n (take w f fs s) + 1 ≡ remaining n s
take-remaining n w f fs s lt e q inv =
    let (r, is_r) = is_some-some (s.fibers f) (inv.queued f (rw q (ground arith))) in
    let b =
      balance n w 1 0 s (taken w f fs s r) lt (λ v ne. ground (arith, ne))
        (ground (arith, e, ap (queue_steps s.fibers) q, ap queued_steps is_r)) in
    rw (take-some w f fs s r is_r) (omega (arith, b))

submit-remaining :
    (n f w : ℕ) (k : Worker) (s : Runtime)
    → w < n
    → worker_steps s.fibers (s.worker w) ≡ suc (queued_steps (s.fibers f) + worker_steps s.fibers k)
    → remaining n (submit f w k s) + 1 ≡ remaining n s
unfolding submit
submit-remaining n f w k s lt e =
    let m =
      balance n w 1 0 s (submit f w k s) lt (λ v ne. ground (arith, ne))
        (ground (arith, e, queue_steps-append s.fibers s.tasks f)) in
    omega (arith, m)

allocate-remaining :
    (n c w a b : ℕ) (r : Routine) (k : Worker) (s : Runtime)
    → w < n
    → s.fibers c ≡ none
    → worker_steps (update s.fibers c (some r)) k + a ≡ worker_steps s.fibers (s.worker w) + b
    → Inv s
    → remaining n (allocate c r w k s) + a ≡ remaining n s + b
unfolding allocate
allocate-remaining n c w a b r k s lt dead e inv =
    balance n w a b s (allocate c r w k s) lt
      (λ v ne.
        ground (arith, ne, worker_steps-update s.fibers c (some r) (s.worker v), inv.held v c))
      (ground (arith, e, queue_steps-update s.fibers c (some r) s.tasks, inv.queued c))

suspend-remaining :
    (n w f : ℕ) (previous : Option ℕ) (rest : Routine) (s : Runtime)
    → w < n
    → s.worker w ≡ running f previous (yields rest)
    → Inv s
    → remaining n (suspend w previous rest s) + 1 ≡ remaining n s
suspend-remaining n w f previous rest s lt e inv =
    let mine : holds (s.worker w) f ≡ true = rw e (ground arith) in
    let b =
      balance n w 1 0 s (suspended w f previous rest s) lt
        (λ v ne. ground (
          arith,
          ne,
          worker_steps-update s.fibers f (some rest) (s.worker v),
          inv.sole w v f,
          mine,
        ))
        (ground (arith, e, queue_steps-update s.fibers f (some rest) s.tasks, inv.held w f mine)) in
    rw (suspend-some w f previous rest s (runs-current w f previous (yields rest) s e inv))
      (omega (arith, b))

finish-remaining :
    (n w f : ℕ) (previous : Option ℕ) (s : Runtime)
    → w < n
    → s.worker w ≡ running f previous done
    → remaining n (finish w f previous s) + 1 ≡ remaining n s
unfolding finish
finish-remaining n w f previous s lt e =
    let b =
      balance n w 1 0 s (finish w f previous s) lt (λ v ne. ground (arith, ne))
        (ground (arith, e)) in
    omega (arith, b)

remove-remaining :
    (n w f : ℕ) (s : Runtime)
    → w < n
    → s.worker w ≡ returned f true
    → Inv s
    → remaining n (remove w f s) + 1 ≡ remaining n s
unfolding remove
remove-remaining n w f s lt e inv =
    let mine : holds (s.worker w) f ≡ true = rw e (ground arith) in
    let b =
      balance n w 1 0 s (remove w f s) lt
        (λ v ne.
          ground
            (arith, ne, worker_steps-update s.fibers f none (s.worker v), inv.sole w v f, mine))
        (ground (arith, e, queue_steps-update s.fibers f none s.tasks, inv.held w f mine)) in
    omega (arith, b)

pub Step-remaining :
    {s t : Runtime} (n : ℕ) (st : Step s t)
    → actor st < n
    → Inv s
    → remaining n t + counted st ≡ remaining n s + brought st
Step-remaining {s} n (takes w f fs e q) lt inv = omega (arith, take-remaining n w f fs s lt e q inv)
Step-remaining {s} n (launches w c r e d) lt inv =
    allocate-remaining n c w 0 (2 + steps r) r (launching c) s lt d (ground (arith, e)) inv
Step-remaining {s} n (launched w c e) lt inv =
    omega (arith, submit-remaining n c w idle s lt (ground (arith, e)))
Step-remaining {s} n (allocates w c f previous child rest e d) lt inv =
    allocate-remaining n c w 1 0 child (starting c f previous rest) s lt d (ground (arith, e)) inv
Step-remaining {s} n (submits w c f previous rest e) lt inv =
    omega (arith, submit-remaining n c w (running f previous rest) s lt (ground (arith, e)))
Step-remaining {s} n (suspends w f previous rest e) lt inv =
    omega (arith, suspend-remaining n w f previous rest s lt e inv)
Step-remaining {s} n (finishes w f previous e) lt inv =
    omega (arith, finish-remaining n w f previous s lt e)
Step-remaining {s} n (resubmits w f e) lt inv =
    omega (arith, submit-remaining n f w idle s lt (ground (arith, e)))
Step-remaining {s} n (removes w f e) lt inv = omega (arith, remove-remaining n w f s lt e inv)

pub Execution-Reach : {n : ℕ} {s : Runtime} → Execution n s → Reach s
Execution-Reach initial = Reach.initial
Execution-Reach (later r st lt) = Reach.later (Execution-Reach r) st

pub sum_below-zero : (n : ℕ) → sum_below n (λ v. 0) ≡ 0
sum_below-zero zero = refl
sum_below-zero (suc n) = omega (arith, sum_below-zero n)

pub steps_taken-remaining :
    {n : ℕ} {s : Runtime} (r : Execution n s) → steps_taken r + remaining n s ≡ steps_brought r
unfolding new_runtime
steps_taken-remaining {n} initial = omega (arith, sum_below-zero n)
steps_taken-remaining {n} (later r st lt) =
    omega (arith, steps_taken-remaining r, Step-remaining n st lt (Reach-Inv (Execution-Reach r)))
