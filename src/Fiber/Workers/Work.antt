-- ===== src/Fiber/Workers/Work.antt =====
-- How many steps the fibers of src/Fiber still need on many threads.
use renn.Prelude.{
  update, ℕ, zero, suc, ◌+◌, ◌<◌, ◌≡◌, refl, true, false, Option, none, some, List, [], ◌∷◌, ◌++◌,
  ◌==◌, arith, ap, inl, inr, Bool-cases, ==_iff,
}
use renn.Fiber.{Routine, done, yields, goes}
use renn.Fiber.Queued.{has}
use renn.Fiber.Workers.{
  Worker, idle, launching, running, starting, returned, crashed, Runtime, Step, takes, launches,
  launched, allocates, submits, suspends, finishes, resubmits, removes, new_runtime,
}
use renn.Fiber.Workers.Invariant.{holds}

-- The steps from the start of a routine to its deletion, those of its children included: `yield` is
-- a suspension, a submission and a resumption; `go` an allocation, a submission and the child's first
-- resumption.
abbrev pub steps : Routine → ℕ
steps done = 2
steps (yields r) = 3 + steps r
steps (goes child r) = 3 + steps child + steps r

-- From the queue on.
abbrev pub queued_steps : Option Routine → ℕ
queued_steps none = 0
queued_steps (some r) = 1 + steps r

abbrev pub queue_steps : (ℕ → Option Routine) → List ℕ → ℕ
queue_steps c [] = 0
queue_steps c (f ∷ fs) = queued_steps (c f) + queue_steps c fs

-- What a thread has to do, and what becomes of the fibers that it holds.
abbrev pub worker_steps : (ℕ → Option Routine) → Worker → ℕ
worker_steps c idle = 0
worker_steps c (launching child) = 1 + queued_steps (c child)
worker_steps c (running f previous r) = steps r
worker_steps c (starting child f previous r) = 1 + queued_steps (c child) + steps r
worker_steps c (returned f true) = 1
worker_steps c (returned f false) = 1 + queued_steps (c f)
worker_steps c crashed = 0

abbrev pub sum_below : ℕ → (ℕ → ℕ) → ℕ
sum_below zero g = 0
sum_below (suc n) g = g n + sum_below n g

abbrev pub remaining : (threads : ℕ) → Runtime → ℕ
remaining n s = queue_steps s.fibers s.tasks + sum_below n (λ w. worker_steps s.fibers (s.worker w))

-- The thread that a step is of, whether it counts, and the work that a `go` from outside brings.
abbrev pub actor : {s t : Runtime} → Step s t → ℕ
actor (takes w f fs e q) = w
actor (launches w c r e d) = w
actor (launched w c e) = w
actor (allocates w c f previous child rest e d) = w
actor (submits w c f previous rest e) = w
actor (suspends w f previous rest e) = w
actor (finishes w f previous e) = w
actor (resubmits w f e) = w
actor (removes w f e) = w

abbrev pub brought : {s t : Runtime} → Step s t → ℕ
brought (launches w c r e d) = 2 + steps r
brought _ = 0

abbrev pub counted : {s t : Runtime} → Step s t → ℕ
counted (launches w c r e d) = 0
counted _ = 1

-- A run of the threads below `n`.
pub data Execution (n : ℕ) : Runtime → Type 0 where
  initial : Execution n new_runtime
  later : {s t : Runtime} → Execution n s → (st : Step s t) → actor st < n → Execution n t

abbrev pub steps_taken : {n : ℕ} {s : Runtime} → Execution n s → ℕ
steps_taken initial = 0
steps_taken (later r st lt) = steps_taken r + counted st

abbrev pub steps_brought : {n : ℕ} {s : Runtime} → Execution n s → ℕ
steps_brought initial = 0
steps_brought (later r st lt) = steps_brought r + brought st

pub sum_below_congr :
    (n : ℕ) (g h : ℕ → ℕ) → ((v : ℕ) → v < n → g v ≡ h v) → sum_below n g ≡ sum_below n h
sum_below_congr zero g h e = refl
sum_below_congr (suc n) g h e =
    omega (arith, e n (omega arith), sum_below_congr n g h (λ v lt. e v (omega arith)))

-- Only the term at `w` differs.
pub sum_below-except :
    (n w : ℕ) (g h : ℕ → ℕ)
    → w < n
    → ((v : ℕ) → (w == v) ≡ false → g v ≡ h v)
    → sum_below n g + h w ≡ sum_below n h + g w
sum_below-except zero w g h lt e = absurd (omega arith)
sum_below-except (suc n) w g h lt e = elim (Bool-cases (w == n)) [
  | inl hit ↦
      let here : w ≡ n = (==_iff w n).0 hit in
      omega
        (arith, ap g here, ap h here, sum_below_congr n g h (λ v below. e v (ground (arith, hit))))
  | inr miss ↦ omega (arith, e n miss, sum_below-except n w g h (ground (arith, miss)) e)
]

pub queue_steps-append :
    (c : ℕ → Option Routine) (xs : List ℕ) (y : ℕ)
    → queue_steps c (xs ++ y ∷ []) ≡ queue_steps c xs + queued_steps (c y)
queue_steps-append c [] y = omega arith
queue_steps-append c (x ∷ xs) y = omega (arith, queue_steps-append c xs y)

pub queue_steps-update :
    (c : ℕ → Option Routine) (p : ℕ) (r : Option Routine) (xs : List ℕ)
    → has p xs ≡ false
    → queue_steps (update c p r) xs ≡ queue_steps c xs
queue_steps-update c p r [] e = refl
queue_steps-update c p r (x ∷ xs) e = ground (arith, queue_steps-update c p r xs)

pub worker_steps-update :
    (c : ℕ → Option Routine) (p : ℕ) (r : Option Routine) (k : Worker)
    → holds k p ≡ false
    → worker_steps (update c p r) k ≡ worker_steps c k
worker_steps-update c p r idle e = refl
worker_steps-update c p r (launching child) e = ground arith
worker_steps-update c p r (running f previous rest) e = refl
worker_steps-update c p r (starting child f previous rest) e = ground arith
worker_steps-update c p r (returned f true) e = refl
worker_steps-update c p r (returned f false) e = ground arith
worker_steps-update c p r crashed e = refl
