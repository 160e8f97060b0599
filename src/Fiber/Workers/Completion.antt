-- ===== src/Fiber/Workers/Completion.antt =====
-- A run of the fibers of src/Fiber on many threads is at its end, or goes on.
use renn.Prelude.{
  ℕ, zero, suc, ◌<◌, ◌≤◌, ◌≡◌, refl, ap, ◌⊎◌, inl, inr, true, false, Option, none, List, [], ◌∷◌,
  ◌==◌, arith, Bool-cases, ltb,
}
use renn.Fiber.{Routine, done, yields, goes}
use renn.Fiber.Queued.{is_some}
use renn.Fiber.Workers.{
  Worker, idle, launching, running, starting, returned, crashed, Runtime, Step, takes, launches,
  launched, allocates, submits, suspends, finishes, resubmits, removes,
}
use renn.Fiber.Workers.Invariant.{Inv, agrees}
use renn.Fiber.Workers.Placement.{Reach-Inv}
use renn.Fiber.Workers.Work.{
  steps, queue_steps, worker_steps, remaining, actor, brought, counted, Execution, steps_taken,
  steps_brought, sum_below_congr,
}
use renn.Fiber.Workers.Draining.{
  Execution-Reach, steps_taken-remaining, Step-remaining, sum_below-zero,
}
use renn.Fiber.Workers.Boundedness.{Execution-Bounded}

-- Nothing is left to do.
pub record Halted (s : Runtime) : Type 0 where
  pub empty : s.tasks ≡ []
  pub resting : (w : ℕ) → s.worker w ≡ idle
  pub deleted : (p : ℕ) → s.fibers p ≡ none

-- A thread below `n` can take a step that is not a `go` from outside.
pub record CanStep (n : ℕ) (s : Runtime) : Type 0 where
  pub result : Runtime
  pub move : Step s result
  pub within : actor move < n
  pub counts : counted move ≡ 1

Worker-CanStep :
    (n w c : ℕ) (k : Worker) (s : Runtime)
    → s.worker w ≡ k
    → w < n
    → s.fibers c ≡ none
    → 0 < worker_steps s.fibers k
    → CanStep n s
Worker-CanStep n w c idle s e lt d pos = absurd (omega arith)
Worker-CanStep n w c (launching child) s e lt d pos = record {
  result = _;
  move = launched w child e;
  within = lt;
  counts = refl;
}
Worker-CanStep n w c (running f previous done) s e lt d pos = record {
  result = _;
  move = finishes w f previous e;
  within = lt;
  counts = refl;
}
Worker-CanStep n w c (running f previous (yields rest)) s e lt d pos = record {
  result = _;
  move = suspends w f previous rest e;
  within = lt;
  counts = refl;
}
Worker-CanStep n w c (running f previous (goes child rest)) s e lt d pos = record {
  result = _;
  move = allocates w c f previous child rest e d;
  within = lt;
  counts = refl;
}
Worker-CanStep n w c (starting child f previous rest) s e lt d pos = record {
  result = _;
  move = submits w child f previous rest e;
  within = lt;
  counts = refl;
}
Worker-CanStep n w c (returned f true) s e lt d pos = record {
  result = _;
  move = removes w f e;
  within = lt;
  counts = refl;
}
Worker-CanStep n w c (returned f false) s e lt d pos = record {
  result = _;
  move = resubmits w f e;
  within = lt;
  counts = refl;
}
Worker-CanStep n w c crashed s e lt d pos = absurd (omega arith)

steps_pos : (r : Routine) → 0 < steps r
steps_pos done = omega arith
steps_pos (yields r) = omega arith
steps_pos (goes child r) = omega arith

worker_steps-idle :
    (c : ℕ → Option Routine) (k : Worker) (o : Option ℕ)
    → agrees k o ≡ true
    → worker_steps c k ≡ 0
    → k ≡ idle
worker_steps-idle c idle o a e = refl
worker_steps-idle c (launching child) o a e = absurd (omega arith)
worker_steps-idle c (running f previous r) o a e = absurd (omega (arith, steps_pos r))
worker_steps-idle c (starting child f previous r) o a e = absurd (omega arith)
worker_steps-idle c (returned f true) o a e = absurd (omega arith)
worker_steps-idle c (returned f false) o a e = absurd (omega arith)
worker_steps-idle c crashed o a e = absurd (cc)

-- Some term of a sum that is not 0, or every term is 0.
sum_below-cases :
    (n : ℕ) (g : ℕ → ℕ) → ((w : ℕ) × (w < n) × (0 < g w)) ⊎ ((w : ℕ) → w < n → g w ≡ 0)
sum_below-cases zero g = inr (λ w lt. absurd (omega arith))
sum_below-cases (suc n) g = elim (sum_below-cases n g) [
  | inl (w, lt, pos) ↦ inl (w, omega arith, pos)
  | inr none_below ↦ elim (Bool-cases (g n == 0)) [
    | inl e ↦ inr (λ w lt. ground (arith, none_below w))
    | inr ne ↦ inl (n, omega arith, ground (arith, ne))
  ]
]

-- Every thread rests: the queue is empty, or the thread 0 can take a task.
resting-cases :
    (n : ℕ) (s : Runtime) (ts : List ℕ)
    → s.tasks ≡ ts
    → 0 < n
    → Inv s
    → ((w : ℕ) → s.worker w ≡ idle)
    → Halted s ⊎ CanStep n s
resting-cases n s [] e pos inv rest = inl (record {
  empty = e;
  resting = rest;
  deleted = λ p. elim (Bool-cases (is_some (s.fibers p))) [
    | inr dead ↦ ground (arith, dead)
    | inl alive ↦ elim (inv.kept p alive) [
      | inl q ↦ absurd (ground (arith, q, e))
      | inr (w, h) ↦ absurd (ground (arith, h, rest w))
    ]
  ];
})
resting-cases n s (f ∷ fs) e pos inv rest =
    inr (record { result = _; move = takes 0 f fs (rest 0) e; within = pos; counts = refl })

progress : {n : ℕ} {s : Runtime} → Execution n s → 0 < n → Halted s ⊎ CanStep n s
progress {n} {s} r pos =
    let inv = Reach-Inv (Execution-Reach r) in
    let b = Execution-Bounded r in
    elim (sum_below-cases n (λ w. worker_steps s.fibers (s.worker w))) [
      | inl (w, lt, busy) ↦
          inr
            (Worker-CanStep n w b.bound (s.worker w) s refl lt (b.free b.bound (omega arith)) busy)
      | inr still ↦ resting-cases n s s.tasks refl pos inv (λ w. elim (Bool-cases (ltb w n)) [
        | inl below ↦
            worker_steps-idle s.fibers (s.worker w) (s.current w) (inv.current w)
              (still w (ground (arith, below)))
        | inr above ↦ b.unused w (ground (arith, above))
      ])
    ]

counted-brought : {s t : Runtime} (st : Step s t) → counted st ≡ 1 → brought st ≡ 0
counted-brought (takes w f fs e q) c = refl
counted-brought (launches w c r e d) x = absurd (omega arith)
counted-brought (launched w c e) x = refl
counted-brought (allocates w c f previous child rest e d) x = refl
counted-brought (submits w c f previous rest e) x = refl
counted-brought (suspends w f previous rest e) x = refl
counted-brought (finishes w f previous e) x = refl
counted-brought (resubmits w f e) x = refl
counted-brought (removes w f e) x = refl

Halted-remaining : (n : ℕ) (s : Runtime) → Halted s → remaining n s ≡ 0
Halted-remaining n s h = omega (
  arith,
  ap (queue_steps s.fibers) h.empty,
  sum_below_congr n (λ w. worker_steps s.fibers (s.worker w)) (λ v. 0)
      (λ v lt. ap (worker_steps s.fibers) (h.resting v)),
  sum_below-zero n,
)

CanStep-remaining : {n : ℕ} {s : Runtime} → Inv s → CanStep n s → 0 < remaining n s
CanStep-remaining {n} inv c =
    omega (arith, Step-remaining n c.move c.within inv, c.counts, counted-brought c.move c.counts)

-- Let at least one thread run the fibers, interleaved in any order. Up to any point of a run the
-- threads have taken at most as many steps as the routines that were passed to `go` from outside
-- need by their calls of `yield` and `go`, the calls of outside `go` themselves not counted. With
-- exactly as many the queue is empty, every thread rests and every fiber is deleted; with fewer some
-- thread can take another such step.
pub steps_taken-drains :
    {n : ℕ} {s : Runtime} (r : Execution n s)
    → 0 < n
    → (steps_taken r ≤ steps_brought r)
      × (steps_taken r ≡ steps_brought r → Halted s)
      × (steps_taken r < steps_brought r → CanStep n s)
steps_taken-drains {n} {s} r pos =
    let count = steps_taken-remaining r in
    let inv = Reach-Inv (Execution-Reach r) in
    (
      omega (arith, count),
      λ e. elim (progress r pos) [
        | inl h ↦ h
        | inr c ↦ absurd (omega (arith, count, CanStep-remaining inv c))
      ],
      λ lt. elim (progress r pos) [
        | inl h ↦ absurd (omega (arith, count, Halted-remaining n s h))
        | inr c ↦ c
      ],
    )
