-- ===== src/Scheduling/ThreadPool/Invariant.antt =====
-- What holds in every state that the pool can reach.
use renn.Prelude.{
  update, ℕ, ◌<◌, ◌≡◌, ◌≢◌, Bool, true, false, List, [], ◌∷◌, ◌++◌, arith, refl, ap, sym, ◌∙◌,
}
use mathlib.Core.Path.{subst}
use mathlib.Core.List.{append_assoc}
use renn.Scheduling.Queue.{pop, pop_from}
use renn.Scheduling.ThreadPool.{
  Worker, unborn, polling, waiting, woken, running, exited, outside, announcing, Manager, created,
  stopping, closing, joining, returned, Pool, polls, polled, poll,
}

-- A worker that goes on without being woken.
abbrev pub busy {ℓ} : {T : Type ℓ} → Worker T → Bool
busy polling = true
busy woken = true
busy (running _) = true
busy _ = false

abbrev pub shut : Manager → Bool
shut closing = true
shut joining = true
shut returned = true
shut _ = false

abbrev pub notified : Manager → Bool
notified joining = true
notified returned = true
notified _ = false

module _ {ℓ} {T : Type ℓ} where
  -- Somebody sees to the items: a worker, or a thread that is about to notify one.
  pub data Served (n : ℕ) (s : Pool T) : Type ℓ where
    nothing : s.renns.tasks ≡ [] → Served n s
    by_worker : (i : ℕ) → i < n → busy (s.worker i) ≡ true → Served n s
    by_producer : (j : ℕ) → s.producer j ≡ announcing → Served n s

  pub record Inv (n : ℕ) (s : Pool T) : Type ℓ where
    pub fifo : s.taken ++ s.renns.tasks ≡ s.pushed
    pub ended : (i : ℕ) → s.worker i ≡ exited → (s.renns.is_closed ≡ true) × (s.renns.tasks ≡ [])
    pub closed_stopped : s.renns.is_closed ≡ true → s.stopped ≡ true
    pub quiet : s.stopped ≡ true → (j : ℕ) → s.producer j ≡ outside
    pub idle_start : s.started ≡ false → (j : ℕ) → s.producer j ≡ outside
    pub born : s.started ≡ true → (i : ℕ) → s.worker i ≢ unborn
    pub created_start : s.started ≡ false → s.manager ≡ created
    pub halting : s.manager ≡ stopping → s.stopped ≡ true
    pub shut_closed : shut s.manager ≡ true → s.renns.is_closed ≡ true
    pub awake : notified s.manager ≡ true → (i : ℕ) → s.worker i ≢ waiting
    pub gone : s.manager ≡ returned → (i : ℕ) → i < n → s.worker i ≡ exited
    pub served : Served n s

  pub Served-congr :
      {n : ℕ} (s u : Pool T)
      → u.renns.tasks ≡ s.renns.tasks
      → u.worker ≡ s.worker
      → u.producer ≡ s.producer
      → Served n s
      → Served n u
  Served-congr s u e f g (nothing h) = nothing (e ∙ h)
  Served-congr s u e f g (by_worker i lt h) = by_worker i lt (ap (λ w. busy (w i)) f ∙ h)
  Served-congr s u e f g (by_producer j h) = by_producer j (ap (λ p. p j) g ∙ h)

  data Polls (i : ℕ) (s : Pool T) : Type ℓ where
    went_to_sleep :
        s.renns.tasks ≡ []
        → s.renns.is_closed ≡ false
        → poll i s ≡ record s { worker = update s.worker i waiting }
        → Polls i s
    left :
        s.renns.tasks ≡ []
        → s.renns.is_closed ≡ true
        → poll i s ≡ record s { worker = update s.worker i exited }
        → Polls i s
    took :
        (t : T) (ts : List T)
        → s.renns.tasks ≡ t ∷ ts
        → poll i s ≡ record s {
          renns = record { tasks = ts; is_closed = s.renns.is_closed };
          worker = update s.worker i (running t);
          taken = s.taken ++ t ∷ [];
        }
        → Polls i s

  poll-Polls :
      (i : ℕ) (s : Pool T) (ts : List T) (b : Bool)
      → s.renns.tasks ≡ ts
      → s.renns.is_closed ≡ b
      → Polls i s
  unfolding poll pop
  poll-Polls i s [] false e f = went_to_sleep e f (rw (e, f, pop_from, polled))
  poll-Polls i s [] true e f = left e f (rw (e, f, pop_from, polled))
  poll-Polls i s (t ∷ ts) b e f = took t ts e (rw (e, pop_from, polled))

-- One round of `pop` in a worker keeps the invariant.
module _ {ℓ} {T : Type ℓ} {n : ℕ} {s : Pool T} (inv : Inv n s) (i : ℕ) (lt : i < n)
    (ready : polls (s.worker i) ≡ true) where
  sleeps-Inv :
      s.renns.tasks ≡ []
      → s.renns.is_closed ≡ false
      → Inv n (record s { worker = update s.worker i waiting })
  sleeps-Inv bare open_queue = record {
    fifo = inv.fifo;
    ended = λ k e. inv.ended k (ground arith);
    closed_stopped = inv.closed_stopped;
    quiet = inv.quiet;
    idle_start = inv.idle_start;
    born = λ h k e. inv.born h k (ground arith);
    created_start = inv.created_start;
    halting = inv.halting;
    shut_closed = inv.shut_closed;
    awake = λ h k. ground (arith, inv.shut_closed);
    gone = λ h k below. ground (arith, inv.gone h i lt);
    served = nothing bare;
  }

  leaves-Inv :
      s.renns.tasks ≡ []
      → s.renns.is_closed ≡ true
      → Inv n (record s { worker = update s.worker i exited })
  leaves-Inv bare closed = record {
    fifo = inv.fifo;
    ended = λ k e. (closed, bare);
    closed_stopped = inv.closed_stopped;
    quiet = inv.quiet;
    idle_start = inv.idle_start;
    born = λ h k e. inv.born h k (ground arith);
    created_start = inv.created_start;
    halting = inv.halting;
    shut_closed = inv.shut_closed;
    awake = λ h k e. inv.awake h k (ground arith);
    gone = λ h k below. ground (arith, inv.gone h k below);
    served = nothing bare;
  }

  takes-Inv :
      (t : T) (ts : List T)
      → s.renns.tasks ≡ t ∷ ts
      → Inv n (record s {
        renns = record { tasks = ts; is_closed = s.renns.is_closed };
        worker = update s.worker i (running t);
        taken = s.taken ++ t ∷ [];
      })
  takes-Inv t ts e = record {
    fifo = append_assoc s.taken (t ∷ []) ts ∙ ap (λ q. s.taken ++ q) (sym e) ∙ inv.fifo;
    ended = λ k h. absurd (ground (arith, inv.ended k));
    closed_stopped = inv.closed_stopped;
    quiet = inv.quiet;
    idle_start = inv.idle_start;
    born = λ h k g. inv.born h k (ground arith);
    created_start = inv.created_start;
    halting = inv.halting;
    shut_closed = inv.shut_closed;
    awake = λ h k g. inv.awake h k (ground arith);
    gone = λ h k below. ground (arith, inv.gone h i lt);
    served = by_worker i lt (ground arith);
  }

  pub poll-Inv : Inv n (poll i s)
  poll-Inv = elim (poll-Polls i s s.renns.tasks s.renns.is_closed refl refl) [
    | went_to_sleep bare open_queue e ↦ subst (Inv n) (sym e) (sleeps-Inv bare open_queue)
    | left bare closed e ↦ subst (Inv n) (sym e) (leaves-Inv bare closed)
    | took t ts h e ↦ subst (Inv n) (sym e) (takes-Inv t ts h)
  ]
