-- ===== src/Fiber/Workers/Placement.antt =====
-- Where the fibers of src/Fiber are while many threads run them.
use renn.Prelude.{
  ℕ, ◌≡◌, ◌≢◌, refl, inl, inr, true, false, Option, some, ◌==◌, arith, ap, ◌∙◌, sym, Bool-cases,
}
use renn.Fiber.{Routine, goes}
use renn.Fiber.Queued.{has, is_some, HasDistinct}
use renn.Fiber.Workers.Invariant.{Inv, holds, agrees, agrees-running, agrees-starting}
use renn.Fiber.Workers.Keeping.{
  take-Inv, submit-Inv, allocate-Inv, suspend-Inv, finish-Inv, remove-Inv,
}
use renn.Fiber.Workers.{
  idle, launching, running, starting, crashed, Runtime, new_runtime, Step, takes, launches,
  launched, allocates, submits, suspends, finishes, resubmits, removes, Reach, initial, later,
}

pub runs-current :
    (w f : ℕ) (previous : Option ℕ) (r : Routine) (s : Runtime)
    → s.worker w ≡ running f previous r
    → Inv s
    → s.current w ≡ some f
runs-current w f previous r s e inv =
    agrees-running f previous r (s.current w)
      (ap (λ k. agrees k (s.current w)) (sym e) ∙ inv.current w)

pub Step-Inv : {s t : Runtime} → Step s t → Inv s → Inv t
Step-Inv {s} (takes w f fs e q) inv = take-Inv w f fs s e q inv
Step-Inv {s} (launches w c r e d) inv =
    allocate-Inv c r w (launching c) s d (λ p. rw e (ground arith)) refl inv
Step-Inv {s} (launched w c e) inv =
    submit-Inv c w idle s (rw e (ground arith)) refl (λ p. rw e (ground arith)) refl inv
Step-Inv {s} (allocates w c f previous child rest e d) inv =
    let here = runs-current w f previous (goes child rest) s e inv in
    let alive = (inv.held w f (rw e (ground arith))).0 in
    allocate-Inv c child w (starting c f previous rest) s d (λ p. rw e refl)
      (rw here (ground (arith, alive, d))) inv
Step-Inv {s} (submits w c f previous rest e) inv =
    let (here, apart) =
      agrees-starting c f previous rest (s.current w)
        (ap (λ k. agrees k (s.current w)) (sym e) ∙ inv.current w) in
    submit-Inv c w (running f previous rest) s (rw e (ground arith)) (ground arith) (λ p. rw e refl)
      (rw here (ground arith)) inv
Step-Inv {s} (suspends w f previous rest e) inv = suspend-Inv w f previous rest s e inv
Step-Inv {s} (finishes w f previous e) inv = finish-Inv w f previous s e inv
Step-Inv {s} (resubmits w f e) inv =
    submit-Inv f w idle s (rw e (ground arith)) refl (λ p. rw e (ground arith)) refl inv
Step-Inv {s} (removes w f e) inv = remove-Inv w f s e inv

pub Reach-Inv : {s : Runtime} → Reach s → Inv s
unfolding new_runtime
Reach-Inv initial = record {
  queued = λ p. ground arith;
  distinct = tt;
  held = λ w p h. absurd (cc);
  sole = λ w v p h. absurd (cc);
  current = λ w. refl;
  kept = λ p a. absurd (cc);
}
Reach-Inv (later r st) = Step-Inv st (Reach-Inv r)

-- The places of a fiber: none, the queue, or one thread.
pub data Place (s : Runtime) (p : ℕ) : Type 0 where
  deleted :
      is_some (s.fibers p) ≡ false
      → has p s.tasks ≡ false
      → ((w : ℕ) → holds (s.worker w) p ≡ false)
      → Place s p
  queued :
      is_some (s.fibers p) ≡ true
      → has p s.tasks ≡ true
      → ((w : ℕ) → holds (s.worker w) p ≡ false)
      → Place s p
  with_worker :
      (w : ℕ)
      → is_some (s.fibers p) ≡ true
      → has p s.tasks ≡ false
      → ((v : ℕ) → holds (s.worker v) p ≡ (v == w))
      → Place s p

pub record IsSound (s : Runtime) : Type 0 where
  pub place : (p : ℕ) → Place s p
  pub once : HasDistinct s.tasks
  pub current :
      (w f : ℕ) (previous : Option ℕ) (rest : Routine)
      → s.worker w ≡ running f previous rest
      → s.current w ≡ some f
  pub defined : (w : ℕ) → s.worker w ≢ crashed

Inv-Place : (s : Runtime) (p : ℕ) → Inv s → Place s p
Inv-Place s p inv = elim (Bool-cases (is_some (s.fibers p))) [
  | inr gone ↦ deleted gone (ground (arith, inv.queued p)) (λ w. ground (arith, inv.held w p))
  | inl alive ↦ elim (inv.kept p alive) [
    | inl q ↦ queued alive q (λ w. ground (arith, inv.held w p))
    | inr (w, h) ↦ with_worker w alive (inv.held w p h).1 (λ v. ground (arith, h, inv.sole v w p))
  ]
]

-- However any number of threads run the fibers, in every reachable state each fiber is deleted and
-- nowhere, or one task of the queue and with no thread, or with exactly one thread and not in the
-- queue; no fiber is queued twice, the current fiber of a thread is the one that it runs, so that
-- `yield` suspends that one, and no thread has resumed a deleted fiber or suspended none.
pub Reach-IsSound : {s : Runtime} → Reach s → IsSound s
Reach-IsSound {s} r =
    let inv = Reach-Inv r in
    record {
      place = λ p. Inv-Place s p inv;
      once = inv.distinct;
      current = λ w f previous rest e. runs-current w f previous rest s e inv;
      defined = λ w e. absurd (ground (arith, inv.current w, e));
    }
