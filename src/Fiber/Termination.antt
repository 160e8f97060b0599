-- ===== src/Fiber/Termination.antt =====
-- Every fiber of src/Fiber/Core/Fiber.cc is resumed as often as it yields and once more, and is
-- deleted then.
use renn.Prelude.{
  ℕ, zero, suc, ◌+◌, ◌≤◌, ◌<◌, ◌≡◌, refl, ap, ◌∙◌, false, Option, none, some, List, [], ◌∷◌, arith,
  length, length-append,
}
use mathlib.Core.Path.{subst}
use renn.Prelude.Effect.{ok}
use renn.Fiber.Queued.{cost, cost_of, total, has, is_some, Queued}
use renn.Fiber.{Routine, done, yields, goes, Runtime, step, run_tasks}
use renn.Fiber.Resumption.{Idle, step-Stepped}

pub record Finished (s t : Runtime) : Type 0 where
  pub empty : t.tasks ≡ []
  pub deleted : (p : ℕ) → t.fibers p ≡ none
  pub count : length t.resumed ≡ length s.resumed + total s.fibers s.tasks
  pub restored : t.current ≡ s.current

cost-pos : (r : Routine) → 0 < cost r
cost-pos done = omega arith
cost-pos (yields r) = omega arith
cost-pos (goes child r) = omega (arith, cost-pos r)

total-pos :
    (f : ℕ) (fs : List ℕ) (c : ℕ → Option Routine) (free : ℕ)
    → Queued c (f ∷ fs) free
    → 0 < total c (f ∷ fs)
total-pos f fs c free q = go_on (c f) refl
  where
    go_on : (o : Option Routine) → c f ≡ o → 0 < cost_of (c f) + total c fs
    go_on none e = absurd (ground (arith, q.alive f))
    go_on (some r) e = omega (arith, cost-pos r, ap cost_of e)

nothing_left : (s : Runtime) → Idle s → s.tasks ≡ [] → Finished s s
nothing_left s q e = record {
  empty = e;
  deleted = λ p. none_alive (s.fibers p) (q.alive p ∙ ap (has p) e);
  count = omega (arith, ap (total s.fibers) e);
  restored = refl;
}
  where
    none_alive : (o : Option Routine) → is_some o ≡ false → o ≡ none
    none_alive none h = refl
    none_alive (some r) h = cc h

run_tasks-end : (fuel : ℕ) (s : Runtime) → s.tasks ≡ [] → run_tasks fuel s ≡ ok tt s
unfolding run_tasks
run_tasks-end zero s e = refl
run_tasks-end (suc fuel) s e = simp (run_tasks, e) refl

run_tasks-task :
    (fuel f : ℕ) (fs : List ℕ) (s t : Runtime)
    → s.tasks ≡ f ∷ fs
    → step f (record s { tasks = fs }) ≡ ok tt t
    → run_tasks (suc fuel) s ≡ run_tasks fuel t
unfolding run_tasks
run_tasks-task fuel f fs s t e h = simp (run_tasks, e, h) refl

-- From a state in which the tasks are the fibers that are alive, each once, and the addresses from
-- `next_free` on are unused, the scheduler returns normally, so that it resumes no deleted fiber,
-- with as much fuel as the fibers and those that they start yield, and one more for each of them,
-- or with more fuel. No task is left, every fiber is deleted, the number of resumptions has grown
-- by exactly that count, and `current` is as before.
pub run_tasks-Finished :
    (fuel : ℕ) (s : Runtime)
    → Idle s
    → total s.fibers s.tasks ≤ fuel
    → (t : Runtime) × (run_tasks fuel s ≡ ok tt t) × Finished s t
run_tasks-Finished zero s q le = go_on s.tasks refl
  where
    go_on :
        (ts : List ℕ) → s.tasks ≡ ts → (t : Runtime) × (run_tasks zero s ≡ ok tt t) × Finished s t
    go_on [] e = (s, run_tasks-end zero s e, nothing_left s q e)
    go_on (f ∷ fs) e = absurd (
        omega (
          arith,
          total-pos f fs s.fibers s.next_free (subst (λ l. Queued s.fibers l s.next_free) e q),
          ap (total s.fibers) e,
        ))
run_tasks-Finished (suc fuel) s q le = go_on s.tasks refl (run_tasks-Finished fuel)
  where
    go_on :
        (ts : List ℕ)
        → s.tasks ≡ ts
        → ((u : Runtime)
            → Idle u
            → total u.fibers u.tasks ≤ fuel
            → (t : Runtime) × (run_tasks fuel u ≡ ok tt t) × Finished u t)
        → (t : Runtime) × (run_tasks (suc fuel) s ≡ ok tt t) × Finished s t
    go_on [] e ih = (s, run_tasks-end (suc fuel) s e, nothing_left s q e)
    go_on (f ∷ fs) e ih =
        let (u, h, m) =
          step-Stepped f (record s { tasks = fs })
            (subst (λ l. Queued s.fibers l s.next_free) e q) in
        let (t, k, d) = ih u m.idle (omega (arith, m.costs, ap (total s.fibers) e)) in
        (
          t,
          run_tasks-task fuel f fs s u e h ∙ k,
          record {
            empty = d.empty;
            deleted = d.deleted;
            count = omega (
              arith,
              d.count,
              m.costs,
              ap (total s.fibers) e,
              ap length m.log,
              length-append s.resumed (f ∷ []),
            );
            restored = d.restored ∙ m.restored;
          },
        )
