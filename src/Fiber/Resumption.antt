-- ===== src/Fiber/Resumption.antt =====
-- One resumption of a fiber of src/Fiber/Core/Fiber.cc, and what the scheduler then does with it.
use renn.Prelude.{
  update, ℕ, suc, ◌+◌, ◌<◌, ◌≡◌, refl, ap, ◌∙◌, false, Option, none, some, [], ◌∷◌, ◌++◌, arith,
}
use renn.Prelude.Effect.{ok}
use renn.Fiber.Queued.{
  cost, cost_of, total, has, Queued, has-append, append-HasDistinct, total-append, total-update,
}
use renn.Fiber.{Routine, done, yields, goes, Runtime, schedule, go, resume, settle, step}

-- While the fiber `f` runs, its task is taken and the others are queued.
pub record Running (f : ℕ) (s : Runtime) : Type 0 where
  pub queued : Queued (update s.fibers f none) s.tasks s.next_free
  pub old : f < s.next_free

go-Running : (f : ℕ) (r : Routine) (s : Runtime) → Running f s → Running f (go r s)
unfolding go schedule
go-Running f r s h = record {
  queued = record {
    alive = λ p. ground (arith, h.queued.alive p, has-append p s.tasks s.next_free, h.old);
    distinct =
        append-HasDistinct s.tasks s.next_free h.queued.distinct
          (h.queued.fresh s.next_free (omega arith));
    fresh = λ p le. ground (arith, has-append p s.tasks s.next_free, h.queued.fresh p);
  };
  old = omega (arith, h.old);
}

go-total :
    (f : ℕ) (r : Routine) (s : Runtime)
    → Running f s
    → total (go r s).fibers (go r s).tasks ≡ total s.fibers s.tasks + cost r
unfolding go schedule
go-total f r s h =
    let here : update s.fibers s.next_free (some r) s.next_free ≡ some r = ground arith in
    total-append (update s.fibers s.next_free (some r)) s.tasks s.next_free
    ∙ omega (
      arith,
      total-update s.fibers s.next_free (some r) s.tasks (h.queued.fresh s.next_free (omega arith)),
      ap cost_of here,
    )

record Resumed (f : ℕ) (r : Routine) (s : Runtime) (out : Option Routine × Runtime) : Type 0 where
  pub running : Running f out.1
  pub costs : suc (cost_of out.0 + total out.1.fibers out.1.tasks) ≡ total s.fibers s.tasks + cost r
  pub log : out.1.resumed ≡ s.resumed

resume-Resumed : (f : ℕ) (r : Routine) (s : Runtime) → Running f s → Resumed f r s (resume r s)
unfolding resume
resume-Resumed f done s h = record { running = h; costs = omega arith; log = refl }
resume-Resumed f (yields r) s h = record { running = h; costs = omega arith; log = refl }
resume-Resumed f (goes child r) s h =
    let m = resume-Resumed f r (go child s) (go-Running f child s h) in
    record {
      running = m.running;
      costs = m.costs ∙ omega (arith, go-total f child s h);
      log = m.log ∙ go-log child s;
    }
  where
    go-log : (c : Routine) (t : Runtime) → (go c t).resumed ≡ t.resumed
    go-log c t = unfold go schedule in refl

-- What holds between two tasks.
abbrev pub Idle : Runtime → Type 0
Idle s = Queued s.fibers s.tasks s.next_free

-- One task: the fiber is resumed once, `current` is as before, and one resumption less is to come.
pub record Stepped (f : ℕ) (s t : Runtime) : Type 0 where
  pub idle : Idle t
  pub costs : suc (total t.fibers t.tasks) ≡ total s.fibers (f ∷ s.tasks)
  pub log : t.resumed ≡ s.resumed ++ f ∷ []
  pub restored : t.current ≡ s.current

absent : (f : ℕ) (s : Runtime) → Running f s → has f s.tasks ≡ false
absent f s h = ground (arith, h.queued.alive f)

settle-Idle :
    (f : ℕ) (cur : Option ℕ) (o : Option Routine) (s : Runtime)
    → Running f s
    → Idle (settle f cur (o, s))
unfolding settle schedule
settle-Idle f cur none s h = h.queued
settle-Idle f cur (some rest) s h = record {
  alive = λ p. ground (arith, h.queued.alive p, has-append p s.tasks f);
  distinct = append-HasDistinct s.tasks f h.queued.distinct (absent f s h);
  fresh = λ p le. ground (arith, has-append p s.tasks f, h.queued.fresh p, h.old);
}

settle-total :
    (f : ℕ) (cur : Option ℕ) (o : Option Routine) (s : Runtime)
    → Running f s
    → total (settle f cur (o, s)).fibers (settle f cur (o, s)).tasks
      ≡ cost_of o + total s.fibers s.tasks
unfolding settle schedule
settle-total f cur none s h = omega (arith, total-update s.fibers f none s.tasks (absent f s h))
settle-total f cur (some rest) s h =
    let here : update s.fibers f (some rest) f ≡ some rest = ground arith in
    total-append (update s.fibers f (some rest)) s.tasks f
    ∙ omega (arith, total-update s.fibers f (some rest) s.tasks (absent f s h), ap cost_of here)

settle-log :
    (f : ℕ) (cur : Option ℕ) (o : Option Routine × Runtime) → (settle f cur o).resumed ≡ o.1.resumed
unfolding settle schedule
settle-log f cur (none, s) = refl
settle-log f cur (some rest, s) = refl

settle-current :
    (f : ℕ) (cur : Option ℕ) (o : Option Routine × Runtime) → (settle f cur o).current ≡ cur
unfolding settle schedule
settle-current f cur (none, s) = refl
settle-current f cur (some rest, s) = refl

taken-Running : (f : ℕ) (s : Runtime) → Queued s.fibers (f ∷ s.tasks) s.next_free → Running f s
taken-Running f s q = record {
  queued = record {
    alive = λ p. ground (arith, q.alive p, q.distinct.0);
    distinct = q.distinct.1;
    fresh = λ p le. ground (arith, q.fresh p le);
  };
  old = ground (arith, q.fresh f);
}

step-alive :
    (f : ℕ) (s : Runtime) (r : Routine)
    → s.fibers f ≡ some r
    → step f s
      ≡ ok tt (
          settle f s.current
            (resume r (record s { current = some f; resumed = s.resumed ++ f ∷ [] })))
unfolding step
step-alive f s r e = simp (step, e) refl

pub step-Stepped :
    (f : ℕ) (s : Runtime)
    → Queued s.fibers (f ∷ s.tasks) s.next_free
    → (t : Runtime) × (step f s ≡ ok tt t) × Stepped f s t
step-Stepped f s q = go_on (s.fibers f) refl
  where
    b : Runtime
    b = record s { current = some f; resumed = s.resumed ++ f ∷ [] }

    go_on :
        (o : Option Routine) → s.fibers f ≡ o → (t : Runtime) × (step f s ≡ ok tt t) × Stepped f s t
    go_on none e = absurd (ground (arith, q.alive f))
    go_on (some r) e =
        let run : Running f b = record {
          queued = (taken-Running f s q).queued;
          old = (taken-Running f s q).old;
        } in
        let m = resume-Resumed f r b run in
        let out = resume r b in
        (
          settle f s.current out,
          step-alive f s r e,
          record {
            idle = settle-Idle f s.current out.0 out.1 m.running;
            costs =
                omega
                  (arith, settle-total f s.current out.0 out.1 m.running, m.costs, ap cost_of e);
            log = settle-log f s.current out ∙ m.log;
            restored = settle-current f s.current out;
          },
        )
