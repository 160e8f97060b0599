-- ===== src/Fiber/Workers/Keeping.antt =====
-- Each step of a thread that runs the fibers of src/Fiber keeps what holds between them.
use renn.Prelude.{
  update, ℕ, ◌≡◌, refl, inl, inr, true, false, ◌||◌, Option, none, some, List, ◌∷◌, ◌==◌, arith, ap,
  ◌∙◌, sym, Bool-cases,
}
use mathlib.Core.Path.{subst}
use renn.Fiber.{Routine, done, yields}
use renn.Fiber.Queued.{has, is_some, HasDistinct, has-append, append-HasDistinct}
use renn.Fiber.Workers.{
  Worker, idle, running, returned, Runtime, submit, allocate, take, suspend, finish, remove,
}
use renn.Fiber.Workers.Invariant.{Inv, holds, agrees, holds-update, is_some-some, agrees-running}

-- The task's fiber is alive.
abbrev pub taken : (w f : ℕ) → List ℕ → Runtime → Routine → Runtime
taken w f fs s r = record s {
  tasks = fs;
  worker = update s.worker w (running f (s.current w) r);
  current = update s.current w (some f);
}

pub take-some :
    (w f : ℕ) (fs : List ℕ) (s : Runtime) (r : Routine)
    → s.fibers f ≡ some r
    → take w f fs s ≡ taken w f fs s r
unfolding take
take-some w f fs s r e = rw (take, e) refl

pub take-Inv :
    (w f : ℕ) (fs : List ℕ) (s : Runtime)
    → s.worker w ≡ idle
    → s.tasks ≡ f ∷ fs
    → Inv s
    → Inv (take w f fs s)
unfolding take
take-Inv w f fs s e q inv =
    let alive : is_some (s.fibers f) ≡ true = inv.queued f (rw q (ground arith)) in
    let (r, is_r) = is_some-some (s.fibers f) alive in
    let d : HasDistinct (f ∷ fs) = subst HasDistinct q inv.distinct in
    let at : (p : ℕ) → has p s.tasks ≡ (f == p || has p fs) = λ p. ap (has p) q in
    subst Inv (sym (take-some w f fs s r is_r)) (record {
      queued = λ p. ground (arith, inv.queued p, at p);
      distinct = d.1;
      held = λ v p. ground (arith, inv.held v p, d.0, at p, e, alive);
      sole = λ v u p. ground (arith, inv.sole v u p, inv.held v p, inv.held u p, at p, e);
      current = λ v. ground (arith, inv.current v, e);
      kept = λ p a. elim (Bool-cases (f == p)) [
        | inl hit ↦ inr (w, ground arith)
        | inr miss ↦ elim (inv.kept p a) [
          | inl h ↦ inl (ground (arith, at p))
          | inr (u, h) ↦ inr (
              holds-update s.worker w u p (running f (s.current w) r) h
                (λ hw. absurd (ground (arith, hw, e))))
        ]
      ];
    })

pub submit-Inv :
    (f w : ℕ) (k : Worker) (s : Runtime)
    → holds (s.worker w) f ≡ true
    → holds k f ≡ false
    → ((p : ℕ) → holds (s.worker w) p ≡ (f == p || holds k p))
    → agrees k (s.current w) ≡ true
    → Inv s
    → Inv (submit f w k s)
unfolding submit
submit-Inv f w k s h out splits ok inv = record {
  queued = λ p. ground (arith, inv.queued p, inv.held w p, has-append p s.tasks f);
  distinct = append-HasDistinct s.tasks f inv.distinct (inv.held w f h).1;
  held = λ v p. ground (arith, inv.held v p, inv.sole v w p, has-append p s.tasks f, splits p);
  sole = λ v u p. ground (arith, inv.sole v u p, splits p);
  current = λ v. ground (arith, inv.current v);
  kept = λ p a. elim (Bool-cases (f == p)) [
    | inl hit ↦ inl (ground (arith, has-append p s.tasks f))
    | inr miss ↦ elim (inv.kept p a) [
      | inl q ↦ inl (ground (arith, has-append p s.tasks f))
      | inr (u, q) ↦ inr (holds-update s.worker w u p k q (λ hw. ground (arith, splits p)))
    ]
  ];
}

pub allocate-Inv :
    (c : ℕ) (r : Routine) (w : ℕ) (k : Worker) (s : Runtime)
    → s.fibers c ≡ none
    → ((p : ℕ) → holds k p ≡ (c == p || holds (s.worker w) p))
    → agrees k (s.current w) ≡ true
    → Inv s
    → Inv (allocate c r w k s)
unfolding allocate
allocate-Inv c r w k s dead splits ok inv = record {
  queued = λ p. ground (arith, inv.queued p);
  distinct = inv.distinct;
  held = λ v p. ground (arith, inv.held v p, splits p, inv.queued p, inv.held w p);
  sole = λ v u p. ground (arith, inv.sole v u p, splits p, inv.held v p, inv.held u p);
  current = λ v. ground (arith, inv.current v);
  kept = λ p a. elim (Bool-cases (c == p)) [
    | inl hit ↦ inr (w, ground (arith, splits p))
    | inr miss ↦ elim (inv.kept p (ground arith)) [
      | inl q ↦ inl q
      | inr (u, q) ↦ inr (holds-update s.worker w u p k q (λ hw. ground (arith, splits p)))
    ]
  ];
}

-- The current fiber is the one that runs.
abbrev pub suspended : (w f : ℕ) → Option ℕ → Routine → Runtime → Runtime
suspended w f previous rest s = record s {
  fibers = update s.fibers f (some rest);
  worker = update s.worker w (returned f false);
  current = update s.current w previous;
}

pub suspend-some :
    (w f : ℕ) (previous : Option ℕ) (rest : Routine) (s : Runtime)
    → s.current w ≡ some f
    → suspend w previous rest s ≡ suspended w f previous rest s
unfolding suspend
suspend-some w f previous rest s e = rw (suspend, e) refl

pub suspend-Inv :
    (w f : ℕ) (previous : Option ℕ) (rest : Routine) (s : Runtime)
    → s.worker w ≡ running f previous (yields rest)
    → Inv s
    → Inv (suspend w previous rest s)
unfolding suspend
suspend-Inv w f previous rest s e inv =
    let here : s.current w ≡ some f =
      agrees-running f previous (yields rest) (s.current w)
        (ap (λ k. agrees k (s.current w)) (sym e) ∙ inv.current w) in
    let mine : holds (s.worker w) f ≡ true = rw e (ground arith) in
    subst Inv (sym (suspend-some w f previous rest s here)) (record {
      queued = λ p. ground (arith, inv.queued p);
      distinct = inv.distinct;
      held = λ v p. ground (arith, inv.held v p, inv.held w p, e);
      sole = λ v u p. ground (arith, inv.sole v u p, inv.sole w u p, inv.sole v w p, e);
      current = λ v. ground (arith, inv.current v);
      kept = λ p a. elim (inv.kept p (ground (arith, a, inv.held w f mine))) [
        | inl q ↦ inl q
        | inr (u, q) ↦
            inr (holds-update s.worker w u p (returned f false) q (λ hw. ground (arith, hw, e)))
      ];
    })

pub finish-Inv :
    (w f : ℕ) (previous : Option ℕ) (s : Runtime)
    → s.worker w ≡ running f previous done
    → Inv s
    → Inv (finish w f previous s)
unfolding finish
finish-Inv w f previous s e inv = record {
  queued = inv.queued;
  distinct = inv.distinct;
  held = λ v p. ground (arith, inv.held v p, inv.held w p, e);
  sole = λ v u p. ground (arith, inv.sole v u p, inv.sole w u p, inv.sole v w p, e);
  current = λ v. ground (arith, inv.current v);
  kept = λ p a. elim (inv.kept p a) [
    | inl q ↦ inl q
    | inr (u, q) ↦
        inr (holds-update s.worker w u p (returned f true) q (λ hw. ground (arith, hw, e)))
  ];
}

pub remove-Inv : (w f : ℕ) (s : Runtime) → s.worker w ≡ returned f true → Inv s → Inv (remove w f s)
unfolding remove
remove-Inv w f s e inv =
    let mine : holds (s.worker w) f ≡ true = rw e (ground arith) in
    record {
      queued = λ p. ground (arith, inv.queued p, inv.held w f mine);
      distinct = inv.distinct;
      held = λ v p. ground (arith, inv.held v p, inv.sole v w f, mine);
      sole = λ v u p. ground (arith, inv.sole v u p);
      current = λ v. ground (arith, inv.current v);
      kept = λ p a. elim (Bool-cases (f == p)) [
        | inl hit ↦ absurd (ground (arith, a))
        | inr miss ↦ elim (inv.kept p (ground (arith, a))) [
          | inl q ↦ inl q
          | inr (u, q) ↦
              inr (holds-update s.worker w u p idle q (λ hw. absurd (ground (arith, hw, e))))
        ]
      ];
    }
