-- ===== src/Fiber/Handle/Ownership.antt =====
-- What the handles of src/Fiber/Core/Handle.hpp promise: one owner for each fiber.
use renn.Prelude.{
  update, ℕ, ◌≡◌, refl, true, false, Option, none, some, [], ◌∷◌, ◌++◌, ◌==◌, arith, ap, ◌∙◌, sym,
  Bool-cases, inl, inr,
}
use mathlib.Core.Path.{subst}
use renn.Prelude.Effect.{Run, throws, ok, fault, no_return}
use renn.Fiber.Queued.{has, HasDistinct, has-append, append-HasDistinct}
use renn.Fiber.Handle.{
  Handles, release, schedule, move_construct, move_assign, Step, constructs, assigns, schedules,
  releases, Reach, initial, later,
}

-- No two handles have the same fiber.
abbrev pub IsSole : (ℕ → Option ℕ) → Type 0
IsSole h = (i j f : ℕ) → h i ≡ some f → h j ≡ some f → (i == j) ≡ true

pub record Owned (s : Handles) : Type 0 where
  pub sole : IsSole s.fiber
  pub unscheduled : (i f : ℕ) → s.fiber i ≡ some f → has f s.scheduled ≡ false
  pub once : HasDistinct s.scheduled

moved-Owned :
    (i j : ℕ) (s : Handles)
    → (i == j) ≡ false
    → Owned s
    → Owned (record s { fiber = update (update s.fiber i (s.fiber j)) j none })
moved-Owned i j s apart o = record {
  sole = λ a b f. ground (arith, o.sole a b f, o.sole a j f, o.sole j b f);
  unscheduled = λ a f. ground (arith, o.unscheduled a f, o.unscheduled j f);
  once = o.once;
}

released-Owned :
    (i : ℕ) (s : Handles) → Owned s → Owned (record s { fiber = update s.fiber i none })
released-Owned i s o = record {
  sole = λ a b f. ground (arith, o.sole a b f);
  unscheduled = λ a f. ground (arith, o.unscheduled a f);
  once = o.once;
}

scheduled-Owned :
    (i f : ℕ) (s : Handles)
    → s.fiber i ≡ some f
    → Owned s
    → Owned (record s { fiber = update s.fiber i none; scheduled = s.scheduled ++ f ∷ [] })
scheduled-Owned i f s e o = record {
  sole = λ a b g. ground (arith, o.sole a b g);
  unscheduled = λ a g. ground (arith, o.unscheduled a g, o.sole a i g, has-append g s.scheduled f);
  once = append-HasDistinct s.scheduled f o.once (o.unscheduled i f e);
}

assign_self : (i j : ℕ) (s : Handles) → (i == j) ≡ true → move_assign i j s ≡ s
unfolding move_assign
assign_self i j s same = rw same refl

assign_other :
    (i j : ℕ) (s : Handles)
    → (i == j) ≡ false
    → move_assign i j s ≡ record s { fiber = update (update s.fiber i (s.fiber j)) j none }
unfolding move_assign
assign_other i j s apart = rw apart refl

-- The state that a call leaves.
abbrev left {ℓ} : {A : Type ℓ} → Handles → Run Handles A → Handles
left s (ok a t) = t
left s (throws e t) = t
left s (fault f) = s

schedule-Owned :
    (i : ℕ) (s t : Handles) (h : Option ℕ)
    → s.fiber i ≡ h
    → schedule i s ≡ ok tt t
    → Owned s
    → Owned t
unfolding schedule release
schedule-Owned i s t none e run o =
    let ends : schedule i s ≡ fault no_return = rw (schedule, release, e) refl in absurd (cc)
schedule-Owned i s t (some f) e run o =
    let goes : schedule i s
        ≡ ok tt (record s { fiber = update s.fiber i none; scheduled = s.scheduled ++ f ∷ [] }) =
      rw (schedule, release, e) refl in
    subst Owned (ap (left s) (sym goes ∙ run)) (scheduled-Owned i f s e o)

release-Owned :
    (i f : ℕ) (s t : Handles) (h : Option ℕ)
    → s.fiber i ≡ h
    → release i s ≡ ok f t
    → Owned s
    → Owned t
unfolding release
release-Owned i f s t none e run o =
    let ends : release i s ≡ fault no_return = rw (release, e) refl in absurd (cc)
release-Owned i f s t (some g) e run o =
    let goes : release i s ≡ ok g (record s { fiber = update s.fiber i none }) =
      rw (release, e) refl in
    subst Owned (ap (left s) (sym goes ∙ run)) (released-Owned i s o)

Step-Owned : {s t : Handles} → Step s t → Owned s → Owned t
unfolding move_construct move_assign
Step-Owned {s} (constructs i j e apart) o = moved-Owned i j s apart o
Step-Owned {s} (assigns i j) o = elim (Bool-cases (i == j)) [
  | inl same ↦ subst Owned (sym (assign_self i j s same)) o
  | inr apart ↦ subst Owned (sym (assign_other i j s apart)) (moved-Owned i j s apart o)
]
Step-Owned {s} (schedules i t e) o = schedule-Owned i s t (s.fiber i) refl e o
Step-Owned {s} (releases i f t e) o = release-Owned i f s t (s.fiber i) refl e o

-- From handles no two of which own the same fiber: whatever is moved, assigned, released and scheduled,
-- no two handles own the same fiber, no handle owns a fiber that was scheduled, and no fiber is
-- scheduled twice.
pub Reach-Owned : {start : ℕ → Option ℕ} {s : Handles} → IsSole start → Reach start s → Owned s
Reach-Owned u initial = record { sole = u; unscheduled = λ i f e. refl; once = tt }
Reach-Owned u (later r st) = Step-Owned st (Reach-Owned u r)
