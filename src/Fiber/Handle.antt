-- ===== src/Fiber/Handle.antt =====
-- src/Fiber/Core/Handle.hpp and Handle.cc: handles that own a fiber until they schedule it.
pub mod Ownership
mod Tests
use renn.Prelude.{
  update, ℕ, ◌≡◌, Bool, true, false, Option, none, some, List, [], ◌∷◌, ◌++◌, ◌==◌, if◌then◌else◌,
}
use renn.Prelude.Effect.{Run, ok, throws, fault, State, pure, undefined, ◌>>=◌, ◌>>◌, no_return}

-- The handles by their numbers, each with its pointer, and the fibers that were scheduled, in order.
pub record Handles : Type 0 where
  pub fiber : ℕ → Option ℕ
  pub scheduled : List ℕ

unfoldable pub is_valid : ℕ → Handles → Bool
is_valid i s = elim (s.fiber i) [ none ↦ false | some f ↦ true ]

-- An assertion that fails ends the program.
unfoldable pub release : ℕ → State Handles ℕ
release i s = elim (s.fiber i) [
  | none ↦ fault no_return
  | some f ↦ ok f (record s { fiber = update s.fiber i none })
]

unfoldable pub schedule : ℕ → State Handles (Unit {0})
unfolding release
schedule i = do f ← release i; λ s. ok tt (record s { scheduled = s.scheduled ++ f ∷ [] })

-- `FiberHandle(FiberHandle&&)`: the handle `i` is made from `j`.
unfoldable pub move_construct : (i j : ℕ) → Handles → Handles
move_construct i j s = record s { fiber = update (update s.fiber i (s.fiber j)) j none }

-- `operator=(FiberHandle&&)`
unfoldable pub move_assign : (i j : ℕ) → Handles → Handles
move_assign i j s =
    if i == j then s else record s { fiber = update (update s.fiber i (s.fiber j)) j none }

-- What a program does with handles: it moves a handle to a new one or over an old one, schedules, and
-- releases.
pub data Step (s : Handles) : Handles → Type 0 where
  constructs : (i j : ℕ) → s.fiber i ≡ none → (i == j) ≡ false → Step s (move_construct i j s)
  assigns : (i j : ℕ) → Step s (move_assign i j s)
  schedules : (i : ℕ) (t : Handles) → schedule i s ≡ ok tt t → Step s t
  releases : (i f : ℕ) (t : Handles) → release i s ≡ ok f t → Step s t

-- From handles that own a fiber each, another one, and that have scheduled none.
pub data Reach (start : ℕ → Option ℕ) : Handles → Type 0 where
  initial : Reach start (record { fiber = start; scheduled = [] })
  later : {s t : Handles} → Reach start s → Step s t → Reach start t
