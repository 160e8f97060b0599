-- ===== src/Fiber/Handle/Tests.antt =====
-- A run of src/Fiber/Core/Handle.hpp: two handles own the fibers 70 and 80; one is moved and scheduled.
use renn.Prelude.{update, ℕ, ◌≡◌, refl, none, some, Option, [], ◌∷◌, arith}
use renn.Fiber.Handle.{
  Handles, schedule, release, move_construct, move_assign, constructs, assigns, schedules, Reach,
  initial, later,
}
use renn.Fiber.Handle.Ownership.{IsSole, Owned, Reach-Owned}

abbrev start : ℕ → Option ℕ
start = update (update (λ i. none) 0 (some 70)) 1 (some 80)

start-IsSole : IsSole start
start-IsSole i j f e k = ground (arith, e, k)

abbrev Trace : Type 0
Trace = (s : Handles) × Reach start s

-- The handle 2 is made from 0 and scheduled, and then 1 is moved over it.
abbrev over : Trace
unfolding move_construct move_assign schedule release
over =
    let a : Trace = (_, later initial (constructs 2 0 refl refl)) in
    let b : Trace = (_, later a.1 (schedules 2 _ refl)) in (_, later b.1 (assigns 2 1))

moved_handles : (over.0.fiber 2 ≡ some 80) × (over.0.fiber 1 ≡ none) × (over.0.scheduled ≡ 70 ∷ [])
unfolding move_construct move_assign schedule release
moved_handles = (refl, refl, refl)

Reach-Owned_example : Owned over.0
Reach-Owned_example = Reach-Owned start-IsSole over.1
