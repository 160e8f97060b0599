-- ===== src/Future/StateMachine/Tests.antt =====
-- Runs of src/Future/Core/StateMachine.hpp.
use renn.Prelude.{◌≡◌, refl, true, false, [], ◌∷◌}
use renn.Future.StateMachine.{init, consume, produce, consumes, produces, call, run, bit_or}
use renn.Future.StateMachine.Rendezvous.{count_true, run-count_true}

-- The second side meets the first, a third call meets nobody.
second_meets : run (produces ∷ consumes ∷ consumes ∷ []) init ≡ false ∷ true ∷ false ∷ []
unfolding run call consume produce bit_or
second_meets = refl

run-count_true_example : count_true (run (produces ∷ consumes ∷ consumes ∷ []) init) ≡ 1
run-count_true_example = run-count_true (produces ∷ consumes ∷ consumes ∷ [])
