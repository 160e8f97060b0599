-- ===== src/Future/StateMachine/Rendezvous.antt =====
-- Exactly one call of src/Future/Core/StateMachine.hpp meets the other side.
use renn.Prelude.{ℕ, suc, ◌≡◌, refl, Bool, true, false, ◌&&◌, List, [], ◌∷◌, if◌then◌else◌, arith}
use renn.Future.StateMachine.{
  States, init, producer, consumer, rendezvous, bit_or, consume, produce, Call, consumes, produces,
  call, run,
}

-- How many answers are true.
abbrev pub count_true : List Bool → ℕ
count_true [] = 0
count_true (true ∷ bs) = suc (count_true bs)
count_true (false ∷ bs) = count_true bs

abbrev pub has_consume : List Call → Bool
has_consume [] = false
has_consume (consumes ∷ cs) = true
has_consume (produces ∷ cs) = has_consume cs

abbrev pub has_produce : List Call → Bool
has_produce [] = false
has_produce (produces ∷ cs) = true
has_produce (consumes ∷ cs) = has_produce cs

-- What is still to come in each state.
abbrev meets : States → List Call → ℕ
meets init cs = if has_consume cs && has_produce cs then 1 else 0
meets producer cs = if has_consume cs then 1 else 0
meets consumer cs = if has_produce cs then 1 else 0
meets rendezvous cs = 0

run-meets : (cs : List Call) (s : States) → count_true (run cs s) ≡ meets s cs
unfolding run call consume produce bit_or
run-meets [] init = refl
run-meets [] producer = refl
run-meets [] consumer = refl
run-meets [] rendezvous = refl
run-meets (consumes ∷ cs) init = run-meets cs consumer
run-meets (consumes ∷ cs) producer = ground (arith, run-meets cs rendezvous)
run-meets (consumes ∷ cs) consumer = run-meets cs consumer
run-meets (consumes ∷ cs) rendezvous = run-meets cs rendezvous
run-meets (produces ∷ cs) init = ground (arith, run-meets cs producer)
run-meets (produces ∷ cs) producer = run-meets cs producer
run-meets (produces ∷ cs) consumer = ground (arith, run-meets cs rendezvous)
run-meets (produces ∷ cs) rendezvous = run-meets cs rendezvous

-- In every sequence of calls from the initial state, whatever their order and number, exactly one
-- call answers true if both `consume` and `produce` are called, and none if one of them is not.
pub run-count_true :
    (cs : List Call)
    → count_true (run cs init) ≡ (if has_consume cs && has_produce cs then 1 else 0)
run-count_true cs = run-meets cs init
