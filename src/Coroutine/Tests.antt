-- ===== src/Coroutine/Tests.antt =====
-- A run of src/Coroutine/Coro.hpp: a coroutine resumes another, and both suspend.
use renn.Prelude.{ℕ, zero, suc, ◌≡◌, refl, false, some, []}
use renn.Prelude.Effect.{ok, fault, no_return}
use renn.Coroutine.{
  Code, ends, suspends, resumes, inside, Machine, set_up, resume, switch_back, suspend, finish, act,
  run,
}
use renn.Coroutine.Stack.{Stack, Shows, Agree, run_stack, run-run_stack}

-- The coroutine 0 resumes 1, which suspends; every other one ends at once.
abbrev routine : ℕ → Code
routine zero = resumes 1 (suspends ends)
routine (suc zero) = suspends ends
routine _ = ends

abbrev program : Code
program = resumes 0 (resumes 1 (resumes 0 (resumes 0 ends)))

abbrev machine : Machine
machine = set_up routine program

abbrev stack : Stack
stack = record {
  frames = [];
  program = program;
  waiting = λ c. some (routine c);
  finished = λ c. false;
}

machine-Shows : Shows machine stack
unfolding set_up
machine-Shows = record { active = refl; waiting = λ c. refl; finished = λ c. refl; chain = tt }

-- The coroutine 1 gives control back to 0, which resumed it.
inner_returns : (m : Machine) × (run 3 machine ≡ ok tt m) × (m.active ≡ inside 0 (suspends ends))
unfolding set_up run act resume suspend switch_back
inner_returns = (_, refl, refl)

-- Both end, and the last resumption is of a coroutine that is done.
finished_is_refused : run 9 machine ≡ fault no_return
unfolding set_up run act resume suspend finish switch_back
finished_is_refused = refl

run-run_stack_example : Agree (run 3 machine) (run_stack 3 stack)
run-run_stack_example = run-run_stack 3 machine stack machine-Shows
