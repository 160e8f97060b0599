-- ===== src/Coroutine.antt =====
-- src/Coroutine/Coro.hpp and Coro.cc: coroutines that resume each other. The machine contexts are
-- third-party code: a context is what is left to do where it was saved, and is used once.
pub mod Stack
mod Tests
use renn.Prelude.{update, ℕ, zero, suc, Bool, true, false, Option, none, some, if◌then◌else◌}
use renn.Prelude.Effect.{
  Run, ok, throws, fault, State, pure, undefined, ◌>>=◌, ◌>>◌, dangling, no_return,
}

-- What a routine does: it ends, suspends the coroutine that it is the routine of, or resumes another.
pub data Code : Type 0 where
  ends : Code
  suspends : Code → Code
  resumes : ℕ → Code → Code

-- The program outside the coroutines, or a coroutine, with what is left to do.
pub data Context : Type 0 where
  main : Code → Context
  inside : ℕ → Code → Context

-- The members `callee_context_`, `caller_context_` and `is_done_` of each coroutine, and what runs.
pub record Machine : Type 0 where
  pub active : Context
  pub callee_context : ℕ → Option Code
  pub caller_context : ℕ → Option Context
  pub is_done : ℕ → Bool

-- The constructor of each coroutine has set its context up.
unfoldable pub set_up : (ℕ → Code) → Code → Machine
set_up routine program = record {
  active = main program;
  callee_context = λ c. some (routine c);
  caller_context = λ c. none;
  is_done = λ c. false;
}

-- `resume`, called where the context `here` goes on.
unfoldable pub resume : ℕ → (here : Context) → State Machine (Unit {0})
resume c here m = if m.is_done c then fault no_return else elim (m.callee_context c) [
  | none ↦ fault dangling
  | some code ↦ ok tt (record {
    active = inside c code;
    callee_context = update m.callee_context c none;
    caller_context = update m.caller_context c (some here);
    is_done = m.is_done;
  })
]

-- `SwitchTo(caller_context_)`
unfoldable pub switch_back : ℕ → State Machine (Unit {0})
switch_back c m = elim (m.caller_context c) [
  | none ↦ fault dangling
  | some k ↦ ok tt (record m { active = k; caller_context = update m.caller_context c none })
]

-- `suspend`
unfoldable pub suspend : ℕ → (rest : Code) → State Machine (Unit {0})
unfolding switch_back
suspend c rest m =
    switch_back c (record m { callee_context = update m.callee_context c (some rest) })

-- `Run` behind the routine.
unfoldable pub finish : ℕ → State Machine (Unit {0})
unfolding switch_back
finish c m = switch_back c (record m { is_done = update m.is_done c true })

-- What the active context does next; the program stays at its end.
unfoldable pub act : Context → State Machine (Unit {0})
unfolding resume suspend finish
act (main ends) m = ok tt m
act (main (suspends r)) m = fault dangling
act (main (resumes c r)) m = resume c (main r) m
act (inside c ends) m = finish c m
act (inside c (suspends r)) m = suspend c r m
act (inside c (resumes d r)) m = resume d (inside c r) m

unfoldable pub run : ℕ → State Machine (Unit {0})
unfolding act
run zero m = ok tt m
run (suc n) m = (do act m.active; run n) m
