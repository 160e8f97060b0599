-- ===== src/Future/StateMachine.antt =====
-- src/Future/Core/StateMachine.hpp: each call is one atomic step, so threads that call it are a
-- sequence of calls.
pub mod Rendezvous
mod Tests
use renn.Prelude.{ℕ, zero, suc, ◌≡◌, Bool, true, false, List, [], ◌∷◌, if◌then◌else◌}

-- `StateMachine::States`
pub data States : Type 0 where
  init : States
  producer : States
  consumer : States
  rendezvous : States

-- `a | b` of the two bits.
unfoldable pub bit_or : States → States → States
bit_or init s = s
bit_or s init = s
bit_or producer producer = producer
bit_or consumer consumer = consumer
bit_or _ _ = rendezvous

abbrev pub is_producer : States → Bool
is_producer producer = true
is_producer _ = false

abbrev pub is_consumer : States → Bool
is_consumer consumer = true
is_consumer _ = false

-- The answer, and the state after `fetch_or`.
unfoldable pub consume : States → Bool × States
unfolding bit_or
consume s = (is_producer s, bit_or s consumer)

unfoldable pub produce : States → Bool × States
unfolding bit_or
produce s = (is_consumer s, bit_or s producer)

pub data Call : Type 0 where
  consumes : Call
  produces : Call

unfoldable pub call : Call → States → Bool × States
unfolding consume produce
call consumes s = consume s
call produces s = produce s

-- The answers of a sequence of calls.
unfoldable pub run : List Call → States → List Bool
unfolding call
run [] s = []
run (c ∷ cs) s = (call c s).0 ∷ run cs ((call c s).1)
