-- ===== src/Containers/List/Session/Tests.antt =====
-- A session with a list of src/Containers/List.hpp whose sentinel has the address 1.
use renn.Prelude.{ℕ, ◌≡◌, refl, Bool, true, false, none, List, [], ◌∷◌, ◌==◌, arith}
use renn.Prelude.Effect.{ok, out_of_range}
use renn.Containers.Nodes.{insert_end}
use renn.Containers.List.{Heap, Store, new_list}
use renn.Containers.List.Contents.{new_list-IsList}
use renn.Containers.List.Session.{
  Call, pushes_back, pushes_front, pops_back, pops_front, reads_front, reads_back, clears, counts,
  tests_empty, session, finished, value, count, answer, thrown,
}
use renn.Containers.List.Session.Deque.{replies, after, Fits}
use renn.Containers.List.Session.Refinement.{Represents, session-deque}

abbrev nowhere : Heap ℕ
nowhere = record { alive = λ q. false; next = λ q. 0; prev = λ q. 0; value = λ q. none }

abbrev sentinel : ℕ → Bool
sentinel q = 1 == q

start-Represents : Represents sentinel [] (new_list 1 nowhere)
unfolding new_list
start-Represents = record {
  list = new_list-IsList 1 nowhere;
  alive = λ q. ground arith;
  apart = λ q e. absurd (cc);
  few = omega arith;
}

-- The node 5 is freed and comes again.
abbrev calls : List (Call ℕ)
calls =
    pushes_back 5 50
    ∷ pushes_front 6 60
    ∷ reads_back
    ∷ pops_front
    ∷ reads_front
    ∷ pops_back
    ∷ pops_back
    ∷ reads_back
    ∷ pushes_back 5 51
    ∷ counts
    ∷ clears
    ∷ tests_empty
    ∷ []

calls-Fits : Fits sentinel calls []
unfolding insert_end
calls-Fits =
    let last : Fits {T = ℕ} sentinel (pushes_back 5 51 ∷ counts ∷ clears ∷ tests_empty ∷ []) [] =
      ((refl, refl, omega arith), (tt, (tt, (tt, tt)))) in
    (
      (refl, refl, omega arith),
      ((refl, refl, omega arith), (tt, (tt, (tt, (tt, (tt, (tt, last))))))),
    )

session-deque_example :
    (t : Store ℕ) × (session calls (new_list 1 nowhere) ≡ ok (replies calls []) t)
    × Represents sentinel (after calls []) t
unfolding insert_end
session-deque_example =
    session-deque sentinel calls [] (new_list 1 nowhere) start-Represents calls-Fits

deque_answers :
    replies calls []
    ≡ finished
      ∷ finished
      ∷ value 50
      ∷ finished
      ∷ value 50
      ∷ finished
      ∷ finished
      ∷ thrown out_of_range
      ∷ finished
      ∷ count 1
      ∷ finished
      ∷ answer true
      ∷ []
unfolding insert_end
deque_answers = refl
