-- ===== src/Containers/DynamicArray/Session/Tests.antt =====
-- A session with an array of src/Containers/DynamicArray.hpp.
use renn.Prelude.{ℕ, ◌≡◌, refl, List, [], ◌∷◌, arith}
use renn.Prelude.Effect.{ok, out_of_range}
use renn.Containers.DynamicArray.{Array, empty_array}
use renn.Containers.DynamicArray.Session.{
  Call, pushes, pops, inserts, erases, resizes, reads, reads_last, counts, measures, session,
  finished, value, count, thrown,
}
use renn.Containers.DynamicArray.Session.Sequence.{replies, after}
use renn.Containers.DynamicArray.Session.Represents.{Represents, Represents-empty, empty_sequence}
use renn.Containers.DynamicArray.Session.Refinement.{session-sequence}

abbrev calls : List (Call ℕ)
calls =
    pushes 1
    ∷ pushes 2
    ∷ inserts 1 9
    ∷ measures
    ∷ erases 0
    ∷ reads 0
    ∷ reads 7
    ∷ reads_last
    ∷ resizes 5 6
    ∷ reads_last
    ∷ pops
    ∷ counts
    ∷ measures
    ∷ []

session-sequence_example :
    (b : Array ℕ) × (session calls empty_array ≡ ok (replies calls empty_sequence) b)
    × Represents (after calls empty_sequence) b
session-sequence_example =
    session-sequence calls empty_sequence empty_array Represents-empty (omega arith)

sequence_answers :
    replies calls empty_sequence
    ≡ finished
      ∷ finished
      ∷ finished
      ∷ count 4
      ∷ finished
      ∷ value 9
      ∷ thrown out_of_range
      ∷ value 2
      ∷ finished
      ∷ value 5
      ∷ finished
      ∷ count 5
      ∷ count 6
      ∷ []
sequence_answers = refl
