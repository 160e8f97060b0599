-- ===== src/Containers/HashTable/Session/Tests.antt =====
-- A session with a table of src/Containers/HashTable/HashTable.hpp.
use renn.Prelude.{ℕ, suc, ◌+◌, ◌≡◌, ◌<◌, refl, true, false, List, [], ◌∷◌, arith}
use renn.Prelude.Effect.{ok, out_of_range}
use renn.Prelude.Float32.{mul_trunc}
use renn.Containers.Nodes.{Nodes, has}
use renn.Containers.HashTable.{Table, HashNode, empty_table, load_threshold}
use renn.Containers.HashTable.Fixtures.{int_traits}
use renn.Containers.HashTable.Session.{
  Call, emplaces, tries, subscripts, reads, tests, erases, clears, counts, tests_empty, session,
  Reply, inserted, value, thrown, answer, count, finished,
}
use renn.Containers.HashTable.Session.Order.{emplaces_comm}
use renn.Containers.HashTable.Session.Dictionary.{empty_dictionary, replies, after}
use renn.Containers.HashTable.Session.Refinement.{Represents, Represents-empty, session-dictionary}

-- An address above all others.
abbrev bound : Nodes (HashNode ℕ ℕ) → ℕ
bound [] = 1
bound (x ∷ xs) = suc (x.0 + bound xs)

lt-bound : (p : ℕ) (xs : Nodes (HashNode ℕ ℕ)) → has p xs ≡ true → p < bound xs
lt-bound p [] h = absurd (cc)
lt-bound p (x ∷ xs) h = ground (arith, lt-bound p xs)

has-bound : (xs : Nodes (HashNode ℕ ℕ)) → has (bound xs) xs ≡ false
has-bound xs = ground (arith, lt-bound (bound xs) xs)

abbrev calls : List (Call ℕ ℕ)
calls =
    emplaces 5 50
    ∷ tries 5 51
    ∷ reads 5
    ∷ subscripts 12 7
    ∷ counts
    ∷ erases 5
    ∷ tests 5
    ∷ reads 5
    ∷ clears
    ∷ tests_empty
    ∷ []

session-dictionary_example :
    (u : Table ℕ ℕ) × (session bound calls empty_table ≡ ok (replies calls empty_dictionary) u)
    × Represents (after calls empty_dictionary) u
unfolding load_threshold mul_trunc
session-dictionary_example =
    session-dictionary bound has-bound calls empty_dictionary empty_table Represents-empty
      (omega arith)

dictionary_answers :
    replies calls empty_dictionary
    ≡ inserted true
      ∷ inserted false
      ∷ value 50
      ∷ value 7
      ∷ count 2
      ∷ finished
      ∷ answer false
      ∷ thrown out_of_range
      ∷ finished
      ∷ answer true
      ∷ []
dictionary_answers = refl

abbrev further : List (Call ℕ ℕ)
further = reads 5 ∷ counts ∷ erases 5 ∷ tests 12 ∷ []

emplaces_comm_example :
    (rs : List (Reply ℕ)) × (x : Table ℕ ℕ) × (y : Table ℕ ℕ) × (session bound
        (emplaces 5 50 ∷ emplaces 12 70 ∷ further)
        empty_table
      ≡ ok (inserted true ∷ inserted true ∷ rs) x)
    × (session bound (emplaces 12 70 ∷ emplaces 5 50 ∷ further) empty_table
        ≡ ok (inserted true ∷ inserted true ∷ rs) y)
unfolding load_threshold mul_trunc
emplaces_comm_example =
    emplaces_comm bound has-bound 5 12 50 70 empty_dictionary empty_table further Represents-empty
      refl refl refl (omega (arith))
