-- ===== src/Containers/HashTable/Access/Tests.antt =====
-- The accesses of src/Containers/HashTable/HashTable.hpp at a table of the keys 0 and 8.
use renn.Prelude.{ℕ, ◌+◌, ◌≡◌, refl, List, [], ◌∷◌, arith}
use renn.Prelude.Effect.{ok, throws, out_of_range, ◌>>◌}
use renn.Prelude.Float32.{mul_trunc}
use renn.Containers.Nodes.{at, same, rest_from, insert_before}
use renn.Containers.HashTable.Fixtures.{int_traits, plenty, entry, two, two-IsValid}
use renn.Containers.HashTable.{Table, empty_table, load_threshold, emplace, grow, link, find}
use renn.Containers.HashTable.Runs.{first_in}
use renn.Containers.HashTable.Insert.{insert_run}
use renn.Containers.HashTable.Access.{erase_range, insert_range, checked_at}
use renn.Containers.HashTable.Access.RangeErase.{RangeErased, erase_range-RangeErased}

abbrev pairs : List (ℕ × ℕ)
pairs = (5, 50) ∷ (8, 1) ∷ (5, 51) ∷ []

-- A key reads the value that came first.
first_values_stay :
    (u : Table ℕ ℕ) × ((insert_range (λ j. plenty (3 + j)) 0 pairs >> checked_at 5) two ≡ ok 50 u)
    × (u.size ≡ 3)
unfolding insert_range checked_at emplace grow link find empty_table insert_run load_threshold
    mul_trunc same rest_from insert_before first_in
first_values_stay = (_, refl, refl)

-- A key that is not there is thrown for.
absent_keys_throw : checked_at 5 two ≡ throws out_of_range two
unfolding checked_at empty_table insert_run find same rest_from first_in
absent_keys_throw = refl

erase_range-RangeErased_example :
    (u : Table ℕ ℕ) × (erase_range 2 (at 1) (at 2) two ≡ ok tt u)
    × RangeErased [] ((1, entry 0) ∷ []) ((2, entry 8) ∷ []) two u
unfolding empty_table insert_run
erase_range-RangeErased_example =
    erase_range-RangeErased [] ((1, entry 0) ∷ []) ((2, entry 8) ∷ []) 2 two two-IsValid refl
      (omega arith) (omega arith)
