-- ===== src/Containers/HashTable/Iteration/Tests.antt =====
-- A loop over a table of src/Containers/HashTable/HashTable.hpp.
use renn.Prelude.{ℕ, suc, ◌+◌, ◌≡◌, refl, List, [], ◌∷◌}
use renn.Prelude.Effect.{ok, fault, dangling}
use renn.Containers.Nodes.{end, same, rest_from}
use renn.Containers.HashTable.{Table, empty_table}
use renn.Containers.HashTable.Insert.{insert_run}
use renn.Containers.HashTable.Fixtures.{int_traits, eight_first, eight_first-IsValid}
use renn.Containers.HashTable.Iteration.{begin, dereference, each}
use renn.Containers.HashTable.Iteration.Visits.{Visited, each-Visited}

abbrev count_up : ℕ → ℕ
count_up v = v + 1

each-Visited_example :
    (seen : List (ℕ × ℕ)) × (u : Table ℕ ℕ) × (each count_up
        (suc eight_first.size)
        (begin eight_first)
        eight_first
      ≡ ok seen u)
    × Visited count_up eight_first seen u
each-Visited_example = each-Visited count_up eight_first eight_first-IsValid

seen_in_order :
    (u : Table ℕ ℕ) × (each count_up 3 (begin eight_first) eight_first
      ≡ ok ((8, 80) ∷ (0, 0) ∷ []) u)
unfolding each begin empty_table insert_run same rest_from
seen_in_order = (_, refl)

dereference-end : dereference end eight_first ≡ fault dangling
unfolding dereference rest_from
dereference-end = refl
