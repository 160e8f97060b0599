-- ===== src/Containers/HashTable/Transfer/Tests.antt =====
-- Copies, moves and `reserve` of src/Containers/HashTable/HashTable.hpp at a table of two keys.
use renn.Prelude.{◌≢◌, ◌==◌, length, ℕ, ◌+◌, ◌≡◌, refl, arith}
use renn.Prelude.Effect.{ok, fault, null_deref}
use renn.Prelude.Float32.{mul_trunc}
use renn.Containers.HashTable.Fixtures.{int_traits, plenty, two, one, two-IsValid}
use renn.Containers.HashTable.{Table, empty_table, find, load_threshold}
use renn.Containers.HashTable.Lookup.{find_key}
use renn.Containers.HashTable.Session.{size, empty}
use renn.Containers.HashTable.Transfer.{copy_assign, move_assign}
use renn.Containers.HashTable.Transfer.Copies.{Copied, copy_assign-Copied}
use renn.Containers.HashTable.Transfer.Moves.{move_assign-spoils}

copy_assign-Copied_example :
    (u : Table ℕ ℕ) × (copy_assign (λ j. plenty (3 + j)) two one ≡ ok tt u) × Copied two u
unfolding empty_table load_threshold mul_trunc
copy_assign-Copied_example =
    copy_assign-Copied two-IsValid (λ j. plenty (3 + j)) (λ j. 3 + j) (λ j. refl)
      (λ j k e. omega arith) (omega arith) (omega arith) one

move_assign-spoils_example :
    (find 8 (move_assign one two).0 ≡ ok (find_key 8 two.elements) (move_assign one two).0)
    × ((move_assign one two).0.elements ≡ two.elements)
    × (size (move_assign one two).0 ≡ ok one.size (move_assign one two).0)
    × (empty (move_assign one two).0 ≡ ok (one.size == 0) (move_assign one two).0)
    × (one.size ≢ length (move_assign one two).0.elements)
    × (find 8 (move_assign one two).1 ≡ fault null_deref)
move_assign-spoils_example =
    move_assign-spoils one two 8 two-IsValid (λ e. absurd (omega (arith, e)))
