-- ===== src/Containers/HashTable/Fixtures.antt =====
-- Tables of src/Containers/HashTable/HashTable.hpp for its tests: keys are numbers, each with its
-- tenfold.
use renn.Prelude.{ℕ, ◌*◌, ◌≡◌, true, some, arith, refl, ◌==◌}
use renn.Containers.HashTable.Key.{KeyTraits}
use renn.Containers.HashTable.{Table, HashNode, Memory, empty_table}
use renn.Containers.HashTable.Lookup.{find_key}
use renn.Containers.HashTable.Insert.{insert_run}
use renn.Containers.HashTable.Invariant.{IsValid}
use renn.Containers.HashTable.Emplace.{linked, linked-IsValid}
use renn.Containers.HashTable.Rehash.{empty_table-IsValid}

pub eq_reflexive : (a : ℕ) → (a == a) ≡ true
eq_reflexive a = ground arith

pub eq_symmetric : (a b : ℕ) → (a == b) ≡ (b == a)
eq_symmetric a b = ground arith

pub eq_transitive : (a b c : ℕ) → (a == b) ≡ true → (b == c) ≡ true → (a == c) ≡ true
eq_transitive a b c h k = ground arith

pub eq_one : (a b : ℕ) → (a == b) ≡ true → a ≡ b
eq_one a b h = ground arith

-- `std::hash<int>` is the identity.
instance abbrev pub int_traits : KeyTraits ℕ
int_traits = record {
  hash = λ a. a;
  key_eq = λ a b. a == b;
  reflexive = eq_reflexive;
  symmetric = eq_symmetric;
  transitive = eq_transitive;
  one_hash = eq_one;
}

abbrev pub plenty : ℕ → Memory
plenty p = record { array = true; node = some p }

abbrev pub entry : ℕ → HashNode ℕ ℕ
entry k = record { key = k; value = k * 10; cached_hash = k }

-- The tables after one, two and three insertions.
abbrev pub one : Table ℕ ℕ
one = linked 1 (entry 0) empty_table

abbrev pub two : Table ℕ ℕ
two = linked 2 (entry 8) one

pub one-IsValid : IsValid one
unfolding empty_table find_key
one-IsValid =
    linked-IsValid 1 (entry 0) empty_table empty_table-IsValid refl refl refl (omega arith)

pub two-IsValid : IsValid two
unfolding empty_table find_key insert_run
two-IsValid = linked-IsValid 2 (entry 8) one one-IsValid refl refl refl (omega arith)

-- The key 8 was inserted before the key 0, of the bucket before.
abbrev eight : Table ℕ ℕ
eight = linked 1 (entry 8) empty_table

abbrev pub eight_first : Table ℕ ℕ
eight_first = linked 2 (entry 0) eight

pub eight_first-IsValid : IsValid eight_first
unfolding empty_table find_key insert_run
eight_first-IsValid =
    let v : IsValid eight =
      linked-IsValid 1 (entry 8) empty_table empty_table-IsValid refl refl refl (omega arith) in
    linked-IsValid 2 (entry 0) eight v refl refl refl (omega arith)
