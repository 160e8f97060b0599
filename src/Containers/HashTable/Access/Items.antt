-- ===== src/Containers/HashTable/Access/Items.antt =====
-- The constructor of src/Containers/HashTable/HashTable.hpp from an initializer list.
use renn.Prelude.{ℕ, ◌≡◌, ◌≤◌, refl, some, List, length, arith}
use renn.Prelude.Effect.{ok}
use renn.Prelude.Float32.{mul_trunc}
use renn.Containers.HashTable.Key.{KeyTraits}
use renn.Containers.HashTable.{Table, Memory, empty_table, load_threshold}
use renn.Containers.HashTable.Lookup.{lookup}
use renn.Containers.HashTable.Invariant.{IsValid}
use renn.Containers.HashTable.Rehash.{empty_table-IsValid}
use renn.Containers.HashTable.Access.{from_items}
use renn.Containers.HashTable.Access.Ranges.{insert_range-RangeInserted, entry_of, HasUniqueEntries}

module _ {ℓ} {K V : Type ℓ} ⦃traits : KeyTraits K⦄ where
  -- What the constructor of at most five items makes.
  pub record Built (items : List (K × V)) (u : Table K V) : Type ℓ where
    pub valid : IsValid u
    pub reads : (j : K) → lookup j u.elements ≡ entry_of j items
    pub size : HasUniqueEntries items → u.size ≡ length items

  -- Of at most five items, with memory and nodes that are all different, the constructor from an
  -- initializer list makes a valid table in which a key reads the value of the first item with an
  -- equal key, and nothing where there is none; its size is the number of items if no two have equal
  -- keys.
  pub from_items-Built :
      (memory : ℕ → Memory) (node : ℕ → ℕ) (items : List (K × V))
      → ((j : ℕ) → (memory j).node ≡ some (node j))
      → ((j k : ℕ) → node j ≡ node k → j ≡ k)
      → length items ≤ 5
      → (u : Table K V) × (from_items memory items ≡ ok tt u) × Built items u
  unfolding from_items empty_table load_threshold mul_trunc lookup
  from_items-Built memory node items given apart few =
      let (u, run, r) =
        insert_range-RangeInserted memory node items 0 empty_table empty_table-IsValid
          (record { given = given; apart = apart; unused = λ j le. refl }) (omega arith)
          (omega arith) in
      (
        u,
        run,
        record {
          valid = r.valid;
          reads = r.reads;
          size = λ once. omega (arith, r.size once (λ j ne. refl));
        },
      )
