-- ===== src/Containers/HashTable/Access.antt =====
-- src/Containers/HashTable/HashTable.hpp: the elements by their keys, beyond `find` and `emplace`.
pub mod Values
pub mod Ranges
pub mod RangeErase
pub mod Items
mod Tests
use renn.Prelude.{ℕ, zero, suc, Bool, true, false, Option, none, some, List, [], ◌∷◌, if◌then◌else◌}
use renn.Prelude.Effect.{
  Run, ok, throws, fault, State, pure, undefined, throw, get, put, ◌>>=◌, ◌>>◌, out_of_range,
  dangling, no_return,
}
use renn.Containers.Nodes.{Cursor, null, end, at, same, Nodes, begin, rest_from}
use renn.Containers.HashTable.Key.{KeyTraits}
use renn.Containers.HashTable.{Table, HashNode, Memory, empty_table, find, emplace, erase_at}

module _ {ℓ} {K V : Type ℓ} where
  -- `it->data_.second_`; the end has no node.
  abbrev pub second : Nodes (HashNode K V) → State (Table K V) V
  second [] t = fault dangling
  second (x ∷ xs) t = ok x.1.value t

  unfoldable pub value_at : Cursor → State (Table K V) V
  value_at it = do t ← get; rest ← rest_from it t.elements; second rest

  -- `++it`
  abbrev pub next : Nodes (HashNode K V) → State (Table K V) Cursor
  next [] t = fault dangling
  next (x ∷ xs) t = ok (begin xs) t

  unfoldable pub increment : Cursor → State (Table K V) Cursor
  increment it = do t ← get; rest ← rest_from it t.elements; next rest

  -- `erase(first, second)`: each iterator is advanced before its node goes.
  unfoldable pub erase_range : (fuel : ℕ) → (first last : Cursor) → State (Table K V) (Unit {0})
  unfolding increment
  erase_range zero it last t = fault no_return
  erase_range (suc fuel) it last t = elim (same it last) [
    | true ↦ ok tt t
    | false ↦ (do following ← increment it; erase_at it; erase_range fuel following last) t
  ]

module _ {ℓ} {K V : Type ℓ} ⦃traits : KeyTraits K⦄ where
  -- `operator[]`: the value that the reference which it returns refers to.
  unfoldable pub subscript : Memory → (default : V) → K → State (Table K V) V
  unfolding value_at
  subscript memory default k = do
    it ← find k
    if same it end then (do r ← emplace memory k default; value_at r.0) else value_at it

  -- `operator[]` of a constant table, and `at`.
  unfoldable pub checked_at : K → State (Table K V) V
  unfolding value_at
  checked_at k = do it ← find k; if same it end then throw out_of_range else value_at it

  unfoldable pub try_emplace : Memory → K → V → State (Table K V) (Cursor × Bool)
  try_emplace memory k v = do
    it ← find k
    if same it end then emplace memory k v else pure (it, false)

  -- `insert(first, second)`: the elements in order, each with the allocators' answers.
  unfoldable pub insert_range :
      (memory : ℕ → Memory) → (i : ℕ) → List (K × V) → State (Table K V) (Unit {0})
  insert_range memory i [] = pure tt
  insert_range memory i (x ∷ xs) = do r ← emplace (memory i) x.0 x.1; insert_range memory (suc i) xs

  -- The constructor of an initializer list.
  unfoldable pub from_items : (memory : ℕ → Memory) → List (K × V) → Run (Table K V) (Unit {0})
  unfolding insert_range
  from_items memory items = insert_range memory 0 items empty_table
