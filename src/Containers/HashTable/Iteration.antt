-- ===== src/Containers/HashTable/Iteration.antt =====
-- src/Containers/HashTable/HashTable.hpp: the iterators of a table, and the loop of a client that
-- walks from `begin` to `end` and changes the values.
pub mod Zipper
pub mod Changes
pub mod Visits
mod Tests
use renn.Prelude.{ℕ, zero, suc, true, false, List, [], ◌∷◌, ◌==◌, if◌then◌else◌}
use renn.Prelude.Effect.{
  Run, ok, throws, fault, State, pure, get, put, ◌>>=◌, ◌>>◌, dangling, no_return,
}
use renn.Containers.Nodes.{Cursor, null, end, at, same, Nodes, begin as begin_nodes, rest_from}
use renn.Containers.HashTable.{Table, HashNode}
use renn.Containers.HashTable.Access.{increment}

module _ {ℓ} {K V : Type ℓ} where
  -- `begin()`; `end()` is the end of the list.
  unfoldable pub begin : Table K V → Cursor
  begin t = begin_nodes t.elements

  -- The pair that a node holds; the end has no node.
  abbrev pub pair : Nodes (HashNode K V) → State (Table K V) (K × V)
  pair [] t = fault dangling
  pair (x ∷ xs) t = ok (x.1.key, x.1.value) t

  -- `*it`
  unfoldable pub dereference : Cursor → State (Table K V) (K × V)
  dereference it = do t ← get; rest ← rest_from it t.elements; pair rest

  abbrev pub with_value : V → ℕ × HashNode K V → ℕ × HashNode K V
  with_value v x = (x.0, record x.1 { value = v })

  unfoldable pub replace_at : ℕ → V → Nodes (HashNode K V) → Nodes (HashNode K V)
  replace_at p v [] = []
  replace_at p v (x ∷ xs) = if x.0 == p then with_value v x ∷ xs else x ∷ replace_at p v xs

  abbrev pub replace : Cursor → V → Nodes (HashNode K V) → Nodes (HashNode K V)
  replace (at p) v xs = replace_at p v xs
  replace _ v xs = xs

  -- An assignment to `second` of the reference that `*it` returned.
  unfoldable pub assign_second : Cursor → V → State (Table K V) (Unit {0})
  unfolding dereference replace_at
  assign_second it v = do
    old ← dereference it
    t ← get
    put (record t { elements = replace it v t.elements })

  -- `for (auto it = ...; it != end(); ++it)`, which reads each pair and stores another value.
  unfoldable pub each : (V → V) → (fuel : ℕ) → Cursor → State (Table K V) (List (K × V))
  unfolding dereference assign_second increment
  each f zero it t = fault no_return
  each f (suc fuel) it t = elim (same it end) [
    | true ↦ ok [] t
    | false ↦
        (do
          seen ← dereference it
          assign_second it (f seen.1)
          following ← increment it
          rest ← each f fuel following
          pure (seen ∷ rest))
          t
  ]
