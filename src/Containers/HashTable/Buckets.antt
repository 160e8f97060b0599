-- ===== src/Containers/HashTable/Buckets.antt =====
-- src/Containers/HashTable/HashTable.hpp: the buckets.
pub mod Sizes
pub mod Ends
mod Tests
use renn.Prelude.{
  ℕ, zero, suc, ◌+◌, ◌-◌, Bool, true, false, List, [], ◌∷◌, ltb, leb, ◌==◌, ◌%◌, ◌&&◌,
  if◌then◌else◌,
}
use renn.Prelude.Effect.{
  Run, ok, throws, fault, State, pure, throw, get, put, ◌>>=◌, ◌>>◌, out_of_range, no_return,
}
use renn.Containers.Nodes.{Cursor, end, same, Nodes, rest_from}
use renn.Containers.HashTable.Key.{KeyTraits}
use renn.Containers.HashTable.{Table, HashNode, bucket_of, slot, remainder}

module _ {ℓ} {K V : Type ℓ} where
  -- The loop of `bucket_size`.
  unfoldable pub run_length : (count index : ℕ) → Nodes (HashNode K V) → ℕ
  run_length count index [] = 0
  run_length count index (x ∷ xs) =
      let rest = run_length count index xs in if bucket_of count x == index then suc rest else 0

  unfoldable pub bucket_size : ℕ → State (Table K V) ℕ
  unfolding slot run_length
  bucket_size index t =
      if leb t.bucket_count index
      then throws out_of_range t
      else (do
        head ← slot index t.hash_table
        rest ← rest_from head t.elements
        pure (run_length t.bucket_count index rest))
          t

  -- `begin(n)`
  unfoldable pub begin_bucket : ℕ → State (Table K V) Cursor
  unfolding slot
  begin_bucket n t = slot n t.hash_table t

  -- The loop of `end(n)`.
  unfoldable pub next_bucket : (fuel n : ℕ) → State (Table K V) ℕ
  unfolding slot
  next_bucket zero n t = fault no_return
  next_bucket (suc fuel) n t = elim (ltb n t.bucket_count) [
    | true ↦
        (do
          head ← slot n t.hash_table
          elim (same head end) [ true ↦ next_bucket fuel (suc n) | false ↦ pure n ])
          t
    | false ↦ ok n t
  ]

  -- `end(n)`
  unfoldable pub end_bucket : ℕ → State (Table K V) Cursor
  unfolding next_bucket slot
  end_bucket n t =
      (do
        next ← next_bucket (suc t.bucket_count) (n + 1)
        if ltb next t.bucket_count then slot next t.hash_table else pure end)
        t

  -- `bucket(key)`
  unfoldable pub bucket : ⦃traits : KeyTraits K⦄ → K → State (Table K V) ℕ
  unfolding remainder
  bucket ⦃traits⦄ k t =
      if t.size == 0 then throws out_of_range t else remainder (traits.hash k) t.bucket_count t
