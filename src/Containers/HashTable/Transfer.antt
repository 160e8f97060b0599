-- ===== src/Containers/HashTable/Transfer.antt =====
-- src/Containers/HashTable/HashTable.hpp: `reserve`, and tables that are copied, moved and swapped.
pub mod Copies
pub mod Moves
pub mod Reserves
mod Tests
use renn.Prelude.{
  ℕ, suc, max, Bool, true, false, List, [], ◌∷◌, ◌++◌, map, ltb, ◌-◌, if◌then◌else◌, length,
  replicate,
}
use renn.Prelude.Effect.{
  Run, ok, throws, fault, State, pure, throw, get, put, ◌>>=◌, ◌>>◌, bad_alloc,
}
use renn.Containers.Nodes.{null, end, Nodes}
use renn.Containers.HashTable.Key.{KeyTraits}
use renn.Containers.HashTable.{Table, HashNode, Memory, min_bucket_count, load_threshold, rehash}
use renn.Containers.HashTable.Access.{insert_range}

module _ {ℓ} {K V : Type ℓ} where
  -- `reserve(sz)`: the entries that `resize` adds are default-constructed iterators. The answers of
  -- the allocator are those for `resize` and for `rehash`.
  unfoldable pub reserve : (resized rehashed : Bool) → ℕ → State (Table K V) (Unit {0})
  unfolding load_threshold
  reserve resized rehashed sz t =
      if ltb (length t.hash_table) sz
      then (if resized
          then (do
            put (record t {
              hash_table = t.hash_table ++ replicate (sz - length t.hash_table) null;
              bucket_count = sz;
              rehash_threshold = load_threshold sz;
            })
            rehash rehashed sz)
              t
          else throws bad_alloc t)
      else ok tt t

  -- `HashTable(HashTable&&)`: the new table, and what is left of the other.
  unfoldable pub move_construct : Table K V → Table K V × Table K V
  unfolding load_threshold
  move_construct other = (
    other,
    record {
      elements = [];
      hash_table = [];
      size = 0;
      bucket_count = min_bucket_count;
      rehash_threshold = load_threshold min_bucket_count;
    },
  )

  -- `operator=(HashTable&&)` of another table, with memory for the 7 default-constructed iterators.
  unfoldable pub move_assign : Table K V → Table K V → Table K V × Table K V
  unfolding load_threshold
  move_assign this other = (
    record this {
      hash_table = other.hash_table;
      elements = other.elements;
      bucket_count = other.bucket_count;
      rehash_threshold = other.rehash_threshold;
    },
    record {
      elements = [];
      hash_table = replicate min_bucket_count null;
      size = 0;
      bucket_count = min_bucket_count;
      rehash_threshold = load_threshold min_bucket_count;
    },
  )

  unfoldable pub swap : Table K V → Table K V → Table K V × Table K V
  swap this other = (other, this)

  -- The table of the copy constructor before its loop.
  unfoldable pub like : Table K V → Table K V
  like other = record {
    elements = [];
    hash_table = replicate other.bucket_count end;
    size = 0;
    bucket_count = other.bucket_count;
    rehash_threshold = other.rehash_threshold;
  }

module _ {ℓ} {K V : Type ℓ} ⦃traits : KeyTraits K⦄ where
  abbrev pub entries : Nodes (HashNode K V) → List (K × V)
  entries [] = []
  entries (x ∷ xs) = (x.1.key, x.1.value) ∷ entries xs

  -- `HashTable(const HashTable&)`, with memory for the array.
  unfoldable pub copy_construct : (memory : ℕ → Memory) → Table K V → Run (Table K V) (Unit {0})
  unfolding like
  copy_construct memory other = insert_range memory 0 (entries other.elements) (like other)

  -- `operator=(const HashTable&)` of another table: what was copied is swapped in; where the copy
  -- throws, the table stays as it was.
  unfoldable pub copy_assign : (memory : ℕ → Memory) → Table K V → State (Table K V) (Unit {0})
  unfolding swap
  copy_assign memory other this = elim (copy_construct memory other) [
    | ok x tmp ↦ ok tt ((swap this tmp).0)
    | throws e tmp ↦ throws e this
    | fault e ↦ fault e
  ]
