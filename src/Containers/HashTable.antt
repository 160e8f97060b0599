-- ===== src/Containers/HashTable.antt =====
-- src/Containers/HashTable/HashTable.hpp: a chained table whose chains are runs of one list.
pub mod Key
pub mod Prime
pub mod Runs
pub mod Lookup
pub mod Insert
pub mod Remove
pub mod Invariant
pub mod Emplace
pub mod Erase
pub mod Rehash
pub mod FirstRun
pub mod Growth
pub mod Access
pub mod Transfer
pub mod Buckets
pub mod Session
pub mod Iteration
pub mod Hashers
mod Fixtures
mod Tests
use renn.Prelude.{
  ℕ, zero, suc, ◌+◌, ◌-◌, ◌*◌, ◌%◌, ◌^◌, max, Bool, true, false, not, Option, none, some, List, [],
  ◌∷◌, ltb, leb, ◌==◌, if◌then◌else◌, u64, get_elem?, set, replicate,
}
use renn.Prelude.Effect.{
  Run, ok, throws, fault, State, pure, undefined, throw, get, put, ◌>>=◌, ◌>>◌, bad_alloc,
  out_of_bounds, mod_by_zero, no_return, null_deref, dangling,
}
use renn.Prelude.Float32.{mul_trunc, div_ceil}
use renn.Containers.Nodes.{Cursor, null, end, at, same, Nodes, rest_from, insert_before, remove_at}
use Key.{KeyTraits}
use Prime.{next_prime}

pub record HashNode {ℓ} (K V : Type ℓ) : Type ℓ where
  pub key : K
  pub value : V
  pub cached_hash : ℕ

pub record Table {ℓ} (K V : Type ℓ) : Type ℓ where
  pub elements : Nodes (HashNode K V)
  pub hash_table : List Cursor
  pub size : ℕ
  pub bucket_count : ℕ
  pub rehash_threshold : ℕ

-- The answers of the allocators during one call: for an array of iterators, and for a list node.
pub record Memory : Type 0 where
  pub array : Bool
  pub node : Option ℕ

abbrev pub min_bucket_count : ℕ
min_bucket_count = 7

-- 0.8f is 13421773 / 2 ^ 24.
abbrev pub max_load_factor : ℕ
max_load_factor = 13421773

unfoldable pub load_threshold : ℕ → ℕ
load_threshold bucket_count = mul_trunc bucket_count max_load_factor

unfoldable pub remainder {ℓ} : {S : Type ℓ} → ℕ → ℕ → State S ℕ
remainder n d = if d == 0 then undefined mod_by_zero else pure (n % d)

-- `hash_table_[index]`
unfoldable pub slot {ℓ} : {S : Type ℓ} → ℕ → List Cursor → State S Cursor
slot index heads = elim (get_elem? heads index) [ none ↦ undefined out_of_bounds | some c ↦ pure c ]

module _ {ℓ} {K V : Type ℓ} where
  -- `HashTable()`
  unfoldable pub empty_table : Table K V
  unfolding load_threshold
  empty_table = record {
    elements = [];
    hash_table = replicate min_bucket_count end;
    size = 0;
    bucket_count = min_bucket_count;
    rehash_threshold = load_threshold min_bucket_count;
  }

  -- `HashTable(bucket_count)`: the array has the length of the argument.
  unfoldable pub sized_table : ℕ → Table K V
  unfolding load_threshold
  sized_table bucket_count = record {
    elements = [];
    hash_table = replicate bucket_count end;
    size = 0;
    bucket_count = max bucket_count min_bucket_count;
    rehash_threshold = load_threshold (max bucket_count min_bucket_count);
  }

  abbrev pub bucket_of : ℕ → ℕ × HashNode K V → ℕ
  bucket_of count x = x.1.cached_hash % count

  -- The loop of `rehash` over the elements.
  unfoldable pub redistribute : ℕ → Nodes (HashNode K V) → List Cursor → List Cursor
  redistribute count [] table = table
  redistribute count (x ∷ xs) table =
      let index = bucket_of count x in
      redistribute count xs
        (elim (get_elem? table index) [ some end ↦ set table index (at x.0) | _ ↦ table ])

  -- `rehash(count)`; `array` is whether the new array can be allocated.
  unfoldable pub rehash : (array : Bool) → ℕ → State (Table K V) (Unit {0})
  unfolding redistribute load_threshold
  rehash array asked = do
    t ← get
    let count = max (max asked min_bucket_count) (div_ceil t.size max_load_factor)
    let moved = record t {
      hash_table = redistribute count t.elements (replicate count end);
      bucket_count = count;
      rehash_threshold = load_threshold count;
    }
    if count == t.bucket_count then pure tt else if array then put moved else throw bad_alloc

  -- The handler around `rehash` in `emplace`: the failure matters only if every bucket is taken.
  abbrev pub swallow : Run (Table K V) (Unit {0}) → Run (Table K V) (Unit {0})
  swallow (throws bad_alloc t) = if leb t.bucket_count t.size then throws bad_alloc t else ok tt t
  swallow r = r

  -- The growth in `emplace`.
  unfoldable pub grow : (array : Bool) → State (Table K V) (Unit {0})
  grow array t = elim (next_prime (u64 (t.bucket_count * 2))) [
    | none ↦ fault no_return
    | some count ↦ swallow (rehash array count t)
  ]

  -- The position behind the run of bucket `index` that `rest` begins with.
  unfoldable pub run_end : (count index : ℕ) → Nodes (HashNode K V) → Cursor
  run_end count index [] = end
  run_end count index (x ∷ xs) =
      if bucket_of count x == index then run_end count index xs else at x.0

  -- The second half of `emplace`, once the key is known to be new.
  unfoldable pub link : (node : Option ℕ) → HashNode K V → State (Table K V) (Cursor × Bool)
  unfolding remainder slot run_end
  link node n = do
    t ← get
    index ← remainder n.cached_hash t.bucket_count
    head ← slot index t.hash_table
    rest ← rest_from head t.elements
    elim node [
      | none ↦ throw bad_alloc
      | some p ↦ do
        put (record t {
          elements = insert_before (run_end t.bucket_count index rest) (p, n) t.elements;
          hash_table = (if same head end then set t.hash_table index (at p) else t.hash_table);
          size = u64 (t.size + 1);
        })
        pure (at p, true)
    ]

  -- The next node, if it lies in bucket `index`.
  unfoldable pub next_head : (count index : ℕ) → Nodes (HashNode K V) → Cursor
  next_head count index [] = end
  next_head count index (x ∷ xs) = if bucket_of count x == index then at x.0 else end

  -- `erase(position)` of an iterator.
  unfoldable pub erase_at : Cursor → State (Table K V) (Unit {0})
  unfolding remainder slot next_head
  erase_at end = pure tt
  erase_at null = undefined null_deref
  erase_at (at p) = do
    t ← get
    rest ← rest_from (at p) t.elements
    elim rest [
      | [] ↦ undefined dangling
      | x ∷ after ↦ do
        index ← remainder x.1.cached_hash t.bucket_count
        head ← slot index t.hash_table
        put (record t {
          elements = remove_at p t.elements;
          hash_table =
              (if same head (at p)
                then set t.hash_table index (next_head t.bucket_count index after)
                else t.hash_table);
          size = u64 (t.size + 2 ^ 64 - 1);
        })
    ]

  -- `clear()`: the elements go before the new array is allocated.
  unfoldable pub clear : (array : Bool) → State (Table K V) (Unit {0})
  unfolding load_threshold
  clear array t =
      if array
      then ok tt (record {
        elements = [];
        hash_table = replicate min_bucket_count end;
        size = 0;
        bucket_count = min_bucket_count;
        rehash_threshold = load_threshold min_bucket_count;
      })
      else throws bad_alloc (record t { elements = [] })

module _ {ℓ} {K V : Type ℓ} ⦃traits : KeyTraits K⦄ where
  -- The loop of `find` and of `emplace`: through the run of bucket `index`, to an equal key.
  unfoldable pub scan : (count index : ℕ) → K → Nodes (HashNode K V) → Cursor
  scan count index k [] = end
  scan count index k (x ∷ xs) =
      if bucket_of count x == index
      then (if traits.key_eq x.1.key k then at x.0 else scan count index k xs)
      else end

  unfoldable pub find : K → State (Table K V) Cursor
  unfolding remainder slot scan
  find k = do
    t ← get
    index ← remainder (traits.hash k) t.bucket_count
    head ← slot index t.hash_table
    rest ← rest_from head t.elements
    pure (scan t.bucket_count index k rest)

  -- `emplace(key, value)`
  unfoldable pub emplace : Memory → K → V → State (Table K V) (Cursor × Bool)
  emplace memory k v = do
    current ← find k
    if same current end
        then (do
          t ← get
          (if ltb t.rehash_threshold (u64 (t.size + 1)) then grow memory.array else pure tt)
          link memory.node (record { key = k; value = v; cached_hash = traits.hash k }))
        else pure (current, false)

  -- `erase(key)`
  unfoldable pub erase : K → State (Table K V) (Unit {0})
  erase k = do it ← find k; if same it end then pure tt else erase_at it

  unfoldable pub contains : K → State (Table K V) Bool
  contains k = do it ← find k; pure (not (same it end))
