-- ===== src/Containers/HashTable/Rehash.antt =====
-- `rehash`, the growth in `emplace`, the constructors and `clear`.
use renn.Prelude.{
  ℕ, ◌≡◌, ◌≢◌, inl, inr, refl, true, false, List, [], ◌∷◌, ◌++◌, some, ◌<◌, ◌≤◌, max, arith, ◌==◌,
  if◌then◌else◌, Bool-cases, ap, ◌∙◌, sym, length, get_elem?, set, length-set, get_elem?-set,
  get_elem?-lt, get_elem?-replicate, get_elem?-replicate-none, length-replicate, replicate,
}
use renn.Prelude.Effect.{ok, throws, bad_alloc, fault, out_of_bounds}
use renn.Prelude.Float32.{div_ceil}
use renn.Containers.Nodes.{Cursor, end, at, same, Nodes}
use renn.Containers.HashTable.Key.{KeyTraits}
use renn.Containers.HashTable.{
  Table, HashNode, bucket_of, find, redistribute, rehash, empty_table, sized_table,
  min_bucket_count, max_load_factor, load_threshold, scan, slot,
}
use renn.Containers.HashTable.Runs.{first_in, skip}
use renn.Containers.HashTable.Lookup.{home}
use renn.Containers.HashTable.Invariant.{IsIndexed, IsValid, find-scan}

module _ {ℓ} {K V : Type ℓ} (count : ℕ) where
  -- The array after one element.
  abbrev entered : ℕ × HashNode K V → List Cursor → List Cursor
  entered x table = elim (get_elem? table (bucket_of count x)) [
    | some end ↦ set table (bucket_of count x) (at x.0)
    | _ ↦ table
  ]

  length-entered :
      (x : ℕ × HashNode K V) (table : List Cursor) → length (entered x table) ≡ length table
  length-entered x table = ground (arith, length-set table (bucket_of count x) (at x.0))

  pub length-redistribute :
      (xs : Nodes (HashNode K V)) (table : List Cursor)
      → length (redistribute count xs table) ≡ length table
  unfolding redistribute
  length-redistribute [] table = refl
  length-redistribute (x ∷ xs) table =
      length-redistribute xs (entered x table) ∙ length-entered x table

  get_elem?-entered :
      (j : ℕ) (x : ℕ × HashNode K V) (table : List Cursor) (c : Cursor)
      → j < length table
      → get_elem? table j ≡ some c
      → get_elem? (entered x table) j
        ≡ some (if bucket_of count x == j then (if same c end then at x.0 else c) else c)
  unfolding same
  get_elem?-entered j x table c lt h = ground (
    arith,
    get_elem?-lt table (bucket_of count x) end,
    get_elem?-set table (bucket_of count x) j (at x.0),
  )

  -- Each free entry gets the first element of its bucket.
  pub get_elem?-redistribute :
      (j : ℕ) (xs : Nodes (HashNode K V)) (table : List Cursor) (c : Cursor)
      → j < length table
      → get_elem? table j ≡ some c
      → get_elem? (redistribute count xs table) j
        ≡ some (if same c end then first_in count j xs else c)
  unfolding redistribute first_in same
  get_elem?-redistribute j [] table end lt h = h
  get_elem?-redistribute j [] table c lt h = h
  get_elem?-redistribute j (x ∷ xs) table c lt h =
      get_elem?-redistribute j xs (entered x table) _ (omega (arith, length-entered x table))
        (get_elem?-entered j x table c lt h)
      ∙ ground arith

  -- A new array, filled from the elements.
  pub redistribute-heads :
      (xs : Nodes (HashNode K V)) (j : ℕ)
      → j < count
      → get_elem? (redistribute count xs (replicate count end)) j ≡ some (first_in count j xs)
  unfolding same
  redistribute-heads xs j lt =
      get_elem?-redistribute j xs (replicate count end) end
        (omega (arith, length-replicate count end)) (get_elem?-replicate count j end lt)

module _ {ℓ} {K V : Type ℓ} (asked : ℕ) (t : Table K V) where
  abbrev pub rehash_count : ℕ
  rehash_count = max (max asked min_bucket_count) (div_ceil t.size max_load_factor)

  -- The same elements in the same order, under iterators for another number of buckets.
  pub record Rehashed (u : Table K V) : Type ℓ where
    pub indexed : IsIndexed u
    pub elements : u.elements ≡ t.elements
    pub buckets : u.bucket_count ≡ rehash_count
    pub size : u.size ≡ t.size

  abbrev moved : ℕ → Table K V
  moved threshold = record t {
    hash_table = redistribute rehash_count t.elements (replicate rehash_count end);
    bucket_count = rehash_count;
    rehash_threshold = threshold;
  }

  moved-IsIndexed : IsIndexed t → (threshold : ℕ) → IsIndexed (moved threshold)
  moved-IsIndexed x threshold = record {
    width =
        length-redistribute rehash_count t.elements (replicate rehash_count end)
        ∙ length-replicate rehash_count end;
    positive = omega arith;
    heads = redistribute-heads rehash_count t.elements;
    distinct = x.distinct;
    counted = x.counted;
  }

  -- With memory for the array, `rehash` of a table whose buckets refer to the first nodes of theirs
  -- returns normally, keeps the elements, their order and the size, sets the number of buckets to
  -- the largest of the argument, 7 and the size over the load factor, and makes every bucket refer
  -- to the first of its nodes.
  pub rehash-Rehashed : IsIndexed t → (u : Table K V) × (rehash true asked t ≡ ok tt u) × Rehashed u
  unfolding rehash
  rehash-Rehashed x = elim (Bool-cases (rehash_count == t.bucket_count)) [
    | inl stay ↦ (
      t,
      rw stay,
      record { indexed = x; elements = refl; buckets = ground (arith, stay); size = refl },
    )
    | inr move ↦ (
      moved (load_threshold rehash_count),
      rw move,
      record { indexed = moved-IsIndexed x _; elements = refl; buckets = refl; size = refl },
    )
  ]

  -- Without memory for the new array the table is as it was.
  pub rehash-fails : rehash_count ≢ t.bucket_count → rehash false asked t ≡ throws bad_alloc t
  unfolding rehash
  rehash-fails ne = ground arith

module _ {ℓ} {K V : Type ℓ} ⦃traits : KeyTraits K⦄ where
  pub empty_table-IsValid : IsValid (empty_table {K = K} {V = V})
  unfolding empty_table first_in
  empty_table-IsValid = record {
    indexed = record {
      width = refl;
      positive = omega arith;
      heads = λ i lt. get_elem?-replicate min_bucket_count i end lt;
      distinct = tt;
      counted = refl;
    };
    hashed = tt;
    unique = tt;
    grouped = tt;
  }

  -- `HashTable(n)` with n from 7 on is a valid table.
  pub sized_table-IsValid : (n : ℕ) → min_bucket_count ≤ n → IsValid (sized_table {K = K} {V = V} n)
  unfolding sized_table first_in
  sized_table-IsValid n h =
      let e : max n min_bucket_count ≡ n = omega arith in
      record {
        indexed = record {
          width = length-replicate n end ∙ sym e;
          positive = omega arith;
          heads = λ i lt. get_elem?-replicate n i end (omega arith);
          distinct = tt;
          counted = refl;
        };
        hashed = tt;
        unique = tt;
        grouped = tt;
      }

  -- `HashTable(n)` with n below 7 has 7 buckets and an array of n iterators: `find` of a key whose
  -- bucket is n or more reads past the array.
  pub sized_table-out_of_bounds :
      (n : ℕ) (k : K)
      → n < min_bucket_count
      → n ≤ home min_bucket_count k
      → find k (sized_table {K = K} {V = V} n) ≡ fault out_of_bounds
  unfolding find sized_table slot
  sized_table-out_of_bounds n k h past =
      let e : max n min_bucket_count ≡ min_bucket_count = omega arith in
      ground (arith, e, get_elem?-replicate-none n (home min_bucket_count k) end past)

  scan_stops :
      (count i : ℕ) (k : K) (front back : Nodes (HashNode K V)) (x y : ℕ × HashNode K V)
      → first_in count i front ≡ end
      → bucket_of count x ≡ i
      → traits.key_eq x.1.key k ≡ false
      → bucket_of count y ≢ i
      → scan count i k (skip count i (front ++ x ∷ y ∷ back)) ≡ end
  unfolding scan skip first_in
  scan_stops count i k [] back x y nowhere own other foreign = ground arith
  scan_stops count i k (z ∷ front) back x y nowhere own other foreign =
      ground (arith, scan_stops count i k front back x y)

  -- Let every bucket refer to the first of its nodes. If the first node of the bucket of a key has
  -- a key not equal to it and a node of another bucket follows at once, `find` returns the end,
  -- whatever stands behind.
  pub find-misses :
      (k : K) (t : Table K V) (front back : Nodes (HashNode K V)) (x y : ℕ × HashNode K V)
      → IsIndexed t
      → t.elements ≡ front ++ x ∷ y ∷ back
      → first_in t.bucket_count (home t.bucket_count k) front ≡ end
      → bucket_of t.bucket_count x ≡ home t.bucket_count k
      → traits.key_eq x.1.key k ≡ false
      → bucket_of t.bucket_count y ≢ home t.bucket_count k
      → find k t ≡ ok end t
  find-misses k t front back x y ix e nowhere own other foreign =
      find-scan k ix
      ∙ ap (λ c. ok c t)
          (ap
              (λ xs.
                scan t.bucket_count (home t.bucket_count k) k
                  (skip t.bucket_count (home t.bucket_count k) xs))
              e
            ∙ scan_stops t.bucket_count (home t.bucket_count k) k front back x y nowhere own other
                foreign)
