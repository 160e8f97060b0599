-- ===== src/Containers/HashTable/Transfer/Reserves.antt =====
-- `reserve` of src/Containers/HashTable/HashTable.hpp.
use renn.Prelude.{
  ℕ, zero, suc, ◌≡◌, refl, true, List, [], ◌∷◌, ◌<◌, ◌≤◌, ◌-◌, max, arith, ◌++◌, ap, get_elem?,
  get_elem?-replicate, replicate, ◌∙◌, length,
}
use renn.Prelude.Effect.{ok, fault, null_deref}
use renn.Prelude.Float32.{div_ceil}
use renn.Containers.Nodes.{null}
use renn.Containers.HashTable.Key.{KeyTraits}
use renn.Containers.HashTable.{
  Table, find, rehash, min_bucket_count, max_load_factor, load_threshold,
}
use renn.Containers.HashTable.Lookup.{home}
use renn.Containers.HashTable.Transfer.{reserve}
use renn.Containers.HashTable.Transfer.Moves.{find_null}

get_elem?-append-behind {ℓ} :
    {A : Type ℓ} (xs ys : List A) (i : ℕ)
    → length xs ≤ i
    → get_elem? (xs ++ ys) i ≡ get_elem? ys (i - length xs)
get_elem?-append-behind [] ys i h = ap (get_elem? ys) (omega arith)
get_elem?-append-behind (x ∷ xs) ys zero h = absurd (omega arith)
get_elem?-append-behind (x ∷ xs) ys (suc i) h =
    get_elem?-append-behind xs ys i (omega arith) ∙ ap (get_elem? ys) (omega arith)

module _ {ℓ} {K V : Type ℓ} ⦃traits : KeyTraits K⦄ (t : Table K V) (sz : ℕ)
    (more : length t.hash_table < sz) (least : min_bucket_count ≤ sz)
    (enough : div_ceil t.size max_load_factor ≤ sz) where
  -- The array is widened by default-constructed iterators.
  abbrev widened : Table K V
  widened = record t {
    hash_table = t.hash_table ++ replicate (sz - length t.hash_table) null;
    bucket_count = sz;
    rehash_threshold = load_threshold sz;
  }

  below :
      (k : K)
      → length t.hash_table ≤ home sz k
      → home sz k - length t.hash_table < sz - length t.hash_table
  below k new = grind (arith)

  reserve-widened : reserve true true sz t ≡ ok tt widened
  unfolding reserve rehash
  reserve-widened =
      let same : max (max sz min_bucket_count) (div_ceil t.size max_load_factor) ≡ sz =
        omega arith in
      ground (arith, same)

  -- `reserve` with more buckets than the table has, at least 7, and at least the size over the load
  -- factor returns, sets the number of buckets, and does not rehash: the old entries stay, and `find`
  -- of every key whose bucket is a new one dereferences a default-constructed iterator.
  pub reserve-null_deref :
      (k : K)
      → length t.hash_table ≤ home sz k
      → (u : Table K V) × (reserve true true sz t ≡ ok tt u)
        × (u.bucket_count ≡ sz)
        × (find k u ≡ fault null_deref)
  reserve-null_deref k new = (
    widened,
    reserve-widened,
    refl,
    find_null k widened (omega arith) (
        get_elem?-append-behind t.hash_table (replicate (sz - length t.hash_table) null) (home sz k)
          new
        ∙ get_elem?-replicate (sz - length t.hash_table) (home sz k - length t.hash_table) null
            (below k new)),
  )
