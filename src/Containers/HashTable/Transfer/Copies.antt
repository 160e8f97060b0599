-- ===== src/Containers/HashTable/Transfer/Copies.antt =====
-- The copy constructor and the copy assignment of src/Containers/HashTable/HashTable.hpp.
use renn.Prelude.{
  ℕ, suc, ◌≡◌, refl, some, [], ◌∷◌, ◌<◌, ◌≤◌, ◌^◌, arith, ap, ◌∙◌, sym, length, length-replicate,
  get_elem?-replicate,
}
use renn.Prelude.Effect.{ok}
use renn.Containers.Nodes.{end, Nodes}
use renn.Containers.HashTable.Key.{KeyTraits}
use renn.Containers.HashTable.{Table, HashNode, Memory}
use renn.Containers.HashTable.Runs.{first_in}
use renn.Containers.HashTable.Lookup.{lookup, HasUniqueKeys}
use renn.Containers.HashTable.Remove.{find_key-lookup}
use renn.Containers.HashTable.Invariant.{IsValid}
use renn.Containers.HashTable.Access.Ranges.{
  entry_of, HasUniqueEntries, Supplies, insert_range-RangeInserted,
}
use renn.Containers.HashTable.Transfer.{like, entries, copy_construct, copy_assign}

module _ {ℓ} {K V : Type ℓ} ⦃traits : KeyTraits K⦄ where
  entry_of-entries : (k : K) (xs : Nodes (HashNode K V)) → entry_of k (entries xs) ≡ lookup k xs
  unfolding lookup
  entry_of-entries k [] = refl
  entry_of-entries k (x ∷ xs) = ground (arith, entry_of-entries k xs)

  entries-HasUniqueEntries :
      (xs : Nodes (HashNode K V)) → HasUniqueKeys xs → HasUniqueEntries (entries xs)
  entries-HasUniqueEntries [] u = tt
  entries-HasUniqueEntries (x ∷ xs) (e, u) =
      (entry_of-entries x.1.key xs ∙ find_key-lookup x.1.key xs e, entries-HasUniqueEntries xs u)

  length-entries : (xs : Nodes (HashNode K V)) → length (entries xs) ≡ length xs
  length-entries [] = refl
  length-entries (x ∷ xs) = ap suc (length-entries xs)

  like-IsValid : (t : Table K V) → IsValid t → IsValid (like t)
  unfolding like first_in
  like-IsValid t v = record {
    indexed = record {
      width = length-replicate t.bucket_count end;
      positive = v.indexed.positive;
      heads = λ i lt. get_elem?-replicate t.bucket_count i end lt;
      distinct = tt;
      counted = refl;
    };
    hashed = tt;
    unique = tt;
    grouped = tt;
  }

  -- What a copy is: another list of nodes, in which every key reads as in the original.
  pub record Copied (t u : Table K V) : Type ℓ where
    pub valid : IsValid u
    pub reads : (j : K) → lookup j u.elements ≡ lookup j t.elements
    pub size : u.size ≡ t.size
    pub same_buckets : u.bucket_count ≡ t.bucket_count

  module _ {t : Table K V} (v : IsValid t) (memory : ℕ → Memory) (node : ℕ → ℕ)
      (given : (j : ℕ) → (memory j).node ≡ some (node j))
      (apart : (j k : ℕ) → node j ≡ node k → j ≡ k) (room : t.size ≤ t.rehash_threshold)
      (small : t.size < 2 ^ 64) where
    -- Let a valid table of fewer than 2^64 elements be within its threshold, and the allocator give
    -- a node to every insertion, each another one. Then the copy constructor returns, and leaves a
    -- valid table of the same size and number of buckets in which every key reads as in the
    -- original.
    pub copy_construct-Copied : (u : Table K V) × (copy_construct memory t ≡ ok tt u) × Copied t u
    unfolding copy_construct like lookup
    copy_construct-Copied =
        let supplies : Supplies {K = K} {V = V} memory node 0 [] = record {
          given = given;
          apart = apart;
          unused = λ j le. refl;
        } in
        let n : length (entries t.elements) ≡ t.size =
          length-entries t.elements ∙ sym v.indexed.counted in
        let (u, run, r) =
          insert_range-RangeInserted memory node (entries t.elements) 0 (like t) (like-IsValid t v)
            supplies (omega (arith, n, room)) (omega (arith, n, small)) in
        (
          u,
          run,
          record {
            valid = r.valid;
            reads = λ j. r.reads j ∙ entry_of-entries j t.elements;
            size =
                r.size (entries-HasUniqueEntries t.elements v.unique) (λ j ne. refl)
                ∙ omega (arith, n);
            same_buckets = r.same_buckets;
          },
        )

    -- Let another table be valid, of fewer than 2^64 elements and within its threshold, and the
    -- allocator give a node to every insertion, each another one. Then copy assignment returns, and
    -- leaves a valid table of the same size and number of buckets as the other in which every key
    -- reads as in it.
    pub copy_assign-Copied :
        (this : Table K V) → (u : Table K V) × (copy_assign memory t this ≡ ok tt u) × Copied t u
    unfolding copy_assign
    copy_assign-Copied this =
        let (u, run, c) = copy_construct-Copied in (u, simp (copy_assign, run) refl, c)
