-- ===== src/Containers/HashTable/Emplace.antt =====
-- `emplace`: a known key, and a new key in a table that need not grow.
use renn.Prelude.{
  ℕ, ◌≡◌, inl, inr, refl, true, false, some, ◌%◌, ◌<◌, ◌≤◌, ◌^◌, ◌+◌, arith, ltb, if◌then◌else◌,
  ◌∙◌, length, get_elem?, set, length-set, get_elem?-set, u64,
}
use renn.Prelude.Effect.{ok}
use renn.Containers.Nodes.{end, at, same, has, Cursor-cases}
use renn.Containers.Nodes.Inserts.{
  Inserts, insert_before-Inserts, Inserts-length, Inserts-HasDistinct,
}
use renn.Containers.HashTable.Key.{KeyTraits}
use renn.Containers.HashTable.{Table, Memory, HashNode, link, emplace}
use renn.Containers.HashTable.Runs.{first_in, rest_from-first_in, first_in-ne-null}
use renn.Containers.HashTable.Lookup.{find_key, lookup}
use renn.Containers.HashTable.Insert.{
  insert_run, insert_before-insert_run, first_in-insert_run_ne, first_in-insert_run_new,
  first_in-insert_run_old, insert_run-IsGrouped, Inserts-lookup, Inserts-IsHashed,
  Inserts-HasUniqueKeys,
}
use renn.Containers.HashTable.Invariant.{
  IsIndexed, IsValid, remainder_lem, slot-heads, find-find_key,
}

module _ {ℓ} {K V : Type ℓ} (p : ℕ) (n : HashNode K V) (t : Table K V) where
  abbrev bucket : ℕ
  bucket = n.cached_hash % t.bucket_count

  abbrev pub linked : Table K V
  linked = record t {
    elements = insert_run t.bucket_count bucket (p, n) t.elements;
    hash_table =
        (if same (first_in t.bucket_count bucket t.elements) end
          then set t.hash_table bucket (at p)
          else t.hash_table);
    size = u64 (t.size + 1);
  }

  pub link-linked : IsIndexed t → link (some p) n t ≡ ok (at p, true) linked
  unfolding link
  link-linked x = rw (
    remainder_lem n.cached_hash t.bucket_count t x.positive,
    slot-heads n.cached_hash t x,
    rest_from-first_in t.bucket_count bucket t.elements t x.distinct,
    insert_before-insert_run t.bucket_count bucket (p, n) t.elements x.distinct,
  )

  pub inserted : IsIndexed t → Inserts (p, n) t.elements linked.elements
  inserted x =
      rw (← insert_before-insert_run t.bucket_count bucket (p, n) t.elements x.distinct)
        (insert_before-Inserts _ (p, n) t.elements)

  linked-heads :
      IsIndexed t
      → (j : ℕ) → j < t.bucket_count
      → get_elem? linked.hash_table j ≡ some (first_in t.bucket_count j linked.elements)
  unfolding same
  linked-heads x j lt = elim (Cursor-cases (first_in t.bucket_count bucket t.elements)) [
    | inl (inl e) ↦ absurd (first_in-ne-null t.bucket_count bucket t.elements e)
    | inl (inr e) ↦ ground (
      arith,
      e,
      x.heads j lt,
      get_elem?-set t.hash_table bucket j (at p),
      first_in-insert_run_new t.bucket_count (p, n) t.elements e,
      first_in-insert_run_ne t.bucket_count (p, n) j t.elements,
    )
    | inr (q, e) ↦ ground (
      arith,
      e,
      x.heads j lt,
      first_in-insert_run_old t.bucket_count (p, n) t.elements q e,
      first_in-insert_run_ne t.bucket_count (p, n) j t.elements,
    )
  ]

  linked-width : length linked.hash_table ≡ length t.hash_table
  linked-width = ground (arith, length-set t.hash_table bucket (at p))

  -- One more node, also where the list is not grouped.
  pub linked-IsIndexed :
      IsIndexed t → has p t.elements ≡ false → t.size + 1 < 2 ^ 64 → IsIndexed linked
  linked-IsIndexed x fresh small = record {
    width = linked-width ∙ x.width;
    positive = x.positive;
    heads = linked-heads x;
    distinct = Inserts-HasDistinct (inserted x) fresh x.distinct;
    counted = omega (arith, x.counted, Inserts-length (inserted x));
  }

  module _ ⦃traits : KeyTraits K⦄ where
    pub linked-IsValid :
        IsValid t
        → n.cached_hash ≡ traits.hash n.key
        → has p t.elements ≡ false
        → find_key n.key t.elements ≡ end
        → t.size + 1 < 2 ^ 64
        → IsValid linked
    linked-IsValid v own fresh absent small = record {
      indexed = linked-IsIndexed v.indexed fresh small;
      hashed = Inserts-IsHashed (inserted v.indexed) own v.hashed;
      unique = Inserts-HasUniqueKeys (inserted v.indexed) absent v.unique;
      grouped = insert_run-IsGrouped t.bucket_count (p, n) t.elements v.grouped;
    }

    pub linked-lookup :
        (k : K)
        → IsIndexed t
        → find_key n.key t.elements ≡ end
        → lookup k linked.elements
          ≡ (if traits.key_eq n.key k then some n.value else lookup k t.elements)
    linked-lookup k x absent = Inserts-lookup k (inserted x) absent

module _ {ℓ} {K V : Type ℓ} ⦃traits : KeyTraits K⦄ (k : K) (w : V) (t : Table K V) where
  -- `emplace` of a key that a valid table has returns the first node with an equal key and false,
  -- and leaves the table as it was.
  pub emplace-found :
      (m : Memory) (q : ℕ)
      → IsValid t
      → find_key k t.elements ≡ at q
      → emplace m k w t ≡ ok (at q, false) t
  unfolding emplace same
  emplace-found m q v e = rw (find-find_key k v, e)

  -- What an insertion of a new key leaves.
  pub record Emplaced (p : ℕ) (u : Table K V) : Type ℓ where
    pub valid : IsValid u
    pub reads :
        (j : K) → lookup j u.elements ≡ (if traits.key_eq k j then some w else lookup j t.elements)
    pub size : u.size ≡ t.size + 1
    pub same_buckets : u.bucket_count ≡ t.bucket_count
    pub same_threshold : u.rehash_threshold ≡ t.rehash_threshold
    pub added :
        Inserts
          (p, record { key = k; value = w; cached_hash = traits.hash k })
          t.elements
          u.elements

  -- Let the key be new to a valid table, the allocator give a node that the list does not use, and
  -- one more element stay within the threshold and below 2^64. Then `emplace` returns the new node
  -- and true, and leaves a valid table with the same number of buckets and the same threshold, one
  -- more element among the old ones, which keep their order, and the new value at exactly the keys
  -- equal to the new one; every other key reads as before.
  pub emplace-Emplaced :
      (m : Memory) (p : ℕ)
      → IsValid t
      → find_key k t.elements ≡ end
      → m.node ≡ some p
      → has p t.elements ≡ false
      → t.size + 1 ≤ t.rehash_threshold
      → t.size + 1 < 2 ^ 64
      → (u : Table K V) × (emplace m k w t ≡ ok (at p, true) u) × Emplaced p u
  unfolding emplace same
  emplace-Emplaced m p v absent node fresh room small =
      let n : HashNode K V = record { key = k; value = w; cached_hash = traits.hash k } in
      let no_growth : ltb t.rehash_threshold (u64 (t.size + 1)) ≡ false = ground arith in
      (
        linked p n t,
        rw (find-find_key k v, absent, no_growth, node) (link-linked p n t v.indexed),
        record {
          valid = linked-IsValid p n t v refl fresh absent small;
          reads = λ j. linked-lookup p n t j v.indexed absent;
          size = omega arith;
          same_buckets = refl;
          same_threshold = refl;
          added = inserted p n t v.indexed;
        },
      )
