-- ===== src/Containers/HashTable/Erase.antt =====
-- `erase` and `clear`.
use renn.Prelude.{
  refl, [], ℕ, ◌≡◌, inl, inr, true, ◌∷◌, none, some, ◌%◌, ◌<◌, ◌^◌, ◌+◌, ◌-◌, arith, if◌then◌else◌,
  get_elem?, set, length-set, get_elem?-set, u64,
}
use renn.Prelude.Effect.{ok}
use renn.Containers.Nodes.{end, at, same, Nodes, Cursor-cases, remove_at, rest_from}
use renn.Containers.Nodes.Removes.{
  Removes, Found, rest_at-Found, Removes-length, Removes-HasDistinct,
}
use renn.Containers.HashTable.Key.{KeyTraits, key_eq_congr}
use renn.Containers.HashTable.{Table, HashNode, erase, erase_at, next_head}
use renn.Containers.HashTable.Runs.{leading, first_in, IsGrouped}
use renn.Containers.HashTable.Lookup.{find_key, lookup}
use renn.Containers.HashTable.Remove.{
  first_in-Removes_ne, first_in-Removes_head, first_in-Removes_behind, Removes-IsGrouped,
  Removes-lookup, Removes-IsHashed, Removes-HasUniqueKeys, find_key-lookup, find_key_congr,
  has-find_key, find_key-key_eq, find_key-ne-null,
}
use renn.Containers.HashTable.Invariant.{
  IsIndexed, IsValid, remainder_lem, slot-heads, find-find_key,
}

next_head-leading {ℓ} :
    {K V : Type ℓ} (count i : ℕ) (xs : Nodes (HashNode K V))
    → next_head count i xs ≡ leading count i xs
unfolding next_head leading
next_head-leading count i [] = refl
next_head-leading count i (x ∷ xs) = refl

module _ {ℓ} {K V : Type ℓ} (p : ℕ) (n : HashNode K V) (after : Nodes (HashNode K V))
    (t : Table K V) where
  abbrev bucket : ℕ
  bucket = n.cached_hash % t.bucket_count

  abbrev pub unlinked : Table K V
  unlinked = record t {
    elements = remove_at p t.elements;
    hash_table =
        (if same (first_in t.bucket_count bucket t.elements) (at p)
          then set t.hash_table bucket (next_head t.bucket_count bucket after)
          else t.hash_table);
    size = u64 (t.size + 2 ^ 64 - 1);
  }

  module _ (x : IsIndexed t) (out : Removes (p, n) after (remove_at p t.elements) t.elements) where
    pub erase_at-unlinked :
        rest_from (at p) t.elements t ≡ ok ((p, n) ∷ after) t → erase_at (at p) t ≡ ok tt unlinked
    unfolding erase_at
    erase_at-unlinked r =
        rw
          (r, remainder_lem n.cached_hash t.bucket_count t x.positive, slot-heads n.cached_hash t x)

    unlinked-heads :
        IsGrouped t.bucket_count t.elements
        → (j : ℕ) → j < t.bucket_count
        → get_elem? unlinked.hash_table j ≡ some (first_in t.bucket_count j unlinked.elements)
    unfolding same
    unlinked-heads g j lt = ground (
      arith,
      x.heads j lt,
      get_elem?-set t.hash_table bucket j (next_head t.bucket_count bucket after),
      first_in-Removes_ne t.bucket_count j out,
      first_in-Removes_head t.bucket_count out x.distinct g,
      next_head-leading t.bucket_count bucket after,
      first_in-Removes_behind t.bucket_count out,
    )

    pub unlinked-IsIndexed :
        IsGrouped t.bucket_count t.elements → t.size < 2 ^ 64 → IsIndexed unlinked
    unlinked-IsIndexed g small = record {
      width =
          ground (
            arith,
            x.width,
            length-set t.hash_table bucket (next_head t.bucket_count bucket after),
          );
      positive = x.positive;
      heads = unlinked-heads g;
      distinct = Removes-HasDistinct out x.distinct;
      counted = omega (arith, x.counted, Removes-length out);
    }

pub unlinked-IsValid {ℓ} :
    {K V : Type ℓ} ⦃traits : KeyTraits K⦄ (p : ℕ) (n : HashNode K V) (after : Nodes (HashNode K V))
    (t : Table K V)
    → IsValid t
    → t.size < 2 ^ 64
    → Removes (p, n) after (remove_at p t.elements) t.elements
    → IsValid (unlinked p n after t)
unlinked-IsValid p n after t v small out = record {
  indexed = unlinked-IsIndexed p n after t v.indexed out v.grouped small;
  hashed = Removes-IsHashed out v.hashed;
  unique = Removes-HasUniqueKeys out v.unique;
  grouped = Removes-IsGrouped t.bucket_count out v.grouped;
}

module _ {ℓ} {K V : Type ℓ} ⦃traits : KeyTraits K⦄ (t : Table K V) where
  -- What removing a key leaves; `gone` is the number of nodes that went.
  pub record Erased (k : K) (gone : ℕ) (u : Table K V) : Type ℓ where
    pub valid : IsValid u
    pub reads :
        (j : K) → lookup j u.elements ≡ (if traits.key_eq k j then none else lookup j t.elements)
    pub size : u.size + gone ≡ t.size
    pub same_threshold : u.rehash_threshold ≡ t.rehash_threshold

  module _ (v : IsValid t) (small : t.size < 2 ^ 64) where
    erase_at-Erased :
        (k : K) (q : ℕ)
        → find_key k t.elements ≡ at q
        → (u : Table K V) × (erase_at (at q) t ≡ ok tt u) × Erased k 1 u
    erase_at-Erased k q e =
        let f : Found (Table K V) q t.elements =
          rest_at-Found (Table K V) q t.elements (has-find_key k q t.elements e) in
        let eq : traits.key_eq f.node.key k ≡ true =
          find_key-key_eq k f.removes v.indexed.distinct e in
        (
          unlinked q f.node f.after t,
          erase_at-unlinked q f.node f.after t v.indexed f.removes (unfold rest_from in f.rest t),
          record {
            valid = unlinked-IsValid q f.node f.after t v small f.removes;
            reads = λ j. rw (Removes-lookup j f.removes v.unique, key_eq_congr f.node.key k j eq);
            size = omega (arith, v.indexed.counted, Removes-length f.removes);
            same_threshold = refl;
          },
        )

    erase_absent : (k : K) → find_key k t.elements ≡ end → Erased k 0 t
    erase_absent k e = record {
      valid = v;
      reads = λ j. ground (arith, find_key_congr k j t.elements, find_key-lookup j t.elements);
      size = omega arith;
      same_threshold = refl;
    }

    -- In a valid table of fewer than 2^64 elements `erase(key)` returns normally and leaves a valid
    -- table in which exactly the keys equal to it read nothing and every other key reads as before;
    -- the size is one less if the key was there and the same if it was not.
    pub erase-Erased :
        (k : K)
        → (u : Table K V) × (erase k t ≡ ok tt u)
          × Erased k (if same (find_key k t.elements) end then 0 else 1) u
    unfolding erase same
    erase-Erased k = elim (Cursor-cases (find_key k t.elements)) [
      | inl (inl e) ↦ absurd (find_key-ne-null k t.elements e)
      | inl (inr e) ↦ (t, rw (find-find_key k v, e), rw e (erase_absent k e))
      | inr (q, e) ↦
          let (u, run, erased) = erase_at-Erased k q e in
          (u, rw (find-find_key k v, e) run, rw e erased)
    ]
