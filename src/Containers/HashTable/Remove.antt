-- ===== src/Containers/HashTable/Remove.antt =====
-- What erasing one node of a grouped list does to its buckets.
use renn.Prelude.{
  ℕ, ◌≡◌, ◌≢◌, inl, inr, refl, true, false, [], ◌∷◌, none, arith, ◌==◌, if◌then◌else◌, Bool-cases,
  ==_iff,
}
use renn.Containers.Nodes.{null, end, at, Nodes, has, HasDistinct}
use renn.Containers.Nodes.Removes.{Removes, here, there, Removes-has}
use renn.Containers.HashTable.Key.{KeyTraits}
use renn.Containers.HashTable.{HashNode, bucket_of}
use renn.Containers.HashTable.Runs.{leading, first_in, IsGrouped}
use renn.Containers.HashTable.Lookup.{find_key, lookup, IsHashed, HasUniqueKeys}

module _ {ℓ} {K V : Type ℓ} (count : ℕ) where
  leading_of_end :
      (j : ℕ) (ys : Nodes (HashNode K V))
      → first_in count j ys ≡ end
      → first_in count j ys ≡ leading count j ys
  unfolding first_in leading
  leading_of_end j [] h = refl
  leading_of_end j (y ∷ ys) h = ground arith

module _ {ℓ} {K V : Type ℓ} (count : ℕ) {x : ℕ × HashNode K V} {after : Nodes (HashNode K V)} where
  pub first_in-Removes_ne :
      (j : ℕ) {ys zs : Nodes (HashNode K V)}
      → Removes x after ys zs
      → j ≢ bucket_of count x
      → first_in count j ys ≡ first_in count j zs
  unfolding first_in
  first_in-Removes_ne j here h = ground arith
  first_in-Removes_ne j (there i) h = ground (arith, first_in-Removes_ne j i h)

  -- The head of the bucket is erased: the next node takes its place if it is of the bucket.
  pub first_in-Removes_head :
      {ys zs : Nodes (HashNode K V)}
      → Removes x after ys zs
      → HasDistinct zs
      → IsGrouped count zs
      → first_in count (bucket_of count x) zs ≡ at x.0
      → first_in count (bucket_of count x) ys ≡ leading count (bucket_of count x) after
  unfolding first_in
  first_in-Removes_head here d g h = g.0
  first_in-Removes_head (there {y} i) d g h =
      ground (arith, first_in-Removes_head i d.1 g.1, Removes-has x.0 i, d.0)

  pub first_in-Removes_behind :
      {ys zs : Nodes (HashNode K V)}
      → Removes x after ys zs
      → first_in count (bucket_of count x) zs ≢ at x.0
      → first_in count (bucket_of count x) ys ≡ first_in count (bucket_of count x) zs
  unfolding first_in
  first_in-Removes_behind here h = absurd (h (ground arith))
  first_in-Removes_behind (there {y} i) h = ground (arith, first_in-Removes_behind i)

  first_in-Removes-end :
      (j : ℕ) {ys zs : Nodes (HashNode K V)}
      → Removes x after ys zs
      → first_in count j zs ≡ end
      → first_in count j ys ≡ end
  unfolding first_in
  first_in-Removes-end j here h = ground arith
  first_in-Removes-end j (there {y} i) h = ground (arith, first_in-Removes-end j i)

  Removes-leading :
      (j : ℕ) {ys zs : Nodes (HashNode K V)}
      → Removes x after ys zs
      → IsGrouped count zs
      → first_in count j zs ≡ leading count j zs
      → first_in count j ys ≡ leading count j ys
  unfolding first_in leading
  Removes-leading j here g h = elim (Bool-cases (bucket_of count x == j)) [
    | inl hit ↦ rw (← (==_iff _ _).0 hit) (unfold leading in g.0)
    | inr miss ↦ leading_of_end count j after (ground (arith, miss))
  ]
  Removes-leading j (there {y} i) g h = elim (Bool-cases (bucket_of count y == j)) [
    | inl hit ↦ rw hit
    | inr miss ↦ ground (arith, miss, first_in-Removes-end j i)
  ]

  pub Removes-IsGrouped :
      {ys zs : Nodes (HashNode K V)}
      → Removes x after ys zs
      → IsGrouped count zs
      → IsGrouped count ys
  Removes-IsGrouped here g = g.1
  Removes-IsGrouped (there {y} i) g =
      (Removes-leading (bucket_of count y) i g.1 g.0, Removes-IsGrouped i g.1)

module _ {ℓ} {K V : Type ℓ} ⦃traits : KeyTraits K⦄ where
  pub has-find_key :
      (k : K) (p : ℕ) (ys : Nodes (HashNode K V)) → find_key k ys ≡ at p → has p ys ≡ true
  unfolding find_key
  has-find_key k p [] h = cc
  has-find_key k p (y ∷ ys) h = ground (arith, has-find_key k p ys)

  pub find_key-ne-null : (k : K) (ys : Nodes (HashNode K V)) → find_key k ys ≢ null
  unfolding find_key
  find_key-ne-null k [] h = cc
  find_key-ne-null k (y ∷ ys) h = ground (arith, find_key-ne-null k ys)

  pub find_key-lookup :
      (k : K) (ys : Nodes (HashNode K V)) → find_key k ys ≡ end → lookup k ys ≡ none
  unfolding find_key lookup
  find_key-lookup k [] h = refl
  find_key-lookup k (y ∷ ys) h = ground (arith, find_key-lookup k ys)

  pub find_key_congr :
      (k j : K) (ys : Nodes (HashNode K V))
      → traits.key_eq k j ≡ true
      → find_key k ys ≡ end
      → find_key j ys ≡ end
  unfolding find_key
  find_key_congr k j [] e h = refl
  find_key_congr k j (y ∷ ys) e h =
      ground (arith, find_key_congr k j ys e, traits.symmetric k j, traits.transitive y.1.key j k)

module _ {ℓ} {K V : Type ℓ} ⦃traits : KeyTraits K⦄ {x : ℕ × HashNode K V}
    {after : Nodes (HashNode K V)} where
  -- The node that a search found has an equal key.
  pub find_key-key_eq :
      (k : K) {ys zs : Nodes (HashNode K V)}
      → Removes x after ys zs
      → HasDistinct zs
      → find_key k zs ≡ at x.0
      → traits.key_eq x.1.key k ≡ true
  unfolding find_key
  find_key-key_eq k here d h = ground (arith, has-find_key k x.0 after, d.0)
  find_key-key_eq k (there {y} i) d h =
      ground (arith, find_key-key_eq k i d.1, Removes-has y.0 i, d.0)

  pub Removes-find_key_absent :
      (k : K) {ys zs : Nodes (HashNode K V)}
      → Removes x after ys zs
      → find_key k zs ≡ end
      → find_key k ys ≡ end
  unfolding find_key
  Removes-find_key_absent k here h = ground arith
  Removes-find_key_absent k (there i) h = ground (arith, Removes-find_key_absent k i)

  Removes-key_ne :
      (k : K) {ys zs : Nodes (HashNode K V)}
      → Removes x after ys zs
      → find_key k zs ≡ end
      → traits.key_eq x.1.key k ≡ false
  unfolding find_key
  Removes-key_ne k here h = ground arith
  Removes-key_ne k (there i) h = ground (arith, Removes-key_ne k i)

  -- The key of the node is gone, and every other key reads as before.
  pub Removes-lookup :
      (k : K) {ys zs : Nodes (HashNode K V)}
      → Removes x after ys zs
      → HasUniqueKeys zs
      → lookup k ys ≡ (if traits.key_eq x.1.key k then none else lookup k zs)
  unfolding lookup
  Removes-lookup k {ys} here u = ground (arith, find_key-lookup k ys, find_key_congr x.1.key k ys)
  Removes-lookup k (there {y} {ys} {zs} i) u = ground (
    arith,
    Removes-lookup k i u.1,
    Removes-key_ne y.1.key i u.0,
    traits.symmetric y.1.key k,
    traits.transitive x.1.key k y.1.key,
  )

  pub Removes-IsHashed :
      {ys zs : Nodes (HashNode K V)} → Removes x after ys zs → IsHashed zs → IsHashed ys
  Removes-IsHashed here h = h.1
  Removes-IsHashed (there i) h = (h.0, Removes-IsHashed i h.1)

  pub Removes-HasUniqueKeys :
      {ys zs : Nodes (HashNode K V)} → Removes x after ys zs → HasUniqueKeys zs → HasUniqueKeys ys
  Removes-HasUniqueKeys here u = u.1
  Removes-HasUniqueKeys (there {y} i) u =
      (Removes-find_key_absent y.1.key i u.0, Removes-HasUniqueKeys i u.1)
