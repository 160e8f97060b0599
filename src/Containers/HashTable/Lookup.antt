-- ===== src/Containers/HashTable/Lookup.antt =====
-- The reference lookup, through all the elements, and what the walks over one run find of it.
use renn.Prelude.{
  ℕ, ◌≡◌, inl, inr, refl, [], ◌∷◌, Option, none, some, ◌%◌, arith, ◌==◌, if◌then◌else◌, Bool-cases,
}
use renn.Containers.Nodes.{Cursor, end, at, Nodes}
use renn.Containers.HashTable.Key.{KeyTraits}
use renn.Containers.HashTable.{HashNode, bucket_of, scan}
use renn.Containers.HashTable.Runs.{leading, first_in, skip, IsGrouped, skip-nil}

-- The bucket of a key.
abbrev pub home {ℓ} : {K : Type ℓ} ⦃traits : KeyTraits K⦄ → ℕ → K → ℕ
home ⦃traits⦄ count k = traits.hash k % count

module _ {ℓ} {K V : Type ℓ} ⦃traits : KeyTraits K⦄ where
  -- The first node with an equal key.
  unfoldable pub find_key : K → Nodes (HashNode K V) → Cursor
  find_key k [] = end
  find_key k (x ∷ xs) = if traits.key_eq x.1.key k then at x.0 else find_key k xs

  -- The abstract map.
  unfoldable pub lookup : K → Nodes (HashNode K V) → Option V
  lookup k [] = none
  lookup k (x ∷ xs) = if traits.key_eq x.1.key k then some x.1.value else lookup k xs

  -- Every node carries the hash of its key.
  abbrev pub IsHashed : Nodes (HashNode K V) → Type 0
  IsHashed [] = Unit
  IsHashed (x ∷ xs) = (x.1.cached_hash ≡ traits.hash x.1.key) × IsHashed xs

  -- No two nodes have equal keys.
  abbrev pub HasUniqueKeys : Nodes (HashNode K V) → Type 0
  HasUniqueKeys [] = Unit
  HasUniqueKeys (x ∷ xs) = (find_key x.1.key xs ≡ end) × HasUniqueKeys xs

  module _ (count : ℕ) (k : K) where
    pub find_key_nowhere :
        (i : ℕ) (xs : Nodes (HashNode K V))
        → i ≡ home count k
        → IsHashed xs
        → first_in count i xs ≡ end
        → find_key k xs ≡ end
    unfolding find_key first_in
    find_key_nowhere i [] e h f = refl
    find_key_nowhere i (x ∷ xs) e h f =
        ground (arith, find_key_nowhere i xs e h.1, traits.one_hash x.1.key k)

    scan-skip :
        (i : ℕ) (xs : Nodes (HashNode K V))
        → first_in count i xs ≡ leading count i xs
        → scan count i k xs ≡ scan count i k (skip count i xs)
    unfolding scan skip first_in leading
    scan-skip i [] f = refl
    scan-skip i (x ∷ xs) f = ground (arith, skip-nil count i xs)

    -- In a grouped list the run of a bucket holds all there is to find.
    pub scan-find_key :
        (i : ℕ) (xs : Nodes (HashNode K V))
        → i ≡ home count k
        → IsHashed xs
        → IsGrouped count xs
        → scan count i k (skip count i xs) ≡ find_key k xs
    unfolding scan skip find_key
    scan-find_key i [] e h g = refl
    scan-find_key i (x ∷ xs) e h g = elim (Bool-cases (bucket_of count x == i)) [
      | inl hit ↦ ground (arith, hit, scan-skip i xs, scan-find_key i xs e h.1 g.1)
      | inr miss ↦ ground (arith, miss, traits.one_hash x.1.key k, scan-find_key i xs e h.1 g.1)
    ]
