-- ===== src/Containers/HashTable/Iteration/Changes.antt =====
-- Nodes of src/Containers/HashTable/HashTable.hpp whose values changed: their keys, hashes and
-- addresses, and so the table's invariants, stay.
use renn.Prelude.{ℕ, ◌≡◌, refl, sym, ap, ◌∙◌, some, [], ◌∷◌, arith, length}
use mathlib.Core.Option
use renn.Containers.Nodes.{Nodes, has, HasDistinct}
use renn.Containers.HashTable.Key.{KeyTraits}
use renn.Containers.HashTable.{Table, HashNode, bucket_of}
use renn.Containers.HashTable.Runs.{first_in, leading, IsGrouped}
use renn.Containers.HashTable.Lookup.{find_key, lookup, IsHashed, HasUniqueKeys}
use renn.Containers.HashTable.Invariant.{IsValid}
use renn.Containers.HashTable.Iteration.{with_value}

module _ {ℓ} {K V : Type ℓ} (f : V → V) where
  abbrev pub changed : Nodes (HashNode K V) → Nodes (HashNode K V)
  changed [] = []
  changed (x ∷ xs) = with_value (f x.1.value) x ∷ changed xs

  pub length-changed : (xs : Nodes (HashNode K V)) → length (changed xs) ≡ length xs
  length-changed [] = refl
  length-changed (x ∷ xs) = ground (arith, length-changed xs)

  has-changed : (p : ℕ) (xs : Nodes (HashNode K V)) → has p (changed xs) ≡ has p xs
  has-changed p [] = refl
  has-changed p (x ∷ xs) = ground (arith, has-changed p xs)

  HasDistinct-changed : (xs : Nodes (HashNode K V)) → HasDistinct xs → HasDistinct (changed xs)
  HasDistinct-changed [] d = tt
  HasDistinct-changed (x ∷ xs) d = (has-changed x.0 xs ∙ d.0, HasDistinct-changed xs d.1)

  module _ (count : ℕ) where
    first_in-changed :
        (i : ℕ) (xs : Nodes (HashNode K V)) → first_in count i (changed xs) ≡ first_in count i xs
    unfolding first_in
    first_in-changed i [] = refl
    first_in-changed i (x ∷ xs) = ground (arith, first_in-changed i xs)

    leading-changed :
        (i : ℕ) (xs : Nodes (HashNode K V)) → leading count i (changed xs) ≡ leading count i xs
    unfolding leading
    leading-changed i [] = refl
    leading-changed i (x ∷ xs) = refl

    IsGrouped-changed :
        (xs : Nodes (HashNode K V)) → IsGrouped count xs → IsGrouped count (changed xs)
    IsGrouped-changed [] g = tt
    IsGrouped-changed (x ∷ xs) g = (
      first_in-changed (bucket_of count x) xs
          ∙ (g.0 ∙ sym (leading-changed (bucket_of count x) xs)),
      IsGrouped-changed xs g.1,
    )

  module _ ⦃traits : KeyTraits K⦄ where
    find_key-changed : (k : K) (xs : Nodes (HashNode K V)) → find_key k (changed xs) ≡ find_key k xs
    unfolding find_key
    find_key-changed k [] = refl
    find_key-changed k (x ∷ xs) = ground (arith, find_key-changed k xs)

    HasUniqueKeys-changed :
        (xs : Nodes (HashNode K V)) → HasUniqueKeys xs → HasUniqueKeys (changed xs)
    HasUniqueKeys-changed [] u = tt
    HasUniqueKeys-changed (x ∷ xs) u =
        (find_key-changed x.1.key xs ∙ u.0, HasUniqueKeys-changed xs u.1)

    IsHashed-changed : (xs : Nodes (HashNode K V)) → IsHashed xs → IsHashed (changed xs)
    IsHashed-changed [] h = tt
    IsHashed-changed (x ∷ xs) h = (h.0, IsHashed-changed xs h.1)

    pub lookup-changed :
        (k : K) (xs : Nodes (HashNode K V)) → lookup k (changed xs) ≡ Option.map f (lookup k xs)
    unfolding lookup
    lookup-changed k [] = refl
    lookup-changed k (x ∷ xs) = ground (arith, lookup-changed k xs)

    pub IsValid-changed :
        (t : Table K V) → IsValid t → IsValid (record t { elements = changed t.elements })
    IsValid-changed t v = record {
      indexed = record {
        width = v.indexed.width;
        positive = v.indexed.positive;
        heads = λ i lt.
            v.indexed.heads i lt
            ∙ ap (λ c. some c) (sym (first_in-changed t.bucket_count i t.elements));
        distinct = HasDistinct-changed t.elements v.indexed.distinct;
        counted = v.indexed.counted ∙ sym (length-changed t.elements);
      };
      hashed = IsHashed-changed t.elements v.hashed;
      unique = HasUniqueKeys-changed t.elements v.unique;
      grouped = IsGrouped-changed t.bucket_count t.elements v.grouped;
    }
