-- ===== src/Containers/HashTable/Buckets/Sizes.antt =====
-- `bucket_size` of src/Containers/HashTable/HashTable.hpp counts the elements of a bucket.
use renn.Prelude.{
  ℕ, suc, ◌≡◌, inl, inr, refl, [], ◌∷◌, arith, ◌==◌, leb, if◌then◌else◌, Bool-cases, ap,
}
use renn.Prelude.Effect.{ok, throws, out_of_range}
use renn.Containers.Nodes.{Nodes}
use renn.Containers.HashTable.{Table, HashNode, bucket_of}
use renn.Containers.HashTable.Key.{KeyTraits}
use renn.Containers.HashTable.Runs.{
  first_in, skip, leading, IsGrouped, skip-nil, rest_from-first_in,
}
use renn.Containers.HashTable.Invariant.{IsValid, slot-first_in}
use renn.Containers.HashTable.Buckets.{run_length, bucket_size}

module _ {ℓ} {K V : Type ℓ} (count : ℕ) where
  -- How many elements are of a bucket, wherever they stand.
  abbrev pub members : ℕ → Nodes (HashNode K V) → ℕ
  members i [] = 0
  members i (x ∷ xs) = if bucket_of count x == i then suc (members i xs) else members i xs

  run_length-skip :
      (i : ℕ) (xs : Nodes (HashNode K V))
      → first_in count i xs ≡ leading count i xs
      → run_length count i xs ≡ run_length count i (skip count i xs)
  unfolding run_length skip first_in leading
  run_length-skip i [] h = refl
  run_length-skip i (x ∷ xs) h = ground (arith, skip-nil count i xs)

  run_length-members :
      (i : ℕ) (xs : Nodes (HashNode K V))
      → IsGrouped count xs
      → run_length count i (skip count i xs) ≡ members i xs
  unfolding run_length skip
  run_length-members i [] g = refl
  run_length-members i (x ∷ xs) g = elim (Bool-cases (bucket_of count x == i)) [
    | inl hit ↦ ground (arith, hit, run_length-skip i xs, run_length-members i xs g.1)
    | inr miss ↦ ground (arith, miss, run_length-members i xs g.1)
  ]

module _ {ℓ} {K V : Type ℓ} ⦃traits : KeyTraits K⦄ where
  -- In a valid table `bucket_size` is the number of elements of the bucket in the whole list, and
  -- throws `out_of_range` where there is no such bucket; the table stays as it was.
  pub bucket_size-members :
      {t : Table K V} (v : IsValid t) (i : ℕ)
      → bucket_size i t ≡ (
          if leb t.bucket_count i
          then throws out_of_range t
          else ok (members t.bucket_count i t.elements) t)
  unfolding bucket_size
  bucket_size-members {t} v i = elim (Bool-cases (leb t.bucket_count i)) [
    | inl past ↦ rw past refl
    | inr inside ↦
        rw
          (
            inside,
            slot-first_in i t v.indexed (ground arith),
            rest_from-first_in t.bucket_count i t.elements t v.indexed.distinct,
          )
          (ap (λ n. ok n t) (run_length-members t.bucket_count i t.elements v.grouped))
  ]
