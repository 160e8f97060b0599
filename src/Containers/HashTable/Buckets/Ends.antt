-- ===== src/Containers/HashTable/Buckets/Ends.antt =====
-- `begin(n)` and `end(n)` of src/Containers/HashTable/HashTable.hpp.
use renn.Prelude.{ℕ, suc, ◌+◌, ◌≡◌, refl, false, ◌<◌, arith, lt→ltb, ap, ◌∙◌, sym}
use renn.Prelude.Effect.{ok}
use renn.Containers.Nodes.{at, same, Nodes, has, rest_from}
use renn.Containers.HashTable.{Table, HashNode}
use renn.Containers.HashTable.Runs.{first_in, skip, rest_from-first_in}
use renn.Containers.HashTable.Invariant.{IsIndexed, slot-first_in}
use renn.Containers.HashTable.Buckets.{begin_bucket, end_bucket, next_bucket}

module _ {ℓ} {K V : Type ℓ} {t : Table K V} (x : IsIndexed t) where
  next_bucket-here :
      (fuel i q : ℕ)
      → i < t.bucket_count
      → first_in t.bucket_count i t.elements ≡ at q
      → next_bucket (suc fuel) i t ≡ ok i t
  unfolding next_bucket same
  next_bucket-here fuel i q lt e =
      simp (next_bucket, lt→ltb i t.bucket_count lt, slot-first_in i t x lt, e) refl

  -- Let every bucket refer to the first of its nodes, and let the bucket `i` and the next one have
  -- nodes. Then `begin(i)` and `end(i)` are the first nodes of the two buckets, whatever their order
  -- in the list: where the first node of the next bucket does not stand behind that of the bucket, a
  -- walk from `begin(i)` to the end of the list does not meet `end(i)`.
  pub end_bucket-missed :
      (i p q : ℕ)
      → i + 1 < t.bucket_count
      → first_in t.bucket_count i t.elements ≡ at p
      → first_in t.bucket_count (i + 1) t.elements ≡ at q
      → has q (skip t.bucket_count i t.elements) ≡ false
      → (begin_bucket i t ≡ ok (at p) t)
        × (end_bucket i t ≡ ok (at q) t)
        × ((rest : Nodes (HashNode K V)) × (rest_from (at p) t.elements t ≡ ok rest t)
            × (has q rest ≡ false))
  unfolding begin_bucket end_bucket
  end_bucket-missed i p q lt e f miss = (
    rw (slot-first_in i t x (omega arith)) (ap (λ c. ok c t) e),
    rw
        (
          next_bucket-here t.bucket_count (i + 1) q lt f,
          lt→ltb (i + 1) t.bucket_count lt,
          slot-first_in (i + 1) t x lt,
        )
        (ap (λ c. ok c t) f),
    (
      skip t.bucket_count i t.elements,
      ap (λ c. rest_from c t.elements t) (sym e)
          ∙ rest_from-first_in t.bucket_count i t.elements t x.distinct,
      miss,
    ),
  )
