-- ===== src/Containers/HashTable/Invariant.antt =====
-- The invariants of a table, and `find` under them.
use renn.Prelude.{ℕ, ◌≡◌, refl, some, ◌%◌, ◌<◌, arith, ap, ◌∙◌, length, get_elem?}
use renn.Prelude.Effect.{ok}
use renn.Containers.Nodes.{HasDistinct}
use renn.Containers.HashTable.Key.{KeyTraits}
use renn.Containers.HashTable.{Table, remainder, slot, scan, find}
use renn.Containers.HashTable.Runs.{first_in, skip, IsGrouped, rest_from-first_in}
use renn.Containers.HashTable.Lookup.{home, find_key, IsHashed, HasUniqueKeys, scan-find_key}

pub remainder_lem {ℓ} : {S : Type ℓ} (n d : ℕ) (s : S) → 0 < d → remainder n d s ≡ ok (n % d) s
unfolding remainder
remainder_lem n d s h = ground arith

module _ {ℓ} {K V : Type ℓ} where
  -- Every bucket's iterator is at the first node of the bucket, wherever its other nodes are.
  pub record IsIndexed (t : Table K V) : Type 0 where
    pub width : length t.hash_table ≡ t.bucket_count
    pub positive : 0 < t.bucket_count
    pub heads :
        (i : ℕ)
        → i < t.bucket_count
        → get_elem? t.hash_table i ≡ some (first_in t.bucket_count i t.elements)
    pub distinct : HasDistinct t.elements
    pub counted : t.size ≡ length t.elements

  pub slot-first_in :
      {t : Table K V} (i : ℕ) (s : Table K V)
      → IsIndexed t
      → i < t.bucket_count
      → slot i t.hash_table s ≡ ok (first_in t.bucket_count i t.elements) s
  unfolding slot
  slot-first_in {t} i s x lt = rw (x.heads i lt, slot) refl

  pub slot-heads :
      {t : Table K V} (n : ℕ) (s : Table K V)
      → IsIndexed t
      → slot (n % t.bucket_count) t.hash_table s
        ≡ ok (first_in t.bucket_count (n % t.bucket_count) t.elements) s
  slot-heads {t} n s x = slot-first_in (n % t.bucket_count) s x (omega (arith, x.positive))

module _ {ℓ} {K V : Type ℓ} ⦃traits : KeyTraits K⦄ where
  pub record IsValid (t : Table K V) : Type 0 where
    pub indexed : IsIndexed t
    pub hashed : IsHashed t.elements
    pub unique : HasUniqueKeys t.elements
    pub grouped : IsGrouped t.bucket_count t.elements

  module _ (k : K) {t : Table K V} where
    pub find-scan :
        IsIndexed t
        → find k t
          ≡ ok
              (scan t.bucket_count
                (home t.bucket_count k)
                k
                (skip t.bucket_count (home t.bucket_count k) t.elements))
              t
    unfolding find
    find-scan x = rw (
      remainder_lem (traits.hash k) t.bucket_count t x.positive,
      slot-heads (traits.hash k) t x,
      rest_from-first_in t.bucket_count (home t.bucket_count k) t.elements t x.distinct,
    )

    -- In a valid table (every bucket refers to the first node of its run, the nodes of a bucket
    -- stand together, hashes are cached, no two keys are equal) `find` returns the first node of
    -- the whole list with an equal key, or the end if there is none, faults nowhere, and leaves the
    -- table as it was.
    pub find-find_key : IsValid t → find k t ≡ ok (find_key k t.elements) t
    find-find_key v =
        find-scan v.indexed
        ∙ ap (λ c. ok c t)
            (scan-find_key t.bucket_count k (home t.bucket_count k) t.elements refl v.hashed
              v.grouped)
