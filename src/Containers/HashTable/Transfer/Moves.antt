-- ===== src/Containers/HashTable/Transfer/Moves.antt =====
-- The moves of src/Containers/HashTable/HashTable.hpp, and what they leave.
use renn.Prelude.{
  ◌≡◌, ◌≢◌, refl, some, ◌<◌, arith, get_elem?, get_elem?-replicate, sym, ◌∙◌, ap, length, ◌==◌,
}
use renn.Prelude.Effect.{ok, fault, null_deref, out_of_bounds}
use renn.Containers.Nodes.{null, rest_from}
use renn.Containers.HashTable.Key.{KeyTraits}
use renn.Containers.HashTable.{Table, find, slot, min_bucket_count}
use renn.Containers.HashTable.Lookup.{home, find_key, scan-find_key}
use renn.Containers.HashTable.Invariant.{IsValid, remainder_lem, slot-heads}
use renn.Containers.HashTable.Runs.{rest_from-first_in}
use renn.Containers.HashTable.Session.{size, empty}
use renn.Containers.HashTable.Transfer.{move_construct, move_assign}

module _ {ℓ} {K V : Type ℓ} ⦃traits : KeyTraits K⦄ where
  -- A bucket whose iterator was default-constructed.
  pub find_null :
      (k : K) (t : Table K V)
      → 0 < t.bucket_count
      → get_elem? t.hash_table (home t.bucket_count k) ≡ some null
      → find k t ≡ fault null_deref
  unfolding find rest_from
  find_null k t pos e = rw (remainder_lem (traits.hash k) t.bucket_count t pos, e, slot) refl

  -- The moved-from table of the move constructor has 7 buckets and an empty array: `find` of every
  -- key reads past it, while the new table is the old one.
  pub move_construct-out_of_bounds :
      (t : Table K V) (k : K)
      → ((move_construct t).0 ≡ t) × (find k (move_construct t).1 ≡ fault out_of_bounds)
  unfolding move_construct find
  move_construct-out_of_bounds t k = (refl, refl)

  -- The buckets and the nodes come from one table, whatever the size is.
  find-move_assign :
      (this other : Table K V) (k : K)
      → IsValid other
      → find k (move_assign this other).0
        ≡ ok (find_key k other.elements) (move_assign this other).0
  unfolding move_assign find
  find-move_assign this other k v =
      let moved = (move_assign this other).0 in
      let at_home = home other.bucket_count k in
      rw
        (
          remainder_lem (traits.hash k) other.bucket_count moved v.indexed.positive,
          slot-heads (traits.hash k) moved v.indexed,
          rest_from-first_in other.bucket_count at_home other.elements moved v.indexed.distinct,
        )
        (ap (λ c. ok c moved)
          (scan-find_key other.bucket_count k at_home other.elements refl v.hashed v.grouped))

  -- Let the other table be valid, and let its size not be that of the table that is assigned to.
  -- After the move assignment the latter has the other's elements, and `find` in it returns for
  -- every key the first of them with an equal key, or the end if there is none; but its `size`
  -- returns what it did before the assignment, which is not the number of the elements, and `empty`
  -- whether that is 0. In the other table `find` of every key dereferences a default-constructed
  -- iterator.
  pub move_assign-spoils :
      (this other : Table K V) (k : K)
      → IsValid other
      → this.size ≢ other.size
      → (find k (move_assign this other).0
          ≡ ok (find_key k other.elements) (move_assign this other).0)
        × ((move_assign this other).0.elements ≡ other.elements)
        × (size (move_assign this other).0 ≡ ok this.size (move_assign this other).0)
        × (empty (move_assign this other).0 ≡ ok (this.size == 0) (move_assign this other).0)
        × (this.size ≢ length (move_assign this other).0.elements)
        × (find k (move_assign this other).1 ≡ fault null_deref)
  unfolding move_assign size empty
  move_assign-spoils this other k v ne = (
    find-move_assign this other k v,
    refl,
    refl,
    refl,
    λ e. ne (e ∙ sym v.indexed.counted),
    find_null k (move_assign this other).1 (omega arith)
        (get_elem?-replicate min_bucket_count (home min_bucket_count k) null (omega arith)),
  )
