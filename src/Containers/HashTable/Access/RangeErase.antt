-- ===== src/Containers/HashTable/Access/RangeErase.antt =====
-- `erase(first, second)` of src/Containers/HashTable/HashTable.hpp.
use renn.Prelude.{
  ℕ, zero, suc, ◌≡◌, refl, true, false, [], ◌∷◌, ◌++◌, ◌<◌, ◌^◌, ◌+◌, arith, ap, ◌∙◌, length,
}
use renn.Prelude.Effect.{ok}
use renn.Containers.Nodes.{
  Cursor, null, end, at, same, Nodes, HasDistinct, begin, remove_at, rest_at, rest_from,
}
use renn.Containers.Nodes.Removes.{Removes, Removes-length}
use renn.Containers.Nodes.Splits.{
  has-append, remove_at-append, rest_at-append, Removes-append, HasDistinct-append,
}
use renn.Containers.HashTable.Key.{KeyTraits}
use renn.Containers.HashTable.{Table, HashNode, erase_at}
use renn.Containers.HashTable.Invariant.{IsValid}
use renn.Containers.HashTable.Erase.{unlinked, erase_at-unlinked, unlinked-IsValid}
use renn.Containers.HashTable.Access.{increment, erase_range}

same_refl : (c : Cursor) → same c c ≡ true
unfolding same
same_refl null = refl
same_refl end = refl
same_refl (at p) = ground arith

module _ {ℓ} {T : Type ℓ} where
  same-begin :
      (x : ℕ × T) (mid back : Nodes T)
      → HasDistinct (x ∷ (mid ++ back))
      → same (at x.0) (begin back) ≡ false
  unfolding same
  same-begin x mid [] d = refl
  same-begin x mid (y ∷ back) d = ground (arith, has-append x.0 mid (y ∷ back))

module _ {ℓ} {K V : Type ℓ} ⦃traits : KeyTraits K⦄ where
  -- What `erase` of the nodes `mid` leaves.
  pub record RangeErased (front mid back : Nodes (HashNode K V)) (t u : Table K V) : Type ℓ where
    pub valid : IsValid u
    pub elements : u.elements ≡ front ++ back
    pub size : u.size + length mid ≡ t.size
    pub same_buckets : u.bucket_count ≡ t.bucket_count

  -- The first node goes.
  erase_first :
      (front : Nodes (HashNode K V)) (x : ℕ × HashNode K V) (after : Nodes (HashNode K V))
      (t : Table K V)
      → IsValid t
      → t.elements ≡ front ++ (x ∷ after)
      → t.size < 2 ^ 64
      → (increment (at x.0) t ≡ ok (begin after) t)
        × ((m : Table K V) × (erase_at (at x.0) t ≡ ok tt m) × RangeErased front (x ∷ []) after t m)
  unfolding increment rest_from
  erase_first front x after t v e small =
      let d : HasDistinct (front ++ (x ∷ after)) = rw (← e) v.indexed.distinct in
      let gone : remove_at x.0 t.elements ≡ front ++ after =
        rw e (remove_at-append x after front d) in
      let out : Removes x after (remove_at x.0 t.elements) t.elements =
        rw (gone, e) (Removes-append x after front) in
      let found : rest_at x.0 t.elements t ≡ ok (x ∷ after) t =
        ap (λ z. rest_at x.0 z t) e ∙ rest_at-append x after front t d in
      (
        rw found refl,
        (
          unlinked x.0 x.1 after t,
          erase_at-unlinked x.0 x.1 after t v.indexed out (unfold rest_from in found),
          record {
            valid = unlinked-IsValid x.0 x.1 after t v small out;
            elements = gone;
            size = omega (arith, v.indexed.counted, Removes-length out);
            same_buckets = refl;
          },
        ),
      )

  -- In a valid table of fewer than 2^64 elements, `erase(first, second)` returns normally where
  -- `second` is the iterator behind the nodes `mid` that start at `first`: the table that it leaves is
  -- valid, has the nodes in front of `first` and from `second` on, and its size is less by the number
  -- of nodes between them. As many rounds as there are nodes in `mid`, and one, are enough.
  pub erase_range-RangeErased :
      (front mid back : Nodes (HashNode K V)) (fuel : ℕ) (t : Table K V)
      → IsValid t
      → t.elements ≡ front ++ (mid ++ back)
      → t.size < 2 ^ 64
      → length mid < fuel
      → (u : Table K V) × (erase_range fuel (begin (mid ++ back)) (begin back) t ≡ ok tt u)
        × RangeErased front mid back t u
  unfolding erase_range
  erase_range-RangeErased front mid back zero t v e small lt = absurd (omega arith)
  erase_range-RangeErased front [] back (suc fuel) t v e small lt = (
    t,
    rw (erase_range, same_refl (begin back)) refl,
    record { valid = v; elements = e; size = omega arith; same_buckets = refl },
  )
  erase_range-RangeErased front (x ∷ mid) back (suc fuel) t v e small lt =
      let (go, (m, run, r)) = erase_first front x (mid ++ back) t v e small in
      let (u, rest, s) =
        erase_range-RangeErased front mid back fuel m r.valid r.elements (omega (arith, r.size))
          (omega arith) in
      (
        u,
        rw
            (
              erase_range,
              same-begin x mid back
                  (HasDistinct-append front (x ∷ (mid ++ back)) (rw (← e) v.indexed.distinct)),
              go,
              run,
            )
            rest,
        record {
          valid = s.valid;
          elements = s.elements;
          size = omega (arith, s.size, r.size);
          same_buckets = s.same_buckets ∙ r.same_buckets;
        },
      )
