-- ===== src/Containers/HashTable/Insert.antt =====
-- Where `emplace` puts a node: behind the run of its bucket.
use renn.Prelude.{
  ℕ, ◌≡◌, ◌≢◌, inl, inr, refl, true, false, [], ◌∷◌, some, arith, ◌==◌, if◌then◌else◌, Bool-cases,
  ==_iff, ap, ◌∙◌, sym,
}
use renn.Containers.Nodes.{end, at, Nodes, has, HasDistinct, insert_before, insert_at, insert_end}
use renn.Containers.Nodes.Inserts.{Inserts, here, there, insert_before-cons}
use renn.Containers.HashTable.Key.{KeyTraits}
use renn.Containers.HashTable.{HashNode, bucket_of, run_end}
use renn.Containers.HashTable.Runs.{leading, first_in, skip, IsGrouped}
use renn.Containers.HashTable.Lookup.{find_key, lookup, IsHashed, HasUniqueKeys}

module _ {ℓ} {K V : Type ℓ} (count i : ℕ) where
  has-run_end : (p : ℕ) (xs : Nodes (HashNode K V)) → run_end count i xs ≡ at p → has p xs ≡ true
  unfolding run_end
  has-run_end p [] h = cc
  has-run_end p (x ∷ xs) h = ground (arith, has-run_end p xs)

  has-skip : (p : ℕ) (xs : Nodes (HashNode K V)) → has p (skip count i xs) ≡ true → has p xs ≡ true
  unfolding skip
  has-skip p [] h = h
  has-skip p (x ∷ xs) h = ground (arith, has-skip p xs)

  -- `xs` begins in the run of the bucket.
  unfoldable pub behind_run : ℕ × HashNode K V → Nodes (HashNode K V) → Nodes (HashNode K V)
  behind_run x [] = x ∷ []
  behind_run x (y ∷ ys) = if bucket_of count y == i then y ∷ behind_run x ys else x ∷ y ∷ ys

  unfoldable pub insert_run : ℕ × HashNode K V → Nodes (HashNode K V) → Nodes (HashNode K V)
  unfolding behind_run
  insert_run x [] = x ∷ []
  insert_run x (y ∷ ys) =
      if bucket_of count y == i then y ∷ behind_run x ys else y ∷ insert_run x ys

  run_end-ne_head :
      (y : ℕ × HashNode K V) (ys : Nodes (HashNode K V))
      → has y.0 ys ≡ false
      → run_end count i ys ≢ at y.0
  run_end-ne_head y ys d e = ground (arith, has-run_end y.0 ys e)

  run_end-skip-ne_head :
      (y : ℕ × HashNode K V) (ys : Nodes (HashNode K V))
      → has y.0 ys ≡ false
      → run_end count i (skip count i ys) ≢ at y.0
  run_end-skip-ne_head y ys d e =
      ground (arith, has-skip y.0 ys (has-run_end y.0 (skip count i ys) e))

  insert_before-behind_run :
      (x : ℕ × HashNode K V) (ys : Nodes (HashNode K V))
      → HasDistinct ys
      → insert_before (run_end count i ys) x ys ≡ behind_run x ys
  unfolding run_end behind_run insert_before insert_end insert_at
  insert_before-behind_run x [] d = refl
  insert_before-behind_run x (y ∷ ys) d = elim (Bool-cases (bucket_of count y == i)) [
    | inl hit ↦ rw hit (
        insert_before-cons _ x y ys (run_end-ne_head y ys d.0)
        ∙ ap (◌∷◌ y) (insert_before-behind_run x ys d.1))
    | inr miss ↦ ground (arith, miss)
  ]

  pub insert_before-insert_run :
      (x : ℕ × HashNode K V) (ys : Nodes (HashNode K V))
      → HasDistinct ys
      → insert_before (run_end count i (skip count i ys)) x ys ≡ insert_run x ys
  unfolding skip insert_run run_end
  insert_before-insert_run x [] d = unfold insert_before insert_end in refl
  insert_before-insert_run x (y ∷ ys) d = elim (Bool-cases (bucket_of count y == i)) [
    | inl hit ↦
        rw (hit, hit)
          (insert_before-cons _ x y ys (run_end-ne_head y ys d.0)
            ∙ ap (◌∷◌ y) (insert_before-behind_run x ys d.1))
    | inr miss ↦ rw miss (
        insert_before-cons _ x y ys (run_end-skip-ne_head y ys d.0)
        ∙ ap (◌∷◌ y) (insert_before-insert_run x ys d.1))
  ]

module _ {ℓ} {K V : Type ℓ} (count : ℕ) (x : ℕ × HashNode K V) where
  abbrev own : ℕ
  own = bucket_of count x

  first_in-behind_run_ne :
      (j : ℕ) (ys : Nodes (HashNode K V))
      → j ≢ own
      → first_in count j (behind_run count own x ys) ≡ first_in count j ys
  unfolding first_in behind_run
  first_in-behind_run_ne j [] h = ground arith
  first_in-behind_run_ne j (y ∷ ys) h = ground (arith, first_in-behind_run_ne j ys h)

  -- The other buckets keep their first nodes.
  pub first_in-insert_run_ne :
      (j : ℕ) (ys : Nodes (HashNode K V))
      → j ≢ own
      → first_in count j (insert_run count own x ys) ≡ first_in count j ys
  unfolding first_in insert_run
  first_in-insert_run_ne j [] h = ground arith
  first_in-insert_run_ne j (y ∷ ys) h =
      ground (arith, first_in-behind_run_ne j ys h, first_in-insert_run_ne j ys h)

  -- A bucket that had no node gets the new one first.
  pub first_in-insert_run_new :
      (ys : Nodes (HashNode K V))
      → first_in count own ys ≡ end
      → first_in count own (insert_run count own x ys) ≡ at x.0
  unfolding first_in insert_run
  first_in-insert_run_new [] h = ground arith
  first_in-insert_run_new (y ∷ ys) h = ground (arith, first_in-insert_run_new ys)

  pub first_in-insert_run_old :
      (ys : Nodes (HashNode K V)) (p : ℕ)
      → first_in count own ys ≡ at p
      → first_in count own (insert_run count own x ys) ≡ at p
  unfolding first_in insert_run
  first_in-insert_run_old [] p h = cc
  first_in-insert_run_old (y ∷ ys) p h = ground (arith, first_in-insert_run_old ys p)

  first_in-behind_run_self :
      (ys : Nodes (HashNode K V))
      → first_in count own (behind_run count own x ys)
        ≡ leading count own (behind_run count own x ys)
  unfolding first_in leading behind_run
  first_in-behind_run_self [] = ground arith
  first_in-behind_run_self (y ∷ ys) = ground arith

  behind_run-IsGrouped :
      (ys : Nodes (HashNode K V))
      → IsGrouped count ys
      → first_in count own ys ≡ leading count own ys
      → IsGrouped count (behind_run count own x ys)
  unfolding behind_run
  behind_run-IsGrouped [] g h = (unfold first_in leading in refl, tt)
  behind_run-IsGrouped (y ∷ ys) g h = elim (Bool-cases (bucket_of count y == own)) [
    | inl hit ↦
        let e : bucket_of count y ≡ own = (==_iff _ _).0 hit in
        rw hit (rw e (first_in-behind_run_self ys), behind_run-IsGrouped ys g.1 (rw e at (g.0)))
    | inr miss ↦ rw miss (h, g)
  ]

  leading-insert_run_ne :
      (j : ℕ) (ys : Nodes (HashNode K V))
      → j ≢ own
      → leading count j (insert_run count own x ys) ≡ leading count j ys
  unfolding leading insert_run
  leading-insert_run_ne j [] h = ground arith
  leading-insert_run_ne j (y ∷ ys) h = ground arith

  -- Behind the run of its bucket a node leaves the list grouped.
  pub insert_run-IsGrouped :
      (ys : Nodes (HashNode K V)) → IsGrouped count ys → IsGrouped count (insert_run count own x ys)
  unfolding insert_run
  insert_run-IsGrouped [] g = (unfold first_in leading in refl, tt)
  insert_run-IsGrouped (y ∷ ys) g = elim (Bool-cases (bucket_of count y == own)) [
    | inl hit ↦
        let e : bucket_of count y ≡ own = (==_iff _ _).0 hit in
        rw hit (rw e (first_in-behind_run_self ys), behind_run-IsGrouped ys g.1 (rw e at (g.0)))
    | inr miss ↦
        let ne : bucket_of count y ≢ own = ground arith in
        rw miss (
          first_in-insert_run_ne _ ys ne ∙ g.0 ∙ sym (leading-insert_run_ne _ ys ne),
          insert_run-IsGrouped ys g.1,
        )
  ]

-- What holds wherever the node was put.
module _ {ℓ} {K V : Type ℓ} ⦃traits : KeyTraits K⦄ {x : ℕ × HashNode K V} where
  pub Inserts-find_key :
      {ys zs : Nodes (HashNode K V)} (k : K)
      → Inserts x ys zs
      → find_key x.1.key ys ≡ end
      → find_key k zs ≡ (if traits.key_eq x.1.key k then at x.0 else find_key k ys)
  unfolding find_key
  Inserts-find_key k here absent = refl
  Inserts-find_key k (there {y} i) absent =
      ground (
        arith,
        Inserts-find_key k i,
        traits.symmetric x.1.key k,
        traits.transitive y.1.key k x.1.key,
      )

  pub Inserts-lookup :
      {ys zs : Nodes (HashNode K V)} (k : K)
      → Inserts x ys zs
      → find_key x.1.key ys ≡ end
      → lookup k zs ≡ (if traits.key_eq x.1.key k then some x.1.value else lookup k ys)
  unfolding find_key lookup
  Inserts-lookup k here absent = refl
  Inserts-lookup k (there {y} i) absent =
      ground
        (arith, Inserts-lookup k i, traits.symmetric x.1.key k, traits.transitive y.1.key k x.1.key)

  pub Inserts-IsHashed :
      {ys zs : Nodes (HashNode K V)}
      → Inserts x ys zs
      → x.1.cached_hash ≡ traits.hash x.1.key
      → IsHashed ys
      → IsHashed zs
  Inserts-IsHashed here e h = (e, h)
  Inserts-IsHashed (there i) e h = (h.0, Inserts-IsHashed i e h.1)

  pub Inserts-HasUniqueKeys :
      {ys zs : Nodes (HashNode K V)}
      → Inserts x ys zs
      → find_key x.1.key ys ≡ end
      → HasUniqueKeys ys
      → HasUniqueKeys zs
  unfolding find_key
  Inserts-HasUniqueKeys here absent u = (absent, u)
  Inserts-HasUniqueKeys (there {y} i) absent u = (
    ground (arith, Inserts-find_key y.1.key i, traits.symmetric x.1.key y.1.key),
    Inserts-HasUniqueKeys i (ground arith) u.1,
  )
