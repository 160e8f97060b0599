-- ===== src/Containers/HashTable/Runs.antt =====
-- Buckets as runs of the list: the first node of a bucket, and the nodes from it on.
use renn.Prelude.{
  ℕ, ◌≡◌, ◌≢◌, inl, inr, refl, true, [], ◌∷◌, arith, ◌==◌, if◌then◌else◌, Bool-cases,
}
use renn.Prelude.Effect.{ok}
use renn.Containers.Nodes.{
  Cursor, null, end, at, Nodes, has, HasDistinct, rest_at, rest_from, Cursor-cases,
}
use renn.Containers.HashTable.{HashNode, bucket_of}

module _ {ℓ} {K V : Type ℓ} (count : ℕ) where
  unfoldable pub first_in : ℕ → Nodes (HashNode K V) → Cursor
  first_in i [] = end
  first_in i (x ∷ xs) = if bucket_of count x == i then at x.0 else first_in i xs

  unfoldable pub skip : ℕ → Nodes (HashNode K V) → Nodes (HashNode K V)
  skip i [] = []
  skip i (x ∷ xs) = if bucket_of count x == i then x ∷ xs else skip i xs

  -- The first node, if it is of the bucket.
  unfoldable pub leading : ℕ → Nodes (HashNode K V) → Cursor
  leading i [] = end
  leading i (x ∷ xs) = if bucket_of count x == i then at x.0 else end

  -- A bucket that has a node behind another of its nodes has one directly behind it.
  abbrev pub IsGrouped : Nodes (HashNode K V) → Type 0
  IsGrouped [] = Unit
  IsGrouped (x ∷ xs) =
      (first_in (bucket_of count x) xs ≡ leading (bucket_of count x) xs) × IsGrouped xs

  pub skip-nil : (i : ℕ) (xs : Nodes (HashNode K V)) → first_in i xs ≡ end → skip i xs ≡ []
  unfolding first_in skip
  skip-nil i [] h = refl
  skip-nil i (x ∷ xs) h = ground (arith, skip-nil i xs)

  pub has-first_in : (i p : ℕ) (xs : Nodes (HashNode K V)) → first_in i xs ≡ at p → has p xs ≡ true
  unfolding first_in
  has-first_in i p [] h = cc
  has-first_in i p (x ∷ xs) h = ground (arith, has-first_in i p xs)

  pub first_in-ne-null : (i : ℕ) (xs : Nodes (HashNode K V)) → first_in i xs ≢ null
  unfolding first_in
  first_in-ne-null i [] h = cc
  first_in-ne-null i (x ∷ xs) h = ground (arith, first_in-ne-null i xs)

  -- The first node of a bucket leads to the bucket's nodes.
  rest_at-first_in {κ} :
      {S : Type κ} (i p : ℕ) (xs : Nodes (HashNode K V)) (s : S)
      → HasDistinct xs
      → first_in i xs ≡ at p
      → rest_at p xs s ≡ ok (skip i xs) s
  unfolding first_in skip rest_at
  rest_at-first_in i p [] s d h = cc
  rest_at-first_in i p (x ∷ xs) s d h = elim (Bool-cases (bucket_of count x == i)) [
    | inl hit ↦ ground arith
    | inr miss ↦ ground (arith, has-first_in i p xs, rest_at-first_in i p xs s d.1)
  ]

  pub rest_from-first_in {κ} :
      {S : Type κ} (i : ℕ) (xs : Nodes (HashNode K V)) (s : S)
      → HasDistinct xs
      → rest_from (first_in i xs) xs s ≡ ok (skip i xs) s
  unfolding rest_from
  rest_from-first_in i xs s d = elim (Cursor-cases (first_in i xs)) [
    | inl (inl e) ↦ absurd (first_in-ne-null i xs e)
    | inl (inr e) ↦ ground (arith, e, skip-nil i xs)
    | inr (p, e) ↦ rw (e, rest_from) (rest_at-first_in i p xs s d e)
  ]
