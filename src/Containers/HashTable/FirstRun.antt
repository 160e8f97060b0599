-- ===== src/Containers/HashTable/FirstRun.antt =====
-- The nodes that `find` and `emplace` of src/Containers/HashTable/HashTable.hpp walk through: those of
-- a bucket up to the first node of another bucket, whether or not there are more behind it.
use renn.Prelude.{
  ℕ, ◌≡◌, ◌≢◌, ◌⊎◌, inl, inr, refl, ap, [], ◌∷◌, ◌++◌, arith, ◌==◌, if◌then◌else◌, Bool-cases, ◌%◌,
}
use renn.Containers.Nodes.{Cursor, Nodes, end, at}
use renn.Containers.HashTable.Key.{KeyTraits}
use renn.Containers.HashTable.{HashNode, bucket_of, scan}
use renn.Containers.HashTable.Runs.{skip}
use renn.Containers.HashTable.Lookup.{find_key, IsHashed, home}
use renn.Containers.HashTable.Insert.{behind_run, insert_run}

module _ {ℓ} {K V : Type ℓ} (count i : ℕ) where
  abbrev leading_run : Nodes (HashNode K V) → Nodes (HashNode K V)
  leading_run [] = []
  leading_run (x ∷ xs) = if bucket_of count x == i then x ∷ leading_run xs else []

  abbrev pub first_run : Nodes (HashNode K V) → Nodes (HashNode K V)
  first_run [] = []
  first_run (x ∷ xs) = if bucket_of count x == i then x ∷ leading_run xs else first_run xs

module _ {ℓ} {K V : Type ℓ} (count : ℕ) (x : ℕ × HashNode K V) where
  abbrev own : ℕ
  own = bucket_of count x

  leading_run-behind_run :
      (ys : Nodes (HashNode K V))
      → leading_run count own (behind_run count own x ys) ≡ leading_run count own ys ++ x ∷ []
  unfolding behind_run
  leading_run-behind_run [] = ground arith
  leading_run-behind_run (y ∷ ys) = ground (arith, leading_run-behind_run ys)

  -- The new node is the last of the first run of its bucket.
  first_run-insert_run :
      (ys : Nodes (HashNode K V))
      → first_run count own (insert_run count own x ys) ≡ first_run count own ys ++ x ∷ []
  unfolding insert_run
  first_run-insert_run [] = ground arith
  first_run-insert_run (y ∷ ys) = ground (arith, leading_run-behind_run ys, first_run-insert_run ys)

  first_run-behind_run_ne :
      (j : ℕ) (ys : Nodes (HashNode K V))
      → j ≢ own
      → first_run count j (behind_run count own x ys) ≡ first_run count j ys
  unfolding behind_run
  first_run-behind_run_ne j [] ne = ground arith
  first_run-behind_run_ne j (y ∷ ys) ne = ground (arith, first_run-behind_run_ne j ys ne)

  leading_run-insert_run_ne :
      (j : ℕ) (ys : Nodes (HashNode K V))
      → j ≢ own
      → leading_run count j (insert_run count own x ys) ≡ leading_run count j ys
  unfolding insert_run
  leading_run-insert_run_ne j [] ne = ground arith
  leading_run-insert_run_ne j (y ∷ ys) ne = ground (arith, leading_run-insert_run_ne j ys ne)

  -- It is put into no run of another bucket.
  first_run-insert_run_ne :
      (j : ℕ) (ys : Nodes (HashNode K V))
      → j ≢ own
      → first_run count j (insert_run count own x ys) ≡ first_run count j ys
  unfolding insert_run
  first_run-insert_run_ne j [] ne = ground arith
  first_run-insert_run_ne j (y ∷ ys) ne = ground (
    arith,
    first_run-behind_run_ne j ys ne,
    leading_run-insert_run_ne j ys ne,
    first_run-insert_run_ne j ys ne,
  )

module _ {ℓ} {K V : Type ℓ} ⦃traits : KeyTraits K⦄ (count : ℕ) where
  module _ (i : ℕ) (k : K) where
    scan-leading_run :
        (xs : Nodes (HashNode K V)) → scan count i k xs ≡ find_key k (leading_run count i xs)
    unfolding scan find_key
    scan-leading_run [] = refl
    scan-leading_run (x ∷ xs) = ground (arith, scan-leading_run xs)

    -- What the walk of `find` finds.
    pub scan-first_run :
        (xs : Nodes (HashNode K V))
        → scan count i k (skip count i xs) ≡ find_key k (first_run count i xs)
    unfolding scan skip find_key
    scan-first_run [] = refl
    scan-first_run (x ∷ xs) = ground (arith, scan-leading_run xs, scan-first_run xs)

    leading_run-absent :
        (xs : Nodes (HashNode K V))
        → find_key k xs ≡ end
        → find_key k (leading_run count i xs) ≡ end
    unfolding find_key
    leading_run-absent [] e = refl
    leading_run-absent (x ∷ xs) e = ground (arith, leading_run-absent xs)

    first_run-absent :
        (xs : Nodes (HashNode K V)) → find_key k xs ≡ end → find_key k (first_run count i xs) ≡ end
    unfolding find_key
    first_run-absent [] e = refl
    first_run-absent (x ∷ xs) e = ground (arith, leading_run-absent xs, first_run-absent xs)

    leading_run-place :
        (xs : Nodes (HashNode K V))
        → (find_key k (leading_run count i xs) ≡ end)
          ⊎ (find_key k (leading_run count i xs) ≡ find_key k xs)
    unfolding find_key
    leading_run-place [] = inl refl
    leading_run-place (x ∷ xs) = ground (arith, leading_run-place xs)

  -- What `find` reaches of the nodes `xs`.
  abbrev pub reached : K → Nodes (HashNode K V) → Cursor
  reached k xs = find_key k (first_run count (home count k) xs)

  -- What stands in the first run of its bucket stands nowhere before it.
  pub reached-place :
      (k : K) (xs : Nodes (HashNode K V))
      → IsHashed xs
      → (reached k xs ≡ end) ⊎ (reached k xs ≡ find_key k xs)
  unfolding find_key
  reached-place k [] h = inl refl
  reached-place k (x ∷ xs) h = ground (
    arith,
    leading_run-place (home count k) k xs,
    reached-place k xs h.1,
    h.0,
    traits.one_hash x.1.key k,
  )

  find_key-append :
      (k : K) (x : ℕ × HashNode K V) (xs : Nodes (HashNode K V))
      → find_key x.1.key xs ≡ end
      → find_key k (xs ++ x ∷ []) ≡ (if traits.key_eq x.1.key k then at x.0 else find_key k xs)
  unfolding find_key
  find_key-append k x [] absent = refl
  find_key-append k x (y ∷ ys) absent = ground (
    arith,
    find_key-append k x ys,
    traits.symmetric x.1.key k,
    traits.transitive y.1.key k x.1.key,
  )

  -- A new node is found, and all that was found stays found.
  pub reached-insert_run :
      (k : K) (x : ℕ × HashNode K V) (xs : Nodes (HashNode K V))
      → x.1.cached_hash ≡ traits.hash x.1.key
      → find_key x.1.key xs ≡ end
      → reached k (insert_run count (own count x) x xs)
        ≡ (if traits.key_eq x.1.key k then at x.0 else reached k xs)
  reached-insert_run k x xs hashed absent = elim (Bool-cases (home count k == own count x)) [
    | inl same ↦
        let e : home count k ≡ own count x = ground (arith, same) in
        rw (e, first_run-insert_run count x xs)
          (find_key-append k x (first_run count (own count x) xs)
            (first_run-absent (own count x) x.1.key xs absent))
    | inr other ↦
        let ne : home count k ≢ own count x = ground (arith, other) in
        rw (first_run-insert_run_ne count x (home count k) xs ne)
          (ground (arith, traits.one_hash x.1.key k, ap (λ h. h % count) hashed))
  ]
