-- ===== src/Containers/HashTable/Access/Values.antt =====
-- What `operator[]`, `at` and `try_emplace` of src/Containers/HashTable/HashTable.hpp return.
use renn.Prelude.{
  ℕ, ◌≡◌, inl, inr, refl, true, false, none, some, [], ◌∷◌, ◌<◌, ◌≤◌, ◌^◌, ◌+◌, arith, ◌==◌,
  if◌then◌else◌, Bool-cases, ap, ◌∙◌, sym,
}
use renn.Prelude.Effect.{ok, throws, out_of_range}
use renn.Containers.Nodes.{end, at, same, Nodes, has, HasDistinct, rest_at, rest_from, Cursor-cases}
use renn.Containers.HashTable.Key.{KeyTraits}
use renn.Containers.HashTable.{Table, HashNode, Memory, emplace}
use renn.Containers.HashTable.Lookup.{find_key, lookup}
use renn.Containers.HashTable.Remove.{has-find_key, find_key-lookup, find_key-ne-null}
use renn.Containers.HashTable.Insert.{Inserts-find_key}
use renn.Containers.HashTable.Invariant.{IsValid, find-find_key}
use renn.Containers.HashTable.Emplace.{Emplaced, emplace-Emplaced, emplace-found}
use renn.Containers.HashTable.Access.{value_at, subscript, checked_at, try_emplace}

module _ {ℓ} {K V : Type ℓ} ⦃traits : KeyTraits K⦄ where
  -- A key that is found has a value, at its node.
  record Reads (k : K) (p : ℕ) (t : Table K V) (xs : Nodes (HashNode K V)) : Type ℓ where
    pub node : HashNode K V
    pub after : Nodes (HashNode K V)
    pub rest : rest_at p xs t ≡ ok ((p, node) ∷ after) t
    pub value : lookup k xs ≡ some node.value

  find_key-Reads :
      (k : K) (p : ℕ) (t : Table K V) (xs : Nodes (HashNode K V))
      → HasDistinct xs
      → find_key k xs ≡ at p
      → Reads k p t xs
  unfolding find_key lookup rest_at
  find_key-Reads k p t [] d e = absurd (cc)
  find_key-Reads k p t (x ∷ xs) d e = elim (Bool-cases (traits.key_eq x.1.key k)) [
    | inl hit ↦
        let here : x.0 ≡ p = ground (arith, hit) in
        record { node = x.1; after = xs; rest = ground (arith, here); value = rw hit refl }
    | inr miss ↦
        let later : find_key k xs ≡ at p = ground (arith, miss) in
        let r = find_key-Reads k p t xs d.1 later in
        let other : (x.0 == p) ≡ false = ground (arith, d.0, has-find_key k p xs later) in
        record { node = r.node; after = r.after; rest = rw other r.rest; value = rw miss r.value }
  ]

  pub value_at-lookup :
      (k : K) (p : ℕ) (t : Table K V)
      → HasDistinct t.elements
      → find_key k t.elements ≡ at p
      → (v : V) × (lookup k t.elements ≡ some v) × (value_at (at p) t ≡ ok v t)
  unfolding value_at rest_from
  value_at-lookup k p t d e =
      let r = find_key-Reads k p t t.elements d e in (r.node.value, r.value, rw r.rest refl)

module _ {ℓ} {K V : Type ℓ} ⦃traits : KeyTraits K⦄ where
  -- Equal keys read alike.
  pub lookup_congr :
      (k j : K) (ys : Nodes (HashNode K V)) → traits.key_eq k j ≡ true → lookup k ys ≡ lookup j ys
  unfolding lookup
  lookup_congr k j [] e = refl
  lookup_congr k j (y ∷ ys) e = ground (
    arith,
    lookup_congr k j ys e,
    traits.symmetric k j,
    traits.transitive y.1.key j k,
    traits.transitive y.1.key k j,
  )

module _ {ℓ} {K V : Type ℓ} ⦃traits : KeyTraits K⦄ {t : Table K V} (v : IsValid t) (k : K) where
  -- In a valid table `at`, and `operator[]` of a constant table, return the value of the first node
  -- with an equal key, throw `out_of_range` where there is none, and leave the table as it was.
  pub checked_at-lookup :
      checked_at k t ≡ elim (lookup k t.elements) [ none ↦ throws out_of_range t | some w ↦ ok w t ]
  unfolding checked_at same
  checked_at-lookup = elim (Cursor-cases (find_key k t.elements)) [
    | inl (inl e) ↦ absurd (find_key-ne-null k t.elements e)
    | inl (inr e) ↦ rw (find-find_key k v, e, find_key-lookup k t.elements e) refl
    | inr (p, e) ↦
        let (w, l, r) = value_at-lookup k p t v.indexed.distinct e in rw (find-find_key k v, e, l) r
  ]

  try_emplace_absent :
      (m : Memory) (w : V) → find_key k t.elements ≡ end → try_emplace m k w t ≡ emplace m k w t
  unfolding try_emplace same
  try_emplace_absent m w e = rw (find-find_key k v, e) refl

  -- In a valid table `try_emplace` does what `emplace` does.
  pub try_emplace-emplace : (m : Memory) (w : V) → try_emplace m k w t ≡ emplace m k w t
  unfolding try_emplace same
  try_emplace-emplace m w = elim (Cursor-cases (find_key k t.elements)) [
    | inl (inl e) ↦ absurd (find_key-ne-null k t.elements e)
    | inl (inr e) ↦ try_emplace_absent m w e
    | inr (p, e) ↦ rw (find-find_key k v, e) (sym (emplace-found k w t m p v e))
  ]

  -- `operator[]` of a key that is there.
  pub subscript-found :
      (m : Memory) (q : ℕ) (default : V)
      → find_key k t.elements ≡ at q
      → (w : V) × (lookup k t.elements ≡ some w) × (subscript m default k t ≡ ok w t)
  unfolding subscript same
  subscript-found m q default e =
      let (w, l, r) = value_at-lookup k q t v.indexed.distinct e in
      (w, l, rw (find-find_key k v, e) r)

  -- `operator[]` of a new key.
  pub subscript-new :
      (m : Memory) (p : ℕ) (default : V)
      → find_key k t.elements ≡ end
      → m.node ≡ some p
      → has p t.elements ≡ false
      → t.size + 1 ≤ t.rehash_threshold
      → t.size + 1 < 2 ^ 64
      → (u : Table K V) × (subscript m default k t ≡ ok default u) × Emplaced k default t p u
  unfolding subscript same
  subscript-new m p default e node fresh room small =
      let (u, run, em) = emplace-Emplaced k default t m p v e node fresh room small in
      let now : find_key k u.elements ≡ at p =
        Inserts-find_key k em.added e ∙ ground (arith, traits.reflexive k) in
      let (w, l, r) = value_at-lookup k p u em.valid.indexed.distinct now in
      let same_value : w ≡ default = ground (arith, l, em.reads k, traits.reflexive k) in
      (u, rw (find-find_key k v, e, run) (r ∙ ap (λ x. ok x u) same_value), em)

  -- What `operator[]` leaves.
  pub record Subscripted (default : V) (u : Table K V) : Type ℓ where
    pub valid : IsValid u
    pub reads :
        (j : K)
        → lookup j u.elements ≡ (
            if traits.key_eq k j
            then some (elim (lookup k t.elements) [ none ↦ default | some w ↦ w ])
            else lookup j t.elements)

  -- In a valid table, with a node that the list does not use, and with room for one more element
  -- within the threshold and below 2^64, `operator[]` returns the value of the key, or the default
  -- value for a new key, and leaves a valid table in which exactly the keys equal to it read that
  -- value and every other key reads as before.
  pub subscript-Subscripted :
      (m : Memory) (p : ℕ) (default : V)
      → m.node ≡ some p
      → has p t.elements ≡ false
      → t.size + 1 ≤ t.rehash_threshold
      → t.size + 1 < 2 ^ 64
      → (u : Table K V) × (subscript m default k t
          ≡ ok (elim (lookup k t.elements) [ none ↦ default | some w ↦ w ]) u)
        × Subscripted default u
  subscript-Subscripted m p default node fresh room small =
      elim (Cursor-cases (find_key k t.elements)) [
        | inl (inl e) ↦ absurd (find_key-ne-null k t.elements e)
        | inl (inr e) ↦
            let (u, run, em) = subscript-new m p default e node fresh room small in
            let absent = find_key-lookup k t.elements e in
            (
              u,
              rw absent run,
              record { valid = em.valid; reads = λ j. em.reads j ∙ rw absent refl },
            )
        | inr (q, e) ↦
            let (w, l, r) = subscript-found m q default e in
            (
              t,
              rw l r,
              record {
                valid = v;
                reads = λ j. rw l (ground (arith, l, lookup_congr k j t.elements));
              },
            )
      ]
