-- ===== src/Containers/List/Insertion.antt =====
-- What `emplace` of src/Containers/List.hpp does to the chain.
use renn.Prelude.{
  update, ℕ, ◌≡◌, inl, inr, true, false, ◌||◌, some, [], ◌∷◌, ◌==◌, arith, Bool-cases, ==_iff,
}
use mathlib.Core.Path.{subst}
use renn.Containers.Nodes.{Nodes, has, HasDistinct, insert_at, insert_end}
use renn.Containers.List.{Heap}
use renn.Containers.List.Link.{Link, Link-Agree, has-prev}

module _ {ℓ} {T : Type ℓ} where
  -- The heap with the new node `p` before `q`.
  abbrev pub linked : (p q : ℕ) → T → Heap T → Heap T
  linked p q v h = record {
    alive = update h.alive p true;
    next = update (update (update h.next p p) p q) (h.prev q) p;
    prev = update (update (update h.prev p p) p (h.prev q)) q p;
    value = update h.value p (some v);
  }

  pub Link-linked-end :
      (h : Heap T) (a : ℕ) (xs : Nodes T) (b p : ℕ) (v : T)
      → has a xs ≡ false
      → has b xs ≡ false
      → HasDistinct xs
      → has p xs ≡ false
      → (p == a) ≡ false
      → (p == b) ≡ false
      → Link h a xs b
      → Link (linked p b v h) a (insert_end (p, v) xs) b
  unfolding insert_end
  Link-linked-end h a [] b p v fa fb d fp na nb (n, q, _) =
      (ground arith, ground arith, ground arith, ground arith, (ground arith, ground arith, tt))
  Link-linked-end h a (x ∷ xs) b p v fa fb d fp na nb (n, q, al, w, r) =
      let before : (h.prev b == x.0 || has (h.prev b) xs) ≡ true =
        has-prev h x.0 xs b b r (ground arith) in
      (
        ground arith,
        ground arith,
        ground arith,
        ground arith,
        Link-linked-end h x.0 xs b p v d.0 (ground arith) d.1 (ground arith) (ground arith) nb r,
      )

  Link-linked-here :
      (h : Heap T) (a b : ℕ) (x : ℕ × T) (xs : Nodes T) (p : ℕ) (v : T)
      → has a (x ∷ xs) ≡ false
      → has b (x ∷ xs) ≡ false
      → HasDistinct (x ∷ xs)
      → has p (x ∷ xs) ≡ false
      → (p == a) ≡ false
      → (p == b) ≡ false
      → Link h a (x ∷ xs) b
      → Link (linked p x.0 v h) a ((p, v) ∷ x ∷ xs) b
  Link-linked-here h a b x xs p v fa fb d fp na nb (n, q, al, w, r) = (
    ground arith,
    ground arith,
    ground arith,
    ground arith,
    (
      ground arith,
      ground arith,
      ground arith,
      ground arith,
      Link-Agree h (linked p x.0 v h) x.0 xs b
          (record {
            next = λ c e. ground arith;
            prev = λ c e. ground arith;
            alive = λ c e. ground arith;
            value = λ c e. ground arith;
          })
          r,
    ),
  )

  pub Link-linked-at :
      (h : Heap T) (a : ℕ) (xs : Nodes T) (b p q : ℕ) (v : T)
      → has a xs ≡ false
      → has b xs ≡ false
      → HasDistinct xs
      → has p xs ≡ false
      → (p == a) ≡ false
      → (p == b) ≡ false
      → has q xs ≡ true
      → Link h a xs b
      → Link (linked p q v h) a (insert_at q (p, v) xs) b
  unfolding insert_at
  Link-linked-at h a [] b p q v fa fb d fp na nb e l = absurd (cc)
  Link-linked-at h a (x ∷ xs) b p q v fa fb d fp na nb e l = elim (Bool-cases (x.0 == q)) [
    | inl hit ↦ rw hit (
        subst (λ c. Link (linked p c v h) a ((p, v) ∷ x ∷ xs) b) ((==_iff x.0 q).0 hit)
          (Link-linked-here h a b x xs p v fa fb d fp na nb l))
    | inr miss ↦ rw miss (
        let (n, pr, al, w, r) = l in
        let before : (h.prev q == x.0 || has (h.prev q) xs) ≡ true =
          has-prev h x.0 xs b q r (ground arith) in
        (
          ground arith,
          ground arith,
          ground arith,
          ground arith,
          Link-linked-at h x.0 xs b p q v d.0 (ground arith) d.1 (ground arith) (ground arith) nb
              (ground arith) r,
        ))
  ]
