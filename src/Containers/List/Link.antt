-- ===== src/Containers/List/Link.antt =====
-- The doubly linked chain that src/Containers/List.hpp keeps on the heap.
use renn.Prelude.{ℕ, ◌≡◌, true, ◌||◌, some, [], ◌∷◌, ◌==◌, arith}
use renn.Containers.Nodes.{Nodes, has}
use renn.Containers.List.{Heap}

module _ {ℓ} {T : Type ℓ} where
  -- The nodes `xs` between `a` and `b`, linked in both directions.
  abbrev pub Link : Heap T → ℕ → Nodes T → ℕ → Type ℓ
  Link h a [] b = (h.next a ≡ b) × (h.prev b ≡ a) × Unit {ℓ}
  Link h a (x ∷ xs) b =
      (h.next a ≡ x.0)
      × (h.prev x.0 ≡ a)
      × (h.alive x.0 ≡ true)
      × (h.value x.0 ≡ some x.1)
      × Link h x.0 xs b

  -- Only the fields of the nodes, `next` of the node before and `prev` of the one behind matter.
  pub record Agree (h k : Heap T) (a : ℕ) (xs : Nodes T) (b : ℕ) : Type ℓ where
    pub next : (q : ℕ) → (q == a || has q xs) ≡ true → k.next q ≡ h.next q
    pub prev : (q : ℕ) → (q == b || has q xs) ≡ true → k.prev q ≡ h.prev q
    pub alive : (q : ℕ) → has q xs ≡ true → k.alive q ≡ h.alive q
    pub value : (q : ℕ) → has q xs ≡ true → k.value q ≡ h.value q

  pub Link-Agree :
      (h k : Heap T) (a : ℕ) (xs : Nodes T) (b : ℕ)
      → Agree h k a xs b
      → Link h a xs b
      → Link k a xs b
  Link-Agree h k a [] b g (n, p, _) = (ground (arith, g.next a), ground (arith, g.prev b), tt)
  Link-Agree h k a (x ∷ xs) b g (n, p, al, v, l) = (
    ground (arith, g.next a),
    ground (arith, g.prev x.0),
    ground (arith, g.alive x.0),
    ground (arith, g.value x.0),
    Link-Agree h k x.0 xs b
        (record {
          next = λ q e. g.next q (ground arith);
          prev = λ q e. g.prev q (ground arith);
          alive = λ q e. g.alive q (ground arith);
          value = λ q e. g.value q (ground arith);
        })
        l,
  )

  -- What precedes a node of the chain, and its end, stands in the chain or is its start.
  pub has-prev :
      (h : Heap T) (a : ℕ) (xs : Nodes T) (b p : ℕ)
      → Link h a xs b
      → (p == b || has p xs) ≡ true
      → (h.prev p == a || has (h.prev p) xs) ≡ true
  has-prev h a [] b p l e = ground arith
  has-prev h a (x ∷ xs) b p (n, q, al, v, l) e = ground (arith, has-prev h x.0 xs b p l)

  pub has-next :
      (h : Heap T) (a : ℕ) (xs : Nodes T) (b p : ℕ)
      → Link h a xs b
      → (p == a || has p xs) ≡ true
      → (h.next p == b || has (h.next p) xs) ≡ true
  has-next h a [] b p l e = ground arith
  has-next h a (x ∷ xs) b p (n, q, al, v, l) e = ground (arith, has-next h x.0 xs b p l)
