-- ===== src/Containers/List/Removal.antt =====
-- What `erase` of src/Containers/List.hpp does to the chain.
use renn.Prelude.{
  update, ℕ, ◌≡◌, inl, inr, true, false, ◌||◌, none, [], ◌∷◌, ◌==◌, arith, Bool-cases, ==_iff,
}
use mathlib.Core.Path.{subst}
use renn.Containers.Nodes.{Nodes, has, HasDistinct, remove_at}
use renn.Containers.List.{Heap}
use renn.Containers.List.Link.{Link, Link-Agree, has-prev, has-next}

module _ {ℓ} {T : Type ℓ} where
  -- The heap without the node `p`, whose neighbours are linked to each other.
  abbrev pub unlinked : ℕ → Heap T → Heap T
  unlinked p h = record {
    alive = update h.alive p false;
    next = update h.next (h.prev p) (h.next p);
    prev = update h.prev (h.next p) (h.prev p);
    value = update h.value p none;
  }

  -- At the node itself.
  Link-unlinked-here :
      (h : Heap T) (a b : ℕ) (x : ℕ × T) (xs : Nodes T)
      → has b xs ≡ false
      → has a xs ≡ false
      → (x.0 == b) ≡ false
      → HasDistinct (x ∷ xs)
      → Link h a (x ∷ xs) b
      → Link (unlinked x.0 h) a xs b
  Link-unlinked-here h a b x [] fb fa nb d (n, p, al, v, e) = (ground arith, ground arith, tt)
  Link-unlinked-here h a b x (y ∷ ys) fb fa nb d (n, p, al, v, (n2, p2, al2, v2, l)) = (
    ground arith,
    ground arith,
    ground arith,
    ground arith,
    Link-Agree h (unlinked x.0 h) y.0 ys b
        (record {
          next = λ q e. ground arith;
          prev = λ q e. ground arith;
          alive = λ q e. ground arith;
          value = λ q e. ground arith;
        })
        l,
  )

  pub Link-unlinked :
      (h : Heap T) (a : ℕ) (xs : Nodes T) (b p : ℕ)
      → has a xs ≡ false
      → has b xs ≡ false
      → HasDistinct xs
      → has p xs ≡ true
      → Link h a xs b
      → Link (unlinked p h) a (remove_at p xs) b
  unfolding remove_at
  Link-unlinked h a [] b p fa fb d e l = absurd (cc)
  Link-unlinked h a (x ∷ xs) b p fa fb d e l = elim (Bool-cases (x.0 == p)) [
    | inl hit ↦ rw hit (
        subst (λ q. Link (unlinked q h) a xs b) ((==_iff x.0 p).0 hit)
          (Link-unlinked-here h a b x xs (ground arith) (ground arith) (ground arith) d l))
    | inr miss ↦ rw miss (
        let (n, q, al, v, r) = l in
        let before : (h.prev p == x.0 || has (h.prev p) xs) ≡ true =
          has-prev h x.0 xs b p r (ground arith) in
        let behind : (h.next p == b || has (h.next p) xs) ≡ true =
          has-next h x.0 xs b p r (ground arith) in
        (
          ground arith,
          ground arith,
          ground arith,
          ground arith,
          Link-unlinked h x.0 xs b p d.0 (ground arith) d.1 (ground arith) r,
        ))
  ]
