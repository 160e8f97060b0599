-- ===== src/Containers/Nodes/Inserts.antt =====
-- A list of nodes with one more: what holds wherever the node was put.
use renn.Prelude.{
  ℕ, suc, ◌≡◌, ◌≢◌, refl, true, false, ◌||◌, [], ◌∷◌, arith, ◌==◌, if◌then◌else◌, length, ap,
}
use renn.Containers.Nodes.{
  Cursor, null, end, at, Nodes, has, HasDistinct, insert_before, insert_at, insert_end,
}

-- `zs` is `ys` with `x` added at some place.
pub data Inserts {ℓ} {T : Type ℓ} (x : ℕ × T) : Nodes T → Nodes T → Type ℓ where
  here : {ys : Nodes T} → Inserts x ys (x ∷ ys)
  there : {y : ℕ × T} {ys zs : Nodes T} → Inserts x ys zs → Inserts x (y ∷ ys) (y ∷ zs)

module _ {ℓ} {T : Type ℓ} where
  insert_end-Inserts : (x : ℕ × T) (ys : Nodes T) → Inserts x ys (insert_end x ys)
  unfolding insert_end
  insert_end-Inserts x [] = here
  insert_end-Inserts x (y ∷ ys) = there (insert_end-Inserts x ys)

  insert_at-Inserts : (p : ℕ) (x : ℕ × T) (ys : Nodes T) → Inserts x ys (insert_at p x ys)
  unfolding insert_at
  insert_at-Inserts p x [] = here
  insert_at-Inserts p x (y ∷ ys) =
      elim (y.0 == p)
        as (λ b. Inserts x (y ∷ ys) (if b then x ∷ y ∷ ys else y ∷ insert_at p x ys)) [
          | true ↦ here
          | false ↦ there (insert_at-Inserts p x ys)
        ]

  pub insert_before-Inserts :
      (c : Cursor) (x : ℕ × T) (ys : Nodes T) → Inserts x ys (insert_before c x ys)
  unfolding insert_before
  insert_before-Inserts (at p) x ys = insert_at-Inserts p x ys
  insert_before-Inserts null x ys = insert_end-Inserts x ys
  insert_before-Inserts end x ys = insert_end-Inserts x ys

  -- The walk to the position passes a node that is not there.
  pub insert_before-cons :
      (c : Cursor) (x y : ℕ × T) (ys : Nodes T)
      → c ≢ at y.0
      → insert_before c x (y ∷ ys) ≡ y ∷ insert_before c x ys
  unfolding insert_before
  insert_before-cons (at p) x y ys h = ground arith
  insert_before-cons null x y ys h = refl
  insert_before-cons end x y ys h = refl

  module _ {x : ℕ × T} where
    pub Inserts-length : {ys zs : Nodes T} → Inserts x ys zs → length zs ≡ suc (length ys)
    Inserts-length here = refl
    Inserts-length (there i) = ap suc (Inserts-length i)

    pub Inserts-has :
        {ys zs : Nodes T} (p : ℕ) → Inserts x ys zs → has p zs ≡ (x.0 == p || has p ys)
    Inserts-has p here = refl
    Inserts-has p (there i) = ground (arith, Inserts-has p i)

    pub Inserts-HasDistinct :
        {ys zs : Nodes T} → Inserts x ys zs → has x.0 ys ≡ false → HasDistinct ys → HasDistinct zs
    Inserts-HasDistinct here f d = (f, d)
    Inserts-HasDistinct (there {y} i) f d =
        (ground (arith, Inserts-has y.0 i), Inserts-HasDistinct i (ground arith) d.1)
