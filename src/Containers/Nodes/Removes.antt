-- ===== src/Containers/Nodes/Removes.antt =====
-- A list of nodes with one less: what holds wherever the node was.
use renn.Prelude.{
  ℕ, suc, ◌≡◌, refl, true, false, ◌||◌, [], ◌∷◌, arith, ◌==◌, length, ap, Bool-cases, inl, inr,
  ==_iff,
}
use renn.Prelude.Effect.{ok}
use renn.Containers.Nodes.{Nodes, has, HasDistinct, remove_at, rest_at}

-- `ys` is `zs` without its node `x`, which `after` follows.
pub data Removes {ℓ} {T : Type ℓ} (x : ℕ × T) (after : Nodes T) : Nodes T → Nodes T → Type ℓ where
  here : Removes x after after (x ∷ after)
  there : {y : ℕ × T} {ys zs : Nodes T} → Removes x after ys zs → Removes x after (y ∷ ys) (y ∷ zs)

module _ {ℓ} {T : Type ℓ} where
  -- The node at an address of the list, found by an iterator.
  pub record Found {κ} (S : Type κ) (p : ℕ) (zs : Nodes T) : Type (ℓ ⊔ κ) where
    pub node : T
    pub after : Nodes T
    pub rest : (s : S) → rest_at p zs s ≡ ok ((p, node) ∷ after) s
    pub removes : Removes (p, node) after (remove_at p zs) zs

  Found-here {κ} :
      (S : Type κ) (p : ℕ) (z : ℕ × T) (zs : Nodes T) → (z.0 == p) ≡ true → Found S p (z ∷ zs)
  unfolding rest_at remove_at
  Found-here S p z zs hit =
      let e : z.0 ≡ p = (==_iff _ _).0 hit in
      record {
        node = z.1;
        after = zs;
        rest = λ s. ground (arith, e);
        removes = rw hit (rw (← e) here);
      }

  Found-there {κ} :
      (S : Type κ) (p : ℕ) (z : ℕ × T) {zs : Nodes T}
      → (z.0 == p) ≡ false
      → Found S p zs
      → Found S p (z ∷ zs)
  unfolding rest_at remove_at
  Found-there S p z miss f = record {
    node = f.node;
    after = f.after;
    rest = λ s. rw miss (f.rest s);
    removes = rw miss (there f.removes);
  }

  pub rest_at-Found {κ} : (S : Type κ) (p : ℕ) (zs : Nodes T) → has p zs ≡ true → Found S p zs
  rest_at-Found S p [] h = absurd (cc)
  rest_at-Found S p (z ∷ zs) h = elim (Bool-cases (z.0 == p)) [
    | inl hit ↦ Found-here S p z zs hit
    | inr miss ↦ Found-there S p z miss (rest_at-Found S p zs (ground (arith, miss)))
  ]

  module _ {x : ℕ × T} {after : Nodes T} where
    pub Removes-length : {ys zs : Nodes T} → Removes x after ys zs → length zs ≡ suc (length ys)
    Removes-length here = refl
    Removes-length (there i) = ap suc (Removes-length i)

    pub Removes-has :
        {ys zs : Nodes T} (p : ℕ) → Removes x after ys zs → has p zs ≡ (x.0 == p || has p ys)
    Removes-has p here = refl
    Removes-has p (there i) = ground (arith, Removes-has p i)

    pub Removes-HasDistinct :
        {ys zs : Nodes T} → Removes x after ys zs → HasDistinct zs → HasDistinct ys
    Removes-HasDistinct here d = d.1
    Removes-HasDistinct (there {y} i) d =
        (ground (arith, Removes-has y.0 i), Removes-HasDistinct i d.1)
