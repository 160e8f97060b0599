-- ===== src/Containers/HashTable/Iteration/Zipper.antt =====
-- One step of a walk over the nodes of src/Containers/HashTable/HashTable.hpp: the nodes that the
-- walk has passed, the last of them first, and those to come.
use renn.Prelude.{ℕ, ◌≡◌, refl, true, false, [], ◌∷◌, arith}
use renn.Containers.Nodes.{Nodes, has, rest_at}
use renn.Containers.HashTable.{HashNode}
use renn.Containers.HashTable.Iteration.{replace_at}

module _ {ℓ} {K V : Type ℓ} where
  -- All the nodes, in order.
  abbrev pub onto : (passed coming : Nodes (HashNode K V)) → Nodes (HashNode K V)
  onto [] ys = ys
  onto (x ∷ xs) ys = onto xs (x ∷ ys)

  -- No address to come has been passed.
  abbrev pub Apart : (passed coming : Nodes (HashNode K V)) → Type 0
  Apart xs ys = (p : ℕ) → has p ys ≡ true → has p xs ≡ false

  pub rest_at-onto {κ} :
      {S : Type κ} (p : ℕ) (xs ys : Nodes (HashNode K V)) (s : S)
      → has p xs ≡ false
      → rest_at p (onto xs ys) s ≡ rest_at p ys s
  unfolding rest_at
  rest_at-onto p [] ys s n = refl
  rest_at-onto p (x ∷ xs) ys s n = ground (arith, rest_at-onto p xs (x ∷ ys) s)

  pub replace_at-onto :
      (p : ℕ) (v : V) (xs ys : Nodes (HashNode K V))
      → has p xs ≡ false
      → replace_at p v (onto xs ys) ≡ onto xs (replace_at p v ys)
  unfolding replace_at
  replace_at-onto p v [] ys n = refl
  replace_at-onto p v (x ∷ xs) ys n = ground (arith, replace_at-onto p v xs (x ∷ ys))

  pub Apart-step :
      (x y : ℕ × HashNode K V) (xs ys : Nodes (HashNode K V))
      → x.0 ≡ y.0
      → Apart xs (x ∷ ys)
      → has x.0 ys ≡ false
      → Apart (y ∷ xs) ys
  Apart-step x y xs ys e a d p h = ground (arith, a p)
