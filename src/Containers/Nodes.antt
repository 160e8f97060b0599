-- ===== src/Containers/Nodes.antt =====
-- What the clients of src/Containers/List.hpp see of a list: its nodes in order, each with its
-- address, and iterators that name a node, the end, or nothing. Containers/List is the pointer code.
pub mod Inserts
pub mod Removes
pub mod Splits
use renn.Prelude.{
  ℕ, ◌≡◌, refl, ◌⊎◌, inl, inr, Bool, true, false, ◌||◌, List, [], ◌∷◌, ◌==◌, if◌then◌else◌,
}
use renn.Prelude.Effect.{State, pure, undefined, null_deref, dangling}

-- `List::iterator`; `null` is one that was default-constructed.
pub data Cursor : Type 0 where
  null : Cursor
  end : Cursor
  at : ℕ → Cursor

-- `operator==` of iterators.
unfoldable pub same : Cursor → Cursor → Bool
same null null = true
same end end = true
same (at p) (at q) = p == q
same _ _ = false

pub Cursor-cases : (c : Cursor) → ((c ≡ null) ⊎ (c ≡ end)) ⊎ ((p : ℕ) × (c ≡ at p))
Cursor-cases null = inl (inl refl)
Cursor-cases end = inl (inr refl)
Cursor-cases (at p) = inr (p, refl)

abbrev pub Nodes {ℓ} : Type ℓ → Type ℓ
Nodes T = List (ℕ × T)

module _ {ℓ} {T : Type ℓ} where
  abbrev pub has : ℕ → Nodes T → Bool
  has p [] = false
  has p (x ∷ xs) = x.0 == p || has p xs

  abbrev pub begin : Nodes T → Cursor
  begin [] = end
  begin (x ∷ xs) = at x.0

  -- The nodes from an iterator on, in the order in which `++` visits them.
  unfoldable pub rest_at {κ} : {S : Type κ} → ℕ → Nodes T → State S (Nodes T)
  rest_at p [] = undefined dangling
  rest_at p (x ∷ xs) = if x.0 == p then pure (x ∷ xs) else rest_at p xs

  unfoldable pub rest_from {κ} : {S : Type κ} → Cursor → Nodes T → State S (Nodes T)
  unfolding rest_at
  rest_from null xs = undefined null_deref
  rest_from end xs = pure []
  rest_from (at p) xs = rest_at p xs

  -- `emplace(position, value)` into the node `x.0`.
  unfoldable pub insert_at : ℕ → ℕ × T → Nodes T → Nodes T
  insert_at p x [] = x ∷ []
  insert_at p x (y ∷ ys) = if y.0 == p then x ∷ y ∷ ys else y ∷ insert_at p x ys

  unfoldable pub insert_end : ℕ × T → Nodes T → Nodes T
  insert_end x [] = x ∷ []
  insert_end x (y ∷ ys) = y ∷ insert_end x ys

  unfoldable pub insert_before : Cursor → ℕ × T → Nodes T → Nodes T
  unfolding insert_at insert_end
  insert_before (at p) x ys = insert_at p x ys
  insert_before _ x ys = insert_end x ys

  -- `erase(position)`.
  unfoldable pub remove_at : ℕ → Nodes T → Nodes T
  remove_at p [] = []
  remove_at p (y ∷ ys) = if y.0 == p then ys else y ∷ remove_at p ys

  -- No address is used twice.
  abbrev pub HasDistinct : Nodes T → Type 0
  HasDistinct [] = Unit
  HasDistinct (x ∷ xs) = (has x.0 xs ≡ false) × HasDistinct xs
