-- ===== src/Containers/DynamicArray/Session/Represents.antt =====
-- When an array is a list with a capacity for its clients, and when a call keeps it one.
use renn.Prelude.{
  ℕ, ◌≡◌, refl, ap, ◌⊎◌, inl, inr, true, false, List, [], ◌∷◌, ◌++◌, ltb, leb, arith,
}
use renn.Prelude.Effect.{ok, throws, out_of_range}
use renn.Containers.DynamicArray.{Array, empty_array, pop_back, insert, erase_at_index}
use renn.Containers.DynamicArray.Contents.{Holds}
use renn.Containers.DynamicArray.Session.{Call, call}
use renn.Containers.DynamicArray.Session.Sequence.{Sequence, drop_last, reply}

module _ {T : Type 0} where
  -- The elements, the capacity, and no value was dropped without its destruction.
  pub record Represents (s : Sequence T) (a : Array T) : Type 0 where
    pub holds : Holds a s.elements
    pub same_capacity : a.capacity ≡ s.capacity
    pub nothing_lost : a.lost ≡ []

  abbrev pub empty_sequence : Sequence T
  empty_sequence = record { elements = []; capacity = 0 }

  pub Represents-empty : Represents empty_sequence empty_array
  unfolding empty_array
  Represents-empty = record {
    holds = record { count = refl; fits = omega arith; cells = λ i. refl };
    same_capacity = refl;
    nothing_lost = refl;
  }

  -- A list is empty or has a last element.
  pub last-cases : (xs : List T) → (xs ≡ []) ⊎ ((ys : List T) × (v : T) × (xs ≡ ys ++ v ∷ []))
  last-cases [] = inl refl
  last-cases (x ∷ xs) = elim (last-cases xs) [
    | inl e ↦ inr ([], x, ap (λ l. x ∷ l) e)
    | inr (ys, v, e) ↦ inr (x ∷ ys, v, ap (λ l. x ∷ l) e)
  ]

  pub drop_last-append : (ys : List T) (v : T) → drop_last (ys ++ v ∷ []) ≡ ys
  drop_last-append [] v = refl
  drop_last-append (x ∷ []) v = refl
  drop_last-append (x ∷ y ∷ ys) v = ap (λ l. x ∷ l) (drop_last-append (y ∷ ys) v)

  pub pop_back-empty : (a : Array T) → ltb 0 a.size ≡ false → pop_back a ≡ ok tt a
  unfolding pop_back
  pop_back-empty a e = rw e refl

  pub insert-outside :
      (a : Array T) (index : ℕ) (v : T)
      → ltb a.size index ≡ true
      → insert true index v a ≡ throws out_of_range a
  unfolding insert
  insert-outside a index v e = rw e refl

  pub erase_at_index-outside :
      (a : Array T) (index : ℕ)
      → leb a.size index ≡ true
      → erase_at_index index a ≡ throws out_of_range a
  unfolding erase_at_index
  erase_at_index-outside a index e = rw e refl

  -- What a call does, by what it does to the sequence.
  abbrev pub Agrees : Call T → Sequence T → Array T → Type 0
  Agrees c s a = (b : Array T) × (call c a ≡ ok (reply c s).0 b) × Represents (reply c s).1 b
