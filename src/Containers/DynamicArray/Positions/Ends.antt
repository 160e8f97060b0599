-- ===== src/Containers/DynamicArray/Positions/Ends.antt =====
-- `front` and `back` of src/Containers/DynamicArray.hpp, and the pairs `push_back`, `back`, `pop_back`.
use renn.Prelude.{
  suc, ◌+◌, ◌-◌, ◌^◌, ◌<◌, ◌≡◌, true, List, [], ◌∷◌, ◌++◌, length, arith, ap, ◌∙◌, u64,
  length-append,
}
use renn.Prelude.Effect.{ok, ◌>>◌}
use renn.Containers.DynamicArray.{Array, push_back, pop_back, load}
use renn.Containers.DynamicArray.Contents.{Holds, load-live}
use renn.Containers.DynamicArray.Insertion.{push_back-Leaves}
use renn.Containers.DynamicArray.Removal.{pop_back-Leaves}
use renn.Containers.DynamicArray.EraseValue.{get_elem?-middle}
use renn.Containers.DynamicArray.Positions.{front, back}

module _ {T : Type 0} where
  -- The last element is where `back` reads.
  pub back-last :
      {a : Array T} (xs : List T) (v : T)
      → Holds a (xs ++ v ∷ [])
      → length xs < 2 ^ 64
      → back a ≡ ok v a
  unfolding back
  back-last {a} xs v h small =
      let n : a.size ≡ suc (length xs) = omega (arith, h.count, length-append xs (v ∷ [])) in
      let last : u64 (a.size + 2 ^ 64 - 1) ≡ length xs = omega arith in
      ap (λ i. load i a) last
      ∙ load-live (length xs) v a (omega (arith, h.fits))
          (h.cells (length xs) ∙ get_elem?-middle xs v [])

  pub front-first : {a : Array T} (v : T) (xs : List T) → Holds a (v ∷ xs) → front a ≡ ok v a
  unfolding front
  front-first {a} v xs h = load-live 0 v a (omega (arith, h.count, h.fits)) (h.cells 0)

  -- Of an array with the elements `xs` and a capacity below 2^63, with memory: `push_back` returns, then
  -- `back` reads the value, and then `pop_back` gives the elements `xs` back, with nothing dropped
  -- without its destruction.
  pub push_back-pop_back :
      {a : Array T} {xs : List T} (h : Holds a xs) (v : T)
      → a.capacity < 2 ^ 63
      → (t : Array T) × ((push_back true v >> back) a ≡ ok v t)
        × ((u : Array T) × (pop_back t ≡ ok tt u) × Holds u xs × (u.lost ≡ a.lost))
  push_back-pop_back {a} {xs} h v small =
      let (t, e, k, l) = push_back-Leaves h v small in
      let (u, f, m, l2) = pop_back-Leaves xs v k in
      (t, rw e (back-last xs v k (omega (arith, h.count, h.fits))), (u, f, m, l2 ∙ l))
