-- ===== src/Containers/DynamicArray/Session/Reads.antt =====
-- `at`, `front` and `back` as the clients of an array see them.
use renn.Prelude.{
  ℕ, ◌-◌, ◌^◌, ◌<◌, ◌≡◌, refl, ap, ◌∙◌, inl, inr, Option, none, some, List, [], ◌∷◌, ◌++◌, length,
  get_elem?, arith, length-append,
}
use renn.Prelude.Effect.{ok}
use renn.Containers.DynamicArray.{Array}
use renn.Containers.DynamicArray.Contents.{Holds}
use renn.Containers.DynamicArray.Removal.{at-get_elem?}
use renn.Containers.DynamicArray.EraseValue.{get_elem?-middle}
use renn.Containers.DynamicArray.Positions.Ends.{front-first, back-last}
use renn.Containers.DynamicArray.Session.{reads, reads_first, reads_last, call}
use renn.Containers.DynamicArray.Session.Sequence.{Sequence, read, Needs}
use renn.Containers.DynamicArray.Session.Represents.{Represents, last-cases, Agrees}

module _ {T : Type 0} where
  pub reads-Agrees :
      (index : ℕ) (s : Sequence T) (a : Array T) → Represents s a → Agrees (reads index) s a
  unfolding call
  reads-Agrees index s a h = (a, go (get_elem? s.elements index) refl, h)
    where
      go : (o : Option T) → get_elem? s.elements index ≡ o → call (reads index) a ≡ ok (read o) a
      go none e = rw (at-get_elem? h.holds index, e) refl
      go (some v) e = rw (at-get_elem? h.holds index, e) refl

  pub reads_first-Agrees :
      (s : Sequence T) (a : Array T) → Represents s a → Needs reads_first s → Agrees reads_first s a
  unfolding call
  reads_first-Agrees s a h some_left = go s.elements h.holds some_left
    where
      go :
          (xs : List T)
          → Holds a xs
          → 0 < length xs
          → (b : Array T) × (call reads_first a ≡ ok (read (get_elem? xs 0)) b) × Represents s b
      go [] k pos = absurd (omega arith)
      go (x ∷ xs) k pos = (a, rw (front-first x xs k) refl, h)

  pub reads_last-Agrees :
      (s : Sequence T) (a : Array T)
      → Represents s a
      → s.capacity < 2 ^ 63
      → Needs reads_last s
      → Agrees reads_last s a
  unfolding call
  reads_last-Agrees s a h small some_left = elim (last-cases s.elements) [
    | inl e ↦ absurd (omega (arith, ap length e))
    | inr (ys, v, e) ↦
        let k : Holds a (ys ++ v ∷ []) = rw e at h.holds in
        let few : length ys < 2 ^ 64 =
          omega (arith, k.count, k.fits, h.same_capacity, length-append ys (v ∷ [])) in
        let last : get_elem? s.elements (length s.elements - 1) ≡ some v =
          ap (λ l. get_elem? l (length l - 1)) e
          ∙ ap (get_elem? (ys ++ v ∷ [])) (omega (arith, length-append ys (v ∷ [])))
          ∙ get_elem?-middle ys v [] in
        (a, rw (back-last ys v k few, last) refl, h)
  ]
