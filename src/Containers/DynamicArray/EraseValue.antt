-- ===== src/Containers/DynamicArray/EraseValue.antt =====
-- `erase(value)` of src/Containers/DynamicArray.hpp.
use renn.Prelude.{
  ℕ, zero, suc, ◌-◌, ◌<◌, ◌≡◌, refl, inl, inr, Bool, true, false, some, List, [], ◌∷◌, ◌++◌, ltb,
  leb, if◌then◌else◌, length, get_elem?, arith, ap, ◌∙◌, sym, length-append, Bool-cases, lt→ltb,
}
use renn.Containers.DynamicArray.{
  Array, erase_at_index, destroy, shift_down, set_size, erase_value, erase_value_loop, ◌>>◌,
}
use renn.Containers.DynamicArray.Contents.{Holds, Leaves, load-live}
use renn.Containers.DynamicArray.Removal.{erase_nth, erase_at_index-Leaves}

module _ {T : Type 0} where
  pub get_elem?-middle :
      (front : List T) (w : T) (back : List T)
      → get_elem? (front ++ w ∷ back) (length front) ≡ some w
  get_elem?-middle [] w back = refl
  get_elem?-middle (x ∷ front) w back = get_elem?-middle front w back

  erase_nth-middle :
      (front : List T) (w : T) (back : List T)
      → erase_nth (length front) (front ++ w ∷ back) ≡ front ++ back
  erase_nth-middle [] w back = refl
  erase_nth-middle (x ∷ front) w back = ap (λ l. x ∷ l) (erase_nth-middle front w back)

  append_one :
      (front : List T) (w : T) (back : List T) → front ++ w ∷ back ≡ (front ++ w ∷ []) ++ back
  append_one [] w back = refl
  append_one (x ∷ front) w back = ap (λ l. x ∷ l) (append_one front w back)

  erase_at_index-inside :
      (i : ℕ) (a : Array T)
      → leb a.size i ≡ false
      → (destroy i >> (shift_down (a.size - 1 - i) i >> set_size (a.size - 1))) a
        ≡ erase_at_index i a
  unfolding erase_at_index
  erase_at_index-inside i a inside = sym (rw inside refl)

  -- One element in the middle goes.
  erased_middle :
      {a : Array T} (front : List T) (w : T) (back : List T)
      → Holds a (front ++ w ∷ back)
      → Leaves
          (destroy (length front)
            >> (shift_down (a.size - 1 - length front) (length front) >> set_size (a.size - 1)))
          a
          (front ++ back)
  erased_middle {a} front w back h =
      let lt : length front < length (front ++ w ∷ back) =
        omega (arith, length-append front (w ∷ back)) in
      let (t, run, k, same) = erase_at_index-Leaves h (length front) lt in
      (
        t,
        erase_at_index-inside (length front) a (ground (arith, h.count)) ∙ run,
        rw (← erase_nth-middle front w back) k,
        same,
      )

module _ {T : Type 0} (eq : T → T → Bool) (v : T) where
  -- The elements that are not equal to `v`, in their order.
  abbrev pub without : List T → List T
  without [] = []
  without (x ∷ xs) = if eq x v then without xs else x ∷ without xs

  erase_value_loop-without :
      (fuel : ℕ) (front back : List T) (a : Array T)
      → Holds a (front ++ back)
      → length back < fuel
      → Leaves (erase_value_loop eq v fuel (length front)) a (front ++ without back)
  unfolding erase_value_loop
  erase_value_loop-without zero front back a h lt = absurd (omega arith)
  erase_value_loop-without (suc fuel) front [] a h lt =
      let stops : ltb (length front) a.size ≡ false =
        ground (arith, h.count, length-append front []) in
      (a, simp (erase_value_loop, stops) refl, h, refl)
  erase_value_loop-without (suc fuel) front (w ∷ back) a h lt =
      let goes : ltb (length front) a.size ≡ true =
        lt→ltb _ _ (omega (arith, h.count, length-append front (w ∷ back))) in
      let l =
        load-live (length front) w a
          (omega (arith, h.count, h.fits, length-append front (w ∷ back)))
          (h.cells (length front) ∙ get_elem?-middle front w back) in
      elim (Bool-cases (eq w v)) [
        | inl hit ↦
            let (b, run, k, same) = erased_middle front w back h in
            let (c, rest, m, lost) = erase_value_loop-without fuel front back b k (omega arith) in
            (c, simp (erase_value_loop, goes, l, hit, run) rest, rw hit m, lost ∙ same)
        | inr miss ↦
            let next : suc (length front) ≡ length (front ++ w ∷ []) =
              omega (arith, length-append front (w ∷ [])) in
            let k : Holds a ((front ++ w ∷ []) ++ back) = rw (← append_one front w back) h in
            let (c, rest, m, lost) =
              erase_value_loop-without fuel (front ++ w ∷ []) back a k (omega arith) in
            (
              c,
              simp (erase_value_loop, goes, l, miss)
                  (ap (λ n. erase_value_loop eq v fuel n a) next ∙ rest),
              rw miss (rw (append_one front w (without back)) m),
              lost,
            )
      ]

  -- In an array with the elements `xs`, `erase(value)` returns, leaves the elements that are not equal
  -- to the value in their order, and drops none of them without its destruction.
  pub erase_value-without :
      {a : Array T} {xs : List T} (h : Holds a xs) → Leaves (erase_value eq v) a (without xs)
  unfolding erase_value
  erase_value-without {a} {xs} h =
      erase_value_loop-without (suc a.size) [] xs a h (omega (arith, h.count))
