-- ===== src/Containers/DynamicArray/Owners/Filled.antt =====
-- New and moved arrays of src/Containers/DynamicArray.hpp.
use renn.Prelude.{
  ℕ, zero, suc, ◌-◌, ◌^◌, ◌/◌, ◌≡◌, refl, inl, inr, true, false, Bool, none, some, List, [], ◌∷◌,
  ◌++◌, ltb, ◌||◌, not, if◌then◌else◌, length, get_elem?, arith, ap, ◌∙◌, sym, Bool-cases,
}
use renn.Prelude.Effect.{Run, ok, throws, bad_alloc}
use renn.Containers.DynamicArray.{Array, fill_from}
use renn.Containers.DynamicArray.Contents.{Holds, live_below-raw}
use renn.Containers.DynamicArray.Resize.{fill_from-Filled}
use renn.Containers.DynamicArray.Removal.{clear-Leaves}
use renn.Containers.DynamicArray.Owners.{fresh_array, sized, filled, move_assign, dropped}

module _ {T : Type 0} where
  -- `n` times the value.
  abbrev pub copies : ℕ → T → List T
  copies zero v = []
  copies (suc n) v = v ∷ copies n v

  get_elem?-copies :
      (n : ℕ) (v : T) (k : ℕ) → get_elem? (copies n v) k ≡ (if ltb k n then some v else none)
  get_elem?-copies zero v k = ground arith
  get_elem?-copies (suc n) v zero = ground arith
  get_elem?-copies (suc n) v (suc k) = ground (arith, get_elem?-copies n v k)

  length-copies : (n : ℕ) (v : T) → length (copies n v) ≡ n
  length-copies zero v = refl
  length-copies (suc n) v = ap suc (length-copies n v)

  fill_from-Holds :
      (n : ℕ) (v : T)
      → (t : Array T) × (fill_from n 0 v (fresh_array n n) ≡ ok tt t)
        × Holds t (copies n v)
        × (t.capacity ≡ n)
        × (t.lost ≡ [])
  unfolding fresh_array
  fill_from-Holds n v =
      let s = fill_from-Filled n 0 v (fresh_array n n) (omega arith) (λ k lo. refl) in
      (
        record (fresh_array n n) { cells = s.rest },
        s.returns,
        record {
          count = sym (length-copies n v);
          fits = omega arith;
          cells = λ k. ground (arith, s.cells k, get_elem?-copies n v k);
        },
        refl,
        refl,
      )

  -- A constructor is refused, or makes an array of `n` times the value in `n` cells.
  abbrev pub Builds : (refused : Bool) → Run (Array T) (Unit {0}) → ℕ → T → Array T → Type 0
  Builds refused run n v a =
      if refused
      then run ≡ throws bad_alloc a
      else (t : Array T) × (run ≡ ok tt t) × Holds t (copies n v) × (t.capacity ≡ n) × (t.lost ≡ [])

  with_memory :
      (allocated : Bool) (n : ℕ) (v : T) (a : Array T)
      → Builds
          (not allocated)
          (if allocated then fill_from n 0 v (fresh_array n n) else throws bad_alloc a)
          n
          v
          a
  with_memory false n v a = refl
  with_memory true n v a = fill_from-Holds n v

  -- The constructor of `n` default elements throws `bad_alloc` if their bytes are not countable or
  -- there is no memory, and otherwise makes an array of `n` default elements in `n` cells.
  pub sized-Builds :
      (allocated : Bool) (width : ℕ) (d : T) (n : ℕ) (a : Array T)
      → Builds (ltb ((2 ^ 64 - 1) / width) n || not allocated) (sized allocated width d n a) n d a
  unfolding sized
  sized-Builds allocated width d n a = elim (Bool-cases (ltb ((2 ^ 64 - 1) / width) n)) [
    | inl large ↦ rw large refl
    | inr fits ↦ rw fits (with_memory allocated n d a)
  ]

  pub filled-Builds :
      (allocated : Bool) (n : ℕ) (v : T) (a : Array T)
      → Builds (not allocated) (filled allocated n v a) n v a
  unfolding filled
  filled-Builds allocated n v a = with_memory allocated n v a

  -- Move assignment from another array returns, takes that array's elements and buffer, leaves it
  -- empty without a buffer, and drops no element of either without its destruction.
  pub move_assign-Holds :
      {a other : Array T} {xs ys : List T}
      → Holds other xs
      → Holds a ys
      → (t left : Array T) × (move_assign a other ≡ ok t left)
        × Holds t xs
        × (t.capacity ≡ other.capacity)
        × (t.lost ≡ a.lost ++ other.lost)
        × Holds left []
        × (left.capacity ≡ 0)
  unfolding move_assign
  move_assign-Holds {a} {other} h g =
      let (b, e, k, c, l) = clear-Leaves g in
      (
        record other { lost = dropped b ++ other.lost },
        record other { cells = λ i. none; size = 0; capacity = 0; lost = [] },
        simp (move_assign, e) refl,
        record { count = h.count; fits = h.fits; cells = h.cells },
        refl,
        ap (λ (l : List T). (l ++ b.lost) ++ other.lost)
              (live_below-raw b.capacity b.cells (λ i. k.cells i))
            ∙ ap (λ (l : List T). l ++ other.lost) l,
        record { count = refl; fits = omega arith; cells = λ i. refl },
        refl,
      )
