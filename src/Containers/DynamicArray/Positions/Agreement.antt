-- ===== src/Containers/DynamicArray/Positions/Agreement.antt =====
-- The range `insert` of src/Containers/DynamicArray.hpp at an iterator does what that at an index does.
use renn.Prelude.{
  if◌then◌else◌, max, ◌*◌, fun_ext, Bool-cases, inl, inr, lt→ltb, Bool, ℕ, zero, suc, ◌+◌, ◌-◌, ◌^◌,
  ◌<◌, ◌≤◌, ◌≡◌, refl, false, ltb, leb, List, length, arith, u64,
}
use renn.Prelude.Effect.{get, State, and_then, throws, fault, ok, Run, ◌>>=◌, ◌>>◌, pure}
use renn.Containers.DynamicArray.{reserve, construct_all, set_size, Array, shift_by, insert_range}
use renn.Containers.DynamicArray.Positions.{shift_within, insert_range_before}

module _ {T : Type 0} where
  shift_within-shift_by :
      (fuel i index count limit : ℕ) (a : Array T)
      → i < limit
      → limit < 2 ^ 64
      → 0 < u64 (index + count)
      → shift_within fuel i index count limit a ≡ shift_by fuel i index count a
  unfolding shift_within shift_by
  shift_within-shift_by zero i index count limit a lt small pos = refl
  shift_within-shift_by (suc fuel) i index count limit a lt small pos =
      elim (Bool-cases (leb (u64 (index + count)) i)) [
        | inl goes ↦
            let down : u64 (i + 2 ^ 64 - 1) ≡ i - 1 = ground arith in
            simp
              (
                shift_within,
                shift_by,
                goes,
                lt→ltb i limit lt,
                down,
                fun_ext (λ b.
                    shift_within-shift_by fuel (i - 1) index count limit b (omega (arith, lt)) small
                      pos),
              )
              refl
        | inr stops ↦ simp (shift_within, shift_by, stops) refl
      ]

  return_after :
      (pos : ℕ) (x : Run (Array T) (Unit {0})) (f : State (Array T) (Unit {0}))
      (g : State (Array T) ℕ)
      → ((b : Array T) → g b ≡ (f >> pure pos) b)
      → and_then x (λ _. g) ≡ and_then (and_then x (λ _. f)) (λ _. pure pos)
  return_after pos (ok u b) f g h = h b
  return_after pos (throws e b) f g h = refl
  return_after pos (fault e) f g h = refl

  -- `insert(position, first, last)` of a range that is not empty, at a position up to the size and with
  -- a new size below 2^64, does what `insert(index, first, last)` does, with and without memory, and
  -- returns the position.
  pub insert_range_before-insert_range :
      (allocated : Bool) (pos : ℕ) (vs : List T) (a : Array T)
      → pos ≤ a.size
      → 0 < length vs
      → a.size + length vs < 2 ^ 64
      → insert_range_before allocated pos vs a ≡ (insert_range allocated pos vs >> pure pos) a
  unfolding insert_range_before insert_range
  insert_range_before-insert_range allocated pos vs a le some_left small =
      let inside : ltb a.size pos ≡ false = ground arith in
      let agree = fun_ext (λ b.
        shift_within-shift_by (suc (suc a.size)) (u64 (a.size + length vs + 2 ^ 64 - 1)) pos
          (length vs) (u64 (a.size + length vs)) b (omega arith) (omega arith) (omega arith)) in
      let grown : ℕ = u64 (a.size + length vs) in
      let room : State (Array T) (Unit {0}) =
        if ltb a.capacity grown
        then reserve allocated (max (u64 (a.capacity * 2)) grown)
        else pure tt in
      let built = construct_all pos vs in
      let counted : State (Array T) (Unit {0}) = get >>= λ b. set_size (u64 (b.size + length vs)) in
      let moved =
        shift_by (suc (suc a.size)) (u64 (a.size + length vs + 2 ^ 64 - 1)) pos (length vs) in
      rw (inside, agree)
        (return_after pos (room a) (moved >> (built >> counted))
          (moved >> (built >> (counted >> pure pos)))
          (λ b.
            return_after pos (moved b) (built >> counted) (built >> (counted >> pure pos))
              (λ c. return_after pos (built c) counted (counted >> pure pos) (λ d. refl))))
