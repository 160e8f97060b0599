-- ===== src/Containers/DynamicArray/RangeInsertion.antt =====
-- The range `insert` of src/Containers/DynamicArray.hpp at a range that is not empty.
use renn.Prelude.{
  update, ℕ, zero, suc, ◌+◌, ◌-◌, ◌*◌, ◌^◌, ◌<◌, ◌≤◌, ◌≡◌, refl, inl, inr, true, false, Option,
  none, some, List, [], ◌∷◌, ◌++◌, ltb, if◌then◌else◌, length, get_elem?, arith, ap, u64, ◌∙◌, max,
  length-append, Bool-cases,
}
use renn.Prelude.Effect.{ok, pure}
use renn.Containers.DynamicArray.{Array, reserve, insert_range, shift_by, construct_all}
use renn.Containers.DynamicArray.Spacing.{spaced, shift_by-Spaced}
use renn.Containers.DynamicArray.Contents.{
  Holds, Leaves, among, construct-raw, Holds-Live, get_elem?-length,
}
use renn.Containers.DynamicArray.Reserve.{reserve-Leaves}

module _ {T : Type 0} where
  pub record Constructed (i : ℕ) (vs : List T) (a : Array T) : Type 0 where
    pub rest : ℕ → Option T
    pub returns : construct_all i vs a ≡ ok tt (record a { cells = rest })
    pub cells :
        (k : ℕ) → rest k ≡ (if among i (length vs) k then get_elem? vs (k - i) else a.cells k)

  pub construct_all-Constructed :
      (i : ℕ) (vs : List T) (a : Array T)
      → i + length vs ≤ a.capacity
      → ((k : ℕ) → i ≤ k → k < i + length vs → a.cells k ≡ none)
      → Constructed i vs a
  unfolding construct_all
  construct_all-Constructed i [] a room raw = record {
    rest = a.cells;
    returns = refl;
    cells = λ k. ground arith;
  }
  construct_all-Constructed i (v ∷ vs) a room raw =
      let b : Array T = record a { cells = update a.cells i (some v) } in
      let s =
        construct_all-Constructed (suc i) vs b (omega arith) (λ k lo hi. ground (arith, raw k)) in
      record {
        rest = s.rest;
        returns =
            rw (construct-raw i v a (omega arith) (raw i (omega arith) (omega arith))) s.returns;
        cells = λ k. ground (arith, s.cells k);
      }

  get_elem?-append :
      (xs ys : List T) (k : ℕ)
      → get_elem? (xs ++ ys) k
        ≡ (if ltb k (length xs) then get_elem? xs k else get_elem? ys (k - length xs))
  get_elem?-append [] ys k = ground arith
  get_elem?-append (x ∷ xs) ys zero = ground arith
  get_elem?-append (x ∷ xs) ys (suc k) = ground (arith, get_elem?-append xs ys k)

  -- `xs` with the elements `vs` before the element `i`.
  abbrev pub insert_all : (i : ℕ) → List T → List T → List T
  insert_all zero vs xs = vs ++ xs
  insert_all (suc i) vs [] = vs
  insert_all (suc i) vs (x ∷ xs) = x ∷ insert_all i vs xs

  length-insert_all : (i : ℕ) (vs xs : List T) → length (insert_all i vs xs) ≡ length vs + length xs
  length-insert_all zero vs xs = length-append vs xs
  length-insert_all (suc i) vs [] = omega arith
  length-insert_all (suc i) vs (x ∷ xs) = omega (arith, length-insert_all i vs xs)

  get_elem?-insert_all :
      (i : ℕ) (vs xs : List T) (j : ℕ)
      → i ≤ length xs
      → get_elem? (insert_all i vs xs) j ≡ (
          if ltb j i
          then get_elem? xs j
          else if ltb j (i + length vs)
          then get_elem? vs (j - i)
          else get_elem? xs (j - length vs))
  get_elem?-insert_all zero vs xs j h = ground (arith, get_elem?-append vs xs j)
  get_elem?-insert_all (suc i) vs [] j h = absurd (omega arith)
  get_elem?-insert_all (suc i) vs (x ∷ xs) zero h = ground arith
  get_elem?-insert_all (suc i) vs (x ∷ xs) (suc j) h =
      ground (arith, get_elem?-insert_all i vs xs j)

  reserved :
      {a : Array T} {xs : List T} (h : Holds a xs) (need : ℕ)
      → (t : Array T) × ((if ltb a.capacity need
              then reserve true (max (u64 (a.capacity * 2)) need)
              else pure tt)
            a
          ≡ ok tt t)
        × Holds t xs
        × (need ≤ t.capacity)
        × (t.lost ≡ a.lost)
  reserved {a} h need =
      let (t, e, k, c, l) = reserve-Leaves h (max (u64 (a.capacity * 2)) need) in
      elim (Bool-cases (ltb a.capacity need)) [
        | inl lt ↦ (t, rw lt e, k, omega (arith, c), l)
        | inr ge ↦ (a, rw ge refl, h, ground arith, refl)
      ]

  -- The cells after both loops.
  spaced-insert_all :
      (index : ℕ) (vs xs : List T) (c rest last : ℕ → Option T) (k : ℕ)
      → index ≤ length xs
      → ((j : ℕ) → c j ≡ get_elem? xs j)
      → ((j : ℕ) → rest j ≡ spaced (length xs - index) index (length vs) c j)
      → ((j : ℕ)
          → last j ≡ (if among index (length vs) j then get_elem? vs (j - index) else rest j))
      → last k ≡ get_elem? (insert_all index vs xs) k
  spaced-insert_all index vs xs c rest last k le h f g = ground (
    arith,
    f k,
    g k,
    h k,
    h (k - length vs),
    get_elem?-insert_all index vs xs k,
    get_elem?-length xs k,
    get_elem?-length xs (k - length vs),
  )

  -- The steps of the call one after the other.
  insert_range-steps :
      (index : ℕ) (vs : List T) (a t b c : Array T)
      → ltb a.size index ≡ false
      → (if ltb a.capacity (u64 (a.size + length vs))
            then reserve true (max (u64 (a.capacity * 2)) (u64 (a.size + length vs)))
            else pure tt)
          a
        ≡ ok tt t
      → shift_by (suc (suc a.size)) (u64 (a.size + length vs + 2 ^ 64 - 1)) index (length vs) t
        ≡ ok tt b
      → construct_all index vs b ≡ ok tt c
      → insert_range true index vs a ≡ ok tt (record c { size = u64 (c.size + length vs) })
  unfolding insert_range
  insert_range-steps index vs a t b c inside e s q = rw inside (rw e (rw s (rw q refl)))

  -- In an array with the elements `xs`, with memory, `insert(index, first, last)` with an index up to
  -- the size and a range that is not empty, where the new size is below 2^64, returns, puts the
  -- range's elements before the element of that index in their order, and drops none without its
  -- destruction.
  pub insert_range-Leaves :
      {a : Array T} {xs : List T} (h : Holds a xs) (index : ℕ) (vs : List T)
      → index ≤ length xs
      → 0 < length vs
      → length xs + length vs < 2 ^ 64
      → Leaves (insert_range true index vs) a (insert_all index vs xs)
  insert_range-Leaves {a} {xs} h index vs le pos small =
      let need : u64 (a.size + length vs) ≡ length xs + length vs = omega (arith, h.count) in
      let (t, e, k, room, l) = reserved h (u64 (a.size + length vs)) in
      let d = length xs - index in
      let s =
        shift_by-Spaced (suc (suc a.size)) d index (length vs) t (omega (arith, h.count)) pos
          (omega (arith, room, need)) (omega arith)
          (λ j lo hi. Holds-Live k 0 (length xs) (omega arith) j (omega arith) (omega (arith, hi)))
          (λ j lo hi. k.cells j ∙ get_elem?-length xs j (omega arith)) in
      let b : Array T = record t { cells = s.rest } in
      let q =
        construct_all-Constructed index vs b (omega (arith, room, need))
          (λ j lo hi. s.cells j ∙ ground (arith, k.cells j, get_elem?-length xs j)) in
      let inside : ltb a.size index ≡ false = ground (arith, h.count) in
      let from : u64 (a.size + length vs + 2 ^ 64 - 1) ≡ index + length vs + d - 1 =
        omega (arith, h.count) in
      let grown : u64 (t.size + length vs) ≡ length xs + length vs = omega (arith, k.count) in
      (
        record t { cells = q.rest; size = u64 (t.size + length vs) },
        insert_range-steps index vs a t b (record b { cells = q.rest }) inside e
            (ap (λ i. shift_by (suc (suc a.size)) i index (length vs) t) from ∙ s.returns)
            q.returns,
        record {
          count = omega (arith, grown, length-insert_all index vs xs);
          fits = omega (arith, grown, room, need);
          cells =
              λ j. spaced-insert_all index vs xs t.cells s.rest q.rest j le k.cells s.cells q.cells;
        },
        l,
      )
