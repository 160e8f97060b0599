-- ===== src/Containers/DynamicArray/EmptyRange.antt =====
-- The range `insert` of src/Containers/DynamicArray.hpp at an empty range.
use renn.Prelude.{
  update, ℕ, zero, suc, ◌+◌, ◌-◌, ◌^◌, ◌<◌, ◌≤◌, ◌≡◌, refl, true, false, Option, none, some, List,
  [], ◌∷◌, ltb, leb, if◌then◌else◌, length, get_elem?, arith, ap, u64, ◌∙◌,
}
use renn.Prelude.Effect.{ok}
use renn.Containers.DynamicArray.{Array, insert_range, shift_by, construct_all}
use renn.Containers.DynamicArray.Contents.{
  construct-live, Holds, Live, among, destroy-live, load-live, Holds-Live, get_elem?-length,
}

module _ {T : Type 0} where
  -- The loop of the range `insert` for an empty range, from the element `index + d - 1` down.
  record Ruined (fuel d index : ℕ) (a : Array T) : Type 0 where
    pub rest : ℕ → Option T
    pub dropped : List T
    pub returns :
        shift_by fuel (index + d - 1) index 0 a ≡ ok tt (record a { cells = rest; lost = dropped })
    pub cells : (k : ℕ) → rest k ≡ (if among index d k then none else a.cells k)

  shift_by-step :
      (fuel i index : ℕ) (v : T) (a : Array T)
      → index ≤ i
      → 0 < index
      → i < a.capacity
      → i < 2 ^ 64
      → a.cells i ≡ some v
      → shift_by (suc fuel) i index 0 a
        ≡ shift_by fuel
            (i - 1)
            index
            0
            (record a { cells = update (update a.cells i (some v)) i none; lost = v ∷ a.lost })
  unfolding shift_by
  shift_by-step fuel i index v a le pos room small e =
      let b : Array T = record a { cells = update a.cells i (some v); lost = v ∷ a.lost } in
      let same : i - 0 ≡ i = omega arith in
      let down : u64 (i + 2 ^ 64 - 1) ≡ i - 1 = omega arith in
      let goes : leb (u64 (index + 0)) i ≡ true = ground arith in
      simp
        (
          shift_by,
          goes,
          same,
          load-live i v a room e,
          construct-live i v v a room e,
          destroy-live i v b room (ground (arith, e)),
          down,
        )
        refl

  shift_by-Ruined :
      (fuel d index : ℕ) (a : Array T)
      → d < fuel
      → 0 < index
      → index + d ≤ a.capacity
      → index + d < 2 ^ 64
      → Live a.cells index d
      → Ruined fuel d index a
  unfolding shift_by
  shift_by-Ruined zero d index a enough pos room small live = elim enough [ ]
  shift_by-Ruined (suc fuel) zero index a enough pos room small live = record {
    rest = a.cells;
    dropped = a.lost;
    returns = ground arith;
    cells = λ k. ground arith;
  }
  shift_by-Ruined (suc fuel) (suc d) index a enough pos room small live =
      let (v, e) = live (index + d) (omega arith) (omega arith) in
      let at_last : index + suc d - 1 ≡ index + d = omega arith in
      let b : Array T = record a {
        cells = update (update a.cells (index + d) (some v)) (index + d) none;
        lost = v ∷ a.lost;
      } in
      let s =
        shift_by-Ruined fuel d index b (omega arith) pos (omega arith) (omega arith)
          (λ k lo hi. let (u, f) = live k lo (omega arith) in (u, ground (arith, f))) in
      record {
        rest = s.rest;
        dropped = s.dropped;
        returns =
            ap (λ i. shift_by (suc fuel) i index 0 a) at_last
            ∙ shift_by-step fuel (index + d) index v a (omega arith) pos (omega arith) (omega arith)
                e
            ∙ s.returns;
        cells = λ k. ground (arith, s.cells k);
      }

  -- In an array with the elements `xs` and a capacity below 2^64, the range `insert` of an empty
  -- range before an element that is not the first returns, destroys that element and all behind it,
  -- and leaves the size as it was.
  pub insert_range-ruins :
      {a : Array T} {xs : List T} (h : Holds a xs) (index : ℕ)
      → 0 < index
      → index < length xs
      → a.capacity < 2 ^ 64
      → (t : Array T) × (insert_range true index [] a ≡ ok tt t)
        × (t.size ≡ a.size)
        × ((k : ℕ) → t.cells k ≡ (if ltb k index then get_elem? xs k else none))
  unfolding insert_range construct_all
  insert_range-ruins {a} {xs} h index pos lt small =
      let s =
        shift_by-Ruined (suc (suc a.size)) (a.size - index) index a (omega arith) pos
          (omega (arith, h.count, h.fits)) (omega (arith, h.count, h.fits))
          (λ k lo hi.
            Holds-Live h 0 (length xs) (omega arith) k (omega arith)
              (omega (arith, hi, h.count))) in
      let inside : ltb a.size index ≡ false = ground (arith, h.count) in
      let same : u64 (a.size + 0) ≡ a.size = omega (arith, h.fits) in
      let last : u64 (a.size + 0 + 2 ^ 64 - 1) ≡ index + (a.size - index) - 1 =
        omega (arith, h.count, h.fits) in
      let enough : ltb a.capacity a.size ≡ false = ground (arith, h.fits) in
      (
        record a { cells = s.rest; lost = s.dropped },
        simp (inside, last, same, enough, s.returns) refl,
        refl,
        λ k. ground (arith, s.cells k, h.cells k, h.count, get_elem?-length xs k),
      )
