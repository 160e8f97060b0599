-- ===== src/Containers/DynamicArray/Spacing.antt =====
-- `shift_by` of src/Containers/DynamicArray.hpp: the move that opens a gap for a range.
use renn.Prelude.{
  update, ℕ, zero, suc, ◌+◌, ◌-◌, ◌^◌, ◌<◌, ◌≤◌, ◌≡◌, refl, true, Option, none, some, ltb, leb,
  ◌||◌, if◌then◌else◌, arith, ap, u64, ◌∙◌,
}
use renn.Prelude.Effect.{ok}
use renn.Containers.DynamicArray.{Array, shift_by}
use renn.Containers.DynamicArray.Contents.{Live, construct-raw, destroy-live, load-live}

module _ {T : Type 0} where
  -- The cells after the loop: `d` elements from `index` on moved up by `count`.
  abbrev pub spaced : (d index count : ℕ) → (ℕ → Option T) → ℕ → Option T
  spaced d index count c k =
      if ltb k index || leb (index + count + d) k
      then c k
      else if ltb k (index + count)
      then none
      else c (k - count)

  pub record Spaced (fuel d index count : ℕ) (a : Array T) : Type 0 where
    pub rest : ℕ → Option T
    pub returns :
        shift_by fuel (index + count + d - 1) index count a ≡ ok tt (record a { cells = rest })
    pub cells : (k : ℕ) → rest k ≡ spaced d index count a.cells k

  shift_by-step :
      (fuel i index count : ℕ) (v : T) (a : Array T)
      → 0 < count
      → index + count ≤ i
      → i < a.capacity
      → i < 2 ^ 64
      → a.cells (i - count) ≡ some v
      → a.cells i ≡ none
      → shift_by (suc fuel) i index count a
        ≡ shift_by fuel
            (i - 1)
            index
            count
            (record a { cells = update (update a.cells i (some v)) (i - count) none })
  unfolding shift_by
  shift_by-step fuel i index count v a pos le room small live raw =
      let b : Array T = record a { cells = update a.cells i (some v) } in
      let down : u64 (i + 2 ^ 64 - 1) ≡ i - 1 = omega arith in
      let goes : leb (u64 (index + count)) i ≡ true = ground arith in
      simp
        (
          shift_by,
          goes,
          load-live (i - count) v a (omega arith) live,
          construct-raw i v a room raw,
          destroy-live (i - count) v b (omega arith) (ground (arith, live)),
          down,
        )
        refl

  spaced-update :
      (d index count : ℕ) (c : ℕ → Option T) (v : T) (k : ℕ)
      → 0 < count
      → c (index + d) ≡ some v
      → spaced d index count (update (update c (index + count + d) (some v)) (index + d) none) k
        ≡ spaced (suc d) index count c k
  spaced-update d index count c v k pos live = ground arith

  pub shift_by-Spaced :
      (fuel d index count : ℕ) (a : Array T)
      → d < fuel
      → 0 < count
      → index + count + d ≤ a.capacity
      → index + count + d < 2 ^ 64
      → Live a.cells index d
      → ((k : ℕ) → index + d ≤ k → k < index + count + d → a.cells k ≡ none)
      → Spaced fuel d index count a
  unfolding shift_by
  shift_by-Spaced zero d index count a enough pos room small live raw = absurd (omega arith)
  shift_by-Spaced (suc fuel) zero index count a enough pos room small live raw = record {
    rest = a.cells;
    returns = ground arith;
    cells = λ k. ground (arith, raw k);
  }
  shift_by-Spaced (suc fuel) (suc d) index count a enough pos room small live raw =
      let (v, e) = live (index + d) (omega arith) (omega arith) in
      let top : index + count + suc d - 1 ≡ index + count + d = omega arith in
      let from : index + count + d - count ≡ index + d = omega arith in
      let b : Array T = record a {
        cells = update (update a.cells (index + count + d) (some v)) (index + d) none;
      } in
      let s =
        shift_by-Spaced fuel d index count b (omega arith) pos (omega arith) (omega arith)
          (λ k lo hi. let (u, f) = live k lo (omega arith) in (u, ground (arith, f)))
          (λ k lo hi. ground (arith, raw k)) in
      record {
        rest = s.rest;
        returns =
            ap (λ i. shift_by (suc fuel) i index count a) top
            ∙ shift_by-step fuel (index + count + d) index count v a pos (omega arith) (omega arith)
                (omega arith) (ap a.cells from ∙ e)
                (raw (index + count + d) (omega arith) (omega arith))
            ∙ ap
                (λ j. shift_by fuel (index + count + d - 1) index count (record a {
                  cells = update (update a.cells (index + count + d) (some v)) j none;
                }))
                from
            ∙ s.returns;
        cells = λ k. s.cells k ∙ spaced-update d index count a.cells v k pos e;
      }
