-- ===== src/Containers/DynamicArray/Assign.antt =====
-- `assign(n, value)` of src/Containers/DynamicArray.hpp.
use renn.Prelude.{
  update, ℕ, zero, suc, ◌+◌, ◌-◌, ◌<◌, ◌≤◌, ◌≡◌, refl, true, false, Option, none, some, List, ◌∷◌,
  ltb, if◌then◌else◌, length, get_elem?, arith, ◌∙◌, min, dec_lt,
}
use renn.Prelude.Effect.{ok}
use renn.Containers.DynamicArray.{Array, fill_from, assign}
use renn.Containers.DynamicArray.Contents.{
  construct-live, Holds, among, construct-raw, Holds-Live, get_elem?-length,
}

module _ {T : Type 0} where
  -- `construct` over cells of which those below `m` are live.
  record Overwritten (n i m : ℕ) (v : T) (a : Array T) : Type 0 where
    pub rest : ℕ → Option T
    pub dropped : List T
    pub returns : fill_from n i v a ≡ ok tt (record a { cells = rest; lost = dropped })
    pub cells : (k : ℕ) → rest k ≡ (if among i n k then some v else a.cells k)
    pub drops : length dropped ≡ length a.lost + (min (i + n) m - min i m)

  fill_from-Overwritten :
      (n i m : ℕ) (v : T) (a : Array T)
      → i + n ≤ a.capacity
      → ((k : ℕ) → i ≤ k → k < m → (w : T) × (a.cells k ≡ some w))
      → ((k : ℕ) → i ≤ k → m ≤ k → a.cells k ≡ none)
      → Overwritten n i m v a
  unfolding fill_from
  fill_from-Overwritten zero i m v a room live raw = record {
    rest = a.cells;
    dropped = a.lost;
    returns = refl;
    cells = λ k. ground arith;
    drops = omega arith;
  }
  fill_from-Overwritten (suc n) i m v a room live raw = elim (dec_lt i m) [
    | yes lt ↦
        let (w, e) = live i (omega arith) lt in
        let b : Array T = record a { cells = update a.cells i (some v); lost = w ∷ a.lost } in
        let s =
          fill_from-Overwritten n (suc i) m v b (omega arith)
            (λ k lo hi. let (u, f) = live k (omega arith) hi in (u, ground (arith, f)))
            (λ k lo hi. ground (arith, raw k (omega arith) hi)) in
        record {
          rest = s.rest;
          dropped = s.dropped;
          returns = rw (construct-live i v w a (omega arith) e) s.returns;
          cells = λ k. ground (arith, s.cells k);
          drops = omega (arith, s.drops);
        }
    | no ge ↦
        let e = raw i (omega arith) (omega arith) in
        let b : Array T = record a { cells = update a.cells i (some v) } in
        let s =
          fill_from-Overwritten n (suc i) m v b (omega arith) (λ k lo hi. absurd (omega arith))
            (λ k lo hi. ground (arith, raw k (omega arith) hi)) in
        record {
          rest = s.rest;
          dropped = s.dropped;
          returns = rw (construct-raw i v a (omega arith) e) s.returns;
          cells = λ k. ground (arith, s.cells k);
          drops = omega (arith, s.drops);
        }
  ]

  -- In an array with the elements `xs`, `assign(n, value)` with a count within the capacity sets
  -- the size and constructs the value over the first n cells: as many live elements as there were,
  -- n at most, are dropped without their destruction, and the elements from n on stay constructed
  -- behind the new size.
  pub assign-drops :
      {a : Array T} {xs : List T} (h : Holds a xs) (n : ℕ) (v : T)
      → n ≤ a.capacity
      → (t : Array T) × (assign true n v a ≡ ok tt t)
        × (t.size ≡ n)
        × (length t.lost ≡ length a.lost + min n (length xs))
        × ((k : ℕ) → t.cells k ≡ (if ltb k n then some v else get_elem? xs k))
  unfolding assign
  assign-drops {a} {xs} h n v room =
      let s =
        fill_from-Overwritten n 0 (length xs) v a (omega arith)
          (λ k lo hi. Holds-Live h 0 (length xs) (omega arith) k lo (omega arith))
          (λ k lo hi. h.cells k ∙ get_elem?-length xs k hi) in
      let enough : ltb a.capacity n ≡ false = ground arith in
      (
        record a { cells = s.rest; size = n; lost = s.dropped },
        rw enough (rw s.returns refl),
        refl,
        omega (arith, s.drops),
        λ k. ground (arith, s.cells k, h.cells k),
      )
