-- ===== src/Containers/DynamicArray/Resize.antt =====
-- `resize` of src/Containers/DynamicArray.hpp.
use renn.Prelude.{
  update, ℕ, zero, suc, ◌+◌, ◌-◌, ◌<◌, ◌≤◌, ◌≡◌, refl, inl, inr, true, false, Option, none, some,
  List, [], ◌∷◌, ltb, if◌then◌else◌, length, get_elem?, arith, ap, Bool-cases, ◌∙◌, sym, ltb→lt,
  max,
}
use renn.Prelude.Effect.{ok}
use renn.Containers.DynamicArray.{Array, reserve, fill_from, resize, pure}
use renn.Containers.DynamicArray.Contents.{
  Holds, Leaves, among, construct-raw, Holds-Live, get_elem?-length,
}
use renn.Containers.DynamicArray.Reserve.{reserve-Leaves}
use renn.Containers.DynamicArray.Removal.{destroy_from-Destroyed}

module _ {T : Type 0} where
  pub record Filled (n i : ℕ) (v : T) (a : Array T) : Type 0 where
    pub rest : ℕ → Option T
    pub returns : fill_from n i v a ≡ ok tt (record a { cells = rest })
    pub cells : (k : ℕ) → rest k ≡ (if among i n k then some v else a.cells k)

  pub fill_from-Filled :
      (n i : ℕ) (v : T) (a : Array T)
      → i + n ≤ a.capacity
      → ((k : ℕ) → i ≤ k → a.cells k ≡ none)
      → Filled n i v a
  unfolding fill_from
  fill_from-Filled zero i v a room raw = record {
    rest = a.cells;
    returns = refl;
    cells = λ k. ground arith;
  }
  fill_from-Filled (suc n) i v a room raw =
      let e = raw i (omega arith) in
      let b : Array T = record a { cells = update a.cells i (some v) } in
      let s =
        fill_from-Filled n (suc i) v b (omega arith)
          (λ k lo. ground (arith, raw k (omega arith))) in
      record {
        rest = s.rest;
        returns = rw (construct-raw i v a (omega arith) e) s.returns;
        cells = λ k. ground (arith, s.cells k);
      }

  -- The first `n` elements, filled up with `d`.
  abbrev pub resized : (n : ℕ) → T → List T → List T
  resized zero d xs = []
  resized (suc n) d [] = d ∷ resized n d []
  resized (suc n) d (x ∷ xs) = x ∷ resized n d xs

  get_elem?-resized :
      (n : ℕ) (d : T) (xs : List T) (k : ℕ)
      → get_elem? (resized n d xs) k
        ≡ (if ltb k n then (if ltb k (length xs) then get_elem? xs k else some d) else none)
  get_elem?-resized zero d xs k = ground arith
  get_elem?-resized (suc n) d [] zero = ground arith
  get_elem?-resized (suc n) d [] (suc k) = ground (arith, get_elem?-resized n d [] k)
  get_elem?-resized (suc n) d (x ∷ xs) zero = ground arith
  get_elem?-resized (suc n) d (x ∷ xs) (suc k) = ground (arith, get_elem?-resized n d xs k)

  length-resized : (n : ℕ) (d : T) (xs : List T) → length (resized n d xs) ≡ n
  length-resized zero d xs = refl
  length-resized (suc n) d [] = ap suc (length-resized n d [])
  length-resized (suc n) d (x ∷ xs) = ap suc (length-resized n d xs)

  resize-shrinks :
      {a : Array T} {xs : List T} (h : Holds a xs) (d : T) (n : ℕ)
      → ltb n a.size ≡ true
      → Leaves (resize true d n) a (resized n d xs)
  unfolding resize
  resize-shrinks {a} {xs} h d n e =
      let lt : n < a.size = ltb→lt _ _ e in
      let s = destroy_from-Destroyed (a.size - n) n a (omega (arith, h.fits, lt)) (λ k lo hi.
        Holds-Live h 0 (length xs) (omega arith) k (omega arith)
          (omega (arith, hi, lt, h.count))) in
      (
        record a { cells = s.rest; size = n },
        rw e (rw s.returns refl),
        record {
          count = sym (length-resized n d xs);
          fits = omega (arith, h.fits, lt);
          cells = λ k. ground (
            arith,
            s.cells k,
            h.cells k,
            h.count,
            get_elem?-resized n d xs k,
            get_elem?-length xs k,
          );
        },
        refl,
      )

  reserved :
      {a : Array T} {xs : List T} (h : Holds a xs) (n : ℕ)
      → (t : Array T) × ((if ltb a.capacity n then reserve true n else pure tt) a ≡ ok tt t)
        × Holds t xs
        × (t.capacity ≡ max a.capacity n)
        × (t.lost ≡ a.lost)
  reserved {a} {xs} h n =
      let (t, e, k, c, l) = reserve-Leaves h n in
      elim (Bool-cases (ltb a.capacity n)) [
        | inl lt ↦ (t, rw lt e, k, c, l)
        | inr ge ↦ (a, rw ge refl, h, ground arith, refl)
      ]

  resize-grows :
      {a : Array T} {xs : List T} (h : Holds a xs) (d : T) (n : ℕ)
      → ltb n a.size ≡ false
      → Leaves (resize true d n) a (resized n d xs)
  unfolding resize
  resize-grows {a} {xs} h d n e =
      let (t, r, k, c, l) = reserved h n in
      let ge : a.size ≤ n = ground arith in
      let s =
        fill_from-Filled (n - a.size) a.size d t (omega (arith, c, ge, h.fits))
          (λ j lo. k.cells j ∙ get_elem?-length xs j (omega (arith, h.count))) in
      (
        record t { cells = s.rest; size = n },
        rw e (rw r (rw s.returns refl)),
        record {
          count = sym (length-resized n d xs);
          fits = omega (arith, c);
          cells = λ j. ground (
            arith,
            s.cells j,
            k.cells j,
            h.count,
            get_elem?-resized n d xs j,
            get_elem?-length xs j,
          );
        },
        l,
      )

  -- In an array with the elements `xs`, with memory, `resize` returns, leaves the first `n`
  -- elements, filled up with default ones to `n`, and drops none without its destruction.
  pub resize-Leaves :
      {a : Array T} {xs : List T} (h : Holds a xs) (d : T) (n : ℕ)
      → Leaves (resize true d n) a (resized n d xs)
  resize-Leaves {a} h d n = elim (Bool-cases (ltb n a.size)) [
    | inl lt ↦ resize-shrinks h d n lt
    | inr ge ↦ resize-grows h d n ge
  ]
