-- ===== src/Containers/DynamicArray/Removal.antt =====
-- `erase_at_index`, `pop_back` and `clear` of src/Containers/DynamicArray.hpp.
use renn.Prelude.{
  update, ℕ, zero, suc, ◌+◌, ◌-◌, ◌<◌, ◌≤◌, ◌≡◌, refl, true, false, Option, none, some, List, [],
  ◌∷◌, ◌++◌, ltb, leb, ◌||◌, if◌then◌else◌, length, get_elem?, arith, ap, ◌==◌, ◌∙◌, length-append,
}
use renn.Prelude.Effect.{ok, throws, out_of_range}
use renn.Containers.DynamicArray.{
  Array, load, erase_at_index, shift_down, pop_back, destroy_from, clear, at,
}
use renn.Containers.DynamicArray.Contents.{
  get_elem?-some, Holds, Leaves, Live, among, construct-raw, destroy-live, load-live, Holds-Live,
  get_elem?-length,
}

module _ {T : Type 0} where
  -- The cells after the loop of `erase_at_index`, which moves `n` elements down by one.
  abbrev pub lowered : (n i : ℕ) → (ℕ → Option T) → ℕ → Option T
  lowered n i c k = if ltb k i || ltb (i + n) k then c k else if k == i + n then none else c (suc k)

  lowered-update :
      (n i : ℕ) (c : ℕ → Option T) (v : T) (k : ℕ)
      → c (suc i) ≡ some v
      → lowered n (suc i) (update (update c i (some v)) (suc i) none) k ≡ lowered (suc n) i c k
  lowered-update n i c v k live = ground arith

  pub record Lowered (n i : ℕ) (a : Array T) : Type 0 where
    pub rest : ℕ → Option T
    pub returns : shift_down n i a ≡ ok tt (record a { cells = rest })
    pub cells : (k : ℕ) → rest k ≡ lowered n i a.cells k

  shift_down-step :
      (n i : ℕ) (a : Array T) (v : T)
      → suc i < a.capacity
      → a.cells (suc i) ≡ some v
      → a.cells i ≡ none
      → shift_down (suc n) i a
        ≡ shift_down n
            (suc i)
            (record a { cells = update (update a.cells i (some v)) (suc i) none })
  unfolding shift_down
  shift_down-step n i a v room live raw =
      let b : Array T = record a { cells = update a.cells i (some v) } in
      ground (
        arith,
        load-live (suc i) v a room live,
        construct-raw i v a (omega arith) raw,
        destroy-live (suc i) v b room (ground (arith, live)),
      )

  pub shift_down-Lowered :
      (n i : ℕ) (a : Array T)
      → i + n < a.capacity
      → Live a.cells (suc i) n
      → a.cells i ≡ none
      → Lowered n i a
  unfolding shift_down
  shift_down-Lowered zero i a room live raw = record {
    rest = a.cells;
    returns = refl;
    cells = λ k. ground (arith, raw);
  }
  shift_down-Lowered (suc n) i a room live raw =
      let (v, e) = live (suc i) (omega arith) (omega arith) in
      let b : Array T = record a { cells = update (update a.cells i (some v)) (suc i) none } in
      let s =
        shift_down-Lowered n (suc i) b (omega arith)
          (λ k lo hi. let (w, f) = live k (omega arith) (omega arith) in (w, ground (arith, f)))
          (ground arith) in
      record {
        rest = s.rest;
        returns = shift_down-step n i a v (omega arith) e raw ∙ s.returns;
        cells = λ k. s.cells k ∙ lowered-update n i a.cells v k e;
      }

  -- `xs` without the element `i`.
  abbrev pub erase_nth : ℕ → List T → List T
  erase_nth i [] = []
  erase_nth zero (x ∷ xs) = xs
  erase_nth (suc i) (x ∷ xs) = x ∷ erase_nth i xs

  get_elem?-erase_nth :
      (i : ℕ) (xs : List T) (j : ℕ)
      → get_elem? (erase_nth i xs) j ≡ (if ltb j i then get_elem? xs j else get_elem? xs (suc j))
  get_elem?-erase_nth zero [] j = ground arith
  get_elem?-erase_nth (suc i) [] j = ground arith
  get_elem?-erase_nth zero (x ∷ xs) j = ground arith
  get_elem?-erase_nth (suc i) (x ∷ xs) zero = ground arith
  get_elem?-erase_nth (suc i) (x ∷ xs) (suc j) = ground (arith, get_elem?-erase_nth i xs j)

  length-erase_nth :
      (i : ℕ) (xs : List T) → i < length xs → suc (length (erase_nth i xs)) ≡ length xs
  length-erase_nth i [] h = elim h [ ]
  length-erase_nth zero (x ∷ xs) h = refl
  length-erase_nth (suc i) (x ∷ xs) h = ap suc (length-erase_nth i xs (omega arith))

  lowered-erase_nth :
      (index n : ℕ) (xs : List T) (c : ℕ → Option T) (k : ℕ)
      → suc (index + n) ≡ length xs
      → c k ≡ get_elem? xs k
      → c (suc k) ≡ get_elem? xs (suc k)
      → lowered n index (update c index none) k ≡ get_elem? (erase_nth index xs) k
  lowered-erase_nth index n xs c k e h g =
      ground
        (arith, get_elem?-erase_nth index xs k, get_elem?-length xs k, get_elem?-length xs (suc k))

  -- In an array with the elements `xs`, `erase_at_index` with an index below the size returns,
  -- takes out the element of that index, and drops no other without its destruction.
  pub erase_at_index-Leaves :
      {a : Array T} {xs : List T} (h : Holds a xs) (index : ℕ)
      → index < length xs
      → Leaves (erase_at_index index) a (erase_nth index xs)
  unfolding erase_at_index
  erase_at_index-Leaves {a} {xs} h index lt =
      let (v, e) = Holds-Live h 0 (length xs) (omega arith) index (omega arith) (omega arith) in
      let room : index < a.capacity = omega (arith, h.count, h.fits) in
      let b : Array T = record a { cells = update a.cells index none } in
      let n = a.size - 1 - index in
      let s =
        shift_down-Lowered n index b (omega (arith, h.count, h.fits))
          (λ k lo hi.
            let (w, f) =
              Holds-Live h 0 (length xs) (omega arith) k (omega arith) (omega (arith, h.count)) in
            (w, ground (arith, f)))
          (ground arith) in
      let inside : leb a.size index ≡ false = ground (arith, h.count) in
      (
        record a { cells = s.rest; size = a.size - 1 },
        rw inside (rw (destroy-live index v a room e) (rw s.returns refl)),
        record {
          count = omega (arith, h.count, length-erase_nth index xs);
          fits = omega (arith, h.fits);
          cells = λ k.
              s.cells k
              ∙ lowered-erase_nth index n xs a.cells k (omega (arith, h.count)) (h.cells k)
                  (h.cells (suc k));
        },
        refl,
      )

  -- In an array with the elements `xs`, `at` returns the element of the index, throws
  -- `out_of_range` where there is none, and leaves the array as it was.
  pub at-get_elem? :
      {a : Array T} {xs : List T} (h : Holds a xs) (index : ℕ)
      → at index a ≡ elim (get_elem? xs index) [ none ↦ throws out_of_range a | some v ↦ ok v a ]
  unfolding at load
  at-get_elem? {a} {xs} h index =
      ground
        (arith, h.cells index, h.count, h.fits, get_elem?-length xs index, get_elem?-some xs index)

  -- The loop that destroys elements.
  pub record Destroyed (n i : ℕ) (a : Array T) : Type 0 where
    pub rest : ℕ → Option T
    pub returns : destroy_from n i a ≡ ok tt (record a { cells = rest })
    pub cells : (k : ℕ) → rest k ≡ (if among i n k then none else a.cells k)

  pub destroy_from-Destroyed :
      (n i : ℕ) (a : Array T) → i + n ≤ a.capacity → Live a.cells i n → Destroyed n i a
  unfolding destroy_from
  destroy_from-Destroyed zero i a room live = record {
    rest = a.cells;
    returns = refl;
    cells = λ k. ground arith;
  }
  destroy_from-Destroyed (suc n) i a room live =
      let (v, e) = live i (omega arith) (omega arith) in
      let b : Array T = record a { cells = update a.cells i none } in
      let s =
        destroy_from-Destroyed n (suc i) b (omega arith)
          (λ k lo hi. let (w, f) = live k (omega arith) (omega arith) in (w, ground (arith, f))) in
      record {
        rest = s.rest;
        returns = rw (destroy-live i v a (omega arith) e) s.returns;
        cells = λ k. ground (arith, s.cells k);
      }

  -- `clear` destroys every element and keeps the capacity.
  pub clear-Leaves :
      {a : Array T} {xs : List T} (h : Holds a xs)
      → (t : Array T) × (clear a ≡ ok tt t)
        × Holds t []
        × (t.capacity ≡ a.capacity)
        × (t.lost ≡ a.lost)
  unfolding clear
  clear-Leaves {a} {xs} h =
      let s =
        destroy_from-Destroyed a.size 0 a (omega (arith, h.fits))
          (λ k lo hi. Holds-Live h 0 (length xs) (omega arith) k lo (omega (arith, hi, h.count))) in
      (
        record a { cells = s.rest; size = 0 },
        rw s.returns refl,
        record {
          count = refl;
          fits = omega arith;
          cells = λ k. ground (arith, s.cells k, h.cells k, h.count, get_elem?-length xs k);
        },
        refl,
        refl,
      )

  get_elem?-last :
      (xs : List T) (v : T) (k : ℕ)
      → (if length xs == k then none else get_elem? (xs ++ v ∷ []) k) ≡ get_elem? xs k
  get_elem?-last [] v zero = ground arith
  get_elem?-last [] v (suc k) = ground arith
  get_elem?-last (x ∷ xs) v zero = ground arith
  get_elem?-last (x ∷ xs) v (suc k) = ground (arith, get_elem?-last xs v k)

  -- `pop_back` takes the last element out, and does nothing where there is none.
  pub pop_back-Leaves :
      {a : Array T} (xs : List T) (v : T) (h : Holds a (xs ++ v ∷ [])) → Leaves pop_back a xs
  unfolding pop_back
  pop_back-Leaves {a} xs v h =
      let size : a.size ≡ suc (length xs) = omega (arith, h.count, length-append xs (v ∷ [])) in
      let some_left : ltb 0 a.size ≡ true = ground arith in
      let (w, e) =
        Holds-Live h 0 a.size (omega (arith, h.count)) (a.size - 1) (omega arith) (omega arith) in
      let b : Array T = record a { size = a.size - 1 } in
      (
        record a { cells = update a.cells (a.size - 1) none; size = a.size - 1 },
        rw some_left (destroy-live (a.size - 1) w b (omega (arith, h.fits)) e),
        record {
          count = omega arith;
          fits = omega (arith, h.fits);
          cells = λ k. ground (arith, h.cells k, get_elem?-last xs v k);
        },
        refl,
      )
