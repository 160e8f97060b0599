-- ===== src/Containers/DynamicArray/Insertion.antt =====
-- `push_back` and `insert` of src/Containers/DynamicArray.hpp.
use renn.Prelude.{
  update, ℕ, zero, suc, ◌+◌, ◌-◌, ◌^◌, ◌<◌, ◌≤◌, ◌≡◌, refl, inl, inr, true, false, Option, none,
  some, List, [], ◌∷◌, ◌++◌, ltb, if◌then◌else◌, length, get_elem?, arith, ap, ◌==◌, u64,
  Bool-cases, ◌∙◌, length-append, sym, ltb→lt, ◌||◌, ltb→lt,
}
use mathlib.Core.Path.{subst}
use renn.Prelude.Effect.{ok}
use renn.Containers.DynamicArray.{Array, push_back, insert, shift_up}
use renn.Containers.DynamicArray.Contents.{
  Holds, Leaves, construct-raw, destroy-live, load-live, Holds-Live, get_elem?-length,
}
use renn.Containers.DynamicArray.Reserve.{make_room-Leaves}

module _ {T : Type 0} where
  get_elem?-append-one :
      (xs : List T) (v : T) (i : ℕ)
      → get_elem? (xs ++ v ∷ []) i ≡ (if i == length xs then some v else get_elem? xs i)
  get_elem?-append-one [] v zero = refl
  get_elem?-append-one [] v (suc i) = ground arith
  get_elem?-append-one (x ∷ xs) v zero = ground arith
  get_elem?-append-one (x ∷ xs) v (suc i) = ground (arith, get_elem?-append-one xs v i)

  -- In an array with the elements `xs` and a capacity below 2^63, with memory, `push_back` returns,
  -- adds the value behind the elements, and drops none without its destruction.
  pub push_back-Leaves :
      {a : Array T} {xs : List T} (h : Holds a xs) (v : T)
      → a.capacity < 2 ^ 63
      → Leaves (push_back true v) a (xs ++ v ∷ [])
  unfolding push_back
  push_back-Leaves {a} {xs} h v small =
      let (t, e, k, room, bound, l) = make_room-Leaves h small in
      let raw : t.cells t.size ≡ none =
        k.cells t.size ∙ get_elem?-length xs t.size (omega (arith, k.count)) in
      let c = construct-raw t.size v t room raw in
      (
        record t { cells = update t.cells t.size (some v); size = u64 (t.size + 1) },
        rw e (rw c refl),
        record {
          count = omega (arith, k.count, room, bound, length-append xs (v ∷ []));
          fits = omega (arith, room);
          cells = λ i. ground (arith, k.cells i, k.count, get_elem?-append-one xs v i);
        },
        l,
      )

  -- `xs` with `v` before the element `i`.
  abbrev pub insert_nth : (i : ℕ) → T → List T → List T
  insert_nth zero v xs = v ∷ xs
  insert_nth (suc i) v [] = v ∷ []
  insert_nth (suc i) v (x ∷ xs) = x ∷ insert_nth i v xs

  get_elem?-insert_nth :
      (i : ℕ) (v : T) (xs : List T) (j : ℕ)
      → i ≤ length xs
      → get_elem? (insert_nth i v xs) j
        ≡ (if ltb j i then get_elem? xs j else if j == i then some v else get_elem? xs (j - 1))
  get_elem?-insert_nth zero v xs zero h = refl
  get_elem?-insert_nth zero v xs (suc j) h = ground arith
  get_elem?-insert_nth (suc i) v [] j h = absurd (omega arith)
  get_elem?-insert_nth (suc i) v (x ∷ xs) zero h = ground arith
  get_elem?-insert_nth (suc i) v (x ∷ xs) (suc zero) h =
      ground (arith, get_elem?-insert_nth i v xs 0)
  get_elem?-insert_nth (suc i) v (x ∷ xs) (suc (suc j)) h =
      ground (arith, get_elem?-insert_nth i v xs (suc j))

  length-insert_nth : (i : ℕ) (v : T) (xs : List T) → length (insert_nth i v xs) ≡ suc (length xs)
  length-insert_nth zero v xs = refl
  length-insert_nth (suc i) v [] = refl
  length-insert_nth (suc i) v (x ∷ xs) = ap suc (length-insert_nth i v xs)

  -- The cells after the loop: those from `index` to `i - 1` moved up by one.
  abbrev shifted : (i index : ℕ) → (ℕ → Option T) → ℕ → Option T
  shifted i index c k =
      if ltb k index || ltb i k then c k else if k == index then none else c (k - 1)

  shifted-update :
      (i index : ℕ) (c : ℕ → Option T) (v : T) (k : ℕ)
      → index < suc i
      → c i ≡ some v
      → c (suc i) ≡ none
      → shifted i index (update (update c (suc i) (some v)) i none) k ≡ shifted (suc i) index c k
  shifted-update i index c v k below live raw = ground arith

  get_elem?-insert_nth-shifted :
      (index : ℕ) (v : T) (xs : List T) (c : ℕ → Option T) (k : ℕ)
      → index ≤ length xs
      → c k ≡ get_elem? xs k
      → c (k - 1) ≡ get_elem? xs (k - 1)
      → update (shifted (length xs) index c) index (some v) k ≡ get_elem? (insert_nth index v xs) k
  get_elem?-insert_nth-shifted index v xs c k le h g =
      ground (
        arith,
        get_elem?-insert_nth index v xs k,
        get_elem?-length xs k,
        get_elem?-length xs (k - 1),
      )

  shifted-insert_nth :
      (index : ℕ) (v : T) (xs : List T) (c : ℕ → Option T) (k : ℕ)
      → index ≤ length xs
      → ((j : ℕ) → c j ≡ get_elem? xs j)
      → update (shifted (length xs) index c) index (some v) k ≡ get_elem? (insert_nth index v xs) k
  shifted-insert_nth index v xs c k le h =
      get_elem?-insert_nth-shifted index v xs c k le (h k) (h (k - 1))

  record Shifted (i index : ℕ) (a : Array T) : Type 0 where
    pub rest : ℕ → Option T
    pub returns : shift_up i index a ≡ ok tt (record a { cells = rest })
    pub cells : (k : ℕ) → rest k ≡ shifted i index a.cells k

  shift_up-step :
      (i index : ℕ) (a : Array T) (v : T)
      → index < suc i
      → suc i < a.capacity
      → a.cells i ≡ some v
      → a.cells (suc i) ≡ none
      → shift_up (suc i) index a
        ≡ shift_up i index (record a { cells = update (update a.cells (suc i) (some v)) i none })
  unfolding shift_up
  shift_up-step i index a v below room live raw =
      let b : Array T = record a { cells = update a.cells (suc i) (some v) } in
      ground (
        arith,
        load-live i v a (omega arith) live,
        construct-raw (suc i) v a room raw,
        destroy-live i v b (omega arith) (ground (arith, live)),
      )

  shift_up-Shifted :
      (i index : ℕ) (a : Array T)
      → index ≤ i
      → i < a.capacity
      → ((k : ℕ) → k < i → (v : T) × (a.cells k ≡ some v))
      → a.cells i ≡ none
      → Shifted i index a
  unfolding shift_up
  shift_up-Shifted zero index a le room live raw = record {
    rest = a.cells;
    returns = refl;
    cells = λ k. ground (arith, raw);
  }
  shift_up-Shifted (suc i) index a le room live raw = elim (Bool-cases (ltb index (suc i))) [
    | inl goes ↦
        let (v, e) = live i (omega arith) in
        let b : Array T = record a { cells = update (update a.cells (suc i) (some v)) i none } in
        let s =
          shift_up-Shifted i index b (ground arith) (omega arith)
            (λ k lt. let (w, f) = live k (omega arith) in (w, ground (arith, f))) (ground arith) in
        record {
          rest = s.rest;
          returns = shift_up-step i index a v (ground arith) room e raw ∙ s.returns;
          cells = λ k.
              s.cells k
              ∙ shifted-update i index a.cells v k (omega (arith, le, ltb→lt _ _ goes)) e raw;
        }
    | inr stops ↦ record {
      rest = a.cells;
      returns = simp (shift_up, stops) refl;
      cells = λ k. ground (arith, raw);
    }
  ]

  -- In an array with the elements `xs` and a capacity below 2^63, with memory, `insert(index,
  -- value)` with an index up to the size returns, puts the value before the element of that index,
  -- and drops none without its destruction.
  pub insert-Leaves :
      {a : Array T} {xs : List T} (h : Holds a xs) (index : ℕ) (v : T)
      → index ≤ length xs
      → a.capacity < 2 ^ 63
      → Leaves (insert true index v) a (insert_nth index v xs)
  unfolding insert
  insert-Leaves {a} {xs} h index v le small =
      let (t, e, k, room, bound, l) = make_room-Leaves h small in
      let live = Holds-Live k 0 (length xs) (omega arith) in
      let raw : t.cells t.size ≡ none =
        k.cells t.size ∙ get_elem?-length xs t.size (omega (arith, k.count)) in
      let s =
        shift_up-Shifted t.size index t (omega (arith, k.count)) room
          (λ j lt. live j (omega arith) (omega (arith, lt, k.count))) raw in
      let b : Array T = record t { cells = s.rest } in
      let inside : ltb a.size index ≡ false = ground (arith, h.count) in
      let c =
        construct-raw index v b (omega (arith, room, k.count))
          (ground (arith, s.cells index, k.count)) in
      (
        record t { cells = update s.rest index (some v); size = u64 (t.size + 1) },
        rw inside (rw e (rw s.returns (rw c refl))),
        record {
          count = omega (arith, k.count, room, bound, length-insert_nth index v xs);
          fits = omega (arith, room);
          cells = λ i.
              ap (λ (r : Option T). if index == i then some v else r) (s.cells i)
              ∙ subst
                  (λ n.
                    update (shifted n index t.cells) index (some v) i
                    ≡ get_elem? (insert_nth index v xs) i)
                  (sym k.count) (shifted-insert_nth index v xs t.cells i le k.cells);
        },
        l,
      )
