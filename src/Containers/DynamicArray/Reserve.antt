-- ===== src/Containers/DynamicArray/Reserve.antt =====
-- `reserve` of src/Containers/DynamicArray.hpp moves the elements to a larger buffer.
use renn.Prelude.{
  update, ℕ, zero, suc, ◌+◌, ◌*◌, ◌^◌, ◌<◌, ◌≤◌, ◌≡◌, refl, inl, inr, true, Option, none, some,
  List, ◌++◌, ltb, if◌then◌else◌, length, arith, ap, ◌==◌, u64, Bool-cases, ◌∙◌, max, ltb→lt,
}
use renn.Prelude.Effect.{ok}
use renn.Containers.DynamicArray.{Array, live_below, transfer, reserve, make_room}
use renn.Containers.DynamicArray.Contents.{
  Holds, Live, among, destroy-live, load-live, Holds-Live, live_below-raw, get_elem?-length,
}

module _ {T : Type 0} where
  record Moved (n i new_capacity : ℕ) (fresh : ℕ → Option T) (a : Array T) : Type 0 where
    pub to : ℕ → Option T
    pub rest : ℕ → Option T
    pub returns : transfer n i new_capacity fresh a ≡ ok to (record a { cells = rest })
    pub moved : (k : ℕ) → to k ≡ (if among i n k then a.cells k else fresh k)
    pub left : (k : ℕ) → rest k ≡ (if among i n k then none else a.cells k)

  transfer-step :
      (n i new_capacity : ℕ) (fresh : ℕ → Option T) (a : Array T) (v : T)
      → i < a.capacity
      → i < new_capacity
      → a.cells i ≡ some v
      → transfer (suc n) i new_capacity fresh a
        ≡ transfer n
            (suc i)
            new_capacity
            (update fresh i (some v))
            (record a { cells = update a.cells i none })
  unfolding transfer
  transfer-step n i new_capacity fresh a v lt room e =
      ground (arith, load-live i v a lt e, destroy-live i v a lt e)

  transfer-Moved :
      (n i new_capacity : ℕ) (fresh : ℕ → Option T) (a : Array T)
      → i + n ≤ a.capacity
      → i + n ≤ new_capacity
      → Live a.cells i n
      → Moved n i new_capacity fresh a
  unfolding transfer
  transfer-Moved zero i nc fresh a lt room live = record {
    to = fresh;
    rest = a.cells;
    returns = refl;
    moved = λ k. ground arith;
    left = λ k. ground arith;
  }
  transfer-Moved (suc n) i nc fresh a lt room live =
      let (v, e) = live i (omega arith) (omega arith) in
      let b : Array T = record a { cells = update a.cells i none } in
      let m =
        transfer-Moved n (suc i) nc (update fresh i (some v)) b (omega arith) (omega arith)
          (λ k lo hi. let (w, f) = live k (omega arith) (omega arith) in (w, ground (arith, f))) in
      record {
        to = m.to;
        rest = m.rest;
        returns = transfer-step n i nc fresh a v (omega arith) (omega arith) e ∙ m.returns;
        moved = λ k. ground (arith, m.moved k, e);
        left = λ k. ground (arith, m.left k);
      }

  reserve-grows :
      {a : Array T} {xs : List T} (h : Holds a xs) (n : ℕ)
      → ltb a.capacity n ≡ true
      → (t : Array T) × (reserve true n a ≡ ok tt t)
        × Holds t xs
        × (t.capacity ≡ max a.capacity n)
        × (t.lost ≡ a.lost)
  unfolding reserve
  reserve-grows {a} {xs} h n grows =
      let lt : a.capacity < n = ltb→lt _ _ grows in
      let live = Holds-Live h 0 (length xs) (omega arith) in
      let m =
        transfer-Moved a.size 0 n (λ i. none) a (omega (arith, h.fits)) (omega (arith, h.fits, lt))
          (λ k lo hi. live k lo (omega (arith, hi, h.count))) in
      (
        record {
          cells = m.to;
          size = a.size;
          capacity = n;
          lost = live_below a.capacity m.rest ++ a.lost;
        },
        rw grows (rw m.returns refl),
        record {
          count = h.count;
          fits = omega (arith, h.fits, lt);
          cells = λ k. ground (arith, m.moved k, h.cells k, h.count, get_elem?-length xs k);
        },
        omega (arith, lt),
        ap (λ (l : List T). l ++ a.lost)
            (live_below-raw a.capacity m.rest
              (λ k. ground (arith, m.left k, h.cells k, h.count, get_elem?-length xs k))),
      )

  -- With memory, `reserve` of an array with the elements `xs` returns, keeps them, drops none
  -- without its destruction, and leaves a capacity of the larger of the old one and the argument.
  pub reserve-Leaves :
      {a : Array T} {xs : List T} (h : Holds a xs) (n : ℕ)
      → (t : Array T) × (reserve true n a ≡ ok tt t)
        × Holds t xs
        × (t.capacity ≡ max a.capacity n)
        × (t.lost ≡ a.lost)
  unfolding reserve
  reserve-Leaves {a} {xs} h n = elim (Bool-cases (ltb a.capacity n)) [
    | inl grows ↦ reserve-grows h n grows
    | inr fits ↦ (a, rw fits refl, h, ground arith, refl)
  ]

  -- What `push_back` and `insert` find after the growth.
  pub make_room-Leaves :
      {a : Array T} {xs : List T} (h : Holds a xs)
      → a.capacity < 2 ^ 63
      → (t : Array T) × (make_room true a ≡ ok tt t)
        × Holds t xs
        × (t.size < t.capacity)
        × (t.capacity < 2 ^ 64)
        × (t.lost ≡ a.lost)
  unfolding make_room
  make_room-Leaves {a} {xs} h small =
      let n = if a.capacity == 0 then 1 else u64 (a.capacity * 2) in
      let (t, e, k, c, l) = reserve-Leaves h n in
      elim (Bool-cases (a.size == a.capacity)) [
        | inl full ↦ (t, rw full e, k, ground (arith, c, k.count, h.count), ground (arith, c), l)
        | inr room ↦ (a, rw room refl, h, ground (arith, h.fits), omega (arith, small), refl)
      ]
