-- ===== src/Containers/DynamicArray/Failures.antt =====
-- src/Containers/DynamicArray.hpp where the buffer cannot be allocated.
use renn.Prelude.{
  ℕ, ◌+◌, ◌*◌, ◌^◌, ◌<◌, ◌≤◌, ◌≡◌, refl, inl, inr, true, false, List, [], ltb, ◌==◌, if◌then◌else◌,
  length, max, u64, arith, Bool-cases, Bool,
}
use renn.Prelude.Effect.{ok, throws, bad_alloc}
use renn.Containers.DynamicArray.{
  Array, make_room, reserve, push_back, insert, insert_range, resize, assign, assign_range, clear,
}
use renn.Containers.DynamicArray.Contents.{Holds}
use renn.Containers.DynamicArray.Removal.{clear-Leaves}

module _ {T : Type 0} where
  reserve-fails : (a : Array T) (n : ℕ) → a.capacity < n → reserve false n a ≡ throws bad_alloc a
  unfolding reserve
  reserve-fails a n lt = ground arith

  -- What each operation does without memory: it fails or it does not need any.
  pub record FailsSafely (a : Array T) (v : T) (vs : List T) (index n : ℕ) : Type 0 where
    pub pushing :
        push_back false v a
        ≡ (if a.size == a.capacity then throws bad_alloc a else push_back true v a)
    pub inserting :
        insert false index v a
        ≡ (if a.size == a.capacity then throws bad_alloc a else insert true index v a)
    pub inserting_range : insert_range false index vs a ≡ (
        if ltb a.capacity (a.size + length vs)
        then throws bad_alloc a
        else insert_range true index vs a)
    pub resizing :
        resize false v n a ≡ (if ltb a.capacity n then throws bad_alloc a else resize true v n a)
    pub assigning :
        assign false n v a ≡ (if ltb a.capacity n then throws bad_alloc a else assign true n v a)
    pub cleared : Array T
    pub empties : (clear a ≡ ok tt cleared) × Holds cleared [] × (cleared.lost ≡ a.lost)
    pub assigning_range :
        assign_range false vs a
        ≡ (if ltb a.capacity (length vs) then throws bad_alloc cleared else assign_range true vs a)

  make_room-without :
      (a : Array T)
      → a.capacity < 2 ^ 63
      → make_room false a ≡ (if a.size == a.capacity then throws bad_alloc a else ok tt a)
  unfolding make_room
  make_room-without a small = elim (Bool-cases (a.size == a.capacity)) [
    | inl full ↦
        rw full
          (reserve-fails a (if a.capacity == 0 then 1 else u64 (a.capacity * 2)) (ground arith))
    | inr room ↦ rw room refl
  ]

  make_room-spare :
      (allocated : Bool) (a : Array T)
      → (a.size == a.capacity) ≡ false
      → make_room allocated a ≡ ok tt a
  unfolding make_room
  make_room-spare allocated a room = rw room refl

  push_back-without :
      (a : Array T) (v : T)
      → a.capacity < 2 ^ 63
      → push_back false v a
        ≡ (if a.size == a.capacity then throws bad_alloc a else push_back true v a)
  unfolding push_back
  push_back-without a v small = elim (Bool-cases (a.size == a.capacity)) [
    | inl full ↦ rw (make_room-without a small, full) refl
    | inr room ↦ rw (make_room-spare false a room, make_room-spare true a room, room) refl
  ]

  insert-without :
      (a : Array T) (index : ℕ) (v : T)
      → a.capacity < 2 ^ 63
      → index ≤ a.size
      → insert false index v a
        ≡ (if a.size == a.capacity then throws bad_alloc a else insert true index v a)
  unfolding insert
  insert-without a index v small le =
      let inside : ltb a.size index ≡ false = ground arith in
      elim (Bool-cases (a.size == a.capacity)) [
        | inl full ↦ rw (inside, make_room-without a small, full) refl
        | inr room ↦
            rw (inside, make_room-spare false a room, make_room-spare true a room, room) refl
      ]

  insert_range-without :
      (a : Array T) (index : ℕ) (vs : List T)
      → a.size + length vs < 2 ^ 64
      → index ≤ a.size
      → insert_range false index vs a ≡ (
          if ltb a.capacity (a.size + length vs)
          then throws bad_alloc a
          else insert_range true index vs a)
  unfolding insert_range
  insert_range-without a index vs small le =
      let inside : ltb a.size index ≡ false = ground arith in
      let need : u64 (a.size + length vs) ≡ a.size + length vs = omega arith in
      elim (Bool-cases (ltb a.capacity (a.size + length vs))) [
        | inl grows ↦
            let fails =
              reserve-fails a (max (u64 (a.capacity * 2)) (a.size + length vs)) (ground arith) in
            rw (inside, need, grows, fails) refl
        | inr fits ↦ rw (inside, need, fits) refl
      ]

  resize-without :
      {xs : List T} (a : Array T) (v : T) (n : ℕ)
      → Holds a xs
      → resize false v n a ≡ (if ltb a.capacity n then throws bad_alloc a else resize true v n a)
  unfolding resize
  resize-without a v n h = elim (Bool-cases (ltb a.capacity n)) [
    | inl more ↦
        let grows : ltb n a.size ≡ false = ground (arith, h.fits) in
        rw (grows, more, reserve-fails a n (ground (arith, more))) refl
    | inr fits ↦ rw fits refl
  ]

  assign-without :
      (a : Array T) (n : ℕ) (v : T)
      → assign false n v a ≡ (if ltb a.capacity n then throws bad_alloc a else assign true n v a)
  unfolding assign
  assign-without a n v = elim (Bool-cases (ltb a.capacity n)) [
    | inl more ↦ rw (more, reserve-fails a n (ground (arith, more))) refl
    | inr fits ↦ rw fits refl
  ]

  assign_range-without :
      (a t : Array T) (vs : List T)
      → clear a ≡ ok tt t
      → t.capacity ≡ a.capacity
      → assign_range false vs a
        ≡ (if ltb a.capacity (length vs) then throws bad_alloc t else assign_range true vs a)
  unfolding assign_range
  assign_range-without a t vs run c = elim (Bool-cases (ltb a.capacity (length vs))) [
    | inl more ↦
        let grows : ltb t.capacity (length vs) ≡ true = ground (arith, c, more) in
        rw (run, grows, more, reserve-fails t (length vs) (ground (arith, c, more))) refl
    | inr fits ↦
        let spare : ltb t.capacity (length vs) ≡ false = ground (arith, c, fits) in
        rw (run, spare, fits) refl
  ]

  -- Let an array hold elements, with a capacity below 2^63, an index up to the size, and a range with
  -- which the new size is below 2^64. Without memory, `push_back`, `insert` of a value and of a range
  -- at the index, `resize` and `assign(n, value)` throw `bad_alloc` and leave the array as it was
  -- exactly where they must have a new buffer, and do elsewhere what they do with memory; so does
  -- `assign` of a range, but where it throws the elements are gone, each with its destruction.
  pub bad_alloc-FailsSafely :
      {xs : List T} (a : Array T) (v : T) (vs : List T) (index n : ℕ)
      → Holds a xs
      → a.capacity < 2 ^ 63
      → index ≤ a.size
      → a.size + length vs < 2 ^ 64
      → FailsSafely a v vs index n
  bad_alloc-FailsSafely a v vs index n h small le few =
      let (t, run, k, c, l) = clear-Leaves h in
      record {
        pushing = push_back-without a v small;
        inserting = insert-without a index v small le;
        inserting_range = insert_range-without a index vs few le;
        resizing = resize-without a v n h;
        assigning = assign-without a n v;
        cleared = t;
        empties = (run, k, l);
        assigning_range = assign_range-without a t vs run c;
      }
