-- ===== src/Containers/DynamicArray/Capacity.antt =====
-- Which operations of src/Containers/DynamicArray.hpp change the capacity, and to what.
use renn.Prelude.{
  ℕ, zero, suc, ◌+◌, ◌-◌, ◌*◌, ◌^◌, ◌<◌, ◌≡◌, refl, sym, ap, ◌∙◌, true, false, if◌then◌else◌, ltb,
  leb, ◌==◌, max, u64, arith, Bool-cases, inl, inr, List,
}
use renn.Prelude.Effect.{Run, ok, throws, fault, State, get, pure, and_then, ◌>>=◌, ◌>>◌}
use renn.Containers.DynamicArray.{
  Array, construct, destroy, load, set_size, shift_up, shift_down, destroy_from, fill_from,
  make_room, reserve, push_back, insert, pop_back, erase_at_index, resize,
}
use renn.Containers.DynamicArray.Contents.{Holds}
use renn.Containers.DynamicArray.Reserve.{reserve-Leaves}

-- The capacity behind `push_back` and `insert`.
abbrev pub grown : (size capacity : ℕ) → ℕ
grown size capacity =
    if size == capacity then (if capacity == 0 then 1 else capacity * 2) else capacity

module _ {T : Type 0} where
  -- A call that returns leaves the capacity.
  abbrev pub Keeps : {A : Type 0} → State (Array T) A → Type 0
  Keeps {A} m = (a t : Array T) (x : A) → m a ≡ ok x t → t.capacity ≡ a.capacity

  and_then-Keeps :
      {A B : Type 0} (r : Run (Array T) A) (f : A → State (Array T) B) (c : ℕ) (t : Array T) (y : B)
      → ((x : A) (b : Array T) → r ≡ ok x b → b.capacity ≡ c)
      → ((x : A) → Keeps (f x))
      → and_then r f ≡ ok y t
      → t.capacity ≡ c
  and_then-Keeps (ok x b) f c t y h k e = k x b t y e ∙ h x b refl
  and_then-Keeps (throws d b) f c t y h k e = absurd (cc)
  and_then-Keeps (fault d) f c t y h k e = absurd (cc)

  bind-Keeps :
      {A B : Type 0} (m : State (Array T) A) (f : A → State (Array T) B)
      → Keeps m
      → ((x : A) → Keeps (f x))
      → Keeps (m >>= f)
  bind-Keeps m f h k a t y e = and_then-Keeps (m a) f a.capacity t y (λ x b. h a b x) k e

  construct-Keeps : (i : ℕ) (v : T) → Keeps (construct i v)
  unfolding construct
  construct-Keeps i v a t x e = ground (arith, e)

  destroy-Keeps : (i : ℕ) → Keeps (destroy i)
  unfolding destroy
  destroy-Keeps i a t x e = ground (arith, e)

  load-Keeps : (i : ℕ) → Keeps (load i)
  unfolding load
  load-Keeps i a t x e = ground (arith, e)

  set_size-Keeps : (n : ℕ) → Keeps (set_size n)
  set_size-Keeps n a t x e = ground (arith, e)

  get-Keeps : Keeps get
  get-Keeps a t x e = ground (arith, e)

  then-Keeps :
      {B : Type 0} (m : State (Array T) (Unit {0})) (n : State (Array T) B)
      → Keeps m
      → Keeps n
      → Keeps (m >> n)
  then-Keeps m n h k = bind-Keeps m (λ _. n) h (λ _. k)

  -- One round of a loop: an element moves from the cell `i` to the cell `j`.
  abbrev moving : (i j : ℕ) → State (Array T) (Unit {0}) → State (Array T) (Unit {0})
  moving i j rest = load i >>= λ v. construct j v >> (destroy i >> rest)

  moving-Keeps :
      (i j : ℕ) (rest : State (Array T) (Unit {0})) → Keeps rest → Keeps (moving i j rest)
  moving-Keeps i j rest h =
      bind-Keeps (load i) (λ v. construct j v >> (destroy i >> rest)) (load-Keeps i)
        (λ v.
          then-Keeps (construct j v) (destroy i >> rest) (construct-Keeps j v)
            (then-Keeps (destroy i) rest (destroy-Keeps i) h))

  shift_up-Keeps : (i index : ℕ) → Keeps (shift_up {T = T} i index)
  unfolding shift_up
  shift_up-Keeps zero index a t x e = ground (arith, e)
  shift_up-Keeps (suc i) index a t x e = elim (Bool-cases (ltb index (suc i))) [
    | inl goes ↦
        let round : shift_up (suc i) index a ≡ moving i (suc i) (shift_up i index) a =
          simp (shift_up, goes) refl in
        moving-Keeps i (suc i) (shift_up i index) (shift_up-Keeps i index) a t x (sym round ∙ e)
    | inr stops ↦
        let round : shift_up (suc i) index a ≡ ok tt a = simp (shift_up, stops) refl in
        ground (arith, sym round ∙ e)
  ]

  shift_down-Keeps : (n i : ℕ) → Keeps (shift_down {T = T} n i)
  unfolding shift_down
  shift_down-Keeps zero i a t x e = ground (arith, e)
  shift_down-Keeps (suc n) i a t x e =
      moving-Keeps (suc i) i (shift_down n (suc i)) (shift_down-Keeps n (suc i)) a t x e

  destroy_from-Keeps : (n i : ℕ) → Keeps (destroy_from {T = T} n i)
  unfolding destroy_from
  destroy_from-Keeps zero i a t x e = ground (arith, e)
  destroy_from-Keeps (suc n) i a t x e =
      then-Keeps (destroy i) (destroy_from n (suc i)) (destroy-Keeps i)
        (destroy_from-Keeps n (suc i)) a t x e

  fill_from-Keeps : (n i : ℕ) (v : T) → Keeps (fill_from n i v)
  unfolding fill_from
  fill_from-Keeps zero i v a t x e = ground (arith, e)
  fill_from-Keeps (suc n) i v a t x e =
      then-Keeps (construct i v) (fill_from n (suc i) v) (construct-Keeps i v)
        (fill_from-Keeps n (suc i) v) a t x e

  -- Two answers of one call.
  same_answer :
      {A : Type 0} {r : Run (Array T) A} {x y : A} {t u : Array T} → r ≡ ok x t → r ≡ ok y u → t ≡ u
  same_answer e f = cc

  make_room-capacity :
      (a m : Array T) (x : Unit {0}) (xs : List T)
      → Holds a xs
      → a.capacity < 2 ^ 63
      → make_room true a ≡ ok x m
      → m.capacity ≡ grown a.size a.capacity
  unfolding make_room
  make_room-capacity a m x xs h small e = elim (Bool-cases (a.size == a.capacity)) [
    | inl full ↦
        let (t, r, k, c, l) =
          reserve-Leaves h (if a.capacity == 0 then 1 else u64 (a.capacity * 2)) in
        let room : make_room true a ≡ ok tt t = rw full r in
        ground (arith, ap (λ (b : Array T). b.capacity) (same_answer e room), c, full)
    | inr room ↦
        let stays : make_room true a ≡ ok tt a = rw room refl in
        ground (arith, ap (λ (b : Array T). b.capacity) (same_answer e stays), room)
  ]

  pub push_back-capacity :
      (a t : Array T) (x : Unit {0}) (xs : List T) (v : T)
      → Holds a xs
      → a.capacity < 2 ^ 63
      → push_back true v a ≡ ok x t
      → t.capacity ≡ grown a.size a.capacity
  unfolding push_back
  push_back-capacity a t x xs v h small e =
      let last : Array T → State (Array T) (Unit {0}) =
        λ b. construct b.size v >> set_size (u64 (b.size + 1)) in
      and_then-Keeps (make_room true a) (λ _. get >>= last) (grown a.size a.capacity) t x
        (λ y m r. make_room-capacity a m y xs h small r)
        (λ _. bind-Keeps get last get-Keeps (λ b.
          then-Keeps (construct b.size v) (set_size (u64 (b.size + 1))) (construct-Keeps b.size v)
            (set_size-Keeps (u64 (b.size + 1)))))
        e

  pub insert-capacity :
      (a t : Array T) (x : Unit {0}) (xs : List T) (index : ℕ) (v : T)
      → Holds a xs
      → a.capacity < 2 ^ 63
      → ltb a.size index ≡ false
      → insert true index v a ≡ ok x t
      → t.capacity ≡ grown a.size a.capacity
  unfolding insert
  insert-capacity a t x xs index v h small inside e =
      let counted : Array T → State (Array T) (Unit {0}) = λ c. set_size (u64 (c.size + 1)) in
      let placed : State (Array T) (Unit {0}) = construct index v >> (get >>= counted) in
      let moved : Array T → State (Array T) (Unit {0}) = λ b. shift_up b.size index >> placed in
      let keeps_placed : Keeps placed =
        then-Keeps (construct index v) (get >>= counted) (construct-Keeps index v)
          (bind-Keeps get counted get-Keeps (λ c. set_size-Keeps (u64 (c.size + 1)))) in
      and_then-Keeps (make_room true a) (λ _. get >>= moved) (grown a.size a.capacity) t x
        (λ y m r. make_room-capacity a m y xs h small r)
        (λ _. bind-Keeps get moved get-Keeps (λ b.
          then-Keeps (shift_up b.size index) placed (shift_up-Keeps b.size index) keeps_placed))
        (rw inside at e)

  pub pop_back-Keeps : Keeps (pop_back {T = T})
  unfolding pop_back
  pop_back-Keeps a t x e = elim (Bool-cases (ltb 0 a.size)) [
    | inl full ↦
        then-Keeps (set_size (a.size - 1)) (destroy (a.size - 1)) (set_size-Keeps (a.size - 1))
          (destroy-Keeps (a.size - 1)) a t x (rw full at e)
    | inr stops ↦ ground (arith, e, stops)
  ]

  pub erase_at_index-Keeps : (index : ℕ) → Keeps (erase_at_index {T = T} index)
  unfolding erase_at_index
  erase_at_index-Keeps index a t x e = elim (Bool-cases (leb a.size index)) [
    | inl outside ↦ absurd (ground (arith, e, outside))
    | inr inside ↦
        let n = a.size - 1 - index in
        let rest : State (Array T) (Unit {0}) = shift_down n index >> set_size (a.size - 1) in
        then-Keeps (destroy index) rest (destroy-Keeps index)
          (then-Keeps (shift_down n index) (set_size (a.size - 1)) (shift_down-Keeps n index)
            (set_size-Keeps (a.size - 1)))
          a t x (rw inside at e)
  ]

  reserved-capacity :
      (a m : Array T) (x : Unit {0}) (xs : List T) (n : ℕ)
      → Holds a xs
      → (if ltb a.capacity n then reserve true n else pure tt) a ≡ ok x m
      → m.capacity ≡ max a.capacity n
  reserved-capacity a m x xs n h e = elim (Bool-cases (ltb a.capacity n)) [
    | inl grows ↦
        let (t, r, k, c, l) = reserve-Leaves h n in
        let run : reserve true n a ≡ ok x m = rw grows at e in
        ap (λ (b : Array T). b.capacity) (same_answer run r) ∙ c
    | inr fits ↦ ground (arith, fits, e)
  ]

  pub resize-capacity :
      (a t : Array T) (x : Unit {0}) (xs : List T) (d : T) (n : ℕ)
      → Holds a xs
      → resize true d n a ≡ ok x t
      → t.capacity ≡ (if ltb n a.size then a.capacity else max a.capacity n)
  unfolding resize
  resize-capacity a t x xs d n h e = elim (Bool-cases (ltb n a.size)) [
    | inl shrinks ↦ rw shrinks (
        then-Keeps (destroy_from (a.size - n) n) (set_size n) (destroy_from-Keeps (a.size - n) n)
          (set_size-Keeps n) a t x (rw shrinks at e))
    | inr grows ↦
        let room : State (Array T) (Unit {0}) =
          if ltb a.capacity n then reserve true n else pure tt in
        let filled : State (Array T) (Unit {0}) = fill_from (n - a.size) a.size d in
        rw grows (
          and_then-Keeps (and_then (room a) (λ _. filled)) (λ _. set_size n) (max a.capacity n) t x
            (λ y m r.
              and_then-Keeps (room a) (λ _. filled) (max a.capacity n) m y
                (λ z b s. reserved-capacity a b z xs n h s)
                (λ _. fill_from-Keeps (n - a.size) a.size d) r)
            (λ _. set_size-Keeps n) (rw grows at e))
  ]
