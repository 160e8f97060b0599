-- ===== src/Containers/DynamicArray.antt =====
-- src/Containers/DynamicArray.hpp: a vector. A buffer is its cells: a raw cell is `none`, and an
-- access to a raw cell or past the capacity is a fault. The allocator's answer is an argument.
pub mod Contents
pub mod Reserve
pub mod Insertion
pub mod Removal
pub mod Resize
pub mod Assign
pub mod EmptyRange
pub mod EraseValue
pub mod Owners
pub mod Positions
pub mod Capacity
pub mod Failures
pub mod Session
pub mod Spacing
pub mod RangeInsertion
mod Tests
use renn.Prelude.{
  update, ℕ, zero, suc, ◌+◌, ◌-◌, ◌*◌, ◌^◌, max, Bool, true, false, Option, none, some, List, [],
  ◌∷◌, ◌++◌, ltb, leb, ◌==◌, ◌&&◌, if◌then◌else◌, u64, length,
}
use renn.Prelude.Effect.{
  Run, ok, throws, fault, State, pure, undefined, throw, get, put, ◌>>=◌, ◌>>◌, bad_alloc,
  out_of_range, dangling, out_of_bounds, no_return,
}

-- `lost` is not in the code: it records the values whose cells were constructed anew or freed
-- without their destruction.
pub record Array {ℓ} (T : Type ℓ) : Type ℓ where
  pub cells : ℕ → Option T
  pub size : ℕ
  pub capacity : ℕ
  pub lost : List T

module _ {ℓ} {T : Type ℓ} where
  -- `construct(allocator_, data_ + i, v)`.
  unfoldable pub construct : ℕ → T → State (Array T) (Unit {0})
  construct i v a =
      if ltb i a.capacity
      then elim (a.cells i) [
        | none ↦ ok tt (record a { cells = update a.cells i (some v) })
        | some old ↦ ok tt (record a { cells = update a.cells i (some v); lost = old ∷ a.lost })
      ]
      else fault out_of_bounds

  unfoldable pub destroy : ℕ → State (Array T) (Unit {0})
  destroy i a =
      if ltb i a.capacity
      then elim (a.cells i) [
        | none ↦ fault dangling
        | some old ↦ ok tt (record a { cells = update a.cells i none })
      ]
      else fault out_of_bounds

  -- `data_[i]`, also as `operator[]`.
  unfoldable pub load : ℕ → State (Array T) T
  load i a =
      if ltb i a.capacity
      then elim (a.cells i) [ none ↦ fault dangling | some v ↦ ok v a ]
      else fault out_of_bounds

  abbrev pub set_size : ℕ → State (Array T) (Unit {0})
  set_size n a = ok tt (record a { size = n })

  unfoldable pub empty_array : Array T
  empty_array = record { cells = λ i. none; size = 0; capacity = 0; lost = [] }

  -- The loop of `reserve` over `n` elements from `i` on, into the cells `fresh` of the new buffer.
  unfoldable pub transfer : (n i new_capacity : ℕ) → (ℕ → Option T) → State (Array T) (ℕ → Option T)
  unfolding load destroy
  transfer zero i new_capacity fresh a = ok fresh a
  transfer (suc n) i new_capacity fresh a =
      (do
        v ← load i
        destroy i
        if ltb i new_capacity
            then transfer n (suc i) new_capacity (update fresh i (some v))
            else undefined out_of_bounds)
        a

  -- The values that are live in the cells below `n`.
  abbrev pub live_below : ℕ → (ℕ → Option T) → List T
  live_below zero cells = []
  live_below (suc n) cells = elim (cells n) [
    | none ↦ live_below n cells
    | some v ↦ v ∷ live_below n cells
  ]

  unfoldable pub reserve : (allocated : Bool) → ℕ → State (Array T) (Unit {0})
  unfolding transfer
  reserve allocated new_capacity a =
      if ltb a.capacity new_capacity
      then (if allocated
          then (do
            fresh ← transfer a.size 0 new_capacity (λ i. none)
            b ← get
            put (record {
              cells = fresh;
              size = b.size;
              capacity = new_capacity;
              lost = live_below b.capacity b.cells ++ b.lost;
            }))
              a
          else throws bad_alloc a)
      else ok tt a

  -- The growth of `push_back`, `emplace_back` and `insert`.
  unfoldable pub make_room : Bool → State (Array T) (Unit {0})
  unfolding reserve
  make_room allocated a =
      if a.size == a.capacity
      then reserve allocated (if a.capacity == 0 then 1 else u64 (a.capacity * 2)) a
      else ok tt a

  unfoldable pub push_back : Bool → T → State (Array T) (Unit {0})
  unfolding make_room construct
  push_back allocated v = do
    make_room allocated
    a ← get
    construct a.size v
    set_size (u64 (a.size + 1))

  -- The loop of `insert(index, value)`.
  unfoldable pub shift_up : (i index : ℕ) → State (Array T) (Unit {0})
  unfolding load construct destroy
  shift_up zero index a = ok tt a
  shift_up (suc i) index a = elim (ltb index (suc i)) [
    | true ↦ (do v ← load i; construct (suc i) v; destroy i; shift_up i index) a
    | false ↦ ok tt a
  ]

  unfoldable pub insert : Bool → (index : ℕ) → T → State (Array T) (Unit {0})
  unfolding make_room shift_up construct
  insert allocated index v a =
      if ltb a.size index
      then throws out_of_range a
      else (do
        make_room allocated
        b ← get
        shift_up b.size index
        construct index v
        c ← get
        set_size (u64 (c.size + 1)))
          a

  -- The loop of `insert(index, first, last)`; `i` wraps around below 0.
  unfoldable pub shift_by : (fuel i index count : ℕ) → State (Array T) (Unit {0})
  unfolding load construct destroy
  shift_by zero i index count a = fault no_return
  shift_by (suc fuel) i index count a = elim (leb (u64 (index + count)) i) [
    | true ↦
        (do
          v ← load (i - count)
          construct i v
          destroy (i - count)
          shift_by fuel (u64 (i + 2 ^ 64 - 1)) index count)
          a
    | false ↦ ok tt a
  ]

  unfoldable pub construct_all : ℕ → List T → State (Array T) (Unit {0})
  unfolding construct
  construct_all i [] a = ok tt a
  construct_all i (v ∷ vs) a = (do construct i v; construct_all (suc i) vs) a

  -- As many rounds as there are elements, and one more for the test.
  unfoldable pub insert_range : Bool → (index : ℕ) → List T → State (Array T) (Unit {0})
  unfolding reserve shift_by construct_all
  insert_range allocated index vs a =
      if ltb a.size index
      then throws out_of_range a
      else (do
        (if ltb a.capacity (u64 (a.size + length vs))
            then reserve allocated (max (u64 (a.capacity * 2)) (u64 (a.size + length vs)))
            else pure tt)
        shift_by (suc (suc a.size)) (u64 (a.size + length vs + 2 ^ 64 - 1)) index (length vs)
        construct_all index vs
        b ← get
        set_size (u64 (b.size + length vs)))
          a

  unfoldable pub pop_back : State (Array T) (Unit {0})
  unfolding destroy
  pop_back a = if ltb 0 a.size then (do set_size (a.size - 1); destroy (a.size - 1)) a else ok tt a

  -- The loop of `erase_at_index` over `n` elements.
  unfoldable pub shift_down : (n i : ℕ) → State (Array T) (Unit {0})
  unfolding load construct destroy
  shift_down zero i a = ok tt a
  shift_down (suc n) i a =
      (do v ← load (suc i); construct i v; destroy (suc i); shift_down n (suc i)) a

  unfoldable pub erase_at_index : ℕ → State (Array T) (Unit {0})
  unfolding destroy shift_down
  erase_at_index index a =
      if leb a.size index
      then throws out_of_range a
      else (do destroy index; shift_down (a.size - 1 - index) index; set_size (a.size - 1)) a

  -- `erase(value)`.
  unfoldable pub erase_value_loop :
      (eq : T → T → Bool) → T → (fuel i : ℕ) → State (Array T) (Unit {0})
  unfolding load destroy shift_down
  erase_value_loop eq v zero i a = fault no_return
  erase_value_loop eq v (suc fuel) i a = elim (ltb i a.size) [
    | true ↦
        (do
          w ← load i
          found ← pure (eq w v)
          (if found
              then (do destroy i; shift_down (a.size - 1 - i) i; set_size (a.size - 1))
              else pure tt)
          erase_value_loop eq v fuel (if found then i else suc i))
          a
    | false ↦ ok tt a
  ]

  unfoldable pub erase_value : (eq : T → T → Bool) → T → State (Array T) (Unit {0})
  unfolding erase_value_loop
  erase_value eq v a = erase_value_loop eq v (suc a.size) 0 a

  -- The loops that destroy or construct `n` elements from `i` on.
  unfoldable pub destroy_from : (n i : ℕ) → State (Array T) (Unit {0})
  unfolding destroy
  destroy_from zero i a = ok tt a
  destroy_from (suc n) i a = (do destroy i; destroy_from n (suc i)) a

  unfoldable pub fill_from : (n i : ℕ) → T → State (Array T) (Unit {0})
  unfolding construct
  fill_from zero i v a = ok tt a
  fill_from (suc n) i v a = (do construct i v; fill_from n (suc i) v) a

  unfoldable pub resize : Bool → (default : T) → ℕ → State (Array T) (Unit {0})
  unfolding destroy_from fill_from reserve
  resize allocated default new_size a =
      (do
        (if ltb new_size a.size then destroy_from (a.size - new_size) new_size else (do
          (if ltb a.capacity new_size then reserve allocated new_size else pure tt)
          fill_from (new_size - a.size) a.size default))
        set_size new_size)
        a

  unfoldable pub clear : State (Array T) (Unit {0})
  unfolding destroy_from
  clear a = (do destroy_from a.size 0; set_size 0) a

  -- `assign(n, value)`: the elements are constructed over what is there.
  unfoldable pub assign : Bool → ℕ → T → State (Array T) (Unit {0})
  unfolding fill_from reserve
  assign allocated n v a =
      (do (if ltb a.capacity n then reserve allocated n else pure tt); fill_from n 0 v; set_size n)
        a

  unfoldable pub assign_range : Bool → List T → State (Array T) (Unit {0})
  unfolding clear reserve construct_all
  assign_range allocated vs = do
    clear
    a ← get
    (if ltb a.capacity (length vs) then reserve allocated (length vs) else pure tt)
    construct_all 0 vs
    set_size (length vs)

  unfoldable pub at : ℕ → State (Array T) T
  unfolding load
  at index a = if leb a.size index then throws out_of_range a else load index a
