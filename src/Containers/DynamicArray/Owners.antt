-- ===== src/Containers/DynamicArray/Owners.antt =====
-- src/Containers/DynamicArray.hpp: constructors and assignments. A copy reads another array, which it
-- leaves as it was.
pub mod Copies
pub mod Filled
use renn.Prelude.{
  ℕ, zero, suc, ◌-◌, ◌^◌, ◌/◌, Bool, none, some, List, [], ◌++◌, Option, ltb, if◌then◌else◌,
}
use renn.Prelude.Effect.{Run, ok, throws, fault, State, get, put, ◌>>=◌, ◌>>◌, bad_alloc}
use renn.Containers.DynamicArray.{Array, construct, load, fill_from, live_below, clear}

-- What an assignment leaves: `none` is an array whose buffer is freed and not replaced.
abbrev pub Owner {ℓ} : Type ℓ → Type ℓ
Owner T = Option (Array T)

module _ {ℓ} {T : Type ℓ} where
  -- A buffer of `n` raw cells, as the constructors leave the members.
  unfoldable pub fresh_array : (size capacity : ℕ) → Array T
  fresh_array size capacity = record {
    cells = λ i. none;
    size = size;
    capacity = capacity;
    lost = [];
  }

  -- The constructor of `n` default elements of `width` bytes.
  unfoldable pub sized :
      (allocated : Bool) → (width : ℕ) → (default : T) → ℕ → State (Array T) (Unit {0})
  unfolding fill_from fresh_array
  sized allocated width default n a =
      if ltb ((2 ^ 64 - 1) / width) n
      then throws bad_alloc a
      else if allocated
      then fill_from n 0 default (fresh_array n n)
      else throws bad_alloc a

  -- The constructor of `n` copies of a value.
  unfoldable pub filled : (allocated : Bool) → ℕ → T → State (Array T) (Unit {0})
  unfolding fill_from fresh_array
  filled allocated n v a =
      if allocated then fill_from n 0 v (fresh_array n n) else throws bad_alloc a

  -- The destructor: the buffer is freed with what is still live in it.
  unfoldable pub destruct : State (Array T) (Unit {0})
  unfolding clear
  destruct = do
    clear
    a ← get
    put (record {
      cells = λ i. none;
      size = a.size;
      capacity = 0;
      lost = live_below a.capacity a.cells ++ a.lost;
    })

  -- The loop of the copies over `n` elements of `other` from `i` on.
  unfoldable pub copy_from : (n i : ℕ) → (other : Array T) → State (Array T) (Unit {0})
  unfolding construct load
  copy_from zero i other a = ok tt a
  copy_from (suc n) i other a = elim (load i other) [
    | ok v _ ↦ (do construct i v; copy_from n (suc i) other) a
    | throws e _ ↦ throws e a
    | fault f ↦ fault f
  ]

  -- The copy constructor.
  unfoldable pub copy_construct :
      (allocated : Bool) → (other : Array T) → State (Array T) (Unit {0})
  unfolding copy_from fresh_array
  copy_construct allocated other a =
      if allocated
      then copy_from other.size 0 other (fresh_array other.size other.capacity)
      else throws bad_alloc a

  -- The buffer of `a` goes, with the values in it.
  abbrev pub dropped : Array T → List T
  dropped a = live_below a.capacity a.cells ++ a.lost

  abbrev pub owns : Run (Array T) (Unit {0}) → Run (Owner T) (Unit {0})
  owns (ok u a) = ok u (some a)
  owns (throws e a) = throws e (some a)
  owns (fault f) = fault f

  -- Copy assignment from another array.
  unfoldable pub copy_assign :
      (allocated : Bool) → (other : Array T) → Array T → Run (Owner T) (Unit {0})
  unfolding clear copy_from
  copy_assign allocated other a = elim (clear a) [
    | ok _ b ↦
        if ltb b.capacity other.size
        then (if allocated
            then owns (
                copy_from other.size 0 other (record {
                  cells = λ i. none;
                  size = other.size;
                  capacity = other.capacity;
                  lost = dropped b;
                }))
            else throws bad_alloc none)
        else owns (copy_from other.size 0 other (record b { size = other.size }))
    | throws e b ↦ throws e (some b)
    | fault f ↦ fault f
  ]

  -- The move constructor: the new array, and what is left of the old one.
  unfoldable pub move_construct : State (Array T) (Array T)
  move_construct other =
      ok other (record other { cells = λ i. none; size = 0; capacity = 0; lost = [] })

  -- Move assignment from another array; the state is the other array.
  unfoldable pub move_assign : Array T → State (Array T) (Array T)
  unfolding clear
  move_assign a other = elim (clear a) [
    | ok _ b ↦
        ok (record other { lost = dropped b ++ other.lost })
          (record other { cells = λ i. none; size = 0; capacity = 0; lost = [] })
    | throws e b ↦ throws e other
    | fault f ↦ fault f
  ]
