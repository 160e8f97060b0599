-- ===== src/Containers/DynamicArray/Positions.antt =====
-- src/Containers/DynamicArray.hpp: the ends, and the operations at an iterator, which is the index of
-- an element here: it is valid until the buffer moves.
pub mod Ends
pub mod Agreement
use renn.Prelude.{
  ℕ, zero, suc, ◌+◌, ◌-◌, ◌*◌, ◌^◌, max, Bool, true, false, List, ltb, leb, ◌&&◌, if◌then◌else◌,
  u64, length,
}
use renn.Prelude.Effect.{Run, ok, fault, State, pure, get, ◌>>=◌, ◌>>◌, no_return}
use renn.Containers.DynamicArray.{
  Array, construct, destroy, load, reserve, insert, construct_all, erase_at_index, set_size,
}

module _ {ℓ} {T : Type ℓ} where
  unfoldable pub front : State (Array T) T
  unfolding load
  front = load 0

  -- `data_[size_ - 1]`, with an index that wraps around.
  unfoldable pub back : State (Array T) T
  unfolding load
  back a = load (u64 (a.size + 2 ^ 64 - 1)) a

  -- `insert(pos, value)`
  unfoldable pub insert_before : (allocated : Bool) → (pos : ℕ) → T → State (Array T) ℕ
  unfolding insert
  insert_before allocated pos v = insert allocated pos v >> pure pos

  -- `erase(pos)`
  unfoldable pub erase_at : (pos : ℕ) → State (Array T) ℕ
  unfolding erase_at_index
  erase_at pos = erase_at_index pos >> pure pos

  -- The loop of `insert(position, first, last)`, which ends where `i` wraps around below 0.
  unfoldable pub shift_within : (fuel i index count limit : ℕ) → State (Array T) (Unit {0})
  unfolding load construct destroy
  shift_within zero i index count limit a = fault no_return
  shift_within (suc fuel) i index count limit a =
      elim (leb (u64 (index + count)) i && ltb i limit) [
        | true ↦
            (do
              v ← load (i - count)
              construct i v
              destroy (i - count)
              shift_within fuel (u64 (i + 2 ^ 64 - 1)) index count limit)
              a
        | false ↦ ok tt a
      ]

  -- `insert(position, first, last)`
  unfoldable pub insert_range_before : (allocated : Bool) → (pos : ℕ) → List T → State (Array T) ℕ
  unfolding reserve shift_within construct_all
  insert_range_before allocated pos vs a =
      (do
        (if ltb a.capacity (u64 (a.size + length vs))
            then reserve allocated (max (u64 (a.capacity * 2)) (u64 (a.size + length vs)))
            else pure tt)
        shift_within (suc (suc a.size)) (u64 (a.size + length vs + 2 ^ 64 - 1)) pos (length vs)
            (u64 (a.size + length vs))
        construct_all pos vs
        b ← get
        set_size (u64 (b.size + length vs))
        pure pos)
        a
