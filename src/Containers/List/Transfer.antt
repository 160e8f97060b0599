-- ===== src/Containers/List/Transfer.antt =====
-- src/Containers/List.hpp: the operations that take another list, which is on the same heap.
pub mod Loop
pub mod Fresh
pub mod Copies
pub mod Moves
pub mod Comparison
mod Tests
use renn.Prelude.{
  update, ℕ, zero, suc, Bool, true, false, Option, none, some, List, [], ◌∷◌, ◌==◌, if◌then◌else◌,
}
use renn.Prelude.Effect.{
  Run, ok, throws, fault, State, pure, get, put, ◌>>=◌, ◌>>◌, bad_alloc, no_return,
}
use renn.Containers.List.{
  Heap, Store, Iter, iter, changed, construct, new_list, deref, increment, push_back, clear,
  load_next, begin,
}

module _ {ℓ} {T : Type ℓ} where
  -- The loop of the copies, up to the sentinel `source` of the other list.
  unfoldable pub copy_loop :
      (memory : ℕ → Option ℕ) (source fuel i : ℕ) → Iter → State (Store T) (Unit {0})
  unfolding deref increment push_back
  copy_loop memory source zero i it s = fault no_return
  copy_loop memory source (suc fuel) i it s = elim (it.node == source) [
    | true ↦ ok tt s
    | false ↦
        (do
          v ← deref it
          _ ← push_back (memory i) v
          following ← increment it
          copy_loop memory source fuel (suc i) following)
          s
  ]

  -- The elements of another list behind those of this one: what both copies do. An element goes over
  -- in each round.
  unfoldable pub copy_from :
      (memory : ℕ → Option ℕ) → (other : Store T) → State (Store T) (Unit {0})
  unfolding copy_loop
  copy_from memory other = do
    first ← load_next other.head
    copy_loop memory other.head (suc other.size) 0 (iter first)

  -- `~List()`
  unfoldable pub destruct : State (Store T) (Unit {0})
  unfolding clear
  destruct = do
    clear
    s ← get
    changed s.head (λ h. record h { alive = update h.alive s.head false })

  -- The copy constructor: the state is the other list before, and the new list after it. Where a
  -- push throws, the destructor of the new list runs.
  unfoldable pub copy_construct :
      (sentinel : Option ℕ) → (memory : ℕ → Option ℕ) → State (Store T) (Unit {0})
  unfolding copy_from destruct new_list
  copy_construct none memory other = throws bad_alloc other
  copy_construct (some p) memory other = elim (copy_from memory other (new_list p other.heap)) [
    | ok _ s ↦ ok tt s
    | throws e s ↦ (do destruct; t ← get; put (record other { heap = t.heap }); λ u. throws e u) s
    | fault f ↦ fault f
  ]

  -- Copy assignment from another list.
  unfoldable pub copy_assign :
      (memory : ℕ → Option ℕ) → (other : Store T) → State (Store T) (Unit {0})
  unfolding clear copy_from
  copy_assign memory other = do clear; copy_from memory other

  -- The move constructor, with the address of the sentinel that the other list gets: the new list and
  -- the other.
  unfoldable pub move_construct : ℕ → Store T → Store T × Store T
  unfolding new_list
  move_construct p other =
      let left = new_list p other.heap in (record other { heap = left.heap }, left)

  -- Move assignment from another list: this list and the other.
  unfoldable pub move_assign : ℕ → (other : Store T) → State (Store T) (Store T)
  unfolding destruct move_construct
  move_assign p other = do
    destruct
    s ← get
    moved ← pure (move_construct p (record other { heap = s.heap }))
    put moved.0
    pure moved.1

  -- The loop of `operator!=`, over the elements of both lists.
  unfoldable pub differ_loop :
      (differ : T → T → Bool) (fuel : ℕ) → (one two : Iter) → State (Store T) Bool
  unfolding deref increment
  differ_loop differ zero one two s = fault no_return
  differ_loop differ (suc fuel) one two s = elim (one.node == s.head) [
    | true ↦ ok false s
    | false ↦
        (do
          v ← deref one
          w ← deref two
          elim (differ v w) [
            | true ↦ pure true
            | false ↦ (do a ← increment one; b ← increment two; differ_loop differ fuel a b)
          ])
          s
  ]

  -- `operator!=`
  unfoldable pub is_unequal : (differ : T → T → Bool) → (other : Store T) → State (Store T) Bool
  unfolding differ_loop begin
  is_unequal differ other s =
      if s.size == other.size
      then (do a ← begin; b ← load_next other.head; differ_loop differ (suc s.size) a (iter b)) s
      else ok true s
