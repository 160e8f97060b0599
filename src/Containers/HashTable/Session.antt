-- ===== src/Containers/HashTable/Session.antt =====
-- What a client of src/Containers/HashTable/HashTable.hpp calls and sees, one call after the other.
pub mod Dictionary
pub mod Refinement
pub mod Order
mod Tests
use renn.Prelude.{ℕ, Bool, true, none, some, List, [], ◌∷◌, ◌==◌}
use renn.Prelude.Effect.{Run, ok, throws, fault, State, pure, get, ◌>>=◌, ◌>>◌, Exception}
use renn.Containers.Nodes.{Nodes}
use renn.Containers.HashTable.Key.{KeyTraits}
use renn.Containers.HashTable.{Table, HashNode, Memory, emplace, erase, contains, clear}
use renn.Containers.HashTable.Access.{subscript, checked_at, try_emplace}

pub data Call {ℓ} (K V : Type ℓ) : Type ℓ where
  emplaces : K → V → Call K V
  tries : K → V → Call K V
  subscripts : K → (default : V) → Call K V
  reads : K → Call K V
  tests : K → Call K V
  erases : K → Call K V
  clears : Call K V
  counts : Call K V
  tests_empty : Call K V

-- What a call returns or throws, without the iterators.
pub data Reply {ℓ} (V : Type ℓ) : Type ℓ where
  inserted : Bool → Reply V
  value : V → Reply V
  thrown : Exception → Reply V
  answer : Bool → Reply V
  count : ℕ → Reply V
  finished : Reply V

module _ {ℓ} {K V : Type ℓ} where
  -- `empty()`
  unfoldable pub empty : State (Table K V) Bool
  empty t = ok (t.size == 0) t

  -- `size()`
  unfoldable pub size : State (Table K V) ℕ
  size t = ok t.size t

  -- The client's handler.
  abbrev pub caught : Run (Table K V) (Reply V) → Run (Table K V) (Reply V)
  caught (throws e t) = ok (thrown e) t
  caught r = r

module _ {ℓ} {K V : Type ℓ} ⦃traits : KeyTraits K⦄ (allocate : Nodes (HashNode K V) → ℕ) where
  -- Memory is there, and `allocate` gives the next node.
  abbrev pub supply : Table K V → Memory
  supply t = record { array = true; node = some (allocate t.elements) }

  unfoldable pub call : Call K V → State (Table K V) (Reply V)
  call (emplaces k v) t = (do r ← emplace (supply t) k v; pure (inserted r.1)) t
  call (tries k v) t = (do r ← try_emplace (supply t) k v; pure (inserted r.1)) t
  call (subscripts k default) t = (do v ← subscript (supply t) default k; pure (value v)) t
  call (reads k) t = caught ((do v ← checked_at k; pure (value v)) t)
  call (tests k) t = (do b ← contains k; pure (answer b)) t
  call (erases k) t = (do erase k; pure finished) t
  call clears t = (do clear true; pure finished) t
  call counts t = (do n ← size; pure (count n)) t
  call tests_empty t = (do b ← empty; pure (answer b)) t

  unfoldable pub session : List (Call K V) → State (Table K V) (List (Reply V))
  unfolding call
  session [] = pure []
  session (c ∷ cs) = do r ← call c; rs ← session cs; pure (r ∷ rs)
