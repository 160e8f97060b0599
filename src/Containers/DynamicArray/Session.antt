-- ===== src/Containers/DynamicArray/Session.antt =====
-- What a client of src/Containers/DynamicArray.hpp calls and sees, one call after the other.
pub mod Sequence
pub mod Represents
pub mod Reads
pub mod Refinement
pub mod Lifetime
mod Tests
use renn.Prelude.{ℕ, true, List, [], ◌∷◌}
use renn.Prelude.Effect.{Run, ok, throws, fault, State, pure, get, ◌>>=◌, ◌>>◌, Exception}
use renn.Containers.DynamicArray.{
  Array, push_back, pop_back, insert, erase_at_index, resize, reserve, clear, at,
}
use renn.Containers.DynamicArray.Positions.{front, back}

pub data Call (T : Type 0) : Type 0 where
  pushes : T → Call T
  pops : Call T
  inserts : (index : ℕ) → T → Call T
  erases : (index : ℕ) → Call T
  resizes : (default : T) → ℕ → Call T
  reserves : ℕ → Call T
  clears : Call T
  reads : (index : ℕ) → Call T
  reads_first : Call T
  reads_last : Call T
  counts : Call T
  measures : Call T

pub data Reply (T : Type 0) : Type 0 where
  finished : Reply T
  value : T → Reply T
  count : ℕ → Reply T
  thrown : Exception → Reply T

module _ {T : Type 0} where
  -- `size()`
  unfoldable pub size : State (Array T) ℕ
  size a = ok a.size a

  -- `capacity()`
  unfoldable pub capacity : State (Array T) ℕ
  capacity a = ok a.capacity a

  -- The client's handler.
  abbrev pub caught : Run (Array T) (Reply T) → Run (Array T) (Reply T)
  caught (throws e a) = ok (thrown e) a
  caught r = r

  -- Memory is there.
  unfoldable pub call : Call T → State (Array T) (Reply T)
  call (pushes v) a = (do push_back true v; pure finished) a
  call pops a = (do pop_back; pure finished) a
  call (inserts index v) a = caught ((do insert true index v; pure finished) a)
  call (erases index) a = caught ((do erase_at_index index; pure finished) a)
  call (resizes default n) a = (do resize true default n; pure finished) a
  call (reserves n) a = (do reserve true n; pure finished) a
  call clears a = (do clear; pure finished) a
  call (reads index) a = caught ((do v ← at index; pure (value v)) a)
  call reads_first a = (do v ← front; pure (value v)) a
  call reads_last a = (do v ← back; pure (value v)) a
  call counts a = (do n ← size; pure (count n)) a
  call measures a = (do n ← capacity; pure (count n)) a

  unfoldable pub session : List (Call T) → State (Array T) (List (Reply T))
  unfolding call
  session [] = pure []
  session (c ∷ cs) = do r ← call c; rs ← session cs; pure (r ∷ rs)
