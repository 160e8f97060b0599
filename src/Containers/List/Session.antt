-- ===== src/Containers/List/Session.antt =====
-- What a client of the ends of src/Containers/List.hpp calls and sees, one call after the other.
pub mod Deque
pub mod Refinement
mod Tests
use renn.Prelude.{ℕ, Bool, some, List, [], ◌∷◌, ◌==◌}
use renn.Prelude.Effect.{Run, ok, throws, fault, State, pure, ◌>>=◌, ◌>>◌, Exception}
use renn.Containers.List.{Store, push_back, push_front, pop_back, pop_front, clear, front, back}

-- A call that adds an element carries the node that the allocator gives.
pub data Call {ℓ} (T : Type ℓ) : Type ℓ where
  pushes_back : (node : ℕ) → T → Call T
  pushes_front : (node : ℕ) → T → Call T
  pops_back : Call T
  pops_front : Call T
  reads_front : Call T
  reads_back : Call T
  clears : Call T
  counts : Call T
  tests_empty : Call T

pub data Reply {ℓ} (T : Type ℓ) : Type ℓ where
  finished : Reply T
  value : T → Reply T
  count : ℕ → Reply T
  answer : Bool → Reply T
  thrown : Exception → Reply T

module _ {ℓ} {T : Type ℓ} where
  -- `size()`
  unfoldable pub size : State (Store T) ℕ
  size s = ok s.size s

  -- `empty()`
  unfoldable pub empty : State (Store T) Bool
  empty s = ok (s.size == 0) s

  -- The client's handler.
  abbrev pub caught : Run (Store T) (Reply T) → Run (Store T) (Reply T)
  caught (throws e s) = ok (thrown e) s
  caught r = r

  unfoldable pub call : Call T → State (Store T) (Reply T)
  call (pushes_back node v) s = (do _ ← push_back (some node) v; pure finished) s
  call (pushes_front node v) s = (do _ ← push_front (some node) v; pure finished) s
  call pops_back s = (do _ ← pop_back; pure finished) s
  call pops_front s = (do _ ← pop_front; pure finished) s
  call reads_front s = caught ((do v ← front; pure (value v)) s)
  call reads_back s = caught ((do v ← back; pure (value v)) s)
  call clears s = (do clear; pure finished) s
  call counts s = (do n ← size; pure (count n)) s
  call tests_empty s = (do b ← empty; pure (answer b)) s

  unfoldable pub session : List (Call T) → State (Store T) (List (Reply T))
  unfolding call
  session [] = pure []
  session (c ∷ cs) = do r ← call c; rs ← session cs; pure (r ∷ rs)
