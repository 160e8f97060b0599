-- ===== src/Scheduling/Queue.antt =====
-- src/Scheduling/ThreadPool/Queue.hpp and Queue-inl.hpp: the critical sections of the queue.
-- Each runs under the mutex and is one step; what lies between two of them is a state of the
-- caller's.
use renn.Prelude.{Bool, true, false, List, [], ◌∷◌, ◌++◌}

pub record Queue {ℓ} (T : Type ℓ) : Type ℓ where
  pub tasks : List T
  pub is_closed : Bool

-- What one round of `pop` comes to under the mutex: it goes to sleep, returns `std::nullopt`, or
-- returns an item.
pub data Popped {ℓ} (T : Type ℓ) : Type ℓ where
  sleeps : Popped T
  nullopt : Popped T
  item : T → Queue T → Popped T

module _ {ℓ} {T : Type ℓ} where
  unfoldable pub pop_from : List T → Bool → Popped T
  pop_from [] false = sleeps
  pop_from [] true = nullopt
  pop_from (t ∷ ts) closed = item t (record { tasks = ts; is_closed = closed })

  unfoldable pub pop : Queue T → Popped T
  unfolding pop_from
  pop q = pop_from q.tasks q.is_closed

  -- The critical section of `push`; the test of `is_closed_` comes before it, without the mutex.
  unfoldable pub push_back : T → Queue T → Queue T
  push_back t q = record q { tasks = q.tasks ++ t ∷ [] }

  unfoldable pub close : Queue T → Queue T
  close q = record q { is_closed = true }
