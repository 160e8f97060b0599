-- ===== src/Scheduling/ThreadPool.antt =====
-- src/Scheduling/ThreadPool/ThreadPool.{hpp,cc}: `n` workers, any number of threads that submit, and
-- the one thread that starts and stops the pool, interleaved in any order.
pub mod Invariant
pub mod Submission
pub mod Management
pub mod Steps
pub mod Safety
mod Tests
use renn.Prelude.{
  update, ℕ, ◌<◌, ◌≡◌, ◌≢◌, Bool, true, false, Option, none, some, List, [], ◌∷◌, ◌++◌, ◌==◌,
  if◌then◌else◌,
}
use renn.Scheduling.Queue.{Queue, Popped, sleeps, nullopt, item, pop, push_back, close}

-- A worker: before `start`, at the head of `pop`, blocked on the condition variable, woken and
-- about to take the mutex again, in a task, or behind its loop.
pub data Worker {ℓ} (T : Type ℓ) : Type ℓ where
  unborn : Worker T
  polling : Worker T
  waiting : Worker T
  woken : Worker T
  running : T → Worker T
  exited : Worker T

-- A thread that submits: outside, between the test of `is_closed_` and the mutex, and before
-- `notify_one`.
pub data Producer {ℓ} (T : Type ℓ) : Type ℓ where
  outside : Producer T
  admitted : T → Producer T
  announcing : Producer T

-- The managing thread: where it stands in `start` and `stop`.
pub data Manager : Type 0 where
  created : Manager
  up : Manager
  stopping : Manager
  closing : Manager
  joining : Manager
  returned : Manager

-- `pushed` and `taken` record the items that went through `push_back` and that workers got.
pub record Pool {ℓ} (T : Type ℓ) : Type ℓ where
  pub renns : Queue T
  pub started : Bool
  pub stopped : Bool
  pub worker : ℕ → Worker T
  pub producer : ℕ → Producer T
  pub manager : Manager
  pub pushed : List T
  pub taken : List T

module _ {ℓ} {T : Type ℓ} where
  unfoldable pub new_pool : Pool T
  new_pool = record {
    renns = record { tasks = []; is_closed = false };
    started = false;
    stopped = false;
    worker = λ _. unborn;
    producer = λ _. outside;
    manager = created;
    pushed = [];
    taken = [];
  }

  -- The worker holds the mutex of `pop` next.
  abbrev pub polls : Worker T → Bool
  polls polling = true
  polls woken = true
  polls _ = false

  -- `notify_all`
  abbrev pub wake : Worker T → Worker T
  wake waiting = woken
  wake w = w

  -- One round of `worker_loop` up to the task, the end, or sleep.
  unfoldable pub polled : ℕ → Popped T → Pool T → Pool T
  polled i sleeps s = record s { worker = update s.worker i waiting }
  polled i nullopt s = record s { worker = update s.worker i exited }
  polled i (item t q) s = record s {
    renns = q;
    worker = update s.worker i (running t);
    taken = s.taken ++ t ∷ [];
  }

  unfoldable pub poll : ℕ → Pool T → Pool T
  unfolding polled
  poll i s = polled i (pop s.renns) s

  -- `submit` up to the mutex of `push`, for an empty and for a full `procedure`.
  unfoldable pub submit : ℕ → Option T → Pool T → Pool T
  submit j none s = s
  submit j (some t) s =
      if s.renns.is_closed then s else record s { producer = update s.producer j (admitted t) }

  unfoldable pub enqueue : ℕ → T → Pool T → Pool T
  enqueue j t s = record s {
    renns = push_back t s.renns;
    producer = update s.producer j announcing;
    pushed = s.pushed ++ t ∷ [];
  }

-- The steps. An assertion of the code is a premise: where it fails the program has ended. That
-- `stop` finds no `submit` on its way is the condition that the code's comments state.
pub data Step {ℓ} {T : Type ℓ} (n : ℕ) (s : Pool T) : Pool T → Type ℓ where
  starts :
      s.manager ≡ created
      → s.started ≡ false
      → Step n s (record s { started = true; worker = λ _. polling; manager = up })
  polls_queue : (i : ℕ) → i < n → polls (s.worker i) ≡ true → Step n s (poll i s)
  wakes_up :
      (i : ℕ)
      → i < n
      → s.worker i ≡ waiting
      → Step n s (record s { worker = update s.worker i woken })
  finishes :
      (i : ℕ) (t : T)
      → i < n
      → s.worker i ≡ running t
      → Step n s (record s { worker = update s.worker i polling })
  submits :
      (j : ℕ) (t : Option T)
      → s.producer j ≡ outside
      → s.started ≡ true
      → s.stopped ≡ false
      → Step n s (submit j t s)
  enqueues : (j : ℕ) (t : T) → s.producer j ≡ admitted t → Step n s (enqueue j t s)
  notifies :
      (j i : ℕ)
      → s.producer j ≡ announcing
      → i < n
      → s.worker i ≡ waiting
      → Step n s
          (record s { worker = update s.worker i woken; producer = update s.producer j outside })
  notifies_nobody :
      (j : ℕ)
      → s.producer j ≡ announcing
      → ((i : ℕ) → i < n → s.worker i ≢ waiting)
      → Step n s (record s { producer = update s.producer j outside })
  stops :
      s.manager ≡ up
      → s.started ≡ true
      → s.stopped ≡ false
      → ((j : ℕ) → s.producer j ≡ outside)
      → Step n s (record s { stopped = true; manager = stopping })
  closes : s.manager ≡ stopping → Step n s (record s { renns = close s.renns; manager = closing })
  notifies_all :
      s.manager ≡ closing
      → Step n s (record s { worker = λ i. wake (s.worker i); manager = joining })
  joins :
      s.manager ≡ joining
      → ((i : ℕ) → i < n → s.worker i ≡ exited)
      → Step n s (record s { manager = returned })

pub data Reach {ℓ} {T : Type ℓ} (n : ℕ) : Pool T → Type ℓ where
  initial : Reach n new_pool
  later : {s t : Pool T} → Reach n s → Step n s t → Reach n t
