-- ===== src/Fiber/Workers/Boundedness.antt =====
-- In an execution only a bounded number of addresses and threads are in use.
use renn.Prelude.{ℕ, suc, ◌+◌, ◌<◌, ◌≤◌, ◌≡◌, refl, none, arith}
use renn.Fiber.{yields}
use renn.Fiber.Workers.{
  idle, Runtime, Step, takes, launches, launched, allocates, submits, suspends, finishes, resubmits,
  removes, new_runtime, submit, allocate, finish, remove,
}
use renn.Fiber.Workers.Invariant.{Inv, is_some-some}
use renn.Fiber.Workers.Keeping.{take-some, suspend-some}
use renn.Fiber.Workers.Placement.{runs-current, Reach-Inv}
use renn.Fiber.Workers.Work.{actor, Execution, initial, later}
use renn.Fiber.Workers.Draining.{Execution-Reach}

-- The addresses from `bound` on are free, and the threads from `n` on have not started.
pub record Bounded (n : ℕ) (s : Runtime) : Type 0 where
  pub bound : ℕ
  pub free : (p : ℕ) → bound ≤ p → s.fibers p ≡ none
  pub unused : (w : ℕ) → n ≤ w → s.worker w ≡ idle

Step-Bounded :
    {n : ℕ} {s t : Runtime} (st : Step s t) → actor st < n → Inv s → Bounded n s → Bounded n t
unfolding submit allocate finish remove
Step-Bounded {n} {s} (takes w f fs e q) lt inv b =
    let (r, is_r) = is_some-some (s.fibers f) (inv.queued f (rw q (ground arith))) in
    rw (take-some w f fs s r is_r)
      (record { bound = b.bound; free = b.free; unused = λ v le. ground (arith, b.unused v le) })
Step-Bounded (launches w c r e d) lt inv b = record {
  bound = b.bound + suc c;
  free = λ p le. ground (arith, b.free p);
  unused = λ v le. ground (arith, b.unused v le);
}
Step-Bounded (launched w c e) lt inv b = record {
  bound = b.bound;
  free = b.free;
  unused = λ v le. ground (arith, b.unused v le);
}
Step-Bounded (allocates w c f previous child rest e d) lt inv b = record {
  bound = b.bound + suc c;
  free = λ p le. ground (arith, b.free p);
  unused = λ v le. ground (arith, b.unused v le);
}
Step-Bounded (submits w c f previous rest e) lt inv b = record {
  bound = b.bound;
  free = b.free;
  unused = λ v le. ground (arith, b.unused v le);
}
Step-Bounded {n} {s} (suspends w f previous rest e) lt inv b =
    rw (suspend-some w f previous rest s (runs-current w f previous (yields rest) s e inv))
      (record {
        bound = b.bound + suc f;
        free = λ p le. ground (arith, b.free p);
        unused = λ v le. ground (arith, b.unused v le);
      })
Step-Bounded (finishes w f previous e) lt inv b = record {
  bound = b.bound;
  free = b.free;
  unused = λ v le. ground (arith, b.unused v le);
}
Step-Bounded (resubmits w f e) lt inv b = record {
  bound = b.bound;
  free = b.free;
  unused = λ v le. ground (arith, b.unused v le);
}
Step-Bounded (removes w f e) lt inv b = record {
  bound = b.bound;
  free = λ p le. ground (arith, b.free p);
  unused = λ v le. ground (arith, b.unused v le);
}

pub Execution-Bounded : {n : ℕ} {s : Runtime} → Execution n s → Bounded n s
unfolding new_runtime
Execution-Bounded initial = record { bound = 0; free = λ p le. refl; unused = λ w le. refl }
Execution-Bounded (later r st lt) =
    Step-Bounded st lt (Reach-Inv (Execution-Reach r)) (Execution-Bounded r)
