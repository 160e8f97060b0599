-- ===== src/Coroutine/Stack.antt =====
-- What the contexts of src/Coroutine/Coro.hpp amount to: a stack of coroutines, each resumed by the one
-- below it.
use renn.Prelude.{
  update, ℕ, zero, suc, ◌≡◌, refl, Bool, true, false, ◌||◌, Option, none, some, List, [], ◌∷◌, ◌==◌,
  if◌then◌else◌, arith, ◌∙◌, sym, Bool-cases, inl, inr,
}
use mathlib.Core.Path.{subst}
use renn.Prelude.Effect.{and_then, Run, ok, fault, State, ◌>>=◌, dangling, no_return, Fault}
use renn.Coroutine.{
  Code, ends, suspends, resumes, Context, main, inside, Machine, resume, switch_back, suspend,
  finish, act, run,
}

-- The coroutines that are running, the innermost first, the rest of the program, and the others by
-- what is left of their routines.
pub record Stack : Type 0 where
  pub frames : List (ℕ × Code)
  pub program : Code
  pub waiting : ℕ → Option Code
  pub finished : ℕ → Bool

abbrev pub push : ℕ → List (ℕ × Code) → Code → State Stack (Unit {0})
push d fs program a = if a.finished d then fault no_return else elim (a.waiting d) [
  | none ↦ fault dangling
  | some code ↦ ok tt (record {
    frames = (d, code) ∷ fs;
    program = program;
    waiting = update a.waiting d none;
    finished = a.finished;
  })
]

-- A coroutine that suspends or ends gives way to the one below it.
abbrev pub act_on : List (ℕ × Code) → Code → State Stack (Unit {0})
act_on [] ends a = ok tt a
act_on [] (suspends r) a = fault dangling
act_on [] (resumes c r) a = push c [] r a
act_on ((c, ends) ∷ fs) k a = ok tt (record a { frames = fs; finished = update a.finished c true })
act_on ((c, suspends r) ∷ fs) k a =
    ok tt (record a { frames = fs; waiting = update a.waiting c (some r) })
act_on ((c, resumes d r) ∷ fs) k a = push d ((c, r) ∷ fs) k a

abbrev pub run_stack : ℕ → State Stack (Unit {0})
run_stack zero a = ok tt a
run_stack (suc n) a = (act_on a.frames a.program >>= λ u. run_stack n) a

abbrev pub top : List (ℕ × Code) → Code → Context
top [] k = main k
top (x ∷ fs) k = inside x.0 x.1

abbrev pub runs : ℕ → List (ℕ × Code) → Bool
runs c [] = false
runs c (x ∷ fs) = x.0 == c || runs c fs

-- Each frame was resumed by the one below it, and stands once.
abbrev pub Chain : (ℕ → Option Context) → (ℕ → Option Code) → List (ℕ × Code) → Code → Type 0
Chain caller callee [] k = Unit
Chain caller callee (x ∷ fs) k =
    (caller x.0 ≡ some (top fs k))
    × (callee x.0 ≡ none)
    × (runs x.0 fs ≡ false)
    × Chain caller callee fs k

pub record Shows (m : Machine) (a : Stack) : Type 0 where
  pub active : m.active ≡ top a.frames a.program
  pub waiting : (c : ℕ) → m.callee_context c ≡ a.waiting c
  pub finished : (c : ℕ) → m.is_done c ≡ a.finished c
  pub chain : Chain m.caller_context m.callee_context a.frames a.program

-- Both run into the same fault, or go on.
pub data Agree : Run Machine (Unit {0}) → Run Stack (Unit {0}) → Type 0 where
  both_go : {m : Machine} {a : Stack} → Shows m a → Agree (ok tt m) (ok tt a)
  both_fault : (f : Fault) → Agree (fault f) (fault f)

Chain-congr :
    (caller caller2 : ℕ → Option Context) (callee callee2 : ℕ → Option Code) (fs : List (ℕ × Code))
    (program : Code)
    → ((q : ℕ) → runs q fs ≡ true → caller2 q ≡ caller q)
    → ((q : ℕ) → runs q fs ≡ true → callee2 q ≡ callee q)
    → Chain caller callee fs program
    → Chain caller2 callee2 fs program
Chain-congr caller caller2 callee callee2 [] program f g c = tt
Chain-congr caller caller2 callee callee2 (x ∷ fs) program f g (e, w, o, c) = (
  f x.0 (ground arith) ∙ e,
  g x.0 (ground arith) ∙ w,
  o,
  Chain-congr caller caller2 callee callee2 fs program (λ q h. f q (ground arith))
      (λ q h. g q (ground arith)) c,
)

-- A coroutine that waits does not run.
waiting-runs :
    (caller : ℕ → Option Context) (callee : ℕ → Option Code) (d : ℕ) (code : Code)
    (fs : List (ℕ × Code)) (program : Code)
    → callee d ≡ some code
    → Chain caller callee fs program
    → runs d fs ≡ false
waiting-runs caller callee d code [] program e c = refl
waiting-runs caller callee d code (x ∷ fs) program e (_, w, _, c) =
    ground (arith, waiting-runs caller callee d code fs program e c)

resume-push :
    (d : ℕ) (fs : List (ℕ × Code)) (program : Code) (m : Machine) (a : Stack)
    → ((c : ℕ) → m.callee_context c ≡ a.waiting c)
    → ((c : ℕ) → m.is_done c ≡ a.finished c)
    → Chain m.caller_context m.callee_context fs program
    → Agree (resume d (top fs program) m) (push d fs program a)
unfolding resume
resume-push d fs program m a w f c = elim (Bool-cases (a.finished d)) [
  | inl over ↦ rw (resume, f d, over) (both_fault no_return)
  | inr not_over ↦ pushed (a.waiting d) refl not_over
]
  where
    pushed :
        (o : Option Code)
        → a.waiting d ≡ o
        → a.finished d ≡ false
        → Agree (resume d (top fs program) m) (push d fs program a)
    pushed none e g = rw (resume, f d, g, w d, e) (both_fault dangling)
    pushed (some code) e g =
        let away = waiting-runs m.caller_context m.callee_context d code fs program (w d ∙ e) c in
        rw (resume, f d, g, w d, e)
          (both_go (record {
            active = refl;
            waiting = λ q. ground (arith, w q);
            finished = f;
            chain = (
              ground arith,
              ground arith,
              away,
              Chain-congr m.caller_context (update m.caller_context d (some (top fs program)))
                  m.callee_context (update m.callee_context d none) fs program (λ q h. ground arith)
                  (λ q h. ground arith) c,
            );
          }))

act_on-Agree :
    (m : Machine) (fs : List (ℕ × Code)) (k : Code) (w : ℕ → Option Code) (f : ℕ → Bool)
    → Shows m (record { frames = fs; program = k; waiting = w; finished = f })
    → Agree
        (act (top fs k) m)
        (act_on fs k (record { frames = fs; program = k; waiting = w; finished = f }))
unfolding act
act_on-Agree m [] ends w f s = both_go s
act_on-Agree m [] (suspends r) w f s = both_fault dangling
act_on-Agree m [] (resumes c r) w f s =
    resume-push c [] r m (record { frames = []; program = resumes c r; waiting = w; finished = f })
      s.waiting s.finished tt
act_on-Agree m ((c, ends) ∷ fs) k w f s =
    rw (finish, switch_back, s.chain.0)
      (both_go (record {
        active = refl;
        waiting = s.waiting;
        finished = λ q. ground (arith, s.finished q);
        chain =
            Chain-congr m.caller_context (update m.caller_context c none) m.callee_context
              m.callee_context fs k (λ q h. ground (arith, s.chain.2)) (λ q h. refl) s.chain.3;
      }))
act_on-Agree m ((c, suspends r) ∷ fs) k w f s =
    rw (suspend, switch_back, s.chain.0)
      (both_go
        {a = record { frames = fs; program = k; waiting = update w c (some r); finished = f }}
        (record {
          active = refl;
          waiting = λ q. ground (arith, s.waiting q);
          finished = s.finished;
          chain =
              Chain-congr m.caller_context (update m.caller_context c none) m.callee_context
                (update m.callee_context c (some r)) fs k (λ q h. ground (arith, s.chain.2))
                (λ q h. ground (arith, s.chain.2)) s.chain.3;
        }))
act_on-Agree m ((c, resumes d r) ∷ fs) k w f s =
    resume-push d ((c, r) ∷ fs) k m
      (record { frames = (c, resumes d r) ∷ fs; program = k; waiting = w; finished = f }) s.waiting
      s.finished s.chain

act-act_on :
    (m : Machine) (a : Stack)
    → Shows m a
    → Agree (act (top a.frames a.program) m) (act_on a.frames a.program a)
act-act_on m a s = act_on-Agree m a.frames a.program a.waiting a.finished s

Agree-and_then :
    {f : State Machine (Unit {0})} {g : State Stack (Unit {0})} (x : Run Machine (Unit {0}))
    (y : Run Stack (Unit {0}))
    → Agree x y
    → ((m : Machine) (a : Stack) → Shows m a → Agree (f m) (g a))
    → Agree (and_then x (λ u. f)) (and_then y (λ u. g))
Agree-and_then x y (both_go {m} {a} s) h = h m a s
Agree-and_then x y (both_fault e) h = both_fault e

-- From states that show each other, the machine of contexts and the stack of coroutines agree after any
-- number of moves: both run into the same fault, or the contexts are those of the stack, so that a
-- coroutine that suspends or ends gives control to the one that resumed it, each running coroutine stands
-- once in the stack, and exactly the finished ones are done.
pub run-run_stack : (n : ℕ) (m : Machine) (a : Stack) → Shows m a → Agree (run n m) (run_stack n a)
unfolding run
run-run_stack zero m a s = both_go s
run-run_stack (suc n) m a s =
    Agree-and_then (act m.active m) (act_on a.frames a.program a)
      (subst (λ k. Agree (act k m) (act_on a.frames a.program a)) (sym s.active) (act-act_on m a s))
      (run-run_stack n)
