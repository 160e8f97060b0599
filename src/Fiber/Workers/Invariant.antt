-- ===== src/Fiber/Workers/Invariant.antt =====
-- What holds of the threads that run the fibers of src/Fiber between their steps.
use renn.Prelude.{
  update, ℕ, ◌≡◌, refl, ◌⊎◌, inl, inr, Bool, true, false, ◌||◌, ◌&&◌, not, Option, none, some, ◌==◌,
  arith, ap, sym, Bool-cases, ==_iff, ◌&&◌, not,
}
use renn.Fiber.{Routine}
use renn.Fiber.Queued.{has, is_some, HasDistinct}
use renn.Fiber.Workers.{Worker, idle, launching, running, starting, returned, crashed, Runtime}

-- The fibers that a thread works on.
abbrev pub holds : Worker → ℕ → Bool
holds idle p = false
holds (launching c) p = c == p
holds (running f previous r) p = f == p
holds (starting c f previous r) p = c == p || f == p
holds (returned f d) p = f == p
holds crashed p = false

-- The thread-local `current_` is the fiber that the thread runs, and a child is another fiber.
abbrev pub agrees : Worker → Option ℕ → Bool
agrees (running f previous r) none = false
agrees (running f previous r) (some g) = f == g
agrees (starting c f previous r) none = false
agrees (starting c f previous r) (some g) = f == g && not (c == f)
agrees crashed c = false
agrees _ c = true

pub record Inv (s : Runtime) : Type 0 where
  pub queued : (p : ℕ) → has p s.tasks ≡ true → is_some (s.fibers p) ≡ true
  pub distinct : HasDistinct s.tasks
  pub held :
      (w p : ℕ)
      → holds (s.worker w) p ≡ true
      → (is_some (s.fibers p) ≡ true) × (has p s.tasks ≡ false)
  pub sole :
      (w v p : ℕ) → holds (s.worker w) p ≡ true → holds (s.worker v) p ≡ true → (w == v) ≡ true
  pub current : (w : ℕ) → agrees (s.worker w) (s.current w) ≡ true
  pub kept :
      (p : ℕ)
      → is_some (s.fibers p) ≡ true
      → (has p s.tasks ≡ true) ⊎ ((w : ℕ) × (holds (s.worker w) p ≡ true))

-- A thread that goes on keeps what it holds, or hands it over.
pub holds-update :
    (worker : ℕ → Worker) (w u p : ℕ) (k : Worker)
    → holds (worker u) p ≡ true
    → (holds (worker w) p ≡ true → holds k p ≡ true)
    → (v : ℕ) × (holds (update worker w k v) p ≡ true)
holds-update worker w u p k h goes_on = elim (Bool-cases (w == u)) [
  | inl same ↦ (w, ground (arith, h, goes_on))
  | inr other ↦ (u, rw other h)
]

pub is_some-some : (o : Option Routine) → is_some o ≡ true → (r : Routine) × (o ≡ some r)
is_some-some none h = absurd (cc)
is_some-some (some r) h = (r, refl)

pub agrees-running :
    (f : ℕ) (previous : Option ℕ) (r : Routine) (c : Option ℕ)
    → agrees (running f previous r) c ≡ true
    → c ≡ some f
agrees-running f previous r none h = absurd (cc)
agrees-running f previous r (some g) h = ap some (sym ((==_iff f g).0 h))

pub agrees-starting :
    (c f : ℕ) (previous : Option ℕ) (r : Routine) (o : Option ℕ)
    → agrees (starting c f previous r) o ≡ true
    → (o ≡ some f) × ((c == f) ≡ false)
agrees-starting c f previous r none h = absurd (cc)
agrees-starting c f previous r (some g) h =
    (ap some (sym ((==_iff f g).0 (ground (arith, h)))), ground (arith, h))
