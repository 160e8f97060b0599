-- ===== src/Fiber/Queued.antt =====
-- The tasks of a scheduler in src/Fiber: fibers that are alive, each once, and what they cost.
use renn.Prelude.{
  update, ℕ, suc, ◌+◌, ◌≤◌, ◌≡◌, refl, Bool, true, false, ◌||◌, Option, none, some, List, [], ◌∷◌,
  ◌++◌, ◌==◌, arith,
}
use renn.Fiber.{Routine, done, yields, goes}

-- How often a routine and those that it starts are resumed.
abbrev pub cost : Routine → ℕ
cost done = 1
cost (yields r) = suc (cost r)
cost (goes child r) = cost child + cost r

abbrev pub cost_of : Option Routine → ℕ
cost_of none = 0
cost_of (some r) = cost r

abbrev pub total : (ℕ → Option Routine) → List ℕ → ℕ
total c [] = 0
total c (f ∷ fs) = cost_of (c f) + total c fs

abbrev pub has : ℕ → List ℕ → Bool
has p [] = false
has p (x ∷ xs) = x == p || has p xs

abbrev pub is_some : Option Routine → Bool
is_some none = false
is_some (some r) = true

abbrev pub HasDistinct : List ℕ → Type 0
HasDistinct [] = Unit
HasDistinct (x ∷ xs) = (has x xs ≡ false) × HasDistinct xs

-- The tasks are the fibers that are alive, each once, and the allocator's addresses are new.
pub record Queued (c : ℕ → Option Routine) (fs : List ℕ) (free : ℕ) : Type 0 where
  pub alive : (p : ℕ) → is_some (c p) ≡ has p fs
  pub distinct : HasDistinct fs
  pub fresh : (p : ℕ) → free ≤ p → has p fs ≡ false

pub has-append : (p : ℕ) (xs : List ℕ) (y : ℕ) → has p (xs ++ y ∷ []) ≡ (has p xs || (y == p))
has-append p [] y = ground arith
has-append p (x ∷ xs) y = ground (arith, has-append p xs y)

pub append-HasDistinct :
    (xs : List ℕ) (y : ℕ) → HasDistinct xs → has y xs ≡ false → HasDistinct (xs ++ y ∷ [])
append-HasDistinct [] y d e = (refl, tt)
append-HasDistinct (x ∷ xs) y (f, d) e =
    (ground (arith, has-append x xs y), append-HasDistinct xs y d (ground arith))

pub total-append :
    (c : ℕ → Option Routine) (xs : List ℕ) (y : ℕ)
    → total c (xs ++ y ∷ []) ≡ total c xs + cost_of (c y)
total-append c [] y = omega arith
total-append c (x ∷ xs) y = omega (arith, total-append c xs y)

pub total-update :
    (c : ℕ → Option Routine) (p : ℕ) (r : Option Routine) (xs : List ℕ)
    → has p xs ≡ false
    → total (update c p r) xs ≡ total c xs
total-update c p r [] e = refl
total-update c p r (x ∷ xs) e = ground (arith, total-update c p r xs)
