-- ===== src/Containers/DynamicArray/Contents.antt =====
-- The elements of an array of src/Containers/DynamicArray.hpp, and single accesses to its cells.
use renn.Prelude.{
  update, ℕ, zero, suc, ◌+◌, ◌<◌, ◌≤◌, ◌≡◌, refl, Bool, Option, none, some, List, [], ◌∷◌, ltb, leb,
  ◌&&◌, length, get_elem?, arith, ◌∙◌,
}
use renn.Prelude.Effect.{ok, State}
use renn.Containers.DynamicArray.{Array, construct, destroy, load, live_below}

abbrev pub among : (i n k : ℕ) → Bool
among i n k = leb i k && ltb k (i + n)

module _ {ℓ} {T : Type ℓ} where
  -- The first `size` cells hold the elements, and the other cells are raw.
  pub record Holds (a : Array T) (xs : List T) : Type ℓ where
    pub count : a.size ≡ length xs
    pub fits : a.size ≤ a.capacity
    pub cells : (i : ℕ) → a.cells i ≡ get_elem? xs i

  -- The call returns, leaves the elements `xs`, and drops no value without its destruction.
  abbrev pub Leaves : State (Array T) (Unit {0}) → Array T → List T → Type ℓ
  Leaves m a xs = (t : Array T) × (m a ≡ ok tt t) × Holds t xs × (t.lost ≡ a.lost)

  abbrev pub Live : (ℕ → Option T) → (i n : ℕ) → Type ℓ
  Live c i n = (k : ℕ) → i ≤ k → k < i + n → (v : T) × (c k ≡ some v)

  pub construct-raw :
      (i : ℕ) (v : T) (a : Array T)
      → i < a.capacity
      → a.cells i ≡ none
      → construct i v a ≡ ok tt (record a { cells = update a.cells i (some v) })
  unfolding construct
  construct-raw i v a lt e = ground (arith, e)

  pub destroy-live :
      (i : ℕ) (v : T) (a : Array T)
      → i < a.capacity
      → a.cells i ≡ some v
      → destroy i a ≡ ok tt (record a { cells = update a.cells i none })
  unfolding destroy
  destroy-live i v a lt e = ground (arith, e)

  pub load-live :
      (i : ℕ) (v : T) (a : Array T) → i < a.capacity → a.cells i ≡ some v → load i a ≡ ok v a
  unfolding load
  load-live i v a lt e = ground (arith, e)

  pub get_elem?-some : (xs : List T) (i : ℕ) → i < length xs → (v : T) × (get_elem? xs i ≡ some v)
  get_elem?-some [] i h = elim h [ ]
  get_elem?-some (x ∷ xs) zero h = (x, refl)
  get_elem?-some (x ∷ xs) (suc i) h = get_elem?-some xs i (omega arith)

  pub get_elem?-length : (xs : List T) (i : ℕ) → length xs ≤ i → get_elem? xs i ≡ none
  get_elem?-length [] i h = refl
  get_elem?-length (x ∷ xs) zero h = absurd (omega arith)
  get_elem?-length (x ∷ xs) (suc i) h = get_elem?-length xs i (omega arith)

  pub Holds-Live :
      {a : Array T} {xs : List T} → Holds a xs → (i n : ℕ) → i + n ≤ length xs → Live a.cells i n
  Holds-Live {a} {xs} h i n le k lo hi =
      let (v, e) = get_elem?-some xs k (omega arith) in (v, h.cells k ∙ e)

  pub live_below-raw : (n : ℕ) (c : ℕ → Option T) → ((k : ℕ) → c k ≡ none) → live_below n c ≡ []
  live_below-raw zero c h = refl
  live_below-raw (suc n) c h = ground (arith, h n, live_below-raw n c h)

  pub construct-live :
      (i : ℕ) (v w : T) (a : Array T)
      → i < a.capacity
      → a.cells i ≡ some w
      → construct i v a ≡ ok tt (record a { cells = update a.cells i (some v); lost = w ∷ a.lost })
  unfolding construct
  construct-live i v w a lt e = ground (arith, e)
