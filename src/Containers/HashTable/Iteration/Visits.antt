-- ===== src/Containers/HashTable/Iteration/Visits.antt =====
-- The loop over a table of src/Containers/HashTable/HashTable.hpp: what it sees and what it leaves.
use renn.Prelude.{
  ℕ, zero, suc, ◌≡◌, refl, sym, ap, ◌∙◌, ◌<◌, false, Option, none, some, List, [], ◌∷◌,
  if◌then◌else◌, arith, length,
}
use mathlib.Core.Option
use renn.Prelude.Effect.{ok}
use renn.Containers.Nodes.{
  Nodes, has, HasDistinct, end, at, same, rest_at, rest_from, begin as begin_nodes,
}
use renn.Containers.HashTable.Key.{KeyTraits}
use renn.Containers.HashTable.{Table, HashNode}
use renn.Containers.HashTable.Lookup.{find_key, lookup, HasUniqueKeys}
use renn.Containers.HashTable.Remove.{find_key_congr}
use renn.Containers.HashTable.Invariant.{IsValid}
use renn.Containers.HashTable.Access.{increment}
use renn.Containers.HashTable.Iteration.{
  begin, dereference, assign_second, with_value, replace_at, each,
}
use renn.Containers.HashTable.Iteration.Zipper.{
  onto, Apart, Apart-step, rest_at-onto, replace_at-onto,
}
use renn.Containers.HashTable.Iteration.Changes.{changed, lookup-changed, IsValid-changed}

abbrev pub alone {ℓ} : {V : Type ℓ} → Option V → List V
alone none = []
alone (some v) = v ∷ []

module _ {ℓ} {K V : Type ℓ} where
  abbrev pairs : Nodes (HashNode K V) → List (K × V)
  pairs [] = []
  pairs (x ∷ xs) = (x.1.key, x.1.value) ∷ pairs xs

  length-pairs : (xs : Nodes (HashNode K V)) → length (pairs xs) ≡ length xs
  length-pairs [] = refl
  length-pairs (x ∷ xs) = ground (arith, length-pairs xs)

  abbrev with_elements : Table K V → Nodes (HashNode K V) → Table K V
  with_elements t xs = record t { elements = xs }

  module _ (t : Table K V) (x : ℕ × HashNode K V) (xs ys : Nodes (HashNode K V))
      (n : has x.0 xs ≡ false) where
    rest_at-here {κ} : {S : Type κ} (s : S) → rest_at x.0 (onto xs (x ∷ ys)) s ≡ ok (x ∷ ys) s
    unfolding rest_at
    rest_at-here s = rest_at-onto x.0 xs (x ∷ ys) s n ∙ ground arith

    replace_at-here : (v : V) → replace_at x.0 v (onto xs (x ∷ ys)) ≡ onto xs (with_value v x ∷ ys)
    unfolding replace_at
    replace_at-here v = replace_at-onto x.0 v xs (x ∷ ys) n ∙ ap (onto xs) (ground arith)

    dereference-here :
        dereference (at x.0) (with_elements t (onto xs (x ∷ ys)))
        ≡ ok (x.1.key, x.1.value) (with_elements t (onto xs (x ∷ ys)))
    unfolding dereference rest_from
    dereference-here = rw (rest_at-here (with_elements t (onto xs (x ∷ ys)))) refl

    increment-here :
        increment (at x.0) (with_elements t (onto xs (x ∷ ys)))
        ≡ ok (begin_nodes ys) (with_elements t (onto xs (x ∷ ys)))
    unfolding increment rest_from
    increment-here = rw (rest_at-here (with_elements t (onto xs (x ∷ ys)))) refl

    assign_second-here :
        (v : V)
        → assign_second (at x.0) v (with_elements t (onto xs (x ∷ ys)))
          ≡ ok tt (with_elements t (onto xs (with_value v x ∷ ys)))
    unfolding assign_second rest_from
    assign_second-here v =
        rw (rest_at-here (with_elements t (onto xs (x ∷ ys))), replace_at-here v) refl

  module _ (f : V → V) (t : Table K V) where
    each-onto :
        (fuel : ℕ) (ys xs : Nodes (HashNode K V))
        → HasDistinct ys
        → Apart xs ys
        → length ys < fuel
        → each f fuel (begin_nodes ys) (with_elements t (onto xs ys))
          ≡ ok (pairs ys) (with_elements t (onto xs (changed f ys)))
    unfolding each same
    each-onto zero ys xs d a lt = absurd (omega (arith, lt))
    each-onto (suc fuel) [] xs d a lt = refl
    each-onto (suc fuel) (x ∷ ys) xs d a lt =
        let n = a x.0 (ground arith) in
        let y = with_value (f x.1.value) x in
        rw
          (
            dereference-here t x xs ys n,
            assign_second-here t x xs ys n (f x.1.value),
            increment-here t y xs ys n,
            each-onto fuel ys (y ∷ xs) d.1 (Apart-step x y xs ys refl a d.0) (omega (arith, lt)),
          )
          refl

  module _ ⦃traits : KeyTraits K⦄ where
    -- The values that the loop saw with a key.
    abbrev pub values_of : K → List (K × V) → List V
    values_of k [] = []
    values_of k (x ∷ xs) = if traits.key_eq x.0 k then x.1 ∷ values_of k xs else values_of k xs

    values_of-absent :
        (k : K) (xs : Nodes (HashNode K V)) → find_key k xs ≡ end → values_of k (pairs xs) ≡ []
    unfolding find_key
    values_of-absent k [] e = refl
    values_of-absent k (x ∷ xs) e = ground (arith, values_of-absent k xs)

    values_of-pairs :
        (k : K) (xs : Nodes (HashNode K V))
        → HasUniqueKeys xs
        → values_of k (pairs xs) ≡ alone (lookup k xs)
    unfolding lookup
    values_of-pairs k [] u = refl
    values_of-pairs k (x ∷ xs) u =
        ground (arith, values_of-pairs k xs u.1, find_key_congr x.1.key k xs, values_of-absent k xs)

    -- What the loop saw, and what it left.
    pub record Visited (f : V → V) (t : Table K V) (seen : List (K × V)) (u : Table K V)
        : Type ℓ where
      pub valid : IsValid u
      pub once : (k : K) → values_of k seen ≡ alone (lookup k t.elements)
      pub number : length seen ≡ t.size
      pub reads : (k : K) → lookup k u.elements ≡ Option.map f (lookup k t.elements)
      pub same_size : u.size ≡ t.size

    -- On a valid table a loop from `begin` to `end` which replaces each value `v` by `f v` through the
    -- reference that `*it` returns ends within one test more than the table has elements, faults
    -- nowhere, and sees for every key exactly the value that the table had for it, once, or nothing
    -- if it had none, and as many pairs as the size says. It leaves a valid table of the same size in
    -- which every key reads `f` of what it read before.
    pub each-Visited :
        (f : V → V) (t : Table K V)
        → IsValid t
        → (seen : List (K × V)) × (u : Table K V) × (each f (suc t.size) (begin t) t ≡ ok seen u)
          × Visited f t seen u
    unfolding begin
    each-Visited f t v = (
      pairs t.elements,
      with_elements t (changed f t.elements),
      each-onto f t (suc t.size) t.elements [] v.indexed.distinct (λ p h. refl)
          (omega (arith, v.indexed.counted)),
      record {
        valid = IsValid-changed f t v;
        once = λ k. values_of-pairs k t.elements v.unique;
        number = length-pairs t.elements ∙ sym v.indexed.counted;
        reads = λ k. lookup-changed f k t.elements;
        same_size = refl;
      },
    )
