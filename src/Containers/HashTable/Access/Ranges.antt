-- ===== src/Containers/HashTable/Access/Ranges.antt =====
-- `insert(first, second)` of src/Containers/HashTable/HashTable.hpp: one insertion after the other.
use renn.Prelude.{
  ℕ, suc, ◌≡◌, ◌≢◌, inl, inr, refl, true, false, Option, none, some, List, [], ◌∷◌, ◌<◌, ◌≤◌, ◌^◌,
  ◌+◌, arith, if◌then◌else◌, ◌∙◌, length,
}
use renn.Prelude.Effect.{ok}
use renn.Containers.Nodes.{end, at, Nodes, has, Cursor-cases}
use renn.Containers.Nodes.Inserts.{Inserts-has}
use renn.Containers.HashTable.Key.{KeyTraits}
use renn.Containers.HashTable.{Table, HashNode, Memory}
use renn.Containers.HashTable.Lookup.{find_key, lookup}
use renn.Containers.HashTable.Remove.{find_key-lookup, find_key-ne-null, find_key_congr}
use renn.Containers.HashTable.Invariant.{IsValid}
use renn.Containers.HashTable.Emplace.{emplace-Emplaced, Emplaced, emplace-found}
use renn.Containers.HashTable.Access.{insert_range}
use renn.Containers.HashTable.Access.Values.{value_at-lookup, lookup_congr}

abbrev pub or_else {ℓ} : {A : Type ℓ} → Option A → Option A → Option A
or_else none b = b
or_else (some a) b = some a

or_else-none {ℓ} : {A : Type ℓ} (o : Option A) → o ≡ or_else o none
or_else-none none = refl
or_else-none (some w) = refl

module _ {ℓ} {K V : Type ℓ} ⦃traits : KeyTraits K⦄ where
  -- The value of the first pair with an equal key.
  abbrev pub entry_of : K → List (K × V) → Option V
  entry_of k [] = none
  entry_of k (x ∷ xs) = if traits.key_eq x.0 k then some x.1 else entry_of k xs

  abbrev pub HasUniqueEntries : List (K × V) → Type ℓ
  HasUniqueEntries [] = Unit
  HasUniqueEntries (x ∷ xs) = (entry_of x.0 xs ≡ none) × HasUniqueEntries xs

  -- No key of the pairs is in the table.
  abbrev pub AllNew : List (K × V) → Nodes (HashNode K V) → Type ℓ
  AllNew xs ys = (j : K) → entry_of j xs ≢ none → lookup j ys ≡ none

  entry_of_congr :
      (k j : K) (xs : List (K × V))
      → traits.key_eq k j ≡ true
      → entry_of k xs ≡ none
      → entry_of j xs ≡ none
  entry_of_congr k j [] e h = refl
  entry_of_congr k j (x ∷ xs) e h =
      ground (arith, entry_of_congr k j xs e, traits.symmetric k j, traits.transitive x.0 j k)

  -- The allocator gives a node to every insertion from the `i`-th on, each another one that the list
  -- does not use.
  pub record Supplies (memory : ℕ → Memory) (node : ℕ → ℕ) (i : ℕ) (xs : Nodes (HashNode K V))
      : Type 0 where
    pub given : (j : ℕ) → (memory j).node ≡ some (node j)
    pub apart : (j k : ℕ) → node j ≡ node k → j ≡ k
    pub unused : (j : ℕ) → i ≤ j → has (node j) xs ≡ false

  -- What a range insertion leaves: the first value of each key stays.
  pub record RangeInserted (xs : List (K × V)) (t u : Table K V) : Type ℓ where
    pub valid : IsValid u
    pub reads : (j : K) → lookup j u.elements ≡ or_else (lookup j t.elements) (entry_of j xs)
    pub same_buckets : u.bucket_count ≡ t.bucket_count
    pub size : HasUniqueEntries xs → AllNew xs t.elements → u.size ≡ t.size + length xs

  absent_key :
      (k j : K) (ys : Nodes (HashNode K V))
      → find_key k ys ≡ end
      → traits.key_eq k j ≡ true
      → lookup j ys ≡ none
  absent_key k j ys e h = find_key-lookup j ys (find_key_congr k j ys h e)

  -- The first pair was new, or old.
  RangeInserted-new :
      (p : ℕ) (x : K × V) (xs : List (K × V)) (t m u : Table K V)
      → find_key x.0 t.elements ≡ end
      → Emplaced x.0 x.1 t p m
      → RangeInserted xs m u
      → RangeInserted (x ∷ xs) t u
  RangeInserted-new p x xs t m u e em r = record {
    valid = r.valid;
    reads = λ j. ground (arith, r.reads j, em.reads j, absent_key x.0 j t.elements e);
    same_buckets = r.same_buckets ∙ em.same_buckets;
    size = λ (once, rest) new.
        let n : AllNew xs m.elements =
          λ j ne. ground (arith, em.reads j, entry_of_congr x.0 j xs, new j) in
        omega (arith, r.size rest n, em.size);
  }

  RangeInserted-old :
      (q : ℕ) (x : K × V) (xs : List (K × V)) (t u : Table K V)
      → IsValid t
      → find_key x.0 t.elements ≡ at q
      → RangeInserted xs t u
      → RangeInserted (x ∷ xs) t u
  RangeInserted-old q x xs t u v e r =
      let (w, l, _) = value_at-lookup x.0 q t v.indexed.distinct e in
      record {
        valid = r.valid;
        reads = λ j. ground (arith, r.reads j, lookup_congr x.0 j t.elements, l);
        same_buckets = r.same_buckets;
        size = λ once new. absurd (ground (arith, new x.0, traits.reflexive x.0, l));
      }

  -- In a valid table, with nodes that the list does not use, and as long as the table need not grow,
  -- `insert(first, second)` leaves a valid table with the same number of buckets in which a key that
  -- was there reads as before, a new key reads the value of the first pair with an equal key, and any
  -- other key reads nothing; if the keys are new and no two are equal, there are as many more elements
  -- as pairs.
  pub insert_range-RangeInserted :
      (memory : ℕ → Memory) (node : ℕ → ℕ) (xs : List (K × V)) (i : ℕ) (t : Table K V)
      → IsValid t
      → Supplies memory node i t.elements
      → t.size + length xs ≤ t.rehash_threshold
      → t.size + length xs < 2 ^ 64
      → (u : Table K V) × (insert_range memory i xs t ≡ ok tt u) × RangeInserted xs t u
  unfolding insert_range
  insert_range-RangeInserted memory node [] i t v s room small = (
    t,
    refl,
    record {
      valid = v;
      reads = λ j. or_else-none (lookup j t.elements);
      same_buckets = refl;
      size = λ a b. omega arith;
    },
  )
  insert_range-RangeInserted memory node (x ∷ xs) i t v s room small =
      elim (Cursor-cases (find_key x.0 t.elements)) [
        | inl (inl e) ↦ absurd (find_key-ne-null x.0 t.elements e)
        | inl (inr e) ↦
            let (m, run, em) =
              emplace-Emplaced x.0 x.1 t (memory i) (node i) v e (s.given i)
                (s.unused i (omega arith)) (omega (arith, room)) (omega (arith, small)) in
            let supplies : Supplies memory node (suc i) m.elements = record {
              given = s.given;
              apart = s.apart;
              unused = λ j le.
                  Inserts-has (node j) em.added
                  ∙ ground (arith, s.apart i j, s.unused j (omega arith));
            } in
            let (u, rest, r) =
              insert_range-RangeInserted memory node xs (suc i) m em.valid supplies
                (omega (arith, room, em.size, em.same_threshold)) (omega (arith, small, em.size)) in
            (u, rw run rest, RangeInserted-new (node i) x xs t m u e em r)
        | inr (q, e) ↦
            let supplies : Supplies memory node (suc i) t.elements = record {
              given = s.given;
              apart = s.apart;
              unused = λ j le. s.unused j (omega arith);
            } in
            let (u, rest, r) =
              insert_range-RangeInserted memory node xs (suc i) t v supplies (omega (arith, room))
                (omega (arith, small)) in
            (
              u,
              rw (emplace-found x.0 x.1 t (memory i) q v e) rest,
              RangeInserted-old q x xs t u v e r,
            )
      ]
