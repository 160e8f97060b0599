-- ===== src/Containers/HashTable/Session/Dictionary.antt =====
-- What a hash table promises its clients: a function from keys to values, and a count.
use renn.Prelude.{
  ℕ, ◌+◌, ◌-◌, ◌^◌, ◌≤◌, ◌<◌, true, false, Option, none, some, List, [], ◌∷◌, ◌==◌, if◌then◌else◌,
}
use renn.Prelude.Effect.{out_of_range}
use renn.Containers.HashTable.Key.{KeyTraits}
use renn.Containers.HashTable.{load_threshold, min_bucket_count}
use renn.Containers.HashTable.Session.{
  Call, emplaces, tries, subscripts, reads, tests, erases, clears, counts, tests_empty, Reply,
  inserted, value, thrown, answer, count, finished,
}

-- `room` is how many elements the present number of buckets is meant for.
pub record Dictionary {ℓ} (K V : Type ℓ) : Type ℓ where
  pub entry : K → Option V
  pub size : ℕ
  pub room : ℕ

abbrev pub empty_dictionary {ℓ} : {K V : Type ℓ} → Dictionary K V
empty_dictionary = record { entry = λ k. none; size = 0; room = load_threshold min_bucket_count }

module _ {ℓ} {K V : Type ℓ} ⦃traits : KeyTraits K⦄ where
  -- The dictionary with another entry at the keys equal to `k`.
  abbrev pub set_entry : K → Option V → ℕ → Dictionary K V → Dictionary K V
  set_entry k o n d = record d { entry = λ j. if traits.key_eq k j then o else d.entry j; size = n }

  -- The first value of a key stays.
  abbrev pub reply : Call K V → Dictionary K V → Reply V × Dictionary K V
  reply (emplaces k v) d = elim (d.entry k) [
    | none ↦ (inserted true, set_entry k (some v) (d.size + 1) d)
    | some w ↦ (inserted false, d)
  ]
  reply (tries k v) d = elim (d.entry k) [
    | none ↦ (inserted true, set_entry k (some v) (d.size + 1) d)
    | some w ↦ (inserted false, d)
  ]
  reply (subscripts k default) d = elim (d.entry k) [
    | none ↦ (value default, set_entry k (some default) (d.size + 1) d)
    | some w ↦ (value w, d)
  ]
  reply (reads k) d = elim (d.entry k) [ none ↦ (thrown out_of_range, d) | some w ↦ (value w, d) ]
  reply (tests k) d = elim (d.entry k) [ none ↦ (answer false, d) | some w ↦ (answer true, d) ]
  reply (erases k) d = elim (d.entry k) [
    | none ↦ (finished, d)
    | some w ↦ (finished, set_entry k none (d.size - 1) d)
  ]
  reply clears d = (finished, empty_dictionary)
  reply counts d = (count d.size, d)
  reply tests_empty d = (answer (d.size == 0), d)

  abbrev pub replies : List (Call K V) → Dictionary K V → List (Reply V)
  replies [] d = []
  replies (c ∷ cs) d = (reply c d).0 ∷ replies cs (reply c d).1

  abbrev pub after : List (Call K V) → Dictionary K V → Dictionary K V
  after [] d = d
  after (c ∷ cs) d = after cs (reply c d).1

  -- The dictionary is never larger than its room.
  abbrev pub Fits : List (Call K V) → Dictionary K V → Type 0
  Fits [] d = Unit
  Fits (c ∷ cs) d =
      ((reply c d).1.size ≤ (reply c d).1.room)
      × ((reply c d).1.size < 2 ^ 64)
      × Fits cs (reply c d).1
