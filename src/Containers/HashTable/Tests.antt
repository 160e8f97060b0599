-- ===== src/Containers/HashTable/Tests.antt =====
-- Runs of the table, and its theorems at concrete tables.
use renn.Prelude.{
  ℕ, suc, ◌*◌, ◌^◌, ◌<◌, ◌≡◌, true, false, some, List, [], ◌∷◌, arith, refl, if◌then◌else◌, ◌∙◌,
}
use renn.Prelude.Effect.{State, ok, pure, ◌>>=◌, ◌>>◌}
use renn.Prelude.Float32.{mul_trunc, div_ceil}
use renn.Containers.Nodes.{end, at, same, rest_from, insert_before}
use renn.Containers.HashTable.Fixtures.{
  int_traits, plenty, entry, one, two, one-IsValid, two-IsValid,
}
use renn.Containers.HashTable.{
  Table, empty_table, find, emplace, erase, contains, grow, link, rehash, load_threshold,
}
use renn.Containers.HashTable.Prime.{next_prime, search_prime}
use renn.Containers.HashTable.Prime.Next.{IsNextPrime, next_prime-IsNextPrime}
use renn.Containers.HashTable.Runs.{first_in}
use renn.Containers.HashTable.Lookup.{find_key}
use renn.Containers.HashTable.Insert.{insert_run}
use renn.Containers.HashTable.Invariant.{IsValid, find-find_key}
use renn.Containers.HashTable.Emplace.{linked, linked-IsValid, Emplaced, emplace-Emplaced}
use renn.Containers.HashTable.Erase.{Erased, erase-Erased}
use renn.Containers.HashTable.Rehash.{Rehashed, rehash-Rehashed, find-misses, rehash_count}
use renn.Containers.HashTable.Growth.{EmplacedGrown, emplace-EmplacedGrown}

-- Inserts the keys at the addresses from `p` on, each with its tenfold.
insert_all : ℕ → List ℕ → State (Table ℕ ℕ) (Unit {0})
insert_all p [] = pure tt
insert_all p (k ∷ ks) = emplace (plenty p) k (k * 10) >>= (λ _. insert_all (suc p) ks)

abbrev six_keys : List ℕ
six_keys = 0 ∷ 1 ∷ 17 ∷ 2 ∷ 4 ∷ 5 ∷ []

-- The sixth insertion grows the table from 7 buckets to 17, and the key 17 shares bucket 0 with
-- the key 0, which the key 1 follows: a key that was inserted is not found.
stored_key_is_lost :
    (t : Table ℕ ℕ) × ((insert_all 1 six_keys >> contains 17) empty_table ≡ ok false t)
    × (t.size ≡ 6)
unfolding insert_all emplace contains find grow link rehash empty_table search_prime next_prime
    load_threshold mul_trunc div_ceil same rest_from insert_before
stored_key_is_lost = (_, refl, refl)

-- A second insertion of the key then adds a second node for it.
lost_key_is_doubled :
    (t : Table ℕ ℕ) × ((insert_all 1 six_keys >> emplace (plenty 7) 17 1) empty_table
      ≡ ok (at 7, true) t)
    × (t.size ≡ 7)
unfolding insert_all emplace contains find grow link rehash empty_table search_prime next_prime
    load_threshold mul_trunc div_ceil same rest_from insert_before
lost_key_is_doubled = (_, refl, refl)

find-find_key_example : find 8 two ≡ ok (find_key 8 two.elements) two
find-find_key_example = find-find_key 8 two-IsValid

emplace-Emplaced_example :
    (u : Table ℕ ℕ) × (emplace (plenty 3) 7 70 two ≡ ok (at 3, true) u) × Emplaced 7 70 two 3 u
unfolding empty_table find_key insert_run load_threshold mul_trunc
emplace-Emplaced_example =
    emplace-Emplaced 7 70 two (plenty 3) 3 two-IsValid refl refl refl (omega arith) (omega arith)

erase-Erased_example :
    (u : Table ℕ ℕ) × (erase 0 two ≡ ok tt u)
    × Erased two 0 (if same (find_key 0 two.elements) end then 0 else 1) u
unfolding empty_table insert_run
erase-Erased_example = erase-Erased two two-IsValid (omega arith) 0

next_prime-IsNextPrime_example :
    (p : ℕ) × (next_prime 14 ≡ some p) × IsNextPrime 14 p × (p < 2 ^ 31)
next_prime-IsNextPrime_example =
    next_prime-IsNextPrime 14 (λ e. absurd (omega (arith, e))) (omega arith)

-- The five keys before the growth.
abbrev with_1 : Table ℕ ℕ
with_1 = linked 2 (entry 1) one

abbrev with_17 : Table ℕ ℕ
with_17 = linked 3 (entry 17) with_1

abbrev with_2 : Table ℕ ℕ
with_2 = linked 4 (entry 2) with_17

abbrev with_4 : Table ℕ ℕ
with_4 = linked 5 (entry 4) with_2

with_4-IsValid : IsValid with_4
unfolding empty_table find_key insert_run
with_4-IsValid =
    let v₂ : IsValid with_1 =
      linked-IsValid 2 (entry 1) one one-IsValid refl refl refl (omega arith) in
    let v₃ : IsValid with_17 = linked-IsValid 3 (entry 17) with_1 v₂ refl refl refl (omega arith) in
    let v₄ : IsValid with_2 = linked-IsValid 4 (entry 2) with_17 v₃ refl refl refl (omega arith) in
    linked-IsValid 5 (entry 4) with_2 v₄ refl refl refl (omega arith)

emplace-EmplacedGrown_example :
    (u : Table ℕ ℕ) × (emplace (plenty 6) 5 50 with_4 ≡ ok (at 6, true) u)
    × EmplacedGrown 5 50 with_4 6 u
unfolding empty_table find_key insert_run load_threshold mul_trunc
emplace-EmplacedGrown_example =
    emplace-EmplacedGrown 5 50 with_4 (plenty 6) 6 with_4-IsValid refl refl refl refl (omega arith)
      (omega arith) (omega arith) (omega arith)

abbrev rehashed : Table ℕ ℕ
rehashed = (rehash-Rehashed 17 with_4 with_4-IsValid.indexed).0

rehashed_buckets : rehash_count 17 with_4 ≡ 17
unfolding empty_table div_ceil
rehashed_buckets = refl

find-misses_example : find 17 rehashed ≡ ok end rehashed
unfolding empty_table find_key insert_run first_in
find-misses_example =
    let r : Rehashed 17 with_4 rehashed = (rehash-Rehashed 17 with_4 with_4-IsValid.indexed).2 in
    let seventeen : rehashed.bucket_count ≡ 17 = r.buckets ∙ rehashed_buckets in
    find-misses 17 rehashed [] ((3, entry 17) ∷ (4, entry 2) ∷ (5, entry 4) ∷ []) (1, entry 0)
      (2, entry 1) r.indexed r.elements refl (rw seventeen) refl (rw seventeen (omega arith))
