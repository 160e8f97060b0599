-- ===== src/Containers/HashTable/Prime.antt =====
-- `is_prime` and `next_prime` of src/Containers/HashTable/HashTable.hpp.
pub mod Divisors
pub mod Search
pub mod Next
use renn.Prelude.{
  ℕ, zero, suc, ◌+◌, ◌*◌, ◌%◌, ◌^◌, Bool, true, false, ◌||◌, Option, none, some, leb, ltb, ◌==◌,
  if◌then◌else◌, u64,
}

-- The trial divisions by `i` and `i + 2`, `i = 5, 11, 17, …`.
unfoldable pub no_divisor_from : (fuel n i : ℕ) → Bool
no_divisor_from zero n i = true
no_divisor_from (suc fuel) n i =
    let next = no_divisor_from fuel n (u64 (i + 6)) in
    if leb (u64 (i * i)) n
    then (if n % i == 0 || n % u64 (i + 2) == 0 then false else next)
    else true

-- The square of `i` passes `n` before `n` rounds.
unfoldable pub is_prime : ℕ → Bool
unfolding no_divisor_from
is_prime n =
    if leb n 1
    then false
    else if leb n 3
    then true
    else if n % 2 == 0 || n % 3 == 0
    then false
    else no_divisor_from n n 5

-- `while (!found)`: the first prime behind `n`, unless none comes within `fuel` rounds.
unfoldable pub search_prime : (fuel n : ℕ) → Option ℕ
unfolding is_prime
search_prime zero n = none
search_prime (suc fuel) n =
    let prime = u64 (n + 1) in
    let rest = search_prime fuel prime in if is_prime prime then some prime else rest

-- 2 ^ 31 - 1 is a prime.
unfoldable pub next_prime : ℕ → Option ℕ
next_prime n = if leb n 2 then some 2 else search_prime (2 ^ 31) n
