-- ===== src/Containers/HashTable/Prime/Next.antt =====
-- `next_prime` of src/Containers/HashTable/HashTable.hpp by the arithmetic of primes.
use renn.Prelude.{ℕ, ◌-◌, ◌^◌, ◌<◌, ◌≡◌, ◌≢◌, refl, some, arith, dec_le}
use renn.Containers.HashTable.Prime.{is_prime, next_prime}
use renn.Containers.HashTable.Prime.Divisors.{IsPrime, is_prime-IsPrime}
use renn.Containers.HashTable.Prime.Search.{IsNext, next_prime-IsNext}

-- The least prime behind a number.
pub record IsNextPrime (n p : ℕ) : Type 0 where
  pub behind : n < p
  pub prime : IsPrime p
  pub least : (q : ℕ) → n < q → q < p → ¬ (IsPrime q)

IsNext-IsNextPrime : (n p : ℕ) → p < 2 ^ 31 → IsNext n p → IsNextPrime n p
IsNext-IsNextPrime n p lt s = record {
  behind = s.behind;
  prime = (is_prime-IsPrime p (omega (arith, lt))).0 s.prime;
  least = λ q lo hi h.
      let passes = (is_prime-IsPrime q (omega (arith, lt, hi))).1 h in
      let fails = s.first q lo hi in absurd (cc);
}

two-IsPrime : IsPrime 2
unfolding is_prime
two-IsPrime = (is_prime-IsPrime 2 (omega arith)).0 refl

two-IsNextPrime : (n : ℕ) → n < 2 → IsNextPrime n 2
two-IsNextPrime n lt = record {
  behind = lt;
  prime = two-IsPrime;
  least = λ q lo hi h. let above = h.0 in absurd (omega arith);
}

next_prime-two : (n : ℕ) → n < 2 → next_prime n ≡ some 2
unfolding next_prime
next_prime-two n lt = ground arith

-- For every n below 2^31 - 1 but 2, for which it returns 2, `next_prime` ends and returns the least
-- prime above n, which is below 2^31.
pub next_prime-IsNextPrime :
    (n : ℕ)
    → n ≢ 2
    → n < 2 ^ 31 - 1
    → (p : ℕ) × (next_prime n ≡ some p) × IsNextPrime n p × (p < 2 ^ 31)
next_prime-IsNextPrime n ne small = elim (dec_le n 2) [
  | yes low ↦
      let lt : n < 2 = omega (arith, ne, low) in
      (2, next_prime-two n lt, two-IsNextPrime n lt, omega arith)
  | no high ↦
      let (p, found, next, lt) = next_prime-IsNext n (omega (arith, high)) small in
      (p, found, IsNext-IsNextPrime n p lt next, lt)
]
