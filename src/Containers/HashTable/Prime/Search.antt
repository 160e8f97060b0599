-- ===== src/Containers/HashTable/Prime/Search.antt =====
-- `next_prime` ends, at the first prime behind its argument.
use renn.Prelude.{
  ℕ, zero, suc, ◌+◌, ◌-◌, ◌^◌, ◌<◌, ◌≤◌, ◌≡◌, inl, inr, true, false, some, u64, arith, Bool-cases,
  refl, dec_le, ◌∙◌, leb,
}
use renn.Containers.HashTable.Prime.{is_prime, search_prime, next_prime}

-- `p` is the first number behind `n` that passes the test.
pub record IsNext (n p : ℕ) : Type 0 where
  pub behind : n < p
  pub prime : is_prime p ≡ true
  pub first : (q : ℕ) → n < q → q < p → is_prime q ≡ false

IsNext-suc : (n p : ℕ) → is_prime (n + 1) ≡ false → IsNext (n + 1) p → IsNext n p
IsNext-suc n p miss s = record {
  behind = omega (arith, s.behind);
  prime = s.prime;
  first = λ q lo hi. elim (dec_le (n + 2) q) [
    | yes far ↦ s.first q (omega arith) hi
    | no near ↦ let e : q ≡ n + 1 = omega arith in rw e miss
  ];
}

search_prime-suc :
    (fuel n : ℕ)
    → n + 1 < 2 ^ 64
    → is_prime (n + 1) ≡ false
    → search_prime (suc fuel) n ≡ search_prime fuel (n + 1)
unfolding search_prime
search_prime-suc fuel n small miss = let e : u64 (n + 1) ≡ n + 1 = omega arith in rw (e, miss)

-- The search ends at the latest at any prime that the fuel reaches.
search_prime-IsNext :
    (fuel n bound : ℕ)
    → n < bound
    → bound ≤ n + fuel
    → bound < 2 ^ 64
    → is_prime bound ≡ true
    → (p : ℕ) × (search_prime fuel n ≡ some p) × IsNext n p × (p ≤ bound)
unfolding search_prime
search_prime-IsNext zero n bound lt reach small prime = absurd (omega arith)
search_prime-IsNext (suc fuel) n bound lt reach small prime =
    let e : u64 (n + 1) ≡ n + 1 = omega arith in
    elim (Bool-cases (is_prime (n + 1))) [
      | inl now ↦ (
        n + 1,
        rw (e, now),
        record { behind = omega arith; prime = now; first = λ q lo hi. absurd (omega arith) },
        omega arith,
      )
      | inr later ↦ elim (dec_le bound (n + 1)) [
        | yes at_bound ↦ let same : n + 1 ≡ bound = omega arith in absurd (cc)
        | no more ↦
            let (p, found, next, le) =
              search_prime-IsNext fuel (n + 1) bound (omega arith) (omega arith) small prime in
            (p, search_prime-suc fuel n (omega arith) later ∙ found, IsNext-suc n p later next, le)
      ]
    ]

-- The eighth Mersenne prime, by its 7,723 trial divisions.
mersenne : is_prime (2 ^ 31 - 1) ≡ true
unfolding is_prime
mersenne = refl

-- For n above 2 and below 2^31 - 1, `next_prime` ends and returns a number above n and below 2^31
-- that passes `is_prime`, and no number between them passes.
pub next_prime-IsNext :
    (n : ℕ) → 2 < n → n < 2 ^ 31 - 1 → (p : ℕ) × (next_prime n ≡ some p) × IsNext n p × (p < 2 ^ 31)
unfolding next_prime
next_prime-IsNext n big small =
    let (p, found, next, le) =
      search_prime-IsNext (2 ^ 31) n (2 ^ 31 - 1) small (omega arith) (omega arith) mersenne in
    let gt : leb n 2 ≡ false = ground arith in (p, rw gt found, next, omega (arith, le))
