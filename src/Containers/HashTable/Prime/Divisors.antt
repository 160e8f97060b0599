-- ===== src/Containers/HashTable/Prime/Divisors.antt =====
-- `is_prime` decides primality: only 2, 3 and the numbers 6 k ± 1 up to the root need a test.
use renn.Prelude.{
  ℕ, zero, suc, ◌+◌, ◌*◌, ◌%◌, ◌/◌, ◌^◌, ◌<◌, ◌≤◌, ◌≡◌, ◌≢◌, ◌↔◌, inl, inr, true, ltb, leb, ◌==◌,
  u64, arith, Bool-cases, leb→le, dec_le, ◌-◌, refl, leb→le,
}
use mathlib.Core.Path.{subst, ap₂}
use native.Mathlib.Nat.{
  div-add-mod, dvd_trans, mod-eq-zero_of_dvd, dvd_of_mod-eq-zero, mul-mod_left, mul-le-mul,
  mul-le-mul_right, mul-le-mul_left,
}
use renn.Containers.HashTable.Prime.{no_divisor_from, is_prime}

abbrev pub IsPrime : ℕ → Type 0
IsPrime n = (1 < n) × ((d : ℕ) → 1 < d → d < n → n % d ≢ 0)

-- The root of a number below 2 ^ 62 is below 2 ^ 31, so no square in the loop wraps.
next_square : (n i : ℕ) → n < 2 ^ 62 → i * i ≤ n → (i + 6) * (i + 6) < 2 ^ 64
next_square n i small le = elim (Bool-cases (ltb i (2 ^ 31))) [
  | inl lo ↦ let six : i + 6 ≤ 2 ^ 31 + 5 = ground (arith, lo) in omega (arith, mul-le-mul six six)
  | inr hi ↦ let big : 2 ^ 31 ≤ i = ground (arith, hi) in absurd (omega (arith, mul-le-mul big big))
]

le_square : (x : ℕ) → x ≤ x * x
le_square zero = omega arith
le_square (suc x) = let one : 1 ≤ suc x = omega arith in omega (arith, mul-le-mul_right (suc x) one)

square_mono : (x y : ℕ) → x ≤ y → x * x ≤ y * y
square_mono x y h = mul-le-mul h h

-- One round whose square is at most `n`, and that found no divisor.
round-passes :
    (fuel n i : ℕ)
    → n < 2 ^ 62
    → i * i ≤ n
    → no_divisor_from (suc fuel) n i ≡ true
    → (n % i ≢ 0) × (n % (i + 2) ≢ 0) × (no_divisor_from fuel n (i + 6) ≡ true)
unfolding no_divisor_from
round-passes fuel n i small le h =
    let i_small : i < 2 ^ 62 = omega (arith, le_square i) in
    let sq : u64 (i * i) ≡ i * i = omega arith in
    let two : u64 (i + 2) ≡ i + 2 = omega arith in
    let six : u64 (i + 6) ≡ i + 6 = omega arith in ground (arith, sq, two, six)

-- The loop has tried every number 6 j past `i` whose square is at most `n`.
no_divisor_from_sound :
    (fuel n i : ℕ)
    → n < 2 ^ 62
    → n < i + 6 * fuel
    → no_divisor_from fuel n i ≡ true
    → (j : ℕ) → (i + 6 * j) * (i + 6 * j) ≤ n
    → (n % (i + 6 * j) ≢ 0) × (n % (i + 6 * j + 2) ≢ 0)
no_divisor_from_sound zero n i small enough h j le = absurd (omega (arith, le_square (i + 6 * j)))
no_divisor_from_sound (suc fuel) n i small enough h zero le =
    let e : i + 6 * 0 ≡ i = omega arith in
    let (a, b, c) = round-passes fuel n i small (omega arith) h in rw e (a, b)
no_divisor_from_sound (suc fuel) n i small enough h (suc j) le =
    let e : i + 6 * suc j ≡ i + 6 + 6 * j = omega arith in
    let before : i * i ≤ (i + 6 * suc j) * (i + 6 * suc j) =
      square_mono i (i + 6 * suc j) (omega arith) in
    let (a, b, c) = round-passes fuel n i small (omega arith) h in
    rw e (no_divisor_from_sound fuel n (i + 6) small (omega arith) c j (rw e at le))

no_divisor_from_complete :
    (fuel n i : ℕ)
    → n < 2 ^ 62
    → IsPrime n
    → 5 ≤ i
    → i * i < 2 ^ 64
    → no_divisor_from fuel n i ≡ true
unfolding no_divisor_from
no_divisor_from_complete zero n i small p five sq = refl
no_divisor_from_complete (suc fuel) n i small p five sq = elim (Bool-cases (leb (i * i) n)) [
  | inr out ↦ let e : u64 (i * i) ≡ i * i = omega arith in ground (arith, e, out)
  | inl within ↦
      let le : i * i ≤ n = leb→le _ _ within in
      let wide : i * 5 ≤ i * i = mul-le-mul_left i five in
      let e : u64 (i * i) ≡ i * i = omega arith in
      let two : u64 (i + 2) ≡ i + 2 = omega (arith, le_square i) in
      let six : u64 (i + 6) ≡ i + 6 = omega (arith, le_square i) in
      let rest : no_divisor_from fuel n (i + 6) ≡ true =
        no_divisor_from_complete fuel n (i + 6) small p (omega arith) (next_square n i small le) in
      ground (arith, e, two, six, rest, p.1 i, p.1 (i + 2), within)
]

-- A divisor of a divisor divides.
mod-zero_trans : (n s c : ℕ) → n % s ≡ 0 → s % c ≡ 0 → n % c ≡ 0
mod-zero_trans n s c h k =
    mod-eq-zero_of_dvd c (dvd_trans c (dvd_of_mod-eq-zero c k) (dvd_of_mod-eq-zero s h))

-- No number from 2 up to the root divides.
no_small_divisor :
    (n s : ℕ)
    → n < 2 ^ 62
    → n % 2 ≢ 0
    → n % 3 ≢ 0
    → no_divisor_from n n 5 ≡ true
    → 1 < s
    → s * s ≤ n
    → n % s ≢ 0
no_small_divisor n s small two three h one le d =
    let odd : s % 2 ≢ 0 = λ k. two (mod-zero_trans n s 2 d k) in
    let not3 : s % 3 ≢ 0 = λ k. three (mod-zero_trans n s 3 d k) in
    elim (Bool-cases (s % 6 == 5)) [
      | inl five ↦
          let e : 5 + 6 * (s / 6) ≡ s = ground (arith, five) in
          (no_divisor_from_sound n n 5 small (omega arith) h (s / 6) (rw e le)).0 (rw e d)
      | inr other ↦
          let j : ℕ = s / 6 - 1 in
          let r : s % 6 ≡ 1 = ground (arith, other) in
          let e : 5 + 6 * j + 2 ≡ s = omega arith in
          (no_divisor_from_sound n n 5 small (omega arith) h j
              (omega (arith, square_mono (5 + 6 * j) s (omega arith)))).1
            (rw e d)
    ]

cofactor-gt-one : (n d q : ℕ) → d < n → d * q ≡ n → 1 < q
cofactor-gt-one n d zero lt e = absurd (omega arith)
cofactor-gt-one n d (suc zero) lt e = absurd (omega arith)
cofactor-gt-one n d (suc (suc q)) lt e = omega arith

no_divisor :
    (n d : ℕ)
    → n < 2 ^ 62
    → n % 2 ≢ 0
    → n % 3 ≢ 0
    → no_divisor_from n n 5 ≡ true
    → 1 < d
    → d < n
    → n % d ≢ 0
no_divisor n d small two three h one lt z =
    let q : ℕ = n / d in
    let whole : d * q ≡ n = omega (arith, div-add-mod n d) in
    elim (dec_le d q) [
      | yes le ↦
          no_small_divisor n d small two three h one (omega (arith, mul-le-mul_left d le, whole)) z
      | no gt ↦
          let ge : q ≤ d = omega arith in
          let big : 1 < q = cofactor-gt-one n d q lt whole in
          no_small_divisor n q small two three h big (omega (arith, mul-le-mul_right q ge, whole))
            (subst (λ m. m % q ≡ 0) whole (mul-mod_left d q))
    ]

-- For n below 2^62, `is_prime` answers true exactly when n is above 1 and no number from 2 to n - 1
-- divides it.
pub is_prime-IsPrime : (n : ℕ) → n < 2 ^ 62 → (is_prime n ≡ true) ↔ IsPrime n
unfolding is_prime
is_prime-IsPrime n small = (sound, complete)
  where
    sound : is_prime n ≡ true → IsPrime n
    sound h = elim (dec_le n 3) [
      | yes le ↦ (
        ground arith,
        λ d one lt z.
            let two : d ≡ 2 = omega arith in
            let three : n ≡ 3 = omega arith in absurd (omega (arith, ap₂ ◌%◌ three two)),
      )
      | no gt ↦ (
        omega arith,
        λ d one lt. no_divisor n d small (ground arith) (ground arith) (ground arith) one lt,
      )
    ]

    complete : IsPrime n → is_prime n ≡ true
    complete p = ground (
      arith,
      p.1 2,
      p.1 3,
      λ (q : IsPrime n). no_divisor_from_complete n n 5 small q (omega arith) (omega arith),
    )
