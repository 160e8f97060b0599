-- ===== src/Prelude/Float32.antt =====
-- The single-precision arithmetic of `bucket_count_ * MAX_LOAD_FACTOR` and
-- `size_ / MAX_LOAD_FACTOR` in Containers/HashTable/HashTable.hpp, on exact integers.
-- A float is an integer of at most 24 bits times a power of two; a result is rounded to the
-- nearest float, ties to even.
use Prim.Native.Nat.{ℕ, zero, suc, ◌+◌, ◌-◌, ◌*◌, ◌/◌, ◌%◌, ◌^◌}
use mathlib.Core.Bool.{◌&&◌, ◌||◌}
use renn.Prelude.Tests.{ltb, ◌==◌, if◌then◌else◌}

-- `m / k` rounded to an integer, ties to even.
round_div : ℕ → ℕ → ℕ
round_div m k =
    let q = m / k in let r = 2 * (m % k) in if ltb r k || (r == k && q % 2 == 0) then q else q + 1

-- `n / d` rounded to 24 significant bits, for a quotient that is an integer below 2 ^ 24 or at
-- least 2 ^ 23: `unit` doubles until the quotient by it has 24 bits.
round_from : (fuel n d unit : ℕ) → ℕ
unfolding round_div
round_from zero n d unit = round_div n (d * unit) * unit
round_from (suc fuel) n d unit =
    let coarser = round_from fuel n d (2 * unit) in
    if ltb (n / (d * unit)) (2 ^ 24) then round_div n (d * unit) * unit else coarser

-- The exponents of single precision end at 127.
abbrev max_exponent : ℕ
max_exponent = 127

-- A `size_t` as a float.
unfoldable pub float_of : ℕ → ℕ
unfolding round_from
float_of n = round_from max_exponent n 1 1

-- `static_cast<size_t>(n * c)`, where the float constant `c` is `num / 2 ^ 24`.
unfoldable pub mul_trunc : (n num : ℕ) → ℕ
unfolding float_of
mul_trunc n num = round_from max_exponent (float_of n * num) 1 1 / 2 ^ 24

-- `static_cast<size_t>(std::ceil(n / c))`.
unfoldable pub div_ceil : (n num : ℕ) → ℕ
unfolding float_of
div_ceil n num = (round_from max_exponent (float_of n * 2 ^ 48) num 1 + 2 ^ 24 - 1) / 2 ^ 24
