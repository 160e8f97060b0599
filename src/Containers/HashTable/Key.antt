-- ===== src/Containers/HashTable/Key.antt =====
-- The template parameters `Hash` and `KeyEqual` of `HashTable`, with what the standard asks of
-- them: an equivalence, and one hash for equal keys.
use renn.Prelude.{ℕ, ◌≡◌, Bool, true, arith}

pub record KeyTraits {ℓ} (K : Type ℓ) : Type ℓ where
  pub hash : K → ℕ
  pub key_eq : K → K → Bool
  pub reflexive : (a : K) → key_eq a a ≡ true
  pub symmetric : (a b : K) → key_eq a b ≡ key_eq b a
  pub transitive : (a b c : K) → key_eq a b ≡ true → key_eq b c ≡ true → key_eq a c ≡ true
  pub one_hash : (a b : K) → key_eq a b ≡ true → hash a ≡ hash b

-- Equal keys compare alike.
pub key_eq_congr {ℓ} :
    {K : Type ℓ} ⦃traits : KeyTraits K⦄ (a b c : K)
    → traits.key_eq a b ≡ true
    → traits.key_eq a c ≡ traits.key_eq b c
key_eq_congr ⦃traits⦄ a b c h =
    ground (arith, traits.symmetric a b, traits.transitive a b c, traits.transitive b a c)
