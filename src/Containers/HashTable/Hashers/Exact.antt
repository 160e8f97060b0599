-- ===== src/Containers/HashTable/Hashers/Exact.antt =====
-- The keys whose equality is that of their bytes (integers, texts and pointers) under the hashers of
-- src/Containers/HashTable/Hashers.
use renn.Prelude.{ℕ, ◌≡◌, refl, ap, ◌∙◌, Bool, true, false, ◌&&◌, ◌==◌, [], ◌∷◌, arith}
use renn.Containers.HashTable.Key.{KeyTraits}
use renn.Containers.HashTable.Hashers.{Bytes}

abbrev pub same_bytes : Bytes → Bytes → Bool
same_bytes [] [] = true
same_bytes [] (y ∷ ys) = false
same_bytes (x ∷ xs) [] = false
same_bytes (x ∷ xs) (y ∷ ys) = x == y && same_bytes xs ys

pub same_bytes_refl : (a : Bytes) → same_bytes a a ≡ true
same_bytes_refl [] = refl
same_bytes_refl (x ∷ xs) = ground (arith, same_bytes_refl xs)

pub same_bytes_symm : (a b : Bytes) → same_bytes a b ≡ same_bytes b a
same_bytes_symm [] [] = refl
same_bytes_symm [] (y ∷ ys) = refl
same_bytes_symm (x ∷ xs) [] = refl
same_bytes_symm (x ∷ xs) (y ∷ ys) = ground (arith, same_bytes_symm xs ys)

pub same_bytes-eq : (a b : Bytes) → same_bytes a b ≡ true → a ≡ b
same_bytes-eq [] [] e = refl
same_bytes-eq [] (y ∷ ys) e = absurd (cc)
same_bytes-eq (x ∷ xs) [] e = absurd (cc)
same_bytes-eq (x ∷ xs) (y ∷ ys) e = ground (arith, same_bytes-eq xs ys)

pub same_bytes_trans :
    (a b c : Bytes) → same_bytes a b ≡ true → same_bytes b c ≡ true → same_bytes a c ≡ true
same_bytes_trans a b c e f = ap (λ x. same_bytes x c) (same_bytes-eq a b e) ∙ f

-- Whatever the hash is of the bytes.
abbrev pub exact_traits : (hash : Bytes → ℕ) → KeyTraits Bytes
exact_traits hash = record {
  hash = hash;
  key_eq = same_bytes;
  reflexive = same_bytes_refl;
  symmetric = same_bytes_symm;
  transitive = same_bytes_trans;
  one_hash = λ a b e. ap hash (same_bytes-eq a b e);
}
