-- ===== src/Containers/HashTable/Hashers/Tests.antt =====
-- The hashers of src/Containers/HashTable/Hashers over a sum of bytes, and a table with such keys.
use renn.Prelude.{ℕ, suc, ◌+◌, ◌*◌, ◌≡◌, ◌<◌, refl, true, List, [], ◌∷◌, arith}
use renn.Prelude.Effect.{ok}
use renn.Prelude.Float32.{mul_trunc}
use renn.Containers.Nodes.{Nodes, has}
use renn.Containers.HashTable.Key.{KeyTraits}
use renn.Containers.HashTable.{Table, HashNode, empty_table, load_threshold}
use renn.Containers.HashTable.Session.{Call, emplaces, reads, tests, erases, session}
use renn.Containers.HashTable.Session.Dictionary.{empty_dictionary, replies, after}
use renn.Containers.HashTable.Session.Refinement.{Represents, Represents-empty, session-dictionary}
use renn.Containers.HashTable.Hashers.{Bytes, text, pointer, city_hash}
use renn.Containers.HashTable.Hashers.Exact.{exact_traits}

abbrev weighted : ℕ → Bytes → ℕ
weighted seed [] = seed
weighted seed (x ∷ xs) = x + 3 * weighted seed xs

-- Pointers have no hash of their own under `CityHash`.
pointers_share_a_bucket :
    (p q : Bytes) → city_hash (weighted 0) pointer p ≡ city_hash (weighted 0) pointer q
unfolding city_hash
pointers_share_a_bucket p q = refl

abbrev bound : Nodes (HashNode Bytes ℕ) → ℕ
bound [] = 1
bound (x ∷ xs) = suc (x.0 + bound xs)

lt-bound : (p : ℕ) (xs : Nodes (HashNode Bytes ℕ)) → has p xs ≡ true → p < bound xs
lt-bound p [] h = absurd (cc)
lt-bound p (x ∷ xs) h = ground (arith, lt-bound p xs)

abbrev text_traits : KeyTraits Bytes
unfolding city_hash
text_traits = exact_traits (city_hash (weighted 0) text)

-- "ab" and "b" as keys.
abbrev calls : List (Call Bytes ℕ)
calls =
    emplaces (97 ∷ 98 ∷ []) 1
    ∷ emplaces (98 ∷ []) 2
    ∷ reads (97 ∷ 98 ∷ [])
    ∷ erases (98 ∷ [])
    ∷ tests (98 ∷ [])
    ∷ []

table_of_texts :
    (u : Table Bytes ℕ) × (session ⦃traits = text_traits⦄ bound calls empty_table
      ≡ ok (replies ⦃traits = text_traits⦄ calls empty_dictionary) u)
    × Represents ⦃traits = text_traits⦄ (after ⦃traits = text_traits⦄ calls empty_dictionary) u
unfolding load_threshold mul_trunc text_traits
table_of_texts =
    session-dictionary ⦃traits = text_traits⦄ bound (λ xs. ground (arith, lt-bound (bound xs) xs))
      calls empty_dictionary empty_table (Represents-empty ⦃traits = text_traits⦄) (omega arith)
