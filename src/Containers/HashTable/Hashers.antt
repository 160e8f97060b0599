-- ===== src/Containers/HashTable/Hashers.antt =====
-- src/Containers/HashTable/Hashers: the hashers that the table offers beside `std::hash`. The hash
-- functions of SMHasher, which are third-party code, are arguments: what they make of a string of
-- bytes. A key is the bytes that a hasher reads of it: its object representation, the characters of a
-- `std::string`, or the representation of a pointer's `uintptr_t`.
pub mod Exact
mod Tests
use renn.Prelude.{ℕ, zero, suc, ◌+◌, ◌*◌, ◌/◌, ◌%◌, ◌^◌, List, [], ◌∷◌}

-- What the type traits tell apart.
pub data Kind : Type 0 where
  integral : Kind
  floating : Kind
  text : Kind
  pointer : Kind
  other : Kind

abbrev pub Bytes : Type 0
Bytes = List ℕ

-- `CityHash<T>::operator()`; `city64` is `CityHash64`.
unfoldable pub city_hash : (city64 : Bytes → ℕ) → Kind → Bytes → ℕ
city_hash city64 integral key = city64 key
city_hash city64 floating key = city64 key
city_hash city64 text key = city64 key
city_hash city64 pointer key = 0
city_hash city64 other key = 0

-- `MurmurHash3<T>::operator()`; `murmur128` is `MurmurHash3_x64_128` with a seed, which fills two words.
unfoldable pub murmur_hash : (murmur128 : (seed : ℕ) → Bytes → ℕ × ℕ) → Kind → Bytes → ℕ
murmur_hash murmur128 integral key = (murmur128 0 key).0
murmur_hash murmur128 floating key = (murmur128 0 key).0
murmur_hash murmur128 text key = (murmur128 0 key).0
murmur_hash murmur128 pointer key = (murmur128 0 key).0
murmur_hash murmur128 other key = (murmur128 0 key).0
