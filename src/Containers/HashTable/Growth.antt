-- ===== src/Containers/HashTable/Growth.antt =====
-- `emplace` in a table that grows: a larger prime number of buckets over the same elements.
use renn.Prelude.{
  ◌⊎◌, inl, inr, ℕ, ◌+◌, ◌-◌, ◌*◌, ◌^◌, ◌<◌, ◌≡◌, Bool, true, false, some, u64, ltb, leb, arith,
  refl, if◌then◌else◌, ◌∙◌, ap,
}
use mathlib.Core.Path.{subst}
use renn.Prelude.Effect.{ok, throws, bad_alloc}
use renn.Containers.Nodes.{end, at, has, same}
use renn.Containers.HashTable.Key.{KeyTraits}
use renn.Containers.HashTable.{Table, HashNode, Memory, rehash, grow, swallow, emplace, find}
use renn.Containers.HashTable.Prime.{next_prime}
use renn.Containers.HashTable.Prime.Search.{IsNext, next_prime-IsNext}
use renn.Containers.HashTable.Runs.{IsGrouped}
use renn.Containers.HashTable.FirstRun.{reached, scan-first_run, reached-insert_run, reached-place}
use renn.Containers.Nodes.Inserts.{Inserts}
use renn.Containers.HashTable.Lookup.{find_key, home}
use renn.Containers.HashTable.Invariant.{IsIndexed, IsValid, find-find_key, find-scan}
use renn.Containers.HashTable.Emplace.{
  linked, link-linked, linked-IsIndexed, linked-IsValid, inserted,
}
use renn.Containers.HashTable.Rehash.{Rehashed, rehash-Rehashed, rehash-fails}

module _ {ℓ} {K V : Type ℓ} (t : Table K V) (x : IsIndexed t) (few : t.bucket_count < 2 ^ 30 - 1)
    (some_buckets : 1 < t.bucket_count) where
  -- A prime behind twice the buckets, and the elements under as many buckets at least.
  pub record Grown (u : Table K V) : Type ℓ where
    pub count : ℕ
    pub next : IsNext (t.bucket_count * 2) count
    pub rehashed : Rehashed count t u

  doubled : u64 (t.bucket_count * 2) ≡ t.bucket_count * 2
  doubled = omega arith

  grow-rehash :
      (array : Bool) (p : ℕ)
      → next_prime (t.bucket_count * 2) ≡ some p
      → grow array t ≡ swallow (rehash array p t)
  unfolding grow
  grow-rehash array p found = rw (doubled, found, grow)

  pub grow-Grown : (u : Table K V) × (grow true t ≡ ok tt u) × Grown u
  grow-Grown =
      let (p, found, next, small) =
        next_prime-IsNext (t.bucket_count * 2) (omega arith) (omega arith) in
      let (u, run, rehashed) = rehash-Rehashed p t x in
      (
        u,
        rw (grow-rehash true p found, run),
        record { count = p; next = next; rehashed = rehashed },
      )

  -- In a table with more than 1 and fewer than 2^30 - 1 buckets, each of which refers to the first
  -- of its nodes, if the array cannot be allocated, the growth in `emplace` throws `bad_alloc`
  -- where there are at least as many elements as buckets and goes on where there are fewer; the
  -- table stays as it was in both cases.
  pub grow-fails :
      grow false t ≡ (if leb t.bucket_count t.size then throws bad_alloc t else ok tt t)
  grow-fails =
      let (p, found, next, small) =
        next_prime-IsNext (t.bucket_count * 2) (omega arith) (omega arith) in
      let fails : rehash false p t ≡ throws bad_alloc t =
        rehash-fails p t (omega (arith, next.behind)) in
      rw (grow-rehash false p found, fails)

module _ {ℓ} {K V : Type ℓ} ⦃traits : KeyTraits K⦄ (t : Table K V) where
  find-linked :
      (p : ℕ) (n : HashNode K V)
      → IsIndexed t
      → has p t.elements ≡ false
      → t.size + 1 < 2 ^ 64
      → n.cached_hash ≡ traits.hash n.key
      → find_key n.key t.elements ≡ end
      → (j : K)
      → find j (linked p n t)
        ≡ ok
            (if traits.key_eq n.key j then at p else reached t.bucket_count j t.elements)
            (linked p n t)
  find-linked p n x fresh small hashed absent j =
      find-scan j (linked-IsIndexed p n t x fresh small)
      ∙ ap (λ c. ok c (linked p n t))
          (scan-first_run t.bucket_count (home t.bucket_count j) j (linked p n t).elements
            ∙ reached-insert_run t.bucket_count j (p, n) t.elements hashed absent)

module _ {ℓ} {K V : Type ℓ} ⦃traits : KeyTraits K⦄ (k : K) (w : V) (t : Table K V) where
  -- What an insertion with growth leaves: all the nodes, of which `find` reaches those that the new
  -- number of buckets keeps together.
  pub record EmplacedGrown (p : ℕ) (u : Table K V) : Type ℓ where
    pub indexed : IsIndexed u
    pub size : u.size ≡ t.size + 1
    pub buckets : t.bucket_count * 2 < u.bucket_count
    pub added :
        Inserts
          (p, record { key = k; value = w; cached_hash = traits.hash k })
          t.elements
          u.elements
    pub finds :
        (j : K)
        → find j u ≡ ok (if traits.key_eq k j then at p else reached u.bucket_count j t.elements) u
    pub found_or_lost :
        (j : K)
        → traits.key_eq k j ≡ false
        → (find j u ≡ ok end u) ⊎ (find j u ≡ ok (find_key j t.elements) u)
    pub valid : IsGrouped u.bucket_count t.elements → IsValid u

  -- Let the key be new to a valid table with more than 1 and fewer than 2^30 - 1 buckets, with
  -- memory for the array and a node that the list does not use, and let one more element exceed the
  -- threshold and stay below 2^64. Then `emplace` returns the new node and true; the number of
  -- buckets more than doubles, every bucket refers to the first of its nodes, the size is one more,
  -- and the new node stands among the old ones, which keep their order and contents. `find` then
  -- returns the new node for the keys equal to the new one. For any other key it returns the first
  -- old node with an equal key among those from the first of the key's bucket, under the new number
  -- of buckets, up to the next of another bucket: what it is to find in the old list, or the end,
  -- although the list can have the key behind. The table is valid, so that `find` misses nothing,
  -- if the old nodes of each bucket stand together under the new number.
  pub emplace-EmplacedGrown :
      (m : Memory) (p : ℕ)
      → IsValid t
      → find_key k t.elements ≡ end
      → m.array ≡ true
      → m.node ≡ some p
      → has p t.elements ≡ false
      → t.rehash_threshold < t.size + 1
      → t.size + 1 < 2 ^ 64
      → 1 < t.bucket_count
      → t.bucket_count < 2 ^ 30 - 1
      → (u : Table K V) × (emplace m k w t ≡ ok (at p, true) u) × EmplacedGrown p u
  unfolding emplace same
  emplace-EmplacedGrown m p v absent array node fresh full small two few =
      let n : HashNode K V = record { key = k; value = w; cached_hash = traits.hash k } in
      let growth : ltb t.rehash_threshold (u64 (t.size + 1)) ≡ true = ground arith in
      let (g, run, grown) = grow-Grown t v.indexed few two in
      let e : g.elements ≡ t.elements = grown.rehashed.elements in
      let now_fresh : has p g.elements ≡ false = rw e fresh in
      let now_absent : find_key k g.elements ≡ end = rw e absent in
      let room : g.size + 1 < 2 ^ 64 = rw grown.rehashed.size small in
      let x : IsIndexed g = grown.rehashed.indexed in
      let finds : (j : K)
          → find j (linked p n g)
            ≡ ok (if traits.key_eq k j then at p else reached g.bucket_count j t.elements)
                (linked p n g) =
        λ j.
          find-linked g p n x now_fresh room refl now_absent j
          ∙ ap
              (λ xs.
                ok (if traits.key_eq k j then at p else reached g.bucket_count j xs) (linked p n g))
              e in
      (
        linked p n g,
        rw (find-find_key k v, absent, growth, array, run, node) (link-linked p n g x),
        record {
          indexed = linked-IsIndexed p n g x now_fresh room;
          size = omega (arith, grown.rehashed.size);
          added = subst (λ xs. Inserts (p, n) xs (linked p n g).elements) e (inserted p n g x);
          finds = finds;
          found_or_lost = λ j other. elim (reached-place g.bucket_count j t.elements v.hashed) [
            | inl lost ↦ inl (rw (other, lost) at (finds j))
            | inr found ↦ inr (rw (other, found) at (finds j))
          ];
          buckets = rw grown.rehashed.buckets (omega (arith, grown.next.behind));
          valid = λ together.
              linked-IsValid p n g
                (record {
                  indexed = x;
                  hashed = rw e v.hashed;
                  unique = rw e v.unique;
                  grouped = rw e together;
                })
                refl now_fresh now_absent room;
        },
      )
