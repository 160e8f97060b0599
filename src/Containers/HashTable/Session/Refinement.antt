-- ===== src/Containers/HashTable/Session/Refinement.antt =====
-- A table that need not grow is a dictionary for its clients.
use renn.Prelude.{
  ℕ, ◌+◌, ◌^◌, ◌≤◌, ◌<◌, ◌≡◌, refl, sym, ◌∙◌, inl, inr, ◌⊎◌, false, none, some, List, [], ◌∷◌,
  arith,
}
use renn.Prelude.Effect.{ok}
use renn.Containers.Nodes.{end, at, same, Nodes, has, Cursor-cases}
use renn.Containers.HashTable.Key.{KeyTraits}
use renn.Containers.HashTable.{Table, HashNode, empty_table, contains, clear}
use renn.Containers.HashTable.Lookup.{find_key, lookup}
use renn.Containers.HashTable.Remove.{find_key-lookup, find_key-ne-null}
use renn.Containers.HashTable.Invariant.{IsValid, find-find_key}
use renn.Containers.HashTable.Emplace.{Emplaced, emplace-Emplaced, emplace-found}
use renn.Containers.HashTable.Erase.{erase-Erased}
use renn.Containers.HashTable.Rehash.{empty_table-IsValid}
use renn.Containers.HashTable.Access.Values.{
  value_at-lookup, checked_at-lookup, try_emplace-emplace, subscript-found, subscript-new,
  lookup_congr,
}
use renn.Containers.HashTable.Session.{
  Call, emplaces, tries, subscripts, reads, tests, erases, clears, counts, tests_empty, supply,
  call, session, empty, size,
}
use renn.Containers.HashTable.Session.Dictionary.{
  Dictionary, empty_dictionary, set_entry, reply, replies, after, Fits,
}

module _ {ℓ} {K V : Type ℓ} ⦃traits : KeyTraits K⦄ where
  pub record Represents (d : Dictionary K V) (t : Table K V) : Type ℓ where
    pub valid : IsValid t
    pub entries : (k : K) → lookup k t.elements ≡ d.entry k
    pub same_size : t.size ≡ d.size
    pub same_room : t.rehash_threshold ≡ d.room
    pub bounded : d.size < 2 ^ 64

  -- A key has no node and no entry, or a node with its entry.
  abbrev Found : K → Dictionary K V → Table K V → Type ℓ
  Found k d t =
      ((find_key k t.elements ≡ end) × (d.entry k ≡ none))
      ⊎ ((q : ℕ) × (w : V) × (find_key k t.elements ≡ at q) × (d.entry k ≡ some w))

  Found-cases : (k : K) (d : Dictionary K V) (t : Table K V) → Represents d t → Found k d t
  Found-cases k d t h = elim (Cursor-cases (find_key k t.elements)) [
    | inl (inl e) ↦ absurd (find_key-ne-null k t.elements e)
    | inl (inr e) ↦ inl (e, sym (h.entries k) ∙ find_key-lookup k t.elements e)
    | inr (q, e) ↦
        let (w, l, r) = value_at-lookup k q t h.valid.indexed.distinct e in
        inr (q, w, e, sym (h.entries k) ∙ l)
  ]

  -- One entry more.
  Represents-Emplaced :
      (k : K) (w : V) (d : Dictionary K V) (t u : Table K V) (p : ℕ)
      → Represents d t
      → d.size + 1 < 2 ^ 64
      → Emplaced k w t p u
      → Represents (set_entry k (some w) (d.size + 1) d) u
  Represents-Emplaced k w d t u p h small em = record {
    valid = em.valid;
    entries = λ j. ground (arith, em.reads j, h.entries j);
    same_size = omega (arith, em.size, h.same_size);
    same_room = em.same_threshold ∙ h.same_room;
    bounded = small;
  }

  pub Represents-empty : Represents empty_dictionary empty_table
  unfolding empty_table lookup
  Represents-empty = record {
    valid = empty_table-IsValid;
    entries = λ k. refl;
    same_size = refl;
    same_room = refl;
    bounded = omega arith;
  }

module _ {ℓ} {K V : Type ℓ} ⦃traits : KeyTraits K⦄ (allocate : Nodes (HashNode K V) → ℕ)
    (unused : (xs : Nodes (HashNode K V)) → has (allocate xs) xs ≡ false) where
  -- What a call does, by what it does to the dictionary.
  abbrev Agrees : Call K V → Dictionary K V → Table K V → Type ℓ
  Agrees c d t =
      (u : Table K V) × (call allocate c t ≡ ok (reply c d).0 u) × Represents (reply c d).1 u

  emplaces-Agrees :
      (k : K) (w : V) (d : Dictionary K V) (t : Table K V)
      → Represents d t
      → (reply (emplaces k w) d).1.size ≤ (reply (emplaces k w) d).1.room
      → (reply (emplaces k w) d).1.size < 2 ^ 64
      → Agrees (emplaces k w) d t
  unfolding call
  emplaces-Agrees k w d t h le lt = elim (Found-cases k d t h) [
    | inl (e, n) ↦
        let room : d.size + 1 ≤ d.room = rw (n, reply) at le in
        let small : d.size + 1 < 2 ^ 64 = rw (n, reply) at lt in
        let (u, run, em) =
          emplace-Emplaced k w t (supply allocate t) (allocate t.elements) h.valid e refl
            (unused t.elements) (omega (arith, h.same_size, h.same_room))
            (omega (arith, h.same_size)) in
        (
          u,
          rw (n, reply, run) refl,
          rw (n, reply) (Represents-Emplaced k w d t u (allocate t.elements) h small em),
        )
    | inr (q, v, e, s) ↦ (
      t,
      rw (s, reply, emplace-found k w t (supply allocate t) q h.valid e) refl,
      rw (s, reply) h,
    )
  ]

  tries-Agrees :
      (k : K) (w : V) (d : Dictionary K V) (t : Table K V)
      → Represents d t
      → (reply (tries k w) d).1.size ≤ (reply (tries k w) d).1.room
      → (reply (tries k w) d).1.size < 2 ^ 64
      → Agrees (tries k w) d t
  unfolding call
  tries-Agrees k w d t h le lt =
      let (u, run, g) = emplaces-Agrees k w d t h le lt in
      (u, rw (try_emplace-emplace h.valid k (supply allocate t) w) run, g)

  subscripts-Agrees :
      (k : K) (w : V) (d : Dictionary K V) (t : Table K V)
      → Represents d t
      → (reply (subscripts k w) d).1.size ≤ (reply (subscripts k w) d).1.room
      → (reply (subscripts k w) d).1.size < 2 ^ 64
      → Agrees (subscripts k w) d t
  unfolding call
  subscripts-Agrees k w d t h le lt = elim (Found-cases k d t h) [
    | inl (e, n) ↦
        let room : d.size + 1 ≤ d.room = rw (n, reply) at le in
        let small : d.size + 1 < 2 ^ 64 = rw (n, reply) at lt in
        let (u, run, em) =
          subscript-new h.valid k (supply allocate t) (allocate t.elements) w e refl
            (unused t.elements) (omega (arith, h.same_size, h.same_room))
            (omega (arith, h.same_size)) in
        (
          u,
          rw (n, reply, run) refl,
          rw (n, reply) (Represents-Emplaced k w d t u (allocate t.elements) h small em),
        )
    | inr (q, v, e, s) ↦
        let (x, l, run) = subscript-found h.valid k (supply allocate t) q w e in
        let same_value : x ≡ v = ground (arith, l, h.entries k, s) in
        (t, rw (s, reply, run, same_value) refl, rw (s, reply) h)
  ]

  reads-Agrees :
      (k : K) (d : Dictionary K V) (t : Table K V) → Represents d t → Agrees (reads k) d t
  unfolding call
  reads-Agrees k d t h = elim (Found-cases k d t h) [
    | inl (e, n) ↦
        (t, rw (n, reply, checked_at-lookup h.valid k, h.entries k, n) refl, rw (n, reply) h)
    | inr (q, v, e, s) ↦
        (t, rw (s, reply, checked_at-lookup h.valid k, h.entries k, s) refl, rw (s, reply) h)
  ]

  tests-Agrees :
      (k : K) (d : Dictionary K V) (t : Table K V) → Represents d t → Agrees (tests k) d t
  unfolding call contains same
  tests-Agrees k d t h = elim (Found-cases k d t h) [
    | inl (e, n) ↦ (t, rw (n, reply, find-find_key k h.valid, e) refl, rw (n, reply) h)
    | inr (q, v, e, s) ↦ (t, rw (s, reply, find-find_key k h.valid, e) refl, rw (s, reply) h)
  ]

  erases-Agrees :
      (k : K) (d : Dictionary K V) (t : Table K V) → Represents d t → Agrees (erases k) d t
  unfolding call same
  erases-Agrees k d t h =
      let (u, run, er) = erase-Erased t h.valid (omega (arith, h.same_size, h.bounded)) k in
      elim (Found-cases k d t h) [
        | inl (e, n) ↦
            let none_gone : u.size + 0 ≡ t.size = rw e at er.size in
            (
              u,
              rw (n, reply, run) refl,
              rw (n, reply)
                  (record {
                    valid = er.valid;
                    entries = λ j. ground (
                      arith,
                      er.reads j,
                      h.entries j,
                      h.entries k,
                      n,
                      lookup_congr k j t.elements,
                    );
                    same_size = omega (arith, none_gone, h.same_size);
                    same_room = er.same_threshold ∙ h.same_room;
                    bounded = h.bounded;
                  }),
            )
        | inr (q, v, e, s) ↦
            let one_gone : u.size + 1 ≡ t.size = rw e at er.size in
            (
              u,
              rw (s, reply, run) refl,
              rw (s, reply)
                  (record {
                    valid = er.valid;
                    entries = λ j. ground (arith, er.reads j, h.entries j);
                    same_size = omega (arith, one_gone, h.same_size);
                    same_room = er.same_threshold ∙ h.same_room;
                    bounded = omega (arith, h.bounded);
                  }),
            )
      ]

  clears-Agrees : (d : Dictionary K V) (t : Table K V) → Agrees clears d t
  unfolding call clear empty_table
  clears-Agrees d t = (empty_table, refl, Represents-empty)

  call-Agrees :
      (c : Call K V) (d : Dictionary K V) (t : Table K V)
      → Represents d t
      → (reply c d).1.size ≤ (reply c d).1.room
      → (reply c d).1.size < 2 ^ 64
      → Agrees c d t
  unfolding call size empty
  call-Agrees (emplaces k w) d t h le lt = emplaces-Agrees k w d t h le lt
  call-Agrees (tries k w) d t h le lt = tries-Agrees k w d t h le lt
  call-Agrees (subscripts k w) d t h le lt = subscripts-Agrees k w d t h le lt
  call-Agrees (reads k) d t h le lt = reads-Agrees k d t h
  call-Agrees (tests k) d t h le lt = tests-Agrees k d t h
  call-Agrees (erases k) d t h le lt = erases-Agrees k d t h
  call-Agrees clears d t h le lt = clears-Agrees d t
  call-Agrees counts d t h le lt = (t, rw h.same_size refl, h)
  call-Agrees tests_empty d t h le lt = (t, rw h.same_size refl, h)

  -- With memory and an allocator that never gives a node of the list, let a table represent a
  -- dictionary: it is valid, its entries, its size and its threshold are the dictionary's, and the
  -- size is below 2^64. Then every sequence of calls of `emplace`, `try_emplace`, `operator[]`,
  -- `at`, `contains`, `erase`, `clear`, `size` and `empty` through which the dictionary keeps a size
  -- within its threshold and below 2^64 returns or throws at each call what the dictionary replies,
  -- ends normally, and leaves a table that represents the dictionary after the calls.
  pub session-dictionary :
      (cs : List (Call K V)) (d : Dictionary K V) (t : Table K V)
      → Represents d t
      → Fits cs d
      → (u : Table K V) × (session allocate cs t ≡ ok (replies cs d) u) × Represents (after cs d) u
  unfolding session
  session-dictionary [] d t h f = (t, refl, h)
  session-dictionary (c ∷ cs) d t h (le, lt, f) =
      let (m, run, g) = call-Agrees c d t h le lt in
      let (u, rest, k) = session-dictionary cs (reply c d).1 m g f in (u, rw (run, rest) refl, k)
