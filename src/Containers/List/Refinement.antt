-- ===== src/Containers/List/Refinement.antt =====
-- The list of src/Containers/List.hpp keeps the nodes that its clients see: `emplace` and `erase`
-- are the insertion and the removal of Containers/Nodes.
use renn.Prelude.{
  update, ℕ, ◌+◌, ◌-◌, ◌^◌, ◌<◌, ◌≡◌, true, false, ◌||◌, some, [], ◌∷◌, ◌==◌, if◌then◌else◌, arith,
  refl, length, u64, ◌∙◌,
}
use renn.Prelude.Effect.{ok}
use renn.Containers.Nodes.{
  Nodes, has, HasDistinct, Cursor, null, end, at, begin, insert_before, remove_at,
}
use renn.Containers.Nodes.Inserts.{
  insert_before-Inserts, Inserts-has, Inserts-length, Inserts-HasDistinct,
}
use renn.Containers.Nodes.Removes.{rest_at-Found, Removes-has, Removes-length, Removes-HasDistinct}
use renn.Containers.List.{Heap, Store, iter, emplace, erase}
use renn.Containers.List.Link.{Link, has-prev, has-next}
use renn.Containers.List.Contents.{
  IsList, node_of, stands, emplace-linked, erase-unlinked, Link-alive,
}
use renn.Containers.List.Frame.{Keeps, Keeps-linked, Keeps-unlinked}
use renn.Containers.List.Insertion.{linked, Link-linked-end, Link-linked-at}
use renn.Containers.List.Removal.{unlinked, Link-unlinked}

module _ {ℓ} {T : Type ℓ} where
  -- The iterator behind a node.
  unfoldable pub after_at : ℕ → Nodes T → Cursor
  after_at p [] = end
  after_at p (x ∷ xs) = if x.0 == p then begin xs else after_at p xs

  next-after_at :
      (s : Store T) (a : ℕ) (xs : Nodes T) (q : ℕ)
      → Link s.heap a xs s.head
      → has q xs ≡ true
      → HasDistinct xs
      → s.heap.next q ≡ node_of s (after_at q xs)
  unfolding after_at
  next-after_at s a [] q l e d = absurd (cc)
  next-after_at s a (x ∷ []) q l e d = ground arith
  next-after_at s a (x ∷ y ∷ ys) q (n, p, al, v, l) e d =
      ground (arith, next-after_at s x.0 (y ∷ ys) q l, l.0)

  prev_other :
      (h : Heap T) (a : ℕ) (xs : Nodes T) (b q : ℕ)
      → Link h a xs b
      → has q xs ≡ true
      → has a xs ≡ false
      → HasDistinct xs
      → (q == h.prev q) ≡ false
  prev_other h a [] b q l e f d = absurd (cc)
  prev_other h a (x ∷ xs) b q (n, p, al, v, l) e f d = ground (arith, prev_other h x.0 xs b q l, d)

  next_other :
      (h : Heap T) (a : ℕ) (xs : Nodes T) (b q : ℕ)
      → Link h a xs b
      → has q xs ≡ true
      → has b xs ≡ false
      → HasDistinct xs
      → (q == h.next q) ≡ false
  next_other h a [] b q l e f d = absurd (cc)
  next_other h a (x ∷ []) b q (n, p, al, v, (m, k, _)) e f d = ground arith
  next_other h a (x ∷ y ∷ ys) b q (n, p, al, v, l) e f d =
      ground (arith, next_other h x.0 (y ∷ ys) b q l, d, l.0)

  Link-linked :
      {s : Store T} {xs : Nodes T} (l : IsList s xs) (c : Cursor) (p : ℕ) (v : T)
      → has p xs ≡ false
      → (p == s.head) ≡ false
      → stands c xs ≡ true
      → Link (linked p (node_of s c) v s.heap) s.head (insert_before c (p, v) xs) s.head
  unfolding insert_before
  Link-linked {s} {xs} l null p v f n e = absurd (cc)
  Link-linked {s} {xs} l end p v f n e =
      Link-linked-end s.heap s.head xs s.head p v l.apart l.apart l.distinct f n n l.link
  Link-linked {s} {xs} l (at q) p v f n e =
      Link-linked-at s.heap s.head xs s.head p q v l.apart l.apart l.distinct f n n e l.link

  alive_at :
      {s : Store T} {xs : Nodes T} (l : IsList s xs) (q : ℕ)
      → (q == s.head || has q xs) ≡ true
      → s.heap.alive q ≡ true
  alive_at {s} {xs} l q e = ground (arith, Link-alive s.heap s.head xs s.head q l.link, l.sentinel)

  stands-alive :
      {s : Store T} {xs : Nodes T} (l : IsList s xs) (c : Cursor)
      → stands c xs ≡ true
      → (node_of s c == s.head || has (node_of s c) xs) ≡ true
  stands-alive l null e = absurd (cc)
  stands-alive l end e = ground arith
  stands-alive l (at q) e = ground arith

  -- Let `s` be a list with the elements `xs`, one more of which fit in 64 bits. Then `emplace` at
  -- an iterator of the list or its end, with a node from the allocator that is not in use, returns
  -- an iterator to that node and leaves a list in which it stands before that position; the other
  -- elements keep their values, order and addresses, only that node becomes alive, and no live node
  -- outside the list changes.
  pub emplace-insert_before :
      {s : Store T} {xs : Nodes T} (l : IsList s xs) (c : Cursor) (p : ℕ) (v : T)
      → s.heap.alive p ≡ false
      → stands c xs ≡ true
      → length xs + 1 < 2 ^ 64
      → (t : Store T) × (emplace (some p) (iter (node_of s c)) v s ≡ ok (iter p) t)
        × IsList t (insert_before c (p, v) xs)
        × (t.heap.alive ≡ update s.heap.alive p true)
        × Keeps s xs t
  emplace-insert_before {s} {xs} l c p v fresh e fits =
      let here : (node_of s c == s.head || has (node_of s c) xs) ≡ true = stands-alive l c e in
      let fp : has p xs ≡ false = ground (arith, Link-alive s.heap s.head xs s.head p l.link) in
      let np : (p == s.head) ≡ false = ground (arith, l.sentinel) in
      let before : (s.heap.prev (node_of s c) == s.head || has (s.heap.prev (node_of s c)) xs)
          ≡ true =
        has-prev s.heap s.head xs s.head (node_of s c) l.link here in
      let i = insert_before-Inserts c (p, v) xs in
      (
        _,
        emplace-linked s p (node_of s c) v fresh (alive_at l _ here) (alive_at l _ before),
        record {
          link = Link-linked l c p v fp np e;
          sentinel = ground (arith, l.sentinel);
          apart = Inserts-has s.head i ∙ ground (arith, l.apart);
          distinct = Inserts-HasDistinct i fp l.distinct;
          same_tail = l.same_tail;
          count = omega (arith, Inserts-length i, l.count);
        },
        refl,
        Keeps-linked s xs p (node_of s c) (u64 (s.size + 1)) v l.link fresh here,
      )

  -- Let `s` be a list with the elements `xs`, which fit in 64 bits. Then `erase` at an iterator to
  -- one of them returns the iterator behind it and leaves the list without it; the other elements
  -- keep their values, order and addresses, only that node is freed, and no live node outside the
  -- list changes.
  pub erase-remove_at :
      {s : Store T} {xs : Nodes T} (l : IsList s xs) (q : ℕ)
      → has q xs ≡ true
      → length xs < 2 ^ 64
      → (t : Store T) × (erase (iter q) s ≡ ok (iter (node_of s (after_at q xs))) t)
        × IsList t (remove_at q xs)
        × (t.heap.alive ≡ update s.heap.alive q false)
        × Keeps s xs t
  erase-remove_at {s} {xs} l q e fits =
      let before : (s.heap.prev q == s.head || has (s.heap.prev q) xs) ≡ true =
        has-prev s.heap s.head xs s.head q l.link (ground arith) in
      let behind : (s.heap.next q == s.head || has (s.heap.next q) xs) ≡ true =
        has-next s.heap s.head xs s.head q l.link (ground arith) in
      let nh : (q == s.head) ≡ false = ground (arith, l.apart) in
      let found = rest_at-Found (Store T) q xs e in
      let np = prev_other s.heap s.head xs s.head q l.link e l.apart l.distinct in
      let nn = next_other s.heap s.head xs s.head q l.link e l.apart l.distinct in
      let done =
        erase-unlinked s q nh (alive_at l q (ground arith)) (alive_at l _ before)
          (alive_at l _ behind) np nn in
      (
        record s { heap = unlinked q s.heap; size = u64 (s.size + 2 ^ 64 - 1) },
        done ∙ rw (next-after_at s s.head xs q l.link e l.distinct) refl,
        record {
          link = Link-unlinked s.heap s.head xs s.head q l.apart l.apart l.distinct e l.link;
          sentinel = ground (arith, l.sentinel);
          apart = ground (arith, Removes-has s.head found.removes, l.apart);
          distinct = Removes-HasDistinct found.removes l.distinct;
          same_tail = l.same_tail;
          count = omega (arith, Removes-length found.removes, l.count);
        },
        refl,
        Keeps-unlinked s xs q (u64 (s.size + 2 ^ 64 - 1)) l.link e,
      )
