-- ===== src/Containers/List/Contents.antt =====
-- The contents of a list of src/Containers/List.hpp, and what single calls do to its heap.
use renn.Prelude.{
  update, ℕ, ◌+◌, ◌-◌, ◌^◌, ◌≡◌, Bool, true, false, some, [], ◌∷◌, ◌==◌, arith, refl, length, u64,
}
use renn.Prelude.Effect.{ok}
use renn.Containers.Nodes.{Nodes, has, HasDistinct, Cursor, null, end, at}
use renn.Containers.List.{Heap, Store, iter, emplace, erase, new_list}
use renn.Containers.List.Link.{Link}
use renn.Containers.List.Removal.{unlinked}
use renn.Containers.List.Insertion.{linked}

-- The node of an iterator into the list.
abbrev pub node_of {ℓ} : {T : Type ℓ} → Store T → Cursor → ℕ
node_of s (at q) = q
node_of s _ = s.head

-- An iterator into the list, or its end.
abbrev pub stands {ℓ} : {T : Type ℓ} → Cursor → Nodes T → Bool
stands null xs = false
stands end xs = true
stands (at q) xs = has q xs

module _ {ℓ} {T : Type ℓ} where
  -- The list object `s` has the elements `xs`, each at its address.
  pub record IsList (s : Store T) (xs : Nodes T) : Type ℓ where
    pub link : Link s.heap s.head xs s.head
    pub sentinel : s.heap.alive s.head ≡ true
    pub apart : has s.head xs ≡ false
    pub distinct : HasDistinct xs
    pub same_tail : s.tail ≡ s.head
    pub count : s.size ≡ length xs

  pub Link-alive :
      (h : Heap T) (a : ℕ) (xs : Nodes T) (b q : ℕ)
      → Link h a xs b
      → has q xs ≡ true
      → h.alive q ≡ true
  Link-alive h a [] b q l e = absurd (cc)
  Link-alive h a (x ∷ xs) b q (n, p, al, v, l) e = ground (arith, Link-alive h x.0 xs b q l)

  -- `emplace` where the nodes that it touches are alive.
  pub emplace-linked :
      (s : Store T) (p q : ℕ) (v : T)
      → s.heap.alive p ≡ false
      → s.heap.alive q ≡ true
      → s.heap.alive (s.heap.prev q) ≡ true
      → emplace (some p) (iter q) v s
        ≡ ok (iter p) (record s { heap = linked p q v s.heap; size = u64 (s.size + 1) })
  unfolding emplace
  emplace-linked s p q v f a b =
      let pq : (p == q) ≡ false = ground arith in
      let pp : (p == p) ≡ true = ground arith in
      let pb : (p == s.heap.prev q) ≡ false = ground arith in simp (pq, pp, pb, a, b, update) refl

  pub erase-unlinked :
      (s : Store T) (q : ℕ)
      → (q == s.head) ≡ false
      → s.heap.alive q ≡ true
      → s.heap.alive (s.heap.prev q) ≡ true
      → s.heap.alive (s.heap.next q) ≡ true
      → (q == s.heap.prev q) ≡ false
      → (q == s.heap.next q) ≡ false
      → erase (iter q) s
        ≡ ok
            (iter (s.heap.next q))
            (record s { heap = unlinked q s.heap; size = u64 (s.size + 2 ^ 64 - 1) })
  unfolding erase
  erase-unlinked s q nh a b c np nn =
      let pq : (s.heap.prev q == q) ≡ false = ground arith in simp (nh, pq, a, b, c, update) refl

  -- A new list has no elements.
  pub new_list-IsList : (p : ℕ) (h : Heap T) → IsList (new_list p h) []
  unfolding new_list
  new_list-IsList p h =
      let here : (p == p) ≡ true = ground arith in
      record {
        link = (rw here refl, rw here refl, tt);
        sentinel = rw here refl;
        apart = refl;
        distinct = tt;
        same_tail = refl;
        count = refl;
      }
