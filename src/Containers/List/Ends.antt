-- ===== src/Containers/List/Ends.antt =====
-- The operations at the ends of a list of src/Containers/List.hpp, and `clear`.
use renn.Prelude.{
  update, ℕ, zero, suc, ◌+◌, ◌^◌, ◌<◌, ◌≡◌, true, false, ◌||◌, some, [], ◌∷◌, ◌==◌, if◌then◌else◌,
  arith, refl, length, ap, ◌∙◌,
}
use mathlib.Core.Path.{subst}
use renn.Prelude.Effect.{ok, throws, out_of_range}
use renn.Containers.Nodes.{
  Nodes, has, HasDistinct, end, begin as first, insert_before, insert_end, insert_at, remove_at,
}
use renn.Containers.List.{
  Heap, Store, Iter, iter, begin, end as list_end, invalidate, erase, push_back, push_front,
  pop_back, pop_front, clear, clear_loop, front, back, deref, decrement,
}
use renn.Containers.List.Link.{Link}
use renn.Containers.List.Frame.{Keeps, Keeps-refl, Keeps-trans, Keeps-emptied}
use renn.Containers.List.Contents.{IsList, node_of, stands}
use renn.Containers.List.Refinement.{after_at, emplace-insert_before, erase-remove_at}

module _ {ℓ} {T : Type ℓ} where
  -- In a list whose size, one more included, fits in 64 bits, `push_back` with a node that is not
  -- in use adds the value behind the other elements, only that node becomes alive, and no live node
  -- outside the list changes.
  pub push_back-insert_end :
      {s : Store T} {xs : Nodes T} (l : IsList s xs) (p : ℕ) (v : T)
      → s.heap.alive p ≡ false
      → length xs + 1 < 2 ^ 64
      → (t : Store T) × (push_back (some p) v s ≡ ok (iter p) t)
        × IsList t (insert_end (p, v) xs)
        × (t.heap.alive ≡ update s.heap.alive p true)
        × Keeps s xs t
  unfolding push_back insert_before
  push_back-insert_end l p v fresh fits = emplace-insert_before l end p v fresh refl fits

  begin-first :
      {s : Store T} (xs : Nodes T) (l : IsList s xs) → begin s ≡ ok (iter (node_of s (first xs))) s
  unfolding begin
  begin-first [] l = ground (arith, l.sentinel, l.link.0)
  begin-first (x ∷ xs) l = ground (arith, l.sentinel, l.link.0)

  first-insert_before : (x : ℕ × T) (xs : Nodes T) → insert_before (first xs) x xs ≡ x ∷ xs
  unfolding insert_before insert_at insert_end
  first-insert_before x [] = refl
  first-insert_before x (y ∷ ys) = ground arith

  first-stands : (xs : Nodes T) → stands (first xs) xs ≡ true
  first-stands [] = refl
  first-stands (y ∷ ys) = ground arith

  -- In a list whose size, one more included, fits in 64 bits, `push_front` with a node that is not
  -- in use adds the value before the other elements, only that node becomes alive, and no live node
  -- outside the list changes.
  pub push_front-cons :
      {s : Store T} {xs : Nodes T} (l : IsList s xs) (p : ℕ) (v : T)
      → s.heap.alive p ≡ false
      → length xs + 1 < 2 ^ 64
      → (t : Store T) × (push_front (some p) v s ≡ ok (iter p) t)
        × IsList t ((p, v) ∷ xs)
        × (t.heap.alive ≡ update s.heap.alive p true)
        × Keeps s xs t
  unfolding push_front
  push_front-cons {s} {xs} l p v fresh fits =
      let (t, e, k, d, f) = emplace-insert_before l (first xs) p v fresh (first-stands xs) fits in
      (t, rw (begin-first xs l) e, subst (IsList t) (first-insert_before (p, v) xs) k, d, f)

  after_at-here : (x : ℕ × T) (xs : Nodes T) → after_at x.0 (x ∷ xs) ≡ first xs
  unfolding after_at
  after_at-here x xs = ground arith

  remove_at-here : (x : ℕ × T) (xs : Nodes T) → remove_at x.0 (x ∷ xs) ≡ xs
  unfolding remove_at
  remove_at-here x xs = ground arith

  -- `pop_front` of a list that is not empty and whose size fits in 64 bits frees its first element,
  -- keeps the others, and returns to its start.
  pub pop_front-cons :
      {s : Store T} {x : ℕ × T} {xs : Nodes T} (l : IsList s (x ∷ xs))
      → length (x ∷ xs) < 2 ^ 64
      → (t : Store T) × (pop_front s ≡ ok (iter (node_of s (first xs))) t)
        × IsList t xs
        × (t.heap.alive ≡ update s.heap.alive x.0 false)
  unfolding pop_front
  pop_front-cons {s} {x} {xs} l fits =
      let (t, e, k, d, f) = erase-remove_at l x.0 (ground arith) fits in
      (
        t,
        rw (begin-first (x ∷ xs) l) (rw (← after_at-here x xs) e),
        subst (IsList t) (remove_at-here x xs) k,
        d,
      )

  -- The last node.
  prev-last :
      (h : Heap T) (a : ℕ) (xs : Nodes T) (y : ℕ × T) (b : ℕ)
      → Link h a (insert_end y xs) b
      → (h.prev b ≡ y.0) × (h.value y.0 ≡ some y.1) × (h.alive y.0 ≡ true)
  unfolding insert_end
  prev-last h a [] y b (n, p, al, v, (m, q, _)) = (q, v, al)
  prev-last h a (x ∷ xs) y b (n, p, al, v, l) = prev-last h x.0 xs y b l

  pub insert_end-has :
      (y : ℕ × T) (xs : Nodes T) (q : ℕ) → has q (insert_end y xs) ≡ (y.0 == q || has q xs)
  unfolding insert_end
  insert_end-has y [] q = refl
  insert_end-has y (x ∷ xs) q = ground (arith, insert_end-has y xs q)

  pub insert_end-length : (y : ℕ × T) (xs : Nodes T) → length (insert_end y xs) ≡ suc (length xs)
  unfolding insert_end
  insert_end-length y [] = refl
  insert_end-length y (x ∷ xs) = ap suc (insert_end-length y xs)

  remove_at-insert_end :
      (y : ℕ × T) (xs : Nodes T)
      → HasDistinct (insert_end y xs)
      → remove_at y.0 (insert_end y xs) ≡ xs
  unfolding insert_end remove_at
  remove_at-insert_end y [] d = ground arith
  remove_at-insert_end y (x ∷ xs) (f, d) =
      ground (arith, insert_end-has y xs x.0, remove_at-insert_end y xs d)

  -- `pop_back` of a list that has a last element and whose size fits in 64 bits returns, keeps the
  -- other elements, and frees exactly the node of the last.
  pub pop_back-insert_end :
      {s : Store T} (y : ℕ × T) (xs : Nodes T) (l : IsList s (insert_end y xs))
      → length (insert_end y xs) < 2 ^ 64
      → (t : Store T) × (i : Iter) × (pop_back s ≡ ok i t)
        × IsList t xs
        × (t.heap.alive ≡ update s.heap.alive y.0 false)
  unfolding pop_back list_end decrement
  pop_back-insert_end {s} y xs l fits =
      let (p, v, al) = prev-last s.heap s.head xs y s.head l.link in
      let (t, e, k, d, f) = erase-remove_at l y.0 (insert_end-has y xs y.0 ∙ ground arith) fits in
      (
        t,
        iter (node_of s (after_at y.0 (insert_end y xs))),
        rw l.sentinel (rw p e),
        subst (IsList t) (remove_at-insert_end y xs l.distinct) k,
        d,
      )

  -- `front` of a list is its first value, and throws where there is none.
  pub front-first :
      {s : Store T} (xs : Nodes T) (l : IsList s xs)
      → front s ≡ elim xs [ [] ↦ throws out_of_range s | x ∷ ys ↦ ok x.1 s ]
  unfolding front deref
  front-first {s} [] l = rw l.count refl
  front-first {s} (x ∷ xs) l =
      let (n, p, al, v, r) = l.link in
      let e : (s.size == 0) ≡ false = ground (arith, l.count) in simp (e, l.sentinel, n, al, v) refl

  -- `back` is the last value.
  pub back-last :
      {s : Store T} (y : ℕ × T) (xs : Nodes T) (l : IsList s (insert_end y xs)) → back s ≡ ok y.1 s
  unfolding back deref
  back-last {s} y xs l =
      let (p, v, al) = prev-last s.heap s.head xs y s.head l.link in
      let e : (s.size == 0) ≡ false = ground (arith, l.count, insert_end-length y xs) in
      simp (e, l.same_tail, l.sentinel, p, al, v) refl

  erase-invalidate : (it : Iter) (s : Store T) → erase (invalidate it) s ≡ erase it s
  unfolding erase
  erase-invalidate it s = refl

  clear_loop-step :
      (s u : Store T) (i j : Iter) (fuel : ℕ)
      → (s.size == 0) ≡ false
      → begin s ≡ ok i s
      → erase i s ≡ ok j u
      → clear_loop (suc fuel) s ≡ clear_loop fuel u
  unfolding clear_loop
  clear_loop-step s u i j fuel n b e = simp (clear_loop, n, b, erase-invalidate i s, e) refl

  clear_loop-empties :
      (xs : Nodes T) (s : Store T) (fuel : ℕ) (l : IsList s xs)
      → length xs < 2 ^ 64
      → length xs < fuel
      → (t : Store T) × (clear_loop fuel s ≡ ok tt t)
        × IsList t []
        × ((q : ℕ) → t.heap.alive q ≡ (if has q xs then false else s.heap.alive q))
        × Keeps s xs t
  unfolding clear_loop
  clear_loop-empties xs s zero l fits enough = elim enough [ ]
  clear_loop-empties [] s (suc fuel) l fits enough =
      (s, rw l.count refl, l, λ q. refl, Keeps-refl s [])
  clear_loop-empties (x ∷ xs) s (suc fuel) l fits enough =
      let (u, e, k, d, f) = erase-remove_at l x.0 (ground arith) fits in
      let (t, e2, k2, d2, f2) =
        clear_loop-empties xs u fuel (subst (IsList u) (remove_at-here x xs) k) (omega arith)
          (omega arith) in
      (
        t,
        clear_loop-step s u _ _ fuel (ground (arith, l.count)) (begin-first (x ∷ xs) l) e ∙ e2,
        k2,
        λ q. ground (arith, d2 q, d),
        Keeps-trans s (x ∷ xs) u xs t f f2 (λ q live h. ground (arith, h)),
      )

  -- `clear` of a list whose size fits in 64 bits ends, leaves no element, frees exactly the nodes
  -- of the elements, and changes no live node outside the list.
  pub clear-empties :
      {s : Store T} {xs : Nodes T} (l : IsList s xs)
      → length xs < 2 ^ 64
      → (t : Store T) × (clear s ≡ ok tt t)
        × IsList t []
        × ((q : ℕ) → t.heap.alive q ≡ (if has q xs then false else s.heap.alive q))
        × Keeps s xs t
  unfolding clear
  clear-empties {s} {xs} l fits =
      let (t, e, k, d, f) = clear_loop-empties xs s (suc s.size) l fits (omega (arith, l.count)) in
      let h : Heap T = record t.heap {
        next = update t.heap.next t.head t.head;
        prev = update t.heap.prev t.head t.head;
      } in
      let here : (t.head == t.head) ≡ true = ground arith in
      (
        record t { heap = h },
        rw e (simp k.sentinel refl),
        record {
          link = (rw here refl, rw here refl, tt);
          sentinel = k.sentinel;
          apart = refl;
          distinct = tt;
          same_tail = k.same_tail;
          count = k.count;
        },
        d,
        Keeps-trans s xs t [] (record t { heap = h }) f (Keeps-emptied t) (λ q live h. absurd (cc)),
      )
