-- ===== src/Containers/List/Transfer/Loop.antt =====
-- The loop that copies a list of src/Containers/List.hpp.
use renn.Prelude.{
  update, ℕ, zero, suc, ◌+◌, ◌^◌, ◌<◌, ◌≤◌, ◌≡◌, true, false, Option, some, [], ◌∷◌, ◌==◌, arith,
  refl, length, ap, ◌∙◌,
}
use renn.Prelude.Effect.{ok}
use renn.Containers.Nodes.{Nodes, has, insert_end}
use renn.Containers.List.{Heap, Store, iter, push_back, deref, increment}
use renn.Containers.List.Link.{Link}
use renn.Containers.List.Contents.{IsList}
use renn.Containers.List.Frame.{Keeps, Keeps-refl, Keeps-trans, Apart, Link-Keeps}
use renn.Containers.List.Ends.{push_back-insert_end, insert_end-has, insert_end-length}
use renn.Containers.List.Transfer.{copy_loop}

module _ {ℓ} {T : Type ℓ} where
  -- `xs` with the values of `ys` behind it, in nodes of their own.
  abbrev pub with_copies : (node : ℕ → ℕ) (i : ℕ) → (xs ys : Nodes T) → Nodes T
  with_copies node i xs [] = xs
  with_copies node i xs (y ∷ ys) = with_copies node (suc i) (insert_end (node i, y.1) xs) ys

  abbrev pub first_of : ℕ → Nodes T → ℕ
  first_of b [] = b
  first_of b (y ∷ ys) = y.0

  -- The allocator gives a dead node to each push from the `i`-th on, each another one.
  pub record Supplies (memory : ℕ → Option ℕ) (node : ℕ → ℕ) (i : ℕ) (h : Heap T) : Type 0 where
    pub given : (j : ℕ) → memory j ≡ some (node j)
    pub apart : (j k : ℕ) → node j ≡ node k → j ≡ k
    pub unused : (j : ℕ) → i ≤ j → h.alive (node j) ≡ false

  Supplies-push :
      {memory : ℕ → Option ℕ} {node : ℕ → ℕ} {i : ℕ} {h k : Heap T}
      → Supplies memory node i h
      → k.alive ≡ update h.alive (node i) true
      → Supplies memory node (suc i) k
  Supplies-push {i} s e = record {
    given = s.given;
    apart = s.apart;
    unused = λ j le. ground (arith, e, s.apart i j, s.unused j (omega arith));
  }

  -- One round of the loop.
  copy_loop-round :
      (memory : ℕ → Option ℕ) (source fuel i n p : ℕ) (y : ℕ × T) (s t : Store T)
      → (y.0 == source) ≡ false
      → s.heap.alive y.0 ≡ true
      → s.heap.value y.0 ≡ some y.1
      → push_back (memory i) y.1 s ≡ ok (iter p) t
      → t.heap.alive y.0 ≡ true
      → t.heap.next y.0 ≡ n
      → copy_loop memory source (suc fuel) i (iter y.0) s
        ≡ copy_loop memory source fuel (suc i) (iter n) t
  unfolding copy_loop deref increment
  copy_loop-round memory source fuel i n p y s t other live value pushed still next =
      let step : increment (iter y.0) t ≡ ok (iter n) t = rw (still, next) refl in
      simp (copy_loop, other, live, value, pushed, step) refl

  pub next_first :
      (h : Heap T) (a : ℕ) (ys : Nodes T) (b : ℕ) → Link h a ys b → h.next a ≡ first_of b ys
  next_first h a [] b k = k.0
  next_first h a (y ∷ ys) b k = k.0

  Apart-pushed :
      (s t : Store T) (xs : Nodes T) (p : ℕ) (v : T) (a : ℕ) (ys : Nodes T) (b : ℕ)
      → s.heap.alive p ≡ false
      → t.heap.alive ≡ update s.heap.alive p true
      → t.head ≡ s.head
      → Apart s xs a ys b
      → Apart t (insert_end (p, v) xs) a ys b
  Apart-pushed s t xs p v a ys b dead e h d q m =
      let (live, other) = d q m in
      (ground (arith, e, live), ground (arith, h, insert_end-has (p, v) xs q, dead, live, other))

  Apart-rest :
      (s : Store T) (xs : Nodes T) (a : ℕ) (y : ℕ × T) (ys : Nodes T) (b : ℕ)
      → Apart s xs a (y ∷ ys) b
      → Apart s xs y.0 ys b
  Apart-rest s xs a y ys b d q m = d q (ground arith)

  -- What a copy of the elements `ys` behind the elements `xs` leaves.
  pub record Copied (node : ℕ → ℕ) (i : ℕ) (s : Store T) (xs ys : Nodes T) (t : Store T)
      : Type ℓ where
    pub list : IsList t (with_copies node i xs ys)
    pub keeps : Keeps s xs t

  pub copy_loop-Copied :
      (memory : ℕ → Option ℕ) (node : ℕ → ℕ) (fuel i a : ℕ) (ys : Nodes T) (b : ℕ) (xs : Nodes T)
      (s : Store T)
      → IsList s xs
      → Link s.heap a ys b
      → Apart s xs a ys b
      → has b ys ≡ false
      → Supplies memory node i s.heap
      → length xs + length ys < 2 ^ 64
      → length ys < fuel
      → (t : Store T) × (copy_loop memory b fuel i (iter (first_of b ys)) s ≡ ok tt t)
        × Copied node i s xs ys t
  unfolding copy_loop
  copy_loop-Copied memory node zero i a ys b xs s l k d n m fits enough = absurd (omega arith)
  copy_loop-Copied memory node (suc fuel) i a [] b xs s l k d n m fits enough =
      let here : (b == b) ≡ true = ground arith in
      (s, rw (copy_loop, here) refl, record { list = l; keeps = Keeps-refl s xs })
  copy_loop-Copied memory node (suc fuel) i a (y ∷ ys) b xs s l k d n m fits enough =
      let (_, _, live, value, _) = k in
      let dead = m.unused i (omega arith) in
      let (u, pushed, lu, alive, keeps) = push_back-insert_end l (node i) y.1 dead (omega arith) in
      let moved : Apart u (insert_end (node i, y.1) xs) a (y ∷ ys) b =
        Apart-pushed s u xs (node i) y.1 a (y ∷ ys) b dead alive keeps.same_head d in
      let chain : Link u.heap a (y ∷ ys) b = Link-Keeps s xs u a (y ∷ ys) b keeps d k in
      let (t, run, c) =
        copy_loop-Copied memory node fuel (suc i) y.0 ys b (insert_end (node i, y.1) xs) u lu
          chain.4 (Apart-rest u (insert_end (node i, y.1) xs) a y ys b moved) (ground (arith, n))
          (Supplies-push m alive) (omega (arith, insert_end-length (node i, y.1) xs))
          (omega arith) in
      (
        t,
        copy_loop-round memory b fuel i (first_of b ys) (node i) y s u (ground (arith, n)) live
              value (ap (λ r. push_back r y.1 s) (m.given i) ∙ pushed) chain.2
              (next_first u.heap y.0 ys b chain.4)
            ∙ run,
        record {
          list = c.list;
          keeps =
              Keeps-trans s xs u (insert_end (node i, y.1) xs) t keeps c.keeps
                (λ q alive_before h. ground (arith, h, insert_end-has (node i, y.1) xs q, dead));
        },
      )
