-- ===== src/Containers/List/Session/Refinement.antt =====
-- A list is a deque for a client of its ends, and uses no other memory.
use renn.Prelude.{
  ℕ, ◌^◌, ◌<◌, ◌≡◌, refl, ap, ◌∙◌, ◌⊎◌, inl, inr, Bool, true, false, ◌||◌, some, List, [], ◌∷◌,
  ◌==◌, length, arith,
}
use renn.Prelude.Effect.{ok, throws, out_of_range}
use renn.Containers.Nodes.{Nodes, has, HasDistinct, insert_end}
use renn.Containers.List.{Store, iter, begin, end, erase, decrement, pop_back, pop_front, back}
use renn.Containers.List.Contents.{IsList}
use renn.Containers.List.Ends.{
  push_back-insert_end, push_front-cons, pop_front-cons, pop_back-insert_end, front-first,
  back-last, clear-empties, insert_end-has, insert_end-length,
}
use renn.Containers.List.Session.{
  Call, pushes_back, pushes_front, pops_back, pops_front, reads_front, reads_back, clears, counts,
  tests_empty, call, session, size, empty,
}
use renn.Containers.List.Session.Deque.{drop_last, last, reply, replies, after, Needs, Fits}

module _ {ℓ} {T : Type ℓ} where
  -- The nodes that are alive are those of the list and the others, which the list does not use.
  pub record Represents (others : ℕ → Bool) (xs : Nodes T) (s : Store T) : Type ℓ where
    pub list : IsList s xs
    pub alive : (q : ℕ) → s.heap.alive q ≡ (others q || has q xs)
    pub apart : (q : ℕ) → has q xs ≡ true → others q ≡ false
    pub few : length xs < 2 ^ 64

  -- A list of nodes is empty or has a last one.
  last-cases : (xs : Nodes T) → (xs ≡ []) ⊎ ((ys : Nodes T) × (y : ℕ × T) × (xs ≡ insert_end y ys))
  unfolding insert_end
  last-cases [] = inl refl
  last-cases (x ∷ xs) = elim (last-cases xs) [
    | inl e ↦ inr ([], x, ap (λ l. x ∷ l) e)
    | inr (ys, y, e) ↦ inr (x ∷ ys, y, ap (λ l. x ∷ l) e)
  ]

  drop_last-insert_end : (y : ℕ × T) (ys : Nodes T) → drop_last (insert_end y ys) ≡ ys
  unfolding insert_end
  drop_last-insert_end y [] = refl
  drop_last-insert_end y (x ∷ []) = refl
  drop_last-insert_end y (x ∷ z ∷ ys) = ap (λ l. x ∷ l) (drop_last-insert_end y (z ∷ ys))

  last-insert_end : (y : ℕ × T) (ys : Nodes T) → last (insert_end y ys) ≡ some y.1
  unfolding insert_end
  last-insert_end y [] = refl
  last-insert_end y (x ∷ []) = refl
  last-insert_end y (x ∷ z ∷ ys) = last-insert_end y (z ∷ ys)

  HasDistinct-last : (y : ℕ × T) (ys : Nodes T) → HasDistinct (insert_end y ys) → has y.0 ys ≡ false
  unfolding insert_end
  HasDistinct-last y [] d = refl
  HasDistinct-last y (x ∷ ys) d =
      ground (arith, HasDistinct-last y ys d.1, insert_end-has y ys x.0, d.0)

  -- Nothing to remove.
  erase-sentinel : (p : ℕ) (s : Store T) → p ≡ s.head → erase (iter p) s ≡ ok (iter s.head) s
  unfolding erase
  erase-sentinel p s e = let same : (p == s.head) ≡ true = ground arith in rw same refl

  pop_front-nil : {s : Store T} → IsList s [] → pop_front s ≡ ok (iter s.head) s
  unfolding pop_front begin
  pop_front-nil {s} l = rw l.sentinel (erase-sentinel (s.heap.next s.head) s l.link.0)

  pop_back-nil : {s : Store T} → IsList s [] → pop_back s ≡ ok (iter s.head) s
  unfolding pop_back end decrement
  pop_back-nil {s} l = rw l.sentinel (erase-sentinel (s.heap.prev s.head) s l.link.1)

  back-nil : {s : Store T} → IsList s [] → back s ≡ throws out_of_range s
  unfolding back
  back-nil {s} l = rw l.count refl

module _ {ℓ} {T : Type ℓ} (others : ℕ → Bool) where
  -- What a call does, by what it does to the nodes.
  abbrev Agrees : Call T → Nodes T → Store T → Type ℓ
  Agrees c xs s =
      (t : Store T) × (call c s ≡ ok (reply c xs).0 t) × Represents others (reply c xs).1 t

  pushes_back-Agrees :
      (p : ℕ) (v : T) (xs : Nodes T) (s : Store T)
      → Represents others xs s
      → Needs others (pushes_back p v) xs
      → Agrees (pushes_back p v) xs s
  unfolding call
  pushes_back-Agrees p v xs s h (other, new, small) =
      let (t, run, k, al, f) = push_back-insert_end h.list p v (ground (arith, h.alive p)) small in
      (
        t,
        rw run refl,
        record {
          list = k;
          alive = λ q.
              ap (λ (a : ℕ → Bool). a q) al ∙ ground (arith, h.alive q, insert_end-has (p, v) xs q);
          apart = λ q e. ground (arith, h.apart q, insert_end-has (p, v) xs q);
          few = omega (arith, insert_end-length (p, v) xs);
        },
      )

  pushes_front-Agrees :
      (p : ℕ) (v : T) (xs : Nodes T) (s : Store T)
      → Represents others xs s
      → Needs others (pushes_front p v) xs
      → Agrees (pushes_front p v) xs s
  unfolding call
  pushes_front-Agrees p v xs s h (other, new, small) =
      let (t, run, k, al, f) = push_front-cons h.list p v (ground (arith, h.alive p)) small in
      (
        t,
        rw run refl,
        record {
          list = k;
          alive = λ q. ap (λ (a : ℕ → Bool). a q) al ∙ ground (arith, h.alive q);
          apart = λ q e. ground (arith, h.apart q);
          few = omega arith;
        },
      )

  pops_front-Agrees : (xs : Nodes T) (s : Store T) → Represents others xs s → Agrees pops_front xs s
  unfolding call
  pops_front-Agrees [] s h = (s, rw (pop_front-nil h.list) refl, h)
  pops_front-Agrees (x ∷ xs) s h =
      let (t, run, k, al) = pop_front-cons h.list h.few in
      (
        t,
        rw run refl,
        record {
          list = k;
          alive = λ q.
              ap (λ (a : ℕ → Bool). a q) al
              ∙ ground (arith, h.alive q, h.apart x.0, h.list.distinct.0);
          apart = λ q e. ground (arith, h.apart q);
          few = omega (arith, h.few);
        },
      )

  pops_back-Agrees : (xs : Nodes T) (s : Store T) → Represents others xs s → Agrees pops_back xs s
  unfolding call
  pops_back-Agrees xs s h = elim (last-cases xs) [
    | inl e ↦
        let l : IsList s [] = rw e at h.list in (s, rw (pop_back-nil l) refl, rw e (rw e at h))
    | inr (ys, y, e) ↦
        let g : Represents others (insert_end y ys) s = rw e at h in
        let (t, i, run, k, al) = pop_back-insert_end y ys g.list g.few in
        (
          t,
          rw run refl,
          rw (e, drop_last-insert_end y ys)
              (record {
                list = k;
                alive = λ q.
                    ap (λ (a : ℕ → Bool). a q) al
                    ∙ ground (
                      arith,
                      g.alive q,
                      g.apart y.0,
                      insert_end-has y ys q,
                      insert_end-has y ys y.0,
                      HasDistinct-last y ys g.list.distinct,
                    );
                apart = λ q e. ground (arith, g.apart q, insert_end-has y ys q);
                few = omega (arith, g.few, insert_end-length y ys);
              }),
        )
  ]

  reads_front-Agrees :
      (xs : Nodes T) (s : Store T) → Represents others xs s → Agrees reads_front xs s
  unfolding call
  reads_front-Agrees [] s h = (s, rw (front-first [] h.list) refl, h)
  reads_front-Agrees (x ∷ xs) s h = (s, rw (front-first (x ∷ xs) h.list) refl, h)

  reads_back-Agrees : (xs : Nodes T) (s : Store T) → Represents others xs s → Agrees reads_back xs s
  unfolding call
  reads_back-Agrees xs s h = elim (last-cases xs) [
    | inl e ↦ let l : IsList s [] = rw e at h.list in (s, rw (e, back-nil l) refl, h)
    | inr (ys, y, e) ↦
        let l : IsList s (insert_end y ys) = rw e at h.list in
        (s, rw (e, back-last y ys l, last-insert_end y ys) refl, h)
  ]

  clears-Agrees : (xs : Nodes T) (s : Store T) → Represents others xs s → Agrees clears xs s
  unfolding call
  clears-Agrees xs s h =
      let (t, run, k, al, f) = clear-empties h.list h.few in
      (
        t,
        rw run refl,
        record {
          list = k;
          alive = λ q. al q ∙ ground (arith, h.alive q, h.apart q);
          apart = λ q e. absurd (cc);
          few = omega arith;
        },
      )

  call-Agrees :
      (c : Call T) (xs : Nodes T) (s : Store T)
      → Represents others xs s
      → Needs others c xs
      → Agrees c xs s
  unfolding call size empty
  call-Agrees (pushes_back p v) xs s h n = pushes_back-Agrees p v xs s h n
  call-Agrees (pushes_front p v) xs s h n = pushes_front-Agrees p v xs s h n
  call-Agrees pops_back xs s h n = pops_back-Agrees xs s h
  call-Agrees pops_front xs s h n = pops_front-Agrees xs s h
  call-Agrees reads_front xs s h n = reads_front-Agrees xs s h
  call-Agrees reads_back xs s h n = reads_back-Agrees xs s h
  call-Agrees clears xs s h n = clears-Agrees xs s h
  call-Agrees counts xs s h n = (s, rw h.list.count refl, h)
  call-Agrees tests_empty xs s h n = (s, rw h.list.count refl, h)

  -- Let a list on a heap have the elements `xs`, fewer than 2^64, the nodes that are alive be those
  -- of the list and others that it does not use, and the allocator give nodes that are neither. Then
  -- every sequence of calls of `push_back`, `push_front`, `pop_back`, `pop_front`, `front`, `back`,
  -- `clear`, `size` and `empty` that keeps the size below 2^64 returns or throws at each call what a
  -- deque replies, in which a removal from an empty list does nothing, ends normally, and leaves a
  -- list with the elements of the deque; the nodes that are alive are again those of the list and
  -- the others.
  pub session-deque :
      (cs : List (Call T)) (xs : Nodes T) (s : Store T)
      → Represents others xs s
      → Fits others cs xs
      → (t : Store T) × (session cs s ≡ ok (replies cs xs) t) × Represents others (after cs xs) t
  unfolding session
  session-deque [] xs s h f = (s, refl, h)
  session-deque (c ∷ cs) xs s h (n, f) =
      let (m, run, g) = call-Agrees c xs s h n in
      let (t, rest, k) = session-deque cs (reply c xs).1 m g f in (t, rw (run, rest) refl, k)
