-- ===== src/Containers/DynamicArray/Session/Refinement.antt =====
-- An array is a list with a capacity for its clients.
use renn.Prelude.{
  ℕ, ◌^◌, ◌<◌, ◌≡◌, refl, ap, ◌∙◌, inl, inr, false, List, [], ◌∷◌, ltb, leb, length, arith,
  Bool-cases,
}
use renn.Prelude.Effect.{ok}
use renn.Containers.DynamicArray.{Array}
use renn.Containers.DynamicArray.Reserve.{reserve-Leaves}
use renn.Containers.DynamicArray.Insertion.{push_back-Leaves, insert-Leaves}
use renn.Containers.DynamicArray.Removal.{erase_at_index-Leaves, pop_back-Leaves, clear-Leaves}
use renn.Containers.DynamicArray.Resize.{resize-Leaves}
use renn.Containers.DynamicArray.Capacity.{
  push_back-capacity, insert-capacity, pop_back-Keeps, erase_at_index-Keeps, resize-capacity,
}
use renn.Containers.DynamicArray.Session.{
  Call, pushes, pops, inserts, erases, resizes, reserves, clears, reads, reads_first, reads_last,
  counts, measures, call, session, size, capacity,
}
use renn.Containers.DynamicArray.Session.Sequence.{Sequence, reply, replies, after, Needs, Fits}
use renn.Containers.DynamicArray.Session.Represents.{
  Represents, last-cases, drop_last-append, pop_back-empty, insert-outside, erase_at_index-outside,
  Agrees,
}
use renn.Containers.DynamicArray.Session.Reads.{reads-Agrees, reads_first-Agrees, reads_last-Agrees}

module _ {T : Type 0} where
  pushes-Agrees :
      (v : T) (s : Sequence T) (a : Array T)
      → Represents s a
      → s.capacity < 2 ^ 63
      → Agrees (pushes v) s a
  unfolding call
  pushes-Agrees v s a h small =
      let room : a.capacity < 2 ^ 63 = omega (arith, h.same_capacity) in
      let (b, run, k, l) = push_back-Leaves h.holds v room in
      (
        b,
        rw run refl,
        record {
          holds = k;
          same_capacity = ground (
            arith,
            push_back-capacity a b tt s.elements v h.holds room run,
            h.same_capacity,
            h.holds.count,
          );
          nothing_lost = l ∙ h.nothing_lost;
        },
      )

  pops-Agrees : (s : Sequence T) (a : Array T) → Represents s a → Agrees pops s a
  unfolding call
  pops-Agrees s a h = elim (last-cases s.elements) [
    | inl e ↦
        let none_left : ltb 0 a.size ≡ false = ground (arith, h.holds.count, ap length e) in
        (
          a,
          rw (pop_back-empty a none_left) refl,
          record {
            holds = rw e (rw e at h.holds);
            same_capacity = h.same_capacity;
            nothing_lost = h.nothing_lost;
          },
        )
    | inr (ys, v, e) ↦
        let (b, run, k, l) = pop_back-Leaves ys v (rw e at h.holds) in
        (
          b,
          rw run refl,
          record {
            holds = rw e (rw (drop_last-append ys v) k);
            same_capacity = pop_back-Keeps a b tt run ∙ h.same_capacity;
            nothing_lost = l ∙ h.nothing_lost;
          },
        )
  ]

  inserts-Agrees :
      (index : ℕ) (v : T) (s : Sequence T) (a : Array T)
      → Represents s a
      → s.capacity < 2 ^ 63
      → Agrees (inserts index v) s a
  unfolding call
  inserts-Agrees index v s a h small = elim (Bool-cases (ltb (length s.elements) index)) [
    | inl outside ↦ (
      a,
      rw (outside, insert-outside a index v (ground (arith, outside, h.holds.count))) refl,
      rw outside h,
    )
    | inr inside ↦
        let room : a.capacity < 2 ^ 63 = omega (arith, h.same_capacity) in
        let (b, run, k, l) = insert-Leaves h.holds index v (ground (arith, inside)) room in
        let within : ltb a.size index ≡ false = ground (arith, inside, h.holds.count) in
        (
          b,
          rw (inside, run) refl,
          rw inside (record {
            holds = k;
            same_capacity = ground (
              arith,
              insert-capacity a b tt s.elements index v h.holds room within run,
              h.same_capacity,
              h.holds.count,
            );
            nothing_lost = l ∙ h.nothing_lost;
          }),
        )
  ]

  erases-Agrees :
      (index : ℕ) (s : Sequence T) (a : Array T) → Represents s a → Agrees (erases index) s a
  unfolding call
  erases-Agrees index s a h = elim (Bool-cases (leb (length s.elements) index)) [
    | inl outside ↦ (
      a,
      rw (outside, erase_at_index-outside a index (ground (arith, outside, h.holds.count))) refl,
      rw outside h,
    )
    | inr inside ↦
        let (b, run, k, l) = erase_at_index-Leaves h.holds index (ground (arith, inside)) in
        (
          b,
          rw (inside, run) refl,
          rw inside (record {
            holds = k;
            same_capacity = erase_at_index-Keeps index a b tt run ∙ h.same_capacity;
            nothing_lost = l ∙ h.nothing_lost;
          }),
        )
  ]

  resizes-Agrees :
      (d : T) (n : ℕ) (s : Sequence T) (a : Array T) → Represents s a → Agrees (resizes d n) s a
  unfolding call
  resizes-Agrees d n s a h =
      let (b, run, k, l) = resize-Leaves h.holds d n in
      (
        b,
        rw run refl,
        record {
          holds = k;
          same_capacity = ground (
            arith,
            resize-capacity a b tt s.elements d n h.holds run,
            h.same_capacity,
            h.holds.count,
          );
          nothing_lost = l ∙ h.nothing_lost;
        },
      )

  reserves-Agrees :
      (n : ℕ) (s : Sequence T) (a : Array T) → Represents s a → Agrees (reserves n) s a
  unfolding call
  reserves-Agrees n s a h =
      let (b, run, k, c, l) = reserve-Leaves h.holds n in
      (
        b,
        rw run refl,
        record {
          holds = k;
          same_capacity = ground (arith, c, h.same_capacity);
          nothing_lost = l ∙ h.nothing_lost;
        },
      )

  clears-Agrees : (s : Sequence T) (a : Array T) → Represents s a → Agrees clears s a
  unfolding call
  clears-Agrees s a h =
      let (b, run, k, c, l) = clear-Leaves h.holds in
      (
        b,
        rw run refl,
        record {
          holds = k;
          same_capacity = c ∙ h.same_capacity;
          nothing_lost = l ∙ h.nothing_lost;
        },
      )

  call-Agrees :
      (c : Call T) (s : Sequence T) (a : Array T)
      → Represents s a
      → Needs c s
      → s.capacity < 2 ^ 63
      → Agrees c s a
  unfolding call size capacity
  call-Agrees (pushes v) s a h n lt = pushes-Agrees v s a h lt
  call-Agrees pops s a h n lt = pops-Agrees s a h
  call-Agrees (inserts index v) s a h n lt = inserts-Agrees index v s a h lt
  call-Agrees (erases index) s a h n lt = erases-Agrees index s a h
  call-Agrees (resizes d m) s a h n lt = resizes-Agrees d m s a h
  call-Agrees (reserves m) s a h n lt = reserves-Agrees m s a h
  call-Agrees clears s a h n lt = clears-Agrees s a h
  call-Agrees (reads index) s a h n lt = reads-Agrees index s a h
  call-Agrees reads_first s a h n lt = reads_first-Agrees s a h n
  call-Agrees reads_last s a h n lt = reads_last-Agrees s a h lt n
  call-Agrees counts s a h n lt = (a, rw h.holds.count refl, h)
  call-Agrees measures s a h n lt = (a, rw h.same_capacity refl, h)

  -- With memory, let an array represent a sequence: it holds the elements, has the capacity, and has
  -- dropped no value without its destruction. Then every sequence of calls of `push_back`,
  -- `pop_back`, `insert` and `erase_at_index`, `resize`, `reserve`, `clear`, `at`, `front`, `back`,
  -- `size` and `capacity` in which `front` and `back` find an element and the capacity is below 2^63
  -- before each call returns or throws at each call what the sequence replies, a doubled capacity
  -- where an insertion finds it used up included, ends normally, and leaves an array that represents
  -- the sequence after the calls.
  pub session-sequence :
      (cs : List (Call T)) (s : Sequence T) (a : Array T)
      → Represents s a
      → Fits cs s
      → (b : Array T) × (session cs a ≡ ok (replies cs s) b) × Represents (after cs s) b
  unfolding session
  session-sequence [] s a h f = (a, refl, h)
  session-sequence (c ∷ cs) s a h (n, lt, f) =
      let (m, run, g) = call-Agrees c s a h n lt in
      let (b, rest, k) = session-sequence cs (reply c s).1 m g f in (b, rw (run, rest) refl, k)
