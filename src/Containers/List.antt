-- ===== src/Containers/List.antt =====
-- src/Containers/List.hpp: a circular doubly linked list with a sentinel, on an explicit heap.
pub mod Link
pub mod Insertion
pub mod Removal
pub mod Contents
pub mod Refinement
pub mod Ends
pub mod Frame
pub mod Pairs
pub mod Transfer
pub mod Session
mod Tests
use renn.Prelude.{
  update, ℕ, zero, suc, ◌+◌, ◌-◌, ◌^◌, Bool, true, false, not, Option, none, some, List, [], ◌∷◌,
  ◌==◌, if◌then◌else◌, u64,
}
use renn.Prelude.Effect.{
  Run, ok, throws, fault, State, pure, undefined, throw, get, put, ◌>>=◌, ◌>>◌, bad_alloc,
  out_of_range, runtime_error, dangling, no_return,
}

-- The nodes by their fields: `next`, `prev`, and the value, which the sentinel does not have.
pub record Heap {ℓ} (T : Type ℓ) : Type ℓ where
  pub alive : ℕ → Bool
  pub next : ℕ → ℕ
  pub prev : ℕ → ℕ
  pub value : ℕ → Option T

-- A list object over the heap.
pub record Store {ℓ} (T : Type ℓ) : Type ℓ where
  pub heap : Heap T
  pub head : ℕ
  pub tail : ℕ
  pub size : ℕ

-- `Iterator`
pub record Iter : Type 0 where
  pub node : ℕ
  pub is_valid : Bool

abbrev pub iter : ℕ → Iter
iter p = record { node = p; is_valid = true }

-- `it.invalidate()` of the caller's own iterator.
abbrev pub invalidate : Iter → Iter
invalidate it = record it { is_valid = false }

module _ {ℓ} {T : Type ℓ} where
  -- `p->next`, `p->prev` and their assignments, of a node that was not freed.
  abbrev pub checked {κ} : {A : Type κ} → ℕ → (Heap T → A) → State (Store T) A
  checked p f s = if s.heap.alive p then ok (f s.heap) s else fault dangling

  abbrev pub changed : ℕ → (Heap T → Heap T) → State (Store T) (Unit {0})
  changed p f s = if s.heap.alive p then ok tt (record s { heap = f s.heap }) else fault dangling

  abbrev pub load_next : ℕ → State (Store T) ℕ
  load_next p = checked p (λ h. h.next p)

  abbrev pub load_prev : ℕ → State (Store T) ℕ
  load_prev p = checked p (λ h. h.prev p)

  abbrev pub set_next : ℕ → ℕ → State (Store T) (Unit {0})
  set_next p q = changed p (λ h. record h { next = update h.next p q })

  abbrev pub set_prev : ℕ → ℕ → State (Store T) (Unit {0})
  set_prev p q = changed p (λ h. record h { prev = update h.prev p q })

  -- `new BaseNode()`: `prev` and `next` point to the node itself.
  abbrev pub construct : ℕ → Option T → Heap T → Heap T
  construct p v h = record {
    alive = update h.alive p true;
    next = update h.next p p;
    prev = update h.prev p p;
    value = update h.value p v;
  }

  -- `List()` at the address of its sentinel.
  unfoldable pub new_list : ℕ → Heap T → Store T
  new_list p h = record { heap = construct p none h; head = p; tail = p; size = 0 }

  unfoldable pub begin : State (Store T) Iter
  begin = do s ← get; p ← load_next s.head; pure (iter p)

  unfoldable pub end : State (Store T) Iter
  end = do s ← get; pure (iter s.head)

  -- `*it`; the sentinel is no `Node`.
  unfoldable pub deref : Iter → State (Store T) T
  deref it s =
      if it.is_valid
      then (if s.heap.alive it.node
          then elim (s.heap.value it.node) [ none ↦ fault dangling | some v ↦ ok v s ]
          else fault dangling)
      else throws runtime_error s

  unfoldable pub increment : Iter → State (Store T) Iter
  increment it =
      if it.is_valid
      then (do p ← load_next it.node; pure (record it { node = p }))
      else throw runtime_error

  unfoldable pub decrement : Iter → State (Store T) Iter
  decrement it =
      if it.is_valid
      then (do p ← load_prev it.node; pure (record it { node = p }))
      else throw runtime_error

  -- `emplace(position, value)`; `fresh` is what the allocator returns.
  unfoldable pub emplace : (fresh : Option ℕ) → Iter → T → State (Store T) Iter
  emplace none position v = throw bad_alloc
  emplace (some p) position v = do
    s ← get
    put (record s { heap = construct p (some v) s.heap })
    before ← load_prev position.node
    set_prev p before
    set_next p position.node
    last ← load_prev position.node
    set_next last p
    set_prev position.node p
    t ← get
    put (record t { size = u64 (t.size + 1) })
    pure (iter p)

  -- `erase(position)`: unlink, destroy, deallocate.
  unfoldable pub erase : Iter → State (Store T) Iter
  erase position = do
    s ← get
    let node = position.node
    if node == s.head then pure (iter s.head) else (do
      next ← load_next node
      before ← load_prev node
      set_next before next
      after ← load_next node
      last ← load_prev node
      set_prev after last
      changed node
          (λ h. record h { alive = update h.alive node false; value = update h.value node none })
      t ← get
      put (record t { size = u64 (t.size + 2 ^ 64 - 1) })
      pure (iter next))

  unfoldable pub push_back : Option ℕ → T → State (Store T) Iter
  unfolding end
  push_back fresh v = do it ← end; emplace fresh it v

  unfoldable pub push_front : Option ℕ → T → State (Store T) Iter
  unfolding begin
  push_front fresh v = do it ← begin; emplace fresh it v

  unfoldable pub pop_back : State (Store T) Iter
  unfolding end decrement
  pop_back = do it ← end; last ← decrement it; erase last

  unfoldable pub pop_front : State (Store T) Iter
  unfolding begin
  pop_front = do it ← begin; erase it

  -- The loop of `clear`.
  unfoldable pub clear_loop : (fuel : ℕ) → State (Store T) (Unit {0})
  unfolding begin
  clear_loop zero s = fault no_return
  clear_loop (suc fuel) s = elim (s.size == 0) [
    | true ↦ ok tt s
    | false ↦ (do it ← begin; _ ← erase (invalidate it); clear_loop fuel) s
  ]

  -- An element goes in each round.
  unfoldable pub clear : State (Store T) (Unit {0})
  unfolding clear_loop
  clear = do
    s ← get
    clear_loop (suc s.size)
    t ← get
    set_next t.head t.head
    set_prev t.head t.head

  unfoldable pub front : State (Store T) T
  unfolding deref
  front = do
    s ← get
    if s.size == 0 then throw out_of_range else (do p ← load_next s.head; deref (iter p))

  unfoldable pub back : State (Store T) T
  unfolding deref
  back = do
    s ← get
    if s.size == 0 then throw out_of_range else (do p ← load_prev s.tail; deref (iter p))
