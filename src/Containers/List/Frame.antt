-- ===== src/Containers/List/Frame.antt =====
-- What the operations on a list of src/Containers/List.hpp leave as it was: live nodes that are not the
-- list's own, such as those of another list.
use renn.Prelude.{update, ℕ, ◌≡◌, true, false, ◌||◌, [], ◌==◌, arith, refl, ◌∙◌}
use renn.Containers.Nodes.{Nodes, has}
use renn.Containers.List.{Heap, Store}
use renn.Containers.List.Link.{Link, has-prev, has-next, Link-Agree}
use renn.Containers.List.Insertion.{linked}
use renn.Containers.List.Removal.{unlinked}

module _ {ℓ} {T : Type ℓ} where
  pub record Same (h k : Heap T) (q : ℕ) : Type ℓ where
    pub next : k.next q ≡ h.next q
    pub prev : k.prev q ≡ h.prev q
    pub alive : k.alive q ≡ h.alive q
    pub value : k.value q ≡ h.value q

  -- The list `t` has the sentinel of `s` and the live nodes that are not of `s`.
  pub record Keeps (s : Store T) (xs : Nodes T) (t : Store T) : Type ℓ where
    pub same_head : t.head ≡ s.head
    pub others :
        (q : ℕ) → s.heap.alive q ≡ true → (q == s.head || has q xs) ≡ false → Same s.heap t.heap q

  pub Keeps-trans :
      (s : Store T) (xs : Nodes T) (u : Store T) (ys : Nodes T) (t : Store T)
      → Keeps s xs u
      → Keeps u ys t
      → ((q : ℕ) → s.heap.alive q ≡ true → has q ys ≡ true → has q xs ≡ true)
      → Keeps s xs t
  Keeps-trans s xs u ys t f g within = record {
    same_head = g.same_head ∙ f.same_head;
    others = λ q live other.
        let a = f.others q live other in
        let b = g.others q (a.alive ∙ live) (ground (arith, within q live, f.same_head)) in
        record {
          next = b.next ∙ a.next;
          prev = b.prev ∙ a.prev;
          alive = b.alive ∙ a.alive;
          value = b.value ∙ a.value;
        };
  }

  pub Keeps-refl : (s : Store T) (xs : Nodes T) → Keeps s xs s
  Keeps-refl s xs = record {
    same_head = refl;
    others = λ q live other. record { next = refl; prev = refl; alive = refl; value = refl };
  }

  -- The end of `clear`.
  pub Keeps-emptied :
      (s : Store T)
      → Keeps s [] (record s {
        heap = record s.heap {
          next = update s.heap.next s.head s.head;
          prev = update s.heap.prev s.head s.head;
        };
      })
  Keeps-emptied s = record {
    same_head = refl;
    others = λ q live other.
        let away : (s.head == q) ≡ false = ground arith in
        record { next = rw away refl; prev = rw away refl; alive = refl; value = refl };
  }

  pub Keeps-linked :
      (s : Store T) (xs : Nodes T) (p q n : ℕ) (v : T)
      → Link s.heap s.head xs s.head
      → s.heap.alive p ≡ false
      → (q == s.head || has q xs) ≡ true
      → Keeps s xs (record s { heap = linked p q v s.heap; size = n })
  Keeps-linked s xs p q n v l dead here = record {
    same_head = refl;
    others = λ r live other.
        let before : (s.heap.prev q == s.head || has (s.heap.prev q) xs) ≡ true =
          has-prev s.heap s.head xs s.head q l here in
        let rp : (p == r) ≡ false = ground arith in
        let rq : (q == r) ≡ false = ground arith in
        let rb : (s.heap.prev q == r) ≡ false = ground arith in
        record {
          next = rw (rp, rb) refl;
          prev = rw (rp, rq) refl;
          alive = rw (rp) refl;
          value = rw (rp) refl;
        };
  }

  pub Keeps-unlinked :
      (s : Store T) (xs : Nodes T) (q n : ℕ)
      → Link s.heap s.head xs s.head
      → has q xs ≡ true
      → Keeps s xs (record s { heap = unlinked q s.heap; size = n })
  Keeps-unlinked s xs q n l here = record {
    same_head = refl;
    others = λ r live other.
        let before : (s.heap.prev q == s.head || has (s.heap.prev q) xs) ≡ true =
          has-prev s.heap s.head xs s.head q l (ground arith) in
        let behind : (s.heap.next q == s.head || has (s.heap.next q) xs) ≡ true =
          has-next s.heap s.head xs s.head q l (ground arith) in
        let rq : (q == r) ≡ false = ground arith in
        let rb : (s.heap.prev q == r) ≡ false = ground arith in
        let rn : (s.heap.next q == r) ≡ false = ground arith in
        record {
          next = rw (rb) refl;
          prev = rw (rn) refl;
          alive = rw (rq) refl;
          value = rw (rq) refl;
        };
  }

  -- Two lists have no node in common, and the nodes `ys` between `a` and `b` are alive.
  abbrev pub Apart : Store T → Nodes T → (a : ℕ) → Nodes T → (b : ℕ) → Type 0
  Apart s xs a ys b =
      (q : ℕ)
      → (q == a || q == b || has q ys) ≡ true
      → (s.heap.alive q ≡ true) × ((q == s.head || has q xs) ≡ false)

  pub Link-Keeps :
      (s : Store T) (xs : Nodes T) (t : Store T) (a : ℕ) (ys : Nodes T) (b : ℕ)
      → Keeps s xs t
      → Apart s xs a ys b
      → Link s.heap a ys b
      → Link t.heap a ys b
  Link-Keeps s xs t a ys b f d l =
      let at : (q : ℕ) → (q == a || q == b || has q ys) ≡ true → Same s.heap t.heap q =
        λ q e. f.others q (d q e).0 (d q e).1 in
      Link-Agree s.heap t.heap a ys b
        (record {
          next = λ q e. (at q (ground arith)).next;
          prev = λ q e. (at q (ground arith)).prev;
          alive = λ q e. (at q (ground arith)).alive;
          value = λ q e. (at q (ground arith)).value;
        })
        l
