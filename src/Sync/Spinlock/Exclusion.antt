-- ===== src/Sync/Spinlock/Exclusion.antt =====
-- One thread holds the lock of src/Sync/Spinlock/Spinlock.cc at most.
use renn.Prelude.{
  update, ℕ, suc, ◌≡◌, refl, inl, inr, Bool, true, false, ◌↔◌, arith, Bool-cases, ap, ◌∙◌, sym,
}
use renn.Sync.Spinlock.{
  Call, lock, try_lock, try_lock_for, try_lock_until, Spin, untimed, timed, Thread, outside,
  first_clock, first_load, first_exchange, outer_clock, inner_clock, inner_load, outer_load,
  outer_exchange, holding, start, refused, spin, retry, leave_spin, act, Spinlock, new_lock, unlock,
  run, Step, calls, accesses, unlocks, Reach, initial, later,
}

abbrev pub holds : Thread → Bool
holds holding = true
holds _ = false

start-holds : (c : Call) → holds (start c) ≡ false
unfolding start
start-holds lock = refl
start-holds try_lock = refl
start-holds try_lock_for = refl
start-holds try_lock_until = refl

leave_spin-holds : (c : Spin) (b : ℕ) → holds (leave_spin c b) ≡ false
unfolding leave_spin
leave_spin-holds untimed b = refl
leave_spin-holds timed b = refl

spin-holds : (c : Spin) (i b : ℕ) → holds (spin c i b) ≡ false
unfolding spin leave_spin
spin-holds untimed i b = ground arith
spin-holds timed i b = ground arith

retry-holds : (c : Spin) (b : ℕ) → holds (retry c b) ≡ false
unfolding retry
retry-holds untimed b = spin-holds untimed 0 b
retry-holds timed b = refl

refused-holds : (r : Bool) → holds (refused r) ≡ false
refused-holds true = refl
refused-holds false = refl

-- An access takes the lock only where the flag was clear, and sets the flag only then.
pub record Fair (flag : Bool) (th : Thread) (after : Bool × Thread) : Type 0 where
  pub taken : holds th ≡ false → holds after.1 ≡ true → (flag ≡ false) × (after.0 ≡ true)
  pub kept : holds th ≡ false → holds after.1 ≡ false → after.0 ≡ flag
  pub held : holds th ≡ true → after ≡ (flag, th)

act-Fair : (expired flag : Bool) (th : Thread) → Fair flag th (act expired flag th)
unfolding act
act-Fair e f outside = record { taken = λ a b. absurd (cc); kept = λ a b. refl; held = λ a. refl }
act-Fair e f first_clock = record {
  taken = λ a b. absurd (ground arith);
  kept = λ a b. refl;
  held = λ a. absurd (cc);
}
act-Fair e f (first_load r) = record {
  taken = λ a b. absurd (ground (arith, refused-holds r));
  kept = λ a b. refl;
  held = λ a. absurd (cc);
}
act-Fair e f (first_exchange r) = record {
  taken = λ a b. ground (arith, refused-holds r);
  kept = λ a b. ground (arith, refused-holds r);
  held = λ a. absurd (cc);
}
act-Fair e f (outer_clock b) = record {
  taken = λ a h. absurd (ground (arith, spin-holds timed 0 b));
  kept = λ a b. refl;
  held = λ a. absurd (cc);
}
act-Fair e f (inner_clock i b) = record {
  taken = λ a h. absurd (ground arith);
  kept = λ a b. refl;
  held = λ a. absurd (cc);
}
act-Fair e f (inner_load c i b) = record {
  taken = λ a h. absurd (ground (arith, spin-holds c (suc i) b, leave_spin-holds c b));
  kept = λ a b. refl;
  held = λ a. absurd (cc);
}
act-Fair e f (outer_load c b) = record {
  taken = λ a h. absurd (ground (arith, retry-holds c b));
  kept = λ a b. refl;
  held = λ a. absurd (cc);
}
act-Fair e f (outer_exchange c b) = record {
  taken = λ a h. ground (arith, retry-holds c b);
  kept = λ a h. ground (arith, retry-holds c b);
  held = λ a. absurd (cc);
}
act-Fair e f holding = record { taken = λ a b. absurd (cc); kept = λ a b. refl; held = λ a. refl }

pub record Inv (s : Spinlock) : Type 0 where
  pub one : (i j : ℕ) → holds (s.thread i) ≡ true → holds (s.thread j) ≡ true → i ≡ j
  pub locked : (i : ℕ) → holds (s.thread i) ≡ true → s.flag ≡ true
  pub owner : s.flag ≡ true → (i : ℕ) × (holds (s.thread i) ≡ true)

holding-holds : (th : Thread) → holds th ≡ true → th ≡ holding
holding-holds holding e = refl
holding-holds outside e = absurd (cc)
holding-holds first_clock e = absurd (cc)
holding-holds (first_load r) e = absurd (cc)
holding-holds (first_exchange r) e = absurd (cc)
holding-holds (outer_clock b) e = absurd (cc)
holding-holds (inner_clock i b) e = absurd (cc)
holding-holds (inner_load c i b) e = absurd (cc)
holding-holds (outer_load c b) e = absurd (cc)
holding-holds (outer_exchange c b) e = absurd (cc)

holds-holding : (th : Thread) → th ≡ holding → holds th ≡ true
holds-holding th e = rw e refl

module _ {s : Spinlock} (inv : Inv s) (j : ℕ) (a : Bool × Thread) where
  abbrev moved : Spinlock
  moved = record { flag = a.0; thread = update s.thread j a.1 }

  held-Inv : a.0 ≡ s.flag → a.1 ≡ s.thread j → Inv moved
  held-Inv f e = record {
    one = λ i k p q. inv.one i k (ground arith) (ground arith);
    locked = λ i p. f ∙ inv.locked i (ground arith);
    owner = λ p. let (i, h) = inv.owner (sym f ∙ p) in (i, ground arith);
  }

  took-Inv : holds a.1 ≡ true → s.flag ≡ false → a.0 ≡ true → Inv moved
  took-Inv e f g = record {
    one = λ i k p q. ground (arith, inv.locked i, inv.locked k);
    locked = λ i p. g;
    owner = λ p. (j, ground arith);
  }

  kept-Inv : holds (s.thread j) ≡ false → holds a.1 ≡ false → a.0 ≡ s.flag → Inv moved
  kept-Inv e f g = record {
    one = λ i k p q. inv.one i k (ground arith) (ground arith);
    locked = λ i p. g ∙ inv.locked i (ground arith);
    owner = λ p. let (i, h) = inv.owner (sym g ∙ p) in (i, ground arith);
  }

run-Inv : (s : Spinlock) (j : ℕ) (expired : Bool) → Inv s → Inv (run expired j s)
unfolding run
run-Inv s j e inv =
    let a = act e s.flag (s.thread j) in
    let f = act-Fair e s.flag (s.thread j) in
    elim (Bool-cases (holds (s.thread j))) [
      | inl has ↦ held-Inv inv j a (ap (λ p. p.0) (f.held has)) (ap (λ p. p.1) (f.held has))
      | inr misses ↦ elim (Bool-cases (holds a.1)) [
        | inl takes ↦ took-Inv inv j a takes ((f.taken misses takes).0) ((f.taken misses takes).1)
        | inr keeps ↦ kept-Inv inv j a misses keeps (f.kept misses keeps)
      ]
    ]

unlock-Inv : (s : Spinlock) (j : ℕ) → s.thread j ≡ holding → Inv s → Inv (unlock j s)
unfolding unlock
unlock-Inv s j e inv = record {
  one = λ i k a b. absurd (ground (arith, inv.one i j, inv.one j k));
  locked = λ i a. absurd (ground (arith, inv.one i j));
  owner = λ a. absurd (cc a);
}

Step-Inv : {s t : Spinlock} → Step s t → Inv s → Inv t
Step-Inv {s} (calls j c e) inv = kept-Inv inv j (s.flag, start c) (rw e refl) (start-holds c) refl
Step-Inv {s} (accesses j e) inv = run-Inv s j e inv
Step-Inv {s} (unlocks j e) inv = unlock-Inv s j e inv

Reach-Inv : {s : Spinlock} → Reach s → Inv s
unfolding new_lock
Reach-Inv initial = record {
  one = λ i j a b. absurd (cc a);
  locked = λ i a. absurd (cc a);
  owner = λ a. absurd (cc a);
}
Reach-Inv (later r st) = Step-Inv st (Reach-Inv r)

-- In every reachable state two threads that hold the lock are the same thread, and the flag is set
-- exactly when some thread holds the lock.
pub holding-exclusive :
    {s : Spinlock}
    → Reach s
    → ((i j : ℕ) → s.thread i ≡ holding → s.thread j ≡ holding → i ≡ j)
      × ((s.flag ≡ true) ↔ ((i : ℕ) × (s.thread i ≡ holding)))
holding-exclusive {s} r =
    let inv = Reach-Inv r in
    (
      λ i j a b. inv.one i j (holds-holding _ a) (holds-holding _ b),
      (
        λ f. let (i, h) = inv.owner f in (i, holding-holds (s.thread i) h),
        λ (i, h). inv.locked i (holds-holding _ h),
      ),
    )
