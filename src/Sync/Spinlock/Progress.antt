-- ===== src/Sync/Spinlock/Progress.antt =====
-- The waiting of src/Sync/Spinlock/Spinlock.cc: its backoff, and that a thread gets a free lock.
use renn.Prelude.{
  update, ℕ, zero, suc, ◌≤◌, ◌<◌, ◌≡◌, refl, inl, inr, Bool, true, false, ltb, ◌==◌, if◌then◌else◌,
  arith, Bool-cases, ltb→lt,
}
use renn.Sync.Spinlock.{
  Call, lock, try_lock, try_lock_for, try_lock_until, Spin, untimed, timed, Thread, outside,
  first_clock, first_load, first_exchange, outer_clock, inner_clock, inner_load, outer_load,
  outer_exchange, holding, start, refused, spin, retry, leave_spin, next_backoff, act, Spinlock,
  new_lock, unlock, run, calls, accesses, unlocks, Reach, initial, later,
}

-- The backoff of a thread that waits is between the initial and the largest one, and a round of the
-- inner loop is below it.
abbrev pub Bounded : ℕ → Type 0
Bounded b = (4 ≤ b) × (b ≤ 1024)

abbrev pub IsBounded : Thread → Type 0
IsBounded (outer_clock b) = Bounded b
IsBounded (inner_clock i b) = (i < b) × Bounded b
IsBounded (inner_load c i b) = (i < b) × Bounded b
IsBounded (outer_load c b) = Bounded b
IsBounded (outer_exchange c b) = Bounded b
IsBounded _ = Unit

next_backoff-Bounded : (b : ℕ) → Bounded b → Bounded (next_backoff b)
unfolding next_backoff
next_backoff-Bounded b (lo, hi) = (omega arith, omega arith)

leave_spin-IsBounded : (c : Spin) (b : ℕ) → Bounded b → IsBounded (leave_spin c b)
unfolding leave_spin
leave_spin-IsBounded untimed b h = next_backoff-Bounded b h
leave_spin-IsBounded timed b h = h

spin-IsBounded : (c : Spin) (i b : ℕ) → Bounded b → IsBounded (spin c i b)
unfolding spin
spin-IsBounded untimed i b h = elim (Bool-cases (ltb i b)) [
  | inl lt ↦ rw lt (ltb→lt i b lt, h)
  | inr ge ↦ rw ge (leave_spin-IsBounded untimed b h)
]
spin-IsBounded timed i b h = elim (Bool-cases (ltb i b)) [
  | inl lt ↦ rw lt (ltb→lt i b lt, h)
  | inr ge ↦ rw ge (leave_spin-IsBounded timed b h)
]

retry-IsBounded : (c : Spin) (b : ℕ) → Bounded b → IsBounded (retry c b)
unfolding retry
retry-IsBounded untimed b h = spin-IsBounded untimed 0 b h
retry-IsBounded timed b h = next_backoff-Bounded b h

refused-IsBounded : (r : Bool) → IsBounded (refused r)
refused-IsBounded true = (omega arith, omega arith)
refused-IsBounded false = tt

-- The clock and the flag decide between two places.
either-IsBounded :
    (b : Bool) (th u : Thread) → IsBounded th → IsBounded u → IsBounded (if b then th else u)
either-IsBounded true th u h k = h
either-IsBounded false th u h k = k

act-IsBounded :
    (expired flag : Bool) (th : Thread) → IsBounded th → IsBounded ((act expired flag th).1)
unfolding act
act-IsBounded e f outside h = tt
act-IsBounded e f first_clock h = either-IsBounded e outside (first_load true) tt tt
act-IsBounded e f (first_load r) h =
    either-IsBounded f (refused r) (first_exchange r) (refused-IsBounded r) tt
act-IsBounded e f (first_exchange r) h =
    either-IsBounded f (refused r) holding (refused-IsBounded r) tt
act-IsBounded e f (outer_clock b) h =
    either-IsBounded e outside (spin timed 0 b) tt (spin-IsBounded timed 0 b h)
act-IsBounded e f (inner_clock i b) h = either-IsBounded e outside (inner_load timed i b) tt h
act-IsBounded e f (inner_load c i b) (lt, h) =
    either-IsBounded f (spin c (suc i) b) (leave_spin c b) (spin-IsBounded c (suc i) b h)
      (leave_spin-IsBounded c b h)
act-IsBounded e f (outer_load c b) h =
    either-IsBounded f (retry c b) (outer_exchange c b) (retry-IsBounded c b h) h
act-IsBounded e f (outer_exchange c b) h =
    either-IsBounded f (retry c b) holding (retry-IsBounded c b h) tt
act-IsBounded e f holding h = tt

start-IsBounded : (c : Call) → IsBounded (start c)
unfolding start
start-IsBounded lock = (omega arith, omega arith)
start-IsBounded try_lock = tt
start-IsBounded try_lock_for = tt
start-IsBounded try_lock_until = tt

update-IsBounded :
    (f : ℕ → Thread) (j : ℕ) (th : Thread) (i : ℕ)
    → IsBounded th
    → IsBounded (f i)
    → IsBounded (update f j th i)
update-IsBounded f j th i h k = either-IsBounded (j == i) th (f i) h k

-- In every reachable state the backoff of each waiting thread is from 4 to 1024, and the rounds of
-- its inner loop are fewer than the backoff.
pub Reach-IsBounded : {s : Spinlock} → Reach s → (i : ℕ) → IsBounded (s.thread i)
unfolding new_lock run unlock
Reach-IsBounded initial i = tt
Reach-IsBounded (later {s} r (calls j c e)) i =
    update-IsBounded s.thread j (start c) i (start-IsBounded c) (Reach-IsBounded r i)
Reach-IsBounded (later {s} r (accesses j e)) i =
    update-IsBounded s.thread j ((act e s.flag (s.thread j)).1) i
      (act-IsBounded e s.flag (s.thread j) (Reach-IsBounded r j)) (Reach-IsBounded r i)
Reach-IsBounded (later {s} r (unlocks j e)) i =
    update-IsBounded s.thread j outside i tt (Reach-IsBounded r i)

-- `n` accesses of one thread while no other thread steps.
abbrev pub alone : (n : ℕ) → (expired : Bool) → Bool × Thread → Bool × Thread
alone zero expired a = a
alone (suc n) expired a = alone n expired (act expired a.0 a.1)

-- The thread is in a call of `lock`.
abbrev pub locking : Thread → Bool
locking (inner_load untimed i b) = true
locking (outer_load untimed b) = true
locking (outer_exchange untimed b) = true
locking _ = false

-- A thread that is anywhere inside `lock` when the lock is free, and that no other thread disturbs,
-- holds the lock after three accesses at most.
pub alone-holding :
    (th : Thread) (expired : Bool)
    → locking th ≡ true
    → alone 3 expired (false, th) ≡ (true, holding)
unfolding act leave_spin
alone-holding (inner_load untimed i b) e h = refl
alone-holding (outer_load untimed b) e h = refl
alone-holding (outer_exchange untimed b) e h = refl
alone-holding (inner_load timed i b) e h = absurd (cc)
alone-holding (outer_load timed b) e h = absurd (cc)
alone-holding (outer_exchange timed b) e h = absurd (cc)
alone-holding outside e h = absurd (cc)
alone-holding first_clock e h = absurd (cc)
alone-holding (first_load r) e h = absurd (cc)
alone-holding (first_exchange r) e h = absurd (cc)
alone-holding (outer_clock b) e h = absurd (cc)
alone-holding (inner_clock i b) e h = absurd (cc)
alone-holding holding e h = absurd (cc)

-- `try_lock` that no other thread disturbs takes a free lock and fails on a taken one, and changes
-- nothing then, in two accesses.
pub alone-try_lock :
    (flag expired : Bool)
    → alone 2 expired (flag, start try_lock) ≡ (true, if flag then outside else holding)
unfolding act start
alone-try_lock true e = refl
alone-try_lock false e = refl

-- The thread is in a timed call.
abbrev pub timing : Thread → Bool
timing first_clock = true
timing (first_load r) = r
timing (first_exchange r) = r
timing (outer_clock b) = true
timing (inner_clock i b) = true
timing (inner_load timed i b) = true
timing (outer_load timed b) = true
timing (outer_exchange timed b) = true
timing _ = false

-- The call has returned.
abbrev pub settled : Thread → Bool
settled outside = true
settled holding = true
settled _ = false

-- A thread anywhere inside `try_lock_for` or `try_lock_until` whose deadline has passed, and that no
-- other thread disturbs, has returned after three accesses at most, whether or not the lock is free.
pub alone-settled :
    (th : Thread) (flag : Bool) → timing th ≡ true → settled ((alone 3 true (flag, th)).1) ≡ true
unfolding act leave_spin retry spin
alone-settled first_clock f h = refl
alone-settled (first_load true) true h = refl
alone-settled (first_load true) false h = refl
alone-settled (first_exchange true) true h = refl
alone-settled (first_exchange true) false h = refl
alone-settled (outer_clock b) f h = refl
alone-settled (inner_clock i b) f h = refl
alone-settled (inner_load timed i b) true h = elim (Bool-cases (ltb (suc i) b)) [
  | inl e ↦ rw e refl
  | inr e ↦ rw e refl
]
alone-settled (inner_load timed i b) false h = refl
alone-settled (outer_load timed b) true h = refl
alone-settled (outer_load timed b) false h = refl
alone-settled (outer_exchange timed b) true h = refl
alone-settled (outer_exchange timed b) false h = refl
alone-settled (first_load false) f h = absurd (cc)
alone-settled (first_exchange false) f h = absurd (cc)
alone-settled (inner_load untimed i b) f h = absurd (cc)
alone-settled (outer_load untimed b) f h = absurd (cc)
alone-settled (outer_exchange untimed b) f h = absurd (cc)
alone-settled outside f h = absurd (cc)
alone-settled holding f h = absurd (cc)
