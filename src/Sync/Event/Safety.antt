-- ===== src/Sync/Event/Safety.antt =====
-- What src/Sync/Event.hpp promises.
use renn.Prelude.{ℕ, ◌≡◌, ◌≢◌, refl, Bool, true, false, arith}
use renn.Sync.Event.{
  Waiter, outside, loading, suspending, blocked, passed, Firer, unfired, prepared, stored, fired,
  Event, new_event, load_ready, wait_once, wake, fire, Step, waits, loads, suspends, wakes_up,
  fires, Reach, initial, later,
}

abbrev pub is_stored : Firer → Bool
is_stored stored = true
is_stored fired = true
is_stored _ = false

pub record Inv (s : Event) : Type 0 where
  pub ready : s.ready ≡ is_stored s.firer
  pub awake : s.firer ≡ fired → (i : ℕ) → s.waiter i ≢ blocked
  pub after : (i : ℕ) → s.waiter i ≡ passed → s.ready ≡ true

wake-blocked : (w : Waiter) → wake w ≢ blocked
wake-blocked outside e = cc e
wake-blocked loading e = cc e
wake-blocked suspending e = cc e
wake-blocked blocked e = cc e
wake-blocked passed e = cc e

wake-passed : (w : Waiter) → wake w ≡ passed → w ≡ passed
wake-passed outside e = cc e
wake-passed loading e = cc e
wake-passed suspending e = cc e
wake-passed blocked e = cc e
wake-passed passed e = refl

Step-Inv : {s t : Event} → Step s t → Inv s → Inv t
unfolding load_ready wait_once fire
Step-Inv {s} (waits i e) inv = record {
  ready = inv.ready;
  awake = λ f j. ground (arith, inv.awake f j);
  after = λ j. ground (arith, inv.after j);
}
Step-Inv {s} (loads i e) inv = record {
  ready = inv.ready;
  awake = λ f j. ground (arith, inv.awake f j);
  after = λ j. ground (arith, inv.after j);
}
Step-Inv {s} (suspends i e) inv = record {
  ready = inv.ready;
  awake = λ f j. ground (arith, inv.awake f j, inv.ready);
  after = λ j. ground (arith, inv.after j);
}
Step-Inv {s} (wakes_up i e) inv = record {
  ready = inv.ready;
  awake = λ f j. ground (arith, inv.awake f j);
  after = λ j. ground (arith, inv.after j);
}
Step-Inv {s} (fires unfired e) inv = record {
  ready = ground (arith, inv.ready);
  awake = λ f j. absurd (cc);
  after = inv.after;
}
Step-Inv {s} (fires prepared e) inv = record {
  ready = refl;
  awake = λ f j. absurd (cc);
  after = λ j h. refl;
}
Step-Inv {s} (fires stored e) inv = record {
  ready = ground (arith, inv.ready);
  awake = λ f j. wake-blocked (s.waiter j);
  after = λ j h. inv.after j (wake-passed (s.waiter j) h);
}
Step-Inv {s} (fires fired e) inv = inv

Reach-Inv : {s : Event} → Reach s → Inv s
unfolding new_event
Reach-Inv initial = record { ready = refl; awake = λ f i e. cc e; after = λ i e. absurd (cc e) }
Reach-Inv (later r st) = Step-Inv st (Reach-Inv r)

-- In every reachable state a thread is behind `wait` only if `fire` has stored, and once `fire` has
-- returned no thread is blocked.
pub fired-awake :
    {s : Event}
    → Reach s
    → ((i : ℕ) → s.waiter i ≡ passed → is_stored s.firer ≡ true)
      × (s.firer ≡ fired → (i : ℕ) → s.waiter i ≢ blocked)
fired-awake {s} r =
    let inv = Reach-Inv r in (λ i h. ground (arith, inv.after i h, inv.ready), inv.awake)
