-- ===== src/Sync/Event/Tests.antt =====
-- A run of src/Sync/Event.hpp: a thread blocks, and the event fires.
use renn.Prelude.{ℕ, ◌≡◌, ◌≢◌, refl, true}
use renn.Sync.Event.{
  Event, blocked, passed, fired, unfired, prepared, stored, new_event, load_ready, wait_once, fire,
  Reach, initial, later, waits, loads, suspends, fires,
}
use renn.Sync.Event.Safety.{fired-awake, is_stored}

abbrev Trace : Type 0
Trace = (s : Event) × Reach s

abbrev asleep : Trace
unfolding new_event load_ready wait_once
asleep =
    let a : Trace = (_, later initial (waits 0 refl)) in
    let b : Trace = (_, later a.1 (loads 0 refl)) in (_, later b.1 (suspends 0 refl))

abbrev over : Trace
unfolding new_event load_ready wait_once fire
over =
    let a : Trace = (_, later asleep.1 (fires unfired refl)) in
    let b : Trace = (_, later a.1 (fires prepared refl)) in
    let c : Trace = (_, later b.1 (fires stored refl)) in (_, later c.1 (loads 0 refl))

-- The waiter blocks until the event fires, and passes then.
sleeper_passes : (asleep.0.waiter 0 ≡ blocked) × (over.0.waiter 0 ≡ passed)
unfolding new_event load_ready wait_once fire
sleeper_passes = (refl, refl)

fired-awake_example :
    ((i : ℕ) → over.0.waiter i ≡ passed → is_stored over.0.firer ≡ true)
    × (over.0.firer ≡ fired → (i : ℕ) → over.0.waiter i ≢ blocked)
fired-awake_example = fired-awake over.1
