-- ===== src/Containers/DynamicArray/Session/Lifetime.antt =====
-- An array of src/Containers/DynamicArray.hpp from its constructor to its destructor.
use renn.Prelude.{◌≡◌, refl, ap, ◌∙◌, none, List, [], ◌++◌}
use renn.Prelude.Effect.{ok, ◌>>=◌, ◌>>◌, pure}
use renn.Containers.DynamicArray.{Array, empty_array, live_below}
use renn.Containers.DynamicArray.Contents.{Holds, live_below-raw}
use renn.Containers.DynamicArray.Removal.{clear-Leaves}
use renn.Containers.DynamicArray.Owners.{destruct}
use renn.Containers.DynamicArray.Session.{Call, session}
use renn.Containers.DynamicArray.Session.Sequence.{replies, Fits}
use renn.Containers.DynamicArray.Session.Represents.{Represents-empty, empty_sequence}
use renn.Containers.DynamicArray.Session.Refinement.{session-sequence}

module _ {T : Type 0} where
  destruct-lost :
      {a : Array T} {xs : List T} (h : Holds a xs)
      → (t : Array T) × (destruct a ≡ ok tt t) × (t.lost ≡ a.lost) × (t.capacity ≡ 0)
  unfolding destruct
  destruct-lost {a} h =
      let (b, run, k, c, l) = clear-Leaves h in
      (
        record {
          cells = λ i. none;
          size = b.size;
          capacity = 0;
          lost = live_below b.capacity b.cells ++ b.lost;
        },
        rw run refl,
        ap (λ vs. vs ++ b.lost) (live_below-raw b.capacity b.cells k.cells) ∙ l,
        refl,
      )

  -- From the default constructor through any calls that the sequence allows to the destructor, with
  -- memory: every call returns or throws what the sequence replies, the destructor returns, the
  -- buffer is freed, and every value that was constructed in the array has been destroyed.
  pub session-destruct :
      (cs : List (Call T))
      → Fits cs empty_sequence
      → (t : Array T) × ((session cs >>= λ rs. destruct >> pure rs) empty_array
          ≡ ok (replies cs empty_sequence) t)
        × (t.lost ≡ [])
        × (t.capacity ≡ 0)
  session-destruct cs f =
      let (b, run, k) = session-sequence cs empty_sequence empty_array Represents-empty f in
      let (t, ends, l, c) = destruct-lost k.holds in (t, rw (run, ends) refl, l ∙ k.nothing_lost, c)
