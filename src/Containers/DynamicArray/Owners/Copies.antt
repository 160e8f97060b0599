-- ===== src/Containers/DynamicArray/Owners/Copies.antt =====
-- A copy of an array of src/Containers/DynamicArray.hpp has its elements.
use renn.Prelude.{
  update, ℕ, zero, suc, ◌+◌, ◌<◌, ◌≤◌, ◌≡◌, refl, inl, inr, true, false, Bool, Option, none, some,
  List, [], ◌++◌, ltb, if◌then◌else◌, length, arith, ap, ◌∙◌, Bool-cases, ◌&&◌, not,
}
use mathlib.Core.Path.{subst}
use renn.Prelude.Effect.{ok, throws, bad_alloc}
use renn.Containers.DynamicArray.{Array, clear}
use renn.Containers.DynamicArray.Contents.{
  Holds, Live, among, construct-raw, load-live, Holds-Live, get_elem?-length, live_below-raw,
}
use renn.Containers.DynamicArray.Removal.{clear-Leaves}
use renn.Containers.DynamicArray.Owners.{
  fresh_array, copy_from, copy_construct, copy_assign, dropped,
}

module _ {T : Type 0} where
  record Copied (n i : ℕ) (other a : Array T) : Type 0 where
    pub rest : ℕ → Option T
    pub returns : copy_from n i other a ≡ ok tt (record a { cells = rest })
    pub cells : (k : ℕ) → rest k ≡ (if among i n k then other.cells k else a.cells k)

  copy_from-step :
      (n i : ℕ) (other a : Array T) (v : T)
      → i < a.capacity
      → i < other.capacity
      → other.cells i ≡ some v
      → a.cells i ≡ none
      → copy_from (suc n) i other a
        ≡ copy_from n (suc i) other (record a { cells = update a.cells i (some v) })
  unfolding copy_from
  copy_from-step n i other a v room inside live raw =
      simp (copy_from, load-live i v other inside live, construct-raw i v a room raw) refl

  copy_from-Copied :
      (n i : ℕ) (other a : Array T)
      → i + n ≤ a.capacity
      → i + n ≤ other.capacity
      → Live other.cells i n
      → ((k : ℕ) → i ≤ k → a.cells k ≡ none)
      → Copied n i other a
  unfolding copy_from
  copy_from-Copied zero i other a room inside live raw = record {
    rest = a.cells;
    returns = refl;
    cells = λ k. ground arith;
  }
  copy_from-Copied (suc n) i other a room inside live raw =
      let (v, e) = live i (omega arith) (omega arith) in
      let b : Array T = record a { cells = update a.cells i (some v) } in
      let s =
        copy_from-Copied n (suc i) other b (omega arith) (omega arith)
          (λ k lo hi. live k (omega arith) (omega arith))
          (λ k lo. ground (arith, raw k (omega arith))) in
      record {
        rest = s.rest;
        returns =
            copy_from-step n i other a v (omega arith) (omega arith) e (raw i (omega arith))
            ∙ s.returns;
        cells = λ k. ground (arith, s.cells k, e);
      }

  -- The constructor and the assignments share the loop over a buffer of raw cells.
  copy_from-Holds :
      (other : Array T) (xs : List T) (a : Array T)
      → Holds other xs
      → length xs ≤ a.capacity
      → a.size ≡ length xs
      → ((k : ℕ) → a.cells k ≡ none)
      → (t : Array T) × (copy_from other.size 0 other a ≡ ok tt t)
        × Holds t xs
        × (t.capacity ≡ a.capacity)
        × (t.lost ≡ a.lost)
  copy_from-Holds other xs a h room size raw =
      let s =
        copy_from-Copied other.size 0 other a (omega (arith, h.count)) (omega (arith, h.fits))
          (λ k lo hi. Holds-Live h 0 (length xs) (omega arith) k lo (omega (arith, hi, h.count)))
          (λ k lo. raw k) in
      (
        record a { cells = s.rest },
        s.returns,
        record {
          count = size;
          fits = omega arith;
          cells = λ k. ground (arith, s.cells k, h.cells k, h.count, raw k, get_elem?-length xs k);
        },
        refl,
        refl,
      )

  -- The copy constructor throws `bad_alloc` without memory, and otherwise makes an array of the same
  -- elements and capacity as the one it copies, with nothing dropped.
  pub copy_construct-Holds :
      {other : Array T} {xs : List T} (h : Holds other xs) (a : Array T)
      → (copy_construct false other a ≡ throws bad_alloc a)
        × ((t : Array T) × (copy_construct true other a ≡ ok tt t)
            × Holds t xs
            × (t.capacity ≡ other.capacity)
            × (t.lost ≡ []))
  unfolding copy_construct fresh_array
  copy_construct-Holds {other} {xs} h a = (
    refl,
    copy_from-Holds other xs (fresh_array other.size other.capacity) h
        (omega (arith, h.count, h.fits)) h.count (λ k. refl),
  )

  -- What copy assignment leaves of two arrays.
  abbrev pub Assigned :
      (allocated : Bool) → (other a : Array T) → List T → (capacity : ℕ) → List T → Type 0
  Assigned allocated other a xs capacity lost =
      if ltb capacity other.size && not allocated
      then copy_assign allocated other a ≡ throws bad_alloc none
      else (t : Array T) × (copy_assign allocated other a ≡ ok tt (some t))
        × Holds t xs
        × (t.capacity ≡ (if ltb capacity other.size then other.capacity else capacity))
        × (t.lost ≡ lost)

  -- The old buffer is too small, or it is kept.
  Assigned-anew :
      (allocated : Bool) (other : Array T) (xs : List T) (a b : Array T)
      → Holds other xs
      → clear a ≡ ok tt b
      → Holds b []
      → ltb b.capacity other.size ≡ true
      → Assigned allocated other a xs b.capacity b.lost
  unfolding copy_assign
  Assigned-anew false other xs a b h e k grows = rw grows (simp (copy_assign, e, grows) refl)
  Assigned-anew true other xs a b h e k grows =
      let c : Array T = record {
        cells = λ i. none;
        size = other.size;
        capacity = other.capacity;
        lost = dropped b;
      } in
      let (t, run, m, cap, l) =
        copy_from-Holds other xs c h (omega (arith, h.count, h.fits)) h.count (λ i. refl) in
      rw grows (
        t,
        simp (copy_assign, e, grows, run) refl,
        m,
        cap,
        l ∙ ap (λ (l : List T). l ++ b.lost) (live_below-raw b.capacity b.cells (λ i. k.cells i)),
      )

  Assigned-over :
      (allocated : Bool) (other : Array T) (xs : List T) (a b : Array T)
      → Holds other xs
      → clear a ≡ ok tt b
      → Holds b []
      → ltb b.capacity other.size ≡ false
      → Assigned allocated other a xs b.capacity b.lost
  unfolding copy_assign
  Assigned-over allocated other xs a b h e k fits =
      let c : Array T = record b { size = other.size } in
      let (t, run, m, cap, l) =
        copy_from-Holds other xs c h (ground (arith, h.count)) h.count (λ i. k.cells i) in
      rw fits (t, simp (copy_assign, e, fits, run) refl, m, cap, l)

  -- Copy assignment of an array with the elements `xs` to another array returns with the same
  -- elements and drops none without its destruction; it takes a buffer of the other array's capacity
  -- if the old one is too small for the elements, and keeps the old one if not. Where it needs a buffer
  -- and there is no memory, it throws `bad_alloc` and leaves the array with a freed buffer.
  pub copy_assign-Assigned :
      {other a : Array T} {xs ys : List T}
      → Holds other xs
      → Holds a ys
      → (allocated : Bool) → Assigned allocated other a xs a.capacity a.lost
  copy_assign-Assigned {other} {a} {xs} h g allocated =
      let (b, e, k, c, l) = clear-Leaves g in
      let assigned : Assigned allocated other a xs b.capacity b.lost =
        elim (Bool-cases (ltb b.capacity other.size)) [
          | inl grows ↦ Assigned-anew allocated other xs a b h e k grows
          | inr fits ↦ Assigned-over allocated other xs a b h e k fits
        ] in
      subst (λ lost. Assigned allocated other a xs a.capacity lost) l
        (subst (λ capacity. Assigned allocated other a xs capacity b.lost) c assigned)
