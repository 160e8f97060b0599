-- ===== src/Containers/List/Transfer/Comparison.antt =====
-- `operator!=` of src/Containers/List.hpp.
use renn.Prelude.{
  ℕ, zero, suc, ◌<◌, ◌≡◌, ◌≢◌, inl, inr, Bool, true, false, ◌||◌, List, [], ◌∷◌, ◌==◌, arith, refl,
  length, ap, sym, Bool-cases,
}
use renn.Prelude.Effect.{ok}
use renn.Containers.Nodes.{Nodes, has}
use renn.Containers.List.{Store, iter, deref, increment, begin}
use renn.Containers.List.Link.{Link}
use renn.Containers.List.Contents.{IsList}
use renn.Containers.List.Pairs.{on}
use renn.Containers.List.Transfer.{differ_loop, is_unequal}
use renn.Containers.List.Transfer.Loop.{first_of, next_first}
use renn.Containers.List.Transfer.Copies.{values}

module _ {ℓ} {T : Type ℓ} (differ : T → T → Bool) where
  -- The lists have another length, or other values at some place.
  abbrev pub unequal : List T → List T → Bool
  unequal [] [] = false
  unequal [] (y ∷ ys) = true
  unequal (x ∷ xs) [] = true
  unequal (x ∷ xs) (y ∷ ys) = differ x y || unequal xs ys

  unequal-length :
      (xs ys : Nodes T) → length xs ≢ length ys → unequal (values xs) (values ys) ≡ true
  unequal-length [] [] ne = absurd (ne refl)
  unequal-length [] (y ∷ ys) ne = refl
  unequal-length (x ∷ xs) [] ne = refl
  unequal-length (x ∷ xs) (y ∷ ys) ne = ground (arith, unequal-length xs ys (λ e. ne (ap suc e)))

  differ_loop-unequal :
      (s : Store T) (fuel a b c d : ℕ) (xs ys : Nodes T)
      → b ≡ s.head
      → Link s.heap a xs b
      → Link s.heap c ys d
      → has b xs ≡ false
      → length xs ≡ length ys
      → length xs < fuel
      → differ_loop differ fuel (iter (first_of b xs)) (iter (first_of d ys)) s
        ≡ ok (unequal (values xs) (values ys)) s
  unfolding differ_loop deref increment
  differ_loop-unequal s zero a b c d xs ys h k l n e enough = absurd (omega arith)
  differ_loop-unequal s (suc fuel) a b c d [] [] h k l n e enough =
      let here : (b == s.head) ≡ true = ground arith in rw (differ_loop, here) refl
  differ_loop-unequal s (suc fuel) a b c d [] (y ∷ ys) h k l n e enough = absurd (omega arith)
  differ_loop-unequal s (suc fuel) a b c d (x ∷ xs) [] h k l n e enough = absurd (omega arith)
  differ_loop-unequal s (suc fuel) a b c d (x ∷ xs) (y ∷ ys) h k l n e enough =
      let (_, _, ax, vx, kx) = k in
      let (_, _, ay, vy, ly) = l in
      let away : (x.0 == s.head) ≡ false = ground arith in
      let rest =
        differ_loop-unequal s fuel x.0 b y.0 d xs ys h kx ly (ground arith) (omega arith)
          (omega arith) in
      let nx = next_first s.heap x.0 xs b kx in
      let ny = next_first s.heap y.0 ys d ly in
      elim (Bool-cases (differ x.1 y.1)) [
        | inl other ↦ simp (differ_loop, away, ax, ay, vx, vy, other) refl
        | inr alike ↦ simp (differ_loop, away, ax, ay, vx, vy, alike, nx, ny) rest
      ]

  -- Of two lists on one heap `operator!=` is true exactly if their lengths differ or the values at some
  -- place do; it ends and changes nothing.
  pub is_unequal-unequal :
      {s : Store T} (other : Store T) {xs ys : Nodes T}
      → IsList s xs
      → IsList (on s.heap other) ys
      → is_unequal differ other s ≡ ok (unequal (values xs) (values ys)) s
  unfolding is_unequal begin
  is_unequal-unequal {s} other {xs} {ys} l m = elim (Bool-cases (s.size == other.size)) [
    | inl same ↦
        rw
          (
            same,
            l.sentinel,
            m.sentinel,
            next_first s.heap s.head xs s.head l.link,
            next_first s.heap other.head ys other.head m.link,
          )
          (differ_loop-unequal s (suc s.size) s.head s.head other.head other.head xs ys refl l.link
            m.link l.apart (ground (arith, l.count, m.count)) (omega (arith, l.count)))
    | inr ne ↦ rw ne (
        ap (λ b. ok b s)
          (sym (unequal-length xs ys (λ e. absurd (ground (arith, e, l.count, m.count))))))
  ]
