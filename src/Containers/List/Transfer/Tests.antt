-- ===== src/Containers/List/Transfer/Tests.antt =====
-- Copies, moves and the comparison of two lists of src/Containers/List.hpp: 70 and 80 at the addresses 2
-- and 3, with the sentinel 1, and 90 at the address 6, with the sentinel 5.
use renn.Prelude.{
  update, ℕ, ◌+◌, ◌≡◌, true, false, ◌||◌, ◌&&◌, ltb, not, some, none, Option, [], ◌∷◌, ◌==◌,
  if◌then◌else◌, arith, refl,
}
use renn.Prelude.Effect.{ok}
use renn.Containers.Nodes.{Nodes, has}
use renn.Containers.List.{Heap, Store}
use renn.Containers.List.Contents.{IsList}
use renn.Containers.List.Frame.{Keeps}
use renn.Containers.List.Pairs.{Both}
use renn.Containers.List.Transfer.{copy_assign, move_assign}
use renn.Containers.List.Transfer.Copies.{IsCopy, copy_assign-IsCopy}
use renn.Containers.List.Transfer.Moves.{move_assign-Both}

abbrev shared : Heap ℕ
shared = record {
  alive = λ q. not (7 == q) && ltb 0 q && not (4 == q) && ltb q 7;
  next = update (update (update (update (update (λ q. 0) 1 2) 2 3) 3 1) 5 6) 6 5;
  prev = update (update (update (update (update (λ q. 0) 1 3) 2 1) 3 2) 5 6) 6 5;
  value = update (update (update (λ q. none) 2 (some 70)) 3 (some 80)) 6 (some 90);
}

abbrev two : Store ℕ
two = record { heap = shared; head = 1; tail = 1; size = 2 }

abbrev elements : Nodes ℕ
elements = (2, 70) ∷ (3, 80) ∷ []

abbrev one : Store ℕ
one = record { heap = shared; head = 5; tail = 5; size = 1 }

abbrev ninety : Nodes ℕ
ninety = (6, 90) ∷ []

two-IsList : IsList two elements
two-IsList = record {
  link = (refl, refl, refl, refl, (refl, refl, refl, refl, (refl, refl, tt)));
  sentinel = refl;
  apart = refl;
  distinct = (refl, (refl, tt));
  same_tail = refl;
  count = refl;
}

one-IsList : IsList one ninety
one-IsList = record {
  link = (refl, refl, refl, refl, (refl, refl, tt));
  sentinel = refl;
  apart = refl;
  distinct = (refl, tt);
  same_tail = refl;
  count = refl;
}

one-two-Both : Both one ninety two elements
one-two-Both = record { this = one-IsList; that = two-IsList; apart = λ q e. ground (arith, e) }

abbrev memory : ℕ → Option ℕ
memory i = some (10 + i)

dead_behind : (j : ℕ) → shared.alive (10 + j) ≡ false
dead_behind j = ground arith

copy_assign-IsCopy_example :
    (t : Store ℕ) × (copy_assign memory two one ≡ ok tt t)
    × IsCopy two elements t
    × Keeps one ninety t
copy_assign-IsCopy_example =
    copy_assign-IsCopy memory (λ i. 10 + i) one-two-Both
      (record { given = λ j. refl; apart = λ j k e. omega arith; unused = λ j le. dead_behind j })
      (omega arith) (omega arith)

move_assign-Both_example :
    (t left : Store ℕ) × (move_assign 6 two one ≡ ok left t)
    × Both left [] t elements
    × ((q : ℕ)
        → t.heap.alive q
          ≡ (if 6 == q then true else if q == 5 || has q ninety then false else shared.alive q))
move_assign-Both_example = move_assign-Both 6 one-two-Both (omega arith) refl
