-- ===== src/Containers/List/Tests.antt =====
-- Runs of src/Containers/List.hpp, and its theorems at a list of two elements.
use renn.Prelude.{update, ℕ, ◌≡◌, refl, true, false, none, some, [], ◌∷◌, arith}
use renn.Prelude.Effect.{ok, ◌>>=◌}
use renn.Containers.Nodes.{Nodes, at, insert_before, remove_at}
use renn.Containers.List.{
  Heap, Store, iter, new_list, emplace, erase, push_back, push_front, pop_back, front, back, deref,
  begin, end as list_end,
}
use renn.Containers.List.Frame.{Keeps}
use renn.Containers.List.Contents.{IsList, node_of}
use renn.Containers.List.Refinement.{emplace-insert_before, erase-remove_at, after_at}

abbrev nowhere : Heap ℕ
nowhere = record { alive = λ q. false; next = λ q. 0; prev = λ q. 0; value = λ q. none }

-- 70 and 80 at the addresses 2 and 3.
abbrev two : Store ℕ
two = record {
  heap = record {
    alive = update (update (update (λ q. false) 1 true) 2 true) 3 true;
    next = update (update (update (λ q. 0) 1 2) 2 3) 3 1;
    prev = update (update (update (λ q. 0) 1 3) 2 1) 3 2;
    value = update (update (λ q. none) 2 (some 70)) 3 (some 80);
  };
  head = 1;
  tail = 1;
  size = 2;
}

abbrev elements : Nodes ℕ
elements = (2, 70) ∷ (3, 80) ∷ []

two-IsList : IsList two elements
two-IsList = record {
  link = (refl, refl, refl, refl, (refl, refl, refl, refl, (refl, refl, tt)));
  sentinel = refl;
  apart = refl;
  distinct = (refl, (refl, tt));
  same_tail = refl;
  count = refl;
}

-- Elements pushed at both ends stand in order.
pushed_ends_stand :
    (t : Store ℕ) × ((push_back (some 2) 70
          >>= (λ _. push_back (some 3) 80)
          >>= (λ _. push_front (some 4) 60)
          >>= (λ _. pop_back)
          >>= (λ _. front)
          >>= (λ a. back))
        (new_list 1 nowhere)
      ≡ ok 70 t)
unfolding push_back push_front pop_back front back new_list emplace erase deref begin list_end
pushed_ends_stand = (_, refl)

emplace-insert_before_example :
    (t : Store ℕ) × (emplace (some 4) (iter 3) 75 two ≡ ok (iter 4) t)
    × IsList t (insert_before (at 3) (4, 75) elements)
    × (t.heap.alive ≡ update two.heap.alive 4 true)
    × Keeps two elements t
emplace-insert_before_example = emplace-insert_before two-IsList (at 3) 4 75 refl refl (omega arith)

erase-remove_at_example :
    (t : Store ℕ) × (erase (iter 2) two ≡ ok (iter (node_of two (after_at 2 elements))) t)
    × IsList t (remove_at 2 elements)
    × (t.heap.alive ≡ update two.heap.alive 2 false)
    × Keeps two elements t
erase-remove_at_example = erase-remove_at two-IsList 2 refl (omega arith)
