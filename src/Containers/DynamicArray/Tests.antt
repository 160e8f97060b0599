-- ===== src/Containers/DynamicArray/Tests.antt =====
-- Runs of src/Containers/DynamicArray.hpp, and its theorems at an array of three elements.
use renn.Prelude.{
  ℕ, ◌≡◌, refl, true, none, List, [], ◌∷◌, ◌==◌, arith, get_elem?, false, ltb, if◌then◌else◌,
}
use renn.Prelude.Effect.{bad_alloc, ok, throws, ◌>>◌}
use renn.Containers.DynamicArray.{
  Array, pop_back, empty_array, push_back, insert, insert_range, erase_at_index, erase_value,
  resize, at,
}
use renn.Containers.DynamicArray.Contents.{Holds, Leaves}
use renn.Containers.DynamicArray.Insertion.{insert-Leaves, insert_nth}
use renn.Containers.DynamicArray.EmptyRange.{insert_range-ruins}
use renn.Containers.DynamicArray.RangeInsertion.{insert_range-Leaves, insert_all}
use renn.Containers.DynamicArray.Failures.{FailsSafely, bad_alloc-FailsSafely}
use renn.Containers.DynamicArray.EraseValue.{erase_value-without, without}
use renn.Containers.DynamicArray.Owners.{copy_assign}
use renn.Containers.DynamicArray.Owners.Copies.{copy_assign-Assigned}
use renn.Containers.DynamicArray.Positions.{back}
use renn.Containers.DynamicArray.Positions.Ends.{push_back-pop_back}
use renn.Containers.DynamicArray.Resize.{resize-Leaves, resized}

abbrev values : List ℕ
values = 10 ∷ 20 ∷ 30 ∷ []

-- Three elements in four cells.
abbrev three : Array ℕ
three = record { cells = get_elem? values; size = 3; capacity = 4; lost = [] }

three-Holds : Holds three values
three-Holds = record { count = refl; fits = omega arith; cells = λ i. refl }

-- Elements come out where they were put.
inserted_stands :
    (a : Array ℕ) × ((push_back true 1
          >> push_back true 2
          >> insert true 1 9
          >> insert_range true 1 (7 ∷ 8 ∷ [])
          >> erase_at_index 0
          >> at 2)
        empty_array
      ≡ ok 9 a)
    × (a.size ≡ 4)
unfolding push_back insert insert_range erase_at_index at empty_array
inserted_stands = (_, refl, refl)

-- Every equal value goes.
erased_values_go :
    (a : Array ℕ) × ((erase_value (λ a b. a == b) 20 >> at 1) three ≡ ok 30 a) × (a.size ≡ 2)
unfolding erase_value at
erased_values_go = (_, refl, refl)

insert-Leaves_example : Leaves (insert true 1 15) three (insert_nth 1 15 values)
insert-Leaves_example = insert-Leaves three-Holds 1 15 (omega arith) (omega arith)

resize-Leaves_example : Leaves (resize true 0 6) three (resized 6 0 values)
resize-Leaves_example = resize-Leaves three-Holds 0 6

insert_range-ruins_example :
    (t : Array ℕ) × (insert_range true 1 [] three ≡ ok tt t)
    × (t.size ≡ three.size)
    × ((k : ℕ) → t.cells k ≡ (if ltb k 1 then get_elem? values k else none))
insert_range-ruins_example =
    insert_range-ruins three-Holds 1 (omega arith) (omega arith) (omega arith)

insert_range-Leaves_example :
    Leaves (insert_range true 1 (7 ∷ 8 ∷ [])) three (insert_all 1 (7 ∷ 8 ∷ []) values)
insert_range-Leaves_example =
    insert_range-Leaves three-Holds 1 (7 ∷ 8 ∷ []) (omega arith) (omega arith) (omega arith)

erase_value-without_example :
    Leaves (erase_value (λ a b. a == b) 20) three (without (λ a b. a == b) 20 values)
erase_value-without_example = erase_value-without (λ a b. a == b) 20 three-Holds

-- One element in one cell.
abbrev single : Array ℕ
single = record { cells = get_elem? (5 ∷ []); size = 1; capacity = 1; lost = [] }

single-Holds : Holds single (5 ∷ [])
single-Holds = record { count = refl; fits = omega arith; cells = λ i. refl }

copy_assign-Assigned_example : copy_assign false three single ≡ throws bad_alloc none
copy_assign-Assigned_example = copy_assign-Assigned three-Holds single-Holds false

push_back-pop_back_example :
    (t : Array ℕ) × ((push_back true 40 >> back) three ≡ ok 40 t)
    × ((u : Array ℕ) × (pop_back t ≡ ok tt u) × Holds u values × (u.lost ≡ []))
push_back-pop_back_example = push_back-pop_back three-Holds 40 (omega arith)

bad_alloc-FailsSafely_example : FailsSafely three 40 (7 ∷ 8 ∷ []) 1 6
bad_alloc-FailsSafely_example =
    bad_alloc-FailsSafely three 40 (7 ∷ 8 ∷ []) 1 6 three-Holds (omega arith) (omega arith)
      (omega arith)
