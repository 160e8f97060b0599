-- ===== src/Containers/List/Session/Deque.antt =====
-- What a list promises to a client of its ends.
use renn.Prelude.{
  ℕ, ◌+◌, ◌^◌, ◌<◌, ◌≡◌, Bool, false, Option, none, some, List, [], ◌∷◌, ◌==◌, length,
}
use renn.Prelude.Effect.{out_of_range}
use renn.Containers.Nodes.{Nodes, has, insert_end}
use renn.Containers.List.Session.{
  Call, pushes_back, pushes_front, pops_back, pops_front, reads_front, reads_back, clears, counts,
  tests_empty, Reply, finished, value, count, answer, thrown,
}

module _ {ℓ} {T : Type ℓ} where
  abbrev pub drop_last : Nodes T → Nodes T
  drop_last [] = []
  drop_last (x ∷ []) = []
  drop_last (x ∷ y ∷ xs) = x ∷ drop_last (y ∷ xs)

  abbrev pub drop_first : Nodes T → Nodes T
  drop_first [] = []
  drop_first (x ∷ xs) = xs

  abbrev pub first : Nodes T → Option T
  first [] = none
  first (x ∷ xs) = some x.1

  abbrev pub last : Nodes T → Option T
  last [] = none
  last (x ∷ []) = some x.1
  last (x ∷ y ∷ xs) = last (y ∷ xs)

  -- An end, with what is thrown where there is no element.
  abbrev pub read : Option T → Reply T
  read none = thrown out_of_range
  read (some v) = value v

  -- A removal from an empty list does nothing.
  abbrev pub reply : Call T → Nodes T → Reply T × Nodes T
  reply (pushes_back node v) xs = (finished, insert_end (node, v) xs)
  reply (pushes_front node v) xs = (finished, (node, v) ∷ xs)
  reply pops_back xs = (finished, drop_last xs)
  reply pops_front xs = (finished, drop_first xs)
  reply reads_front xs = (read (first xs), xs)
  reply reads_back xs = (read (last xs), xs)
  reply clears xs = (finished, [])
  reply counts xs = (count (length xs), xs)
  reply tests_empty xs = (answer (length xs == 0), xs)

  abbrev pub replies : List (Call T) → Nodes T → List (Reply T)
  replies [] xs = []
  replies (c ∷ cs) xs = (reply c xs).0 ∷ replies cs (reply c xs).1

  abbrev pub after : List (Call T) → Nodes T → Nodes T
  after [] xs = xs
  after (c ∷ cs) xs = after cs (reply c xs).1

  -- The allocator gives nodes that neither the list uses nor the rest of the program; a node that the
  -- list has freed may come again.
  abbrev pub Needs : (others : ℕ → Bool) → Call T → Nodes T → Type 0
  Needs others (pushes_back node v) xs =
      (others node ≡ false) × (has node xs ≡ false) × (length xs + 1 < 2 ^ 64)
  Needs others (pushes_front node v) xs =
      (others node ≡ false) × (has node xs ≡ false) × (length xs + 1 < 2 ^ 64)
  Needs others _ xs = Unit

  abbrev pub Fits : (others : ℕ → Bool) → List (Call T) → Nodes T → Type 0
  Fits others [] xs = Unit
  Fits others (c ∷ cs) xs = Needs others c xs × Fits others cs (reply c xs).1
