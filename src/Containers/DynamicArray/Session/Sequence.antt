-- ===== src/Containers/DynamicArray/Session/Sequence.antt =====
-- What a dynamic array promises its clients: a list of elements, and a capacity.
use renn.Prelude.{
  ℕ, ◌-◌, ◌^◌, ◌<◌, max, Option, none, some, List, [], ◌∷◌, ◌++◌, ltb, leb, if◌then◌else◌, length,
  get_elem?,
}
use renn.Prelude.Effect.{out_of_range}
use renn.Containers.DynamicArray.Insertion.{insert_nth}
use renn.Containers.DynamicArray.Removal.{erase_nth}
use renn.Containers.DynamicArray.Resize.{resized}
use renn.Containers.DynamicArray.Capacity.{grown}
use renn.Containers.DynamicArray.Session.{
  Call, pushes, pops, inserts, erases, resizes, reserves, clears, reads, reads_first, reads_last,
  counts, measures, Reply, finished, value, count, thrown,
}

pub record Sequence (T : Type 0) : Type 0 where
  pub elements : List T
  pub capacity : ℕ

module _ {T : Type 0} where
  abbrev pub drop_last : List T → List T
  drop_last [] = []
  drop_last (x ∷ []) = []
  drop_last (x ∷ y ∷ xs) = x ∷ drop_last (y ∷ xs)

  -- A read of an element, with what is thrown where there is none.
  abbrev pub read : Option T → Reply T
  read none = thrown out_of_range
  read (some v) = value v

  -- An insertion doubles the capacity where it is used up.
  abbrev pub reply : Call T → Sequence T → Reply T × Sequence T
  reply (pushes v) s = (
    finished,
    record { elements = s.elements ++ v ∷ []; capacity = grown (length s.elements) s.capacity },
  )
  reply pops s = (finished, record s { elements = drop_last s.elements })
  reply (inserts index v) s = if ltb (length s.elements) index then (thrown out_of_range, s) else (
    finished,
    record {
      elements = insert_nth index v s.elements;
      capacity = grown (length s.elements) s.capacity;
    },
  )
  reply (erases index) s =
      if leb (length s.elements) index
      then (thrown out_of_range, s)
      else (finished, record s { elements = erase_nth index s.elements })
  reply (resizes default n) s = (
    finished,
    record {
      elements = resized n default s.elements;
      capacity = (if ltb n (length s.elements) then s.capacity else max s.capacity n);
    },
  )
  reply (reserves n) s = (finished, record s { capacity = max s.capacity n })
  reply clears s = (finished, record s { elements = [] })
  reply (reads index) s = (read (get_elem? s.elements index), s)
  reply reads_first s = (read (get_elem? s.elements 0), s)
  reply reads_last s = (read (get_elem? s.elements (length s.elements - 1)), s)
  reply counts s = (count (length s.elements), s)
  reply measures s = (count s.capacity, s)

  abbrev pub replies : List (Call T) → Sequence T → List (Reply T)
  replies [] s = []
  replies (c ∷ cs) s = (reply c s).0 ∷ replies cs (reply c s).1

  abbrev pub after : List (Call T) → Sequence T → Sequence T
  after [] s = s
  after (c ∷ cs) s = after cs (reply c s).1

  -- What a call needs: `front` and `back` need an element.
  abbrev pub Needs : Call T → Sequence T → Type 0
  Needs reads_first s = 0 < length s.elements
  Needs reads_last s = 0 < length s.elements
  Needs _ s = Unit

  -- The calls are allowed, and the capacity can double.
  abbrev pub Fits : List (Call T) → Sequence T → Type 0
  Fits [] s = Unit
  Fits (c ∷ cs) s = Needs c s × (s.capacity < 2 ^ 63) × Fits cs (reply c s).1
