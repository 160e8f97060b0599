-- ===== src/Containers/List/Pairs.antt =====
-- Two lists of src/Containers/List.hpp on one heap.
use renn.Prelude.{ℕ, ◌≡◌, true, false, ◌||◌, ◌==◌, arith, ◌∙◌}
use renn.Containers.Nodes.{Nodes, has}
use renn.Containers.List.{Heap, Store}
use renn.Containers.List.Contents.{IsList, Link-alive}
use renn.Containers.List.Frame.{Keeps, Apart, Link-Keeps}

module _ {ℓ} {T : Type ℓ} where
  -- Another list on the same heap.
  abbrev pub on : Heap T → Store T → Store T
  on h other = record other { heap = h }

  -- Two lists without a node in common.
  pub record Both (s : Store T) (xs : Nodes T) (other : Store T) (ys : Nodes T) : Type ℓ where
    pub this : IsList s xs
    pub that : IsList (on s.heap other) ys
    pub apart : (q : ℕ) → (q == other.head || has q ys) ≡ true → (q == s.head || has q xs) ≡ false

  pub Both-Apart :
      {s : Store T} {xs : Nodes T} {other : Store T} {ys : Nodes T}
      → Both s xs other ys
      → Apart s xs other.head ys other.head
  Both-Apart {s} {xs} {other} {ys} b q m = (
    ground (arith, m, Link-alive s.heap other.head ys other.head q b.that.link, b.that.sentinel),
    b.apart q (ground arith),
  )

  -- What an operation on one of the lists leaves of the other.
  pub Keeps-other :
      {s : Store T} {xs : Nodes T} {other : Store T} {ys : Nodes T} {t : Store T}
      → Both s xs other ys
      → Keeps s xs t
      → IsList (on t.heap other) ys
  Keeps-other {s} {xs} {other} {ys} {t} b k = record {
    link = Link-Keeps s xs t other.head ys other.head k (Both-Apart b) b.that.link;
    sentinel =
        (k.others other.head b.that.sentinel (b.apart other.head (ground arith))).alive
        ∙ b.that.sentinel;
    apart = b.that.apart;
    distinct = b.that.distinct;
    same_tail = b.that.same_tail;
    count = b.that.count;
  }
