-- ===== src/Containers/List/Transfer/Copies.antt =====
-- Copies of a list of src/Containers/List.hpp.
use renn.Prelude.{
  ℕ, suc, ◌^◌, ◌<◌, ◌≡◌, false, Option, some, List, [], ◌∷◌, ◌++◌, arith, refl, length, ap, ◌∙◌,
  sym,
}
use mathlib.Core.List.{append-nil, append_assoc}
use renn.Prelude.Effect.{ok}
use renn.Containers.Nodes.{Nodes, insert_end}
use renn.Containers.List.{Store, iter, new_list}
use renn.Containers.List.Contents.{IsList}
use renn.Containers.List.Frame.{Keeps, Keeps-trans}
use renn.Containers.List.Ends.{clear-empties}
use renn.Containers.List.Pairs.{on, Both, Both-Apart, Keeps-other}
use renn.Containers.List.Transfer.Fresh.{new_list-Both}
use renn.Containers.List.Transfer.{copy_loop, copy_from, copy_construct, copy_assign}
use renn.Containers.List.Transfer.Loop.{with_copies, Supplies, copy_loop-Copied, next_first}

module _ {ℓ} {T : Type ℓ} where
  abbrev pub values : Nodes T → List T
  values [] = []
  values (x ∷ xs) = x.1 ∷ values xs

  values-insert_end : (y : ℕ × T) (xs : Nodes T) → values (insert_end y xs) ≡ values xs ++ y.1 ∷ []
  unfolding insert_end
  values-insert_end y [] = refl
  values-insert_end y (x ∷ xs) = ap (λ l. x.1 ∷ l) (values-insert_end y xs)

  values-with_copies :
      (node : ℕ → ℕ) (i : ℕ) (xs ys : Nodes T)
      → values (with_copies node i xs ys) ≡ values xs ++ values ys
  values-with_copies node i xs [] = sym (append-nil (values xs))
  values-with_copies node i xs (y ∷ ys) =
      values-with_copies node (suc i) (insert_end (node i, y.1) xs) ys
      ∙ ap (λ l. l ++ values ys) (values-insert_end (node i, y.1) xs)
      ∙ append_assoc (values xs) (y.1 ∷ []) (values ys)

  -- A copy: a list with the values of the other one, which is as it was.
  pub record IsCopy (other : Store T) (ys : Nodes T) (t : Store T) : Type ℓ where
    pub nodes : Nodes T
    pub list : IsList t nodes
    pub same_values : values nodes ≡ values ys
    pub other_list : IsList (on t.heap other) ys

  copy_from-IsCopy :
      (memory : ℕ → Option ℕ) (node : ℕ → ℕ) (s other : Store T) (ys : Nodes T)
      → Both s [] other ys
      → Supplies memory node 0 s.heap
      → length ys < 2 ^ 64
      → (t : Store T) × (copy_from memory other s ≡ ok tt t) × IsCopy other ys t × Keeps s [] t
  unfolding copy_from
  copy_from-IsCopy memory node s other ys b m fits =
      let (t, run, c) =
        copy_loop-Copied memory node (suc other.size) 0 other.head ys other.head [] s b.this
          b.that.link (Both-Apart b) b.that.apart m (omega (arith, fits))
          (omega (arith, b.that.count)) in
      (
        t,
        rw b.that.sentinel (
            ap (λ p. copy_loop memory other.head (suc other.size) 0 (iter p) s)
              (next_first s.heap other.head ys other.head b.that.link)
            ∙ run),
        record {
          nodes = with_copies node 0 [] ys;
          list = c.list;
          same_values = values-with_copies node 0 [] ys;
          other_list = Keeps-other b c.keeps;
        },
        c.keeps,
      )

  -- Let two lists on one heap have no node in common and sizes that fit in 64 bits, and let the
  -- allocator give nodes that are not in use, each another one. Then copy assignment returns, this
  -- list has the values of the other in their order, in nodes of its own, the other list is as it
  -- was, and no live node outside this list changes.
  pub copy_assign-IsCopy :
      (memory : ℕ → Option ℕ) (node : ℕ → ℕ) {s other : Store T} {xs ys : Nodes T}
      → Both s xs other ys
      → Supplies memory node 0 s.heap
      → length xs < 2 ^ 64
      → length ys < 2 ^ 64
      → (t : Store T) × (copy_assign memory other s ≡ ok tt t) × IsCopy other ys t × Keeps s xs t
  unfolding copy_assign
  copy_assign-IsCopy memory node {s} {other} {xs} {ys} b m small fits =
      let (u, cleared, l, alive, keeps) = clear-empties b.this small in
      let both : Both u [] other ys = record {
        this = l;
        that = Keeps-other b keeps;
        apart = λ q e. ground (arith, b.apart q e, keeps.same_head);
      } in
      let supplies : Supplies memory node 0 u.heap = record {
        given = m.given;
        apart = m.apart;
        unused = λ j le. ground (arith, alive (node j), m.unused j le);
      } in
      let (t, run, copy, after) = copy_from-IsCopy memory node u other ys both supplies fits in
      (t, rw cleared run, copy, Keeps-trans s xs u [] t keeps after (λ q live h. absurd (cc)))

  -- In a list, with a sentinel and nodes that are not in use, the copy constructor makes a list of the
  -- values in their order, in nodes of its own, and the list that it copies is as it was.
  pub copy_construct-IsCopy :
      (memory : ℕ → Option ℕ) (node : ℕ → ℕ) (p : ℕ) {other : Store T} {ys : Nodes T}
      → IsList other ys
      → other.heap.alive p ≡ false
      → Supplies memory node 0 (new_list p other.heap).heap
      → length ys < 2 ^ 64
      → (t : Store T) × (copy_construct (some p) memory other ≡ ok tt t) × IsCopy other ys t
  unfolding copy_construct
  copy_construct-IsCopy memory node p {other} {ys} l dead m fits =
      let (t, run, copy, after) =
        copy_from-IsCopy memory node (new_list p other.heap) other ys
          (new_list-Both p other ys l dead) m fits in
      (t, rw (copy_construct, run) refl, copy)
