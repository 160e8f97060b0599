-- ===== src/Containers/List/Transfer/Fresh.antt =====
-- A new list beside another one, as the copy and the move constructor of src/Containers/List.hpp make it.
use renn.Prelude.{ℕ, ◌≡◌, true, false, ◌||◌, [], ◌==◌, arith, refl, ◌∙◌}
use renn.Containers.Nodes.{Nodes, has}
use renn.Containers.List.{Store, new_list}
use renn.Containers.List.Contents.{IsList, Link-alive, new_list-IsList}
use renn.Containers.List.Frame.{Keeps, Apart, Link-Keeps}
use renn.Containers.List.Pairs.{Both}

module _ {ℓ} {T : Type ℓ} where
  -- A new list beside another.
  Keeps-new_list :
      (p : ℕ) (other : Store T) → Keeps (record other { head = p }) [] (new_list p other.heap)
  unfolding new_list
  Keeps-new_list p other = record {
    same_head = refl;
    others = λ q live away.
        let pq : (p == q) ≡ false = ground arith in
        record { next = rw pq refl; prev = rw pq refl; alive = rw pq refl; value = rw pq refl };
  }

  pub new_list-Both :
      (p : ℕ) (other : Store T) (ys : Nodes T)
      → IsList other ys
      → other.heap.alive p ≡ false
      → Both (new_list p other.heap) [] other ys
  unfolding new_list
  new_list-Both p other ys l dead =
      let keeps = Keeps-new_list p other in
      let away : (q : ℕ) → (q == other.head || has q ys) ≡ true → (q == p || false) ≡ false = λ q e.
        ground (arith, Link-alive other.heap other.head ys other.head q l.link, l.sentinel, dead) in
      let apart : Apart (record other { head = p }) [] other.head ys other.head = λ q e. (
        ground (arith, e, Link-alive other.heap other.head ys other.head q l.link, l.sentinel),
        away q (ground arith),
      ) in
      record {
        this = new_list-IsList p other.heap;
        that = record {
          link =
              Link-Keeps (record other { head = p }) [] (new_list p other.heap) other.head ys
                other.head keeps apart l.link;
          sentinel =
              (keeps.others other.head l.sentinel (away other.head (ground arith))).alive
              ∙ l.sentinel;
          apart = l.apart;
          distinct = l.distinct;
          same_tail = l.same_tail;
          count = l.count;
        };
        apart = away;
      }
