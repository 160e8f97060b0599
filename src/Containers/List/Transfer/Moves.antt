-- ===== src/Containers/List/Transfer/Moves.antt =====
-- The moves of src/Containers/List.hpp.
use renn.Prelude.{
  update, ℕ, ◌^◌, ◌<◌, ◌≡◌, true, false, ◌||◌, [], ◌==◌, if◌then◌else◌, arith, refl, length, ◌∙◌,
}
use renn.Prelude.Effect.{ok}
use renn.Containers.Nodes.{Nodes, has}
use renn.Containers.List.{Store, new_list}
use renn.Containers.List.Contents.{IsList}
use renn.Containers.List.Frame.{Keeps}
use renn.Containers.List.Ends.{clear-empties}
use renn.Containers.List.Pairs.{on, Both, Keeps-other}
use renn.Containers.List.Transfer.{move_construct, move_assign, destruct}
use renn.Containers.List.Transfer.Fresh.{new_list-Both}

module _ {ℓ} {T : Type ℓ} where
  -- Of a list, and with an address that is not in use for the sentinel, the move constructor makes a
  -- list of the same nodes and leaves an empty list.
  pub move_construct-Both :
      (p : ℕ) {other : Store T} {ys : Nodes T}
      → IsList other ys
      → other.heap.alive p ≡ false
      → Both (move_construct p other).1 [] (move_construct p other).0 ys
  unfolding move_construct
  move_construct-Both p {other} {ys} l dead =
      let b = new_list-Both p other ys l dead in
      record { this = b.this; that = b.that; apart = b.apart }

  -- The destructor frees the nodes and the sentinel.
  destruct-frees :
      {s : Store T} {xs : Nodes T} (l : IsList s xs)
      → length xs < 2 ^ 64
      → (t : Store T) × (destruct s ≡ ok tt t)
        × ((q : ℕ) → t.heap.alive q ≡ (if q == s.head || has q xs then false else s.heap.alive q))
        × Keeps s xs t
  unfolding destruct
  destruct-frees {s} {xs} l small =
      let (u, cleared, k, alive, keeps) = clear-empties l small in
      let t : Store T = record u {
        heap = record u.heap { alive = update u.heap.alive u.head false };
      } in
      (
        t,
        rw cleared (rw k.sentinel refl),
        λ q. ground (arith, alive q, keeps.same_head),
        record {
          same_head = keeps.same_head;
          others = λ q live other.
              let o = keeps.others q live other in
              record {
                next = o.next;
                prev = o.prev;
                value = o.value;
                alive = ground (arith, o.alive, keeps.same_head);
              };
        },
      )

  -- Let two lists on one heap have no node in common, and let the address for the new sentinel be free
  -- or of this list. Then move assignment returns, this list has the nodes of the other, the other is
  -- empty, exactly the nodes of this list and its sentinel are freed, and the new sentinel becomes
  -- alive.
  pub move_assign-Both :
      (p : ℕ) {s other : Store T} {xs ys : Nodes T}
      → Both s xs other ys
      → length xs < 2 ^ 64
      → (if p == s.head || has p xs then false else s.heap.alive p) ≡ false
      → (t left : Store T) × (move_assign p other s ≡ ok left t)
        × Both left [] t ys
        × ((q : ℕ)
            → t.heap.alive q ≡ (
                if p == q then true else if q == s.head || has q xs then false else s.heap.alive q))
  unfolding move_assign move_construct new_list
  move_assign-Both p {s} {other} {xs} {ys} b small free =
      let (u, gone, alive, keeps) = destruct-frees b.this small in
      let l : IsList (on u.heap other) ys = Keeps-other b keeps in
      let m = move_construct-Both p l (alive p ∙ free) in
      (
        (move_construct p (on u.heap other)).0,
        (move_construct p (on u.heap other)).1,
        rw gone refl,
        m,
        λ q. ground (arith, alive q),
      )
