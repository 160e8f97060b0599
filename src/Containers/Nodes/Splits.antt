-- ===== src/Containers/Nodes/Splits.antt =====
-- A list of nodes cut at one of them.
use renn.Prelude.{ℕ, ◌≡◌, refl, ◌||◌, [], ◌∷◌, ◌++◌, arith}
use renn.Prelude.Effect.{ok}
use renn.Containers.Nodes.{Nodes, has, HasDistinct, remove_at, rest_at}
use renn.Containers.Nodes.Removes.{Removes, here, there}

module _ {ℓ} {T : Type ℓ} where
  pub has-append : (p : ℕ) (xs ys : Nodes T) → has p (xs ++ ys) ≡ (has p xs || has p ys)
  has-append p [] ys = refl
  has-append p (x ∷ xs) ys = ground (arith, has-append p xs ys)

  module _ (x : ℕ × T) (after : Nodes T) where
    pub remove_at-append :
        (front : Nodes T)
        → HasDistinct (front ++ (x ∷ after))
        → remove_at x.0 (front ++ (x ∷ after)) ≡ front ++ after
    unfolding remove_at
    remove_at-append [] d = ground arith
    remove_at-append (y ∷ front) d =
        ground (arith, has-append y.0 front (x ∷ after), remove_at-append front d.1)

    pub rest_at-append {κ} :
        {S : Type κ} (front : Nodes T) (s : S)
        → HasDistinct (front ++ (x ∷ after))
        → rest_at x.0 (front ++ (x ∷ after)) s ≡ ok (x ∷ after) s
    unfolding rest_at
    rest_at-append [] s d = ground arith
    rest_at-append (y ∷ front) s d =
        ground (arith, has-append y.0 front (x ∷ after), rest_at-append front s d.1)

    pub Removes-append : (front : Nodes T) → Removes x after (front ++ after) (front ++ (x ∷ after))
    Removes-append [] = here
    Removes-append (y ∷ front) = there (Removes-append front)

  pub HasDistinct-append : (xs ys : Nodes T) → HasDistinct (xs ++ ys) → HasDistinct ys
  HasDistinct-append [] ys d = d
  HasDistinct-append (x ∷ xs) ys d = HasDistinct-append xs ys d.1
