-- ===== src/Containers/HashTable/Session/Order.antt =====
-- The order in which two new keys enter a table cannot be seen through its keys.
use renn.Prelude.{
  ℕ, ◌+◌, ◌^◌, ◌<◌, ◌≤◌, ◌≡◌, refl, sym, ap, ◌∙◌, fun_ext, true, false, Option, none, some, List,
  ◌∷◌, arith,
}
use mathlib.Core.Path.{subst}
use renn.Prelude.Effect.{ok}
use renn.Containers.Nodes.{Nodes, has}
use renn.Containers.HashTable.Key.{KeyTraits}
use renn.Containers.HashTable.{Table, HashNode}
use renn.Containers.HashTable.Session.{Call, emplaces, Reply, inserted, session}
use renn.Containers.HashTable.Session.Dictionary.{Dictionary, set_entry, reply, replies, Fits}
use renn.Containers.HashTable.Session.Refinement.{Represents, session-dictionary}

module _ {ℓ} {K V : Type ℓ} ⦃traits : KeyTraits K⦄ where
  abbrev both : K → V → K → V → Dictionary K V → Dictionary K V
  both k v j w d = set_entry j (some w) (d.size + 1 + 1) (set_entry k (some v) (d.size + 1) d)

  both_comm :
      (k j : K) (v w : V) (d : Dictionary K V)
      → traits.key_eq k j ≡ false
      → both k v j w d ≡ both j w k v d
  both_comm k j v w d apart =
      ap (λ (e : K → Option V). record d { entry = e; size = d.size + 1 + 1 })
        (fun_ext (λ i. ground (
          arith,
          apart,
          traits.symmetric k j,
          traits.symmetric j i,
          traits.transitive k i j,
          traits.symmetric i j,
        )))

  emplaces-new :
      (k : K) (v : V) (d : Dictionary K V)
      → d.entry k ≡ none
      → reply (emplaces k v) d ≡ (inserted true, set_entry k (some v) (d.size + 1) d)
  emplaces-new k v d e = rw (e, reply) refl

  both_new :
      (k j : K) (v w : V) (d : Dictionary K V)
      → traits.key_eq k j ≡ false
      → d.entry k ≡ none
      → d.entry j ≡ none
      → reply (emplaces j w) (reply (emplaces k v) d).1 ≡ (inserted true, both k v j w d)
  both_new k j v w d apart e f =
      rw (emplaces-new k v d e)
        (emplaces-new j w (set_entry k (some v) (d.size + 1) d) (rw apart f))

  replies-both :
      (k j : K) (v w : V) (d : Dictionary K V) (cs : List (Call K V))
      → traits.key_eq k j ≡ false
      → d.entry k ≡ none
      → d.entry j ≡ none
      → replies (emplaces k v ∷ emplaces j w ∷ cs) d
        ≡ inserted true ∷ inserted true ∷ replies cs (both k v j w d)
  replies-both k j v w d cs apart e f =
      rw (both_new k j v w d apart e f)
        (ap (λ p. p.0 ∷ inserted true ∷ replies cs (both k v j w d)) (emplaces-new k v d e))

  Fits-both :
      (k j : K) (v w : V) (d : Dictionary K V) (cs : List (Call K V))
      → traits.key_eq k j ≡ false
      → d.entry k ≡ none
      → d.entry j ≡ none
      → Fits (emplaces k v ∷ emplaces j w ∷ cs) d
      → (d.size + 1 + 1 ≤ d.room) × (d.size + 1 + 1 < 2 ^ 64) × Fits cs (both k v j w d)
  Fits-both k j v w d cs apart e f (le, lt, (le', lt', fits)) =
      let q = ap (λ p. p.1) (both_new k j v w d apart e f) in
      (
        subst (λ x. x.size ≤ x.room) q le',
        subst (λ x. x.size < 2 ^ 64) q lt',
        subst (Fits cs) q fits,
      )

  both-Fits :
      (k j : K) (v w : V) (d : Dictionary K V) (cs : List (Call K V))
      → traits.key_eq k j ≡ false
      → d.entry k ≡ none
      → d.entry j ≡ none
      → (d.size + 1 + 1 ≤ d.room) × (d.size + 1 + 1 < 2 ^ 64) × Fits cs (both k v j w d)
      → Fits (emplaces k v ∷ emplaces j w ∷ cs) d
  both-Fits k j v w d cs apart e f (le, lt, fits) =
      let p = ap (λ p. p.1) (sym (emplaces-new k v d e)) in
      let q = ap (λ p. p.1) (sym (both_new k j v w d apart e f)) in
      (
        subst (λ x. x.size ≤ x.room) p (omega (arith, le)),
        subst (λ x. x.size < 2 ^ 64) p (omega (arith, lt)),
        (
          subst (λ x. x.size ≤ x.room) q le,
          subst (λ x. x.size < 2 ^ 64) q lt,
          subst (Fits cs) q fits,
        ),
      )

module _ {ℓ} {K V : Type ℓ} ⦃traits : KeyTraits K⦄ (allocate : Nodes (HashNode K V) → ℕ)
    (fresh : (xs : Nodes (HashNode K V)) → has (allocate xs) xs ≡ false) where
  -- With memory and an allocator that never gives a node of the list, let a table represent a
  -- dictionary that has neither of two unequal keys, and let the dictionary keep a size within its
  -- threshold and below 2^64 through `emplace` of both keys and any further calls. Then `emplace`
  -- of the two keys, in either order, inserts both, both sessions end normally, and every further
  -- call returns or throws the same in both, whatever the order of the nodes.
  pub emplaces_comm :
      (k j : K) (v w : V) (d : Dictionary K V) (t : Table K V) (cs : List (Call K V))
      → Represents d t
      → traits.key_eq k j ≡ false
      → d.entry k ≡ none
      → d.entry j ≡ none
      → Fits (emplaces k v ∷ emplaces j w ∷ cs) d
      → (rs : List (Reply V)) × (x : Table K V) × (y : Table K V) × (session allocate
            (emplaces k v ∷ emplaces j w ∷ cs)
            t
          ≡ ok (inserted true ∷ inserted true ∷ rs) x)
        × (session allocate (emplaces j w ∷ emplaces k v ∷ cs) t
            ≡ ok (inserted true ∷ inserted true ∷ rs) y)
  emplaces_comm k j v w d t cs h apart e f fits =
      let trapa = sym (traits.symmetric k j) ∙ apart in
      let (le, lt, rest) = Fits-both k j v w d cs apart e f fits in
      let same = both_comm k j v w d apart in
      let fits' = both-Fits j k w v d cs trapa f e (le, lt, subst (Fits cs) same rest) in
      let (x, run, r) =
        session-dictionary allocate fresh (emplaces k v ∷ emplaces j w ∷ cs) d t h fits in
      let (y, run', r') =
        session-dictionary allocate fresh (emplaces j w ∷ emplaces k v ∷ cs) d t h fits' in
      (
        replies cs (both k v j w d),
        x,
        y,
        run ∙ ap (λ l. ok l x) (replies-both k j v w d cs apart e f),
        run'
            ∙ ap (λ l. ok l y)
                (replies-both j k w v d cs trapa f e
                  ∙ ap (λ z. inserted true ∷ inserted true ∷ replies cs z) (sym same)),
      )
