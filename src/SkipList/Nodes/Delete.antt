-- ===== src/SkipList/Nodes/Delete.antt =====
-- The pointers behind skiplist_delete of utils/ut_skiplist.c make the list without the node.
use viabtc_exchange_server.Base.{
  ℕ, ◌≤◌, ◌<◌, ◌≡◌, ◌≢◌, ◌⊎◌, inl, inr, refl, sym, ◌∙◌, true, false, ◌&&◌, some, List, [], ◌∷◌,
  ◌++◌, arith, ltb, lt→ltb, ◌==◌, Bool-cases, if◌then◌else◌,
}
use viabtc_exchange_server.SkipList.Nodes.{Node, same_node}
use viabtc_exchange_server.SkipList.Nodes.Links.{
  Item, next, next-append, last_at, last_at-unreached, Points, Chain, reaches,
}
use viabtc_exchange_server.SkipList.Nodes.Invariant.{Apart, Distinct}
use viabtc_exchange_server.SkipList.Nodes.Splice.{Kept, Kept-Chain, last_at-other}

-- What the loop comes to that takes node `x` out of the levels below `level`.
pub record Unlinked {ℓ} {A : Type ℓ} (x : Item A) (level : ℕ) (update : ℕ → ℕ)
    (old new : ℕ → Node A) : Type ℓ where
  pub pointers :
      (m l : ℕ)
      → (new m).forward l ≡ (
          if ltb l level && ((m == update l) && same_node ((old m).forward l) x.id)
          then (old x.id).forward l
          else (old m).forward l)
  pub values : (m : ℕ) → (new m).value ≡ (old m).value

same_node-next {ℓ} :
    {A : Type ℓ} (l m : ℕ) (xs : List (Item A)) → Apart m xs → same_node (next l xs) m ≡ false
same_node-next l m [] a = refl
same_node-next l m (x ∷ xs) a = ground (arith, same_node-next l m xs a.1, a.0)

module _ {ℓ} {A : Type ℓ} (x : Item A) (level : ℕ) (update : ℕ → ℕ) (old new : ℕ → Node A)
    (w : Unlinked x level update old new) (s : List (Item A)) (fits : x.height ≤ level)
    (points : Points (old x.id) x.height s) (apart : Apart x.id s) where
  pub deleted-Points :
      (n height : ℕ) (q : List (Item A))
      → Apart n q
      → ((l : ℕ) → l < height → update l ≡ last_at l n q)
      → Points (old n) height (q ++ x ∷ s)
      → Points (new n) height (q ++ s)
  deleted-Points n height q a u p l h = elim (Bool-cases (reaches l q)) [
    | inl y ↦
        let there : n ≢ update l = λ e. last_at-other l n n q y a (e ∙ u l h) in
        w.pointers n l ∙ ground (arith, there, p l h, next-append l q s, next-append l q (x ∷ s), y)
    | inr f ↦ w.pointers n l ∙ last_one l h f (Bool-cases (ltb l x.height))
  ]
    where
      here : (l : ℕ) → l < height → reaches l q ≡ false → n ≡ update l
      here l h f = sym (u l h ∙ last_at-unreached l n q f)

      at_n : (l : ℕ) → l < height → reaches l q ≡ false → (old n).forward l ≡ next l (x ∷ s)
      at_n l h f = p l h ∙ next-append l q (x ∷ s) ∙ rw f refl

      behind_q : (l : ℕ) → reaches l q ≡ false → next l (q ++ s) ≡ next l s
      behind_q l f = next-append l q s ∙ rw f refl

      last_one :
          (l : ℕ)
          → l < height
          → reaches l q ≡ false
          → (ltb l x.height ≡ true) ⊎ (ltb l x.height ≡ false)
          → (if ltb l level && ((n == update l) && same_node ((old n).forward l) x.id)
              then (old x.id).forward l
              else (old n).forward l)
            ≡ next l (q ++ s)
      last_one l h f (inl t) =
          let to_x : (old n).forward l ≡ some x.id = at_n l h f ∙ rw t refl in
          let low : l < x.height = ground (arith, t) in
          rw (to_x, behind_q l f) (ground (arith, here l h f, points l low, low, fits))
      last_one l h f (inr t) =
          let past_x : (old n).forward l ≡ next l s = at_n l h f ∙ rw t refl in
          rw (past_x, same_node-next l x.id s apart, behind_q l f) (ground arith)

  pub deleted-Chain :
      (start : ℕ → ℕ) (q : List (Item A))
      → Distinct q
      → Kept old new s
      → ((l : ℕ) → update l ≡ last_at l (start l) q)
      → Chain old (q ++ x ∷ s)
      → Chain new (q ++ s)
  deleted-Chain start [] d k u c = Kept-Chain old new s k c.1.1
  deleted-Chain start (y ∷ q) d k u c = (
    w.values y.id ∙ c.0,
    (
      deleted-Points y.id y.height q d.0 (λ l h. u l ∙ rw (lt→ltb l y.height h) refl) c.1.0,
      deleted-Chain (λ l. if ltb l y.height then y.id else start l) q d.1 k (λ l. u l ∙ later l)
          c.1.1,
    ),
  )
    where
      later :
          (l : ℕ)
          → last_at l (start l) (y ∷ q) ≡ last_at l (if ltb l y.height then y.id else start l) q
      later l = elim (Bool-cases (ltb l y.height)) [ inl t ↦ rw t refl | inr f ↦ rw f refl ]

  -- The nodes behind it keep their pointers.
  pub deleted-Kept : (t : List (Item A)) → ((l : ℕ) → Apart (update l) t) → Kept old new t
  deleted-Kept [] u = tt
  deleted-Kept (y ∷ t) u = (
    (
      w.values y.id,
      λ l.
          let other : y.id ≢ update l = λ e. (u l).0 (sym e) in
          w.pointers y.id l ∙ ground (arith, other),
    ),
    deleted-Kept t (λ l. (u l).1),
  )
