-- ===== src/SkipList/Nodes/Insert.antt =====
-- The pointers behind skiplist_insert of utils/ut_skiplist.c make the list with the new node in it.
use viabtc_exchange_server.Base.{
  ℕ, ◌<◌, ◌≡◌, ◌≢◌, inl, inr, refl, sym, ◌∙◌, true, ◌&&◌, some, List, [], ◌∷◌, ◌++◌, arith, ltb,
  lt→ltb, ◌==◌, Bool-cases, if◌then◌else◌,
}
use viabtc_exchange_server.SkipList.Nodes.{Node}
use viabtc_exchange_server.SkipList.Nodes.Links.{
  Item, next, next-append, last_at, last_at-unreached, Points, Chain, reaches,
}
use viabtc_exchange_server.SkipList.Nodes.Invariant.{Apart, Distinct}
use viabtc_exchange_server.SkipList.Nodes.Splice.{Kept, Kept-Chain, last_at-other}

-- What the writes of the loop come to, for a new node `x` behind the nodes of `update`.
pub record Linked {ℓ} {A : Type ℓ} (x : Item A) (update : ℕ → ℕ) (old new : ℕ → Node A)
    : Type ℓ where
  pub others :
      (m l : ℕ)
      → m ≢ x.id
      → (new m).forward l
        ≡ (if ltb l x.height && (m == update l) then some x.id else (old m).forward l)
  pub itself : (l : ℕ) → l < x.height → (new x.id).forward l ≡ (old (update l)).forward l
  pub value : (new x.id).value ≡ some x.val
  pub values : (m : ℕ) → m ≢ x.id → (new m).value ≡ (old m).value

module _ {ℓ} {A : Type ℓ} (x : Item A) (update : ℕ → ℕ) (old new : ℕ → Node A)
    (w : Linked x update old new) where
  -- A node before the new one, which `update` names on the levels on which it is the last.
  pub inserted-Points :
      (n height : ℕ) (q s : List (Item A))
      → n ≢ x.id
      → Apart n q
      → ((l : ℕ) → l < height → l < x.height → update l ≡ last_at l n q)
      → Points (old n) height (q ++ s)
      → Points (new n) height (q ++ x ∷ s)
  inserted-Points n height q s d a u p l h = elim (Bool-cases (reaches l q)) [
    | inl y ↦
        let there : ltb l x.height ≡ true → n ≢ update l =
          λ t e. last_at-other l n n q y a (e ∙ u l h (ground (arith, t))) in
        w.others n l d ∙ ground (arith, there, p l h, next-append l q s, next-append l q (x ∷ s), y)
    | inr f ↦
        let here : ltb l x.height ≡ true → update l ≡ n =
          λ t. u l h (ground (arith, t)) ∙ last_at-unreached l n q f in
        w.others n l d ∙ ground (arith, here, p l h, next-append l q s, next-append l q (x ∷ s), f)
  ]

  -- `start` is the last node of each level before `q`.
  pub inserted-Chain :
      (start : ℕ → ℕ) (q s : List (Item A))
      → ((l : ℕ) → l < x.height → (new x.id).forward l ≡ next l s)
      → Apart x.id q
      → Distinct q
      → Kept old new s
      → ((l : ℕ) → l < x.height → update l ≡ last_at l (start l) q)
      → Chain old (q ++ s)
      → Chain new (q ++ x ∷ s)
  inserted-Chain start [] s to a d k u c = (w.value, (to, Kept-Chain old new s k c))
  inserted-Chain start (y ∷ q) s to a d k u c =
      let other : y.id ≢ x.id = λ e. a.0 (sym e) in
      (
        w.values y.id other ∙ c.0,
        (
          inserted-Points y.id y.height q s other d.0
              (λ l h t. u l t ∙ rw (lt→ltb l y.height h) refl) c.1.0,
          inserted-Chain (λ l. if ltb l y.height then y.id else start l) q s to a.1 d.1 k
              (λ l t. u l t ∙ later l) c.1.1,
        ),
      )
    where
      later :
          (l : ℕ)
          → last_at l (start l) (y ∷ q) ≡ last_at l (if ltb l y.height then y.id else start l) q
      later l = elim (Bool-cases (ltb l y.height)) [ inl t ↦ rw t refl | inr f ↦ rw f refl ]

  -- The nodes behind the new one keep their pointers.
  pub inserted-Kept :
      (s : List (Item A))
      → Apart x.id s
      → ((l : ℕ) → l < x.height → Apart (update l) s)
      → Kept old new s
  inserted-Kept [] a u = tt
  inserted-Kept (y ∷ s) a u =
      let other : y.id ≢ x.id = λ e. a.0 (sym e) in
      (
        (
          w.values y.id other,
          λ l. w.others y.id l other ∙ ground (arith, λ (h : l < x.height). (u l h).0),
        ),
        inserted-Kept s a.1 (λ l h. (u l h).1),
      )
