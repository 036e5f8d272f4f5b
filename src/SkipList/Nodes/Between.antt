-- ===== src/SkipList/Nodes/Between.antt =====
-- A new node between two parts of a list of utils/ut_skiplist.c: order, numbers and heights.
use Prim.Native.Nat.{Ordering}
use viabtc_exchange_server.Base.{
  ℕ, suc, ◌≤◌, ◌≡◌, refl, sym, false, Option, some, List, [], ◌∷◌, ◌++◌, arith,
}
use viabtc_exchange_server.SkipList.{is_le, place}
use viabtc_exchange_server.SkipList.Nodes.{equals}
use viabtc_exchange_server.SkipList.Nodes.Links.{Item, last_value, Passes, Fails}
use viabtc_exchange_server.SkipList.Nodes.Splice.{append-Apart, left-Apart, right-Apart}
use viabtc_exchange_server.SkipList.Nodes.Invariant.{
  IsOrder, values, Heights, Made, Apart, Distinct, Sorted, Below,
}

module _ {ℓ} {A : Type ℓ} where
  pub inserted-Made :
      (made : ℕ) (x : Item A) (q s : List (Item A))
      → x.id ≡ made
      → 1 ≤ made
      → Made made (q ++ s)
      → Made (suc made) (q ++ x ∷ s)
  inserted-Made made x [] s e l h = ((omega (arith, e, l), omega (arith, e)), more s h)
    where
      more : (s : List (Item A)) → Made made s → Made (suc made) s
      more [] h = tt
      more (y ∷ s) h = ((h.0.0, omega (arith, h.0.1)), more s h.1)
  inserted-Made made x (y ∷ q) s e l h =
      ((h.0.0, omega (arith, h.0.1)), inserted-Made made x q s e l h.1)

  pub inserted-Heights :
      (level up : ℕ) (x : Item A) (q s : List (Item A))
      → level ≤ up
      → 1 ≤ x.height
      → x.height ≤ up
      → Heights level (q ++ s)
      → Heights up (q ++ x ∷ s)
  inserted-Heights level up x [] s l a b h = ((a, b), more s h)
    where
      more : (s : List (Item A)) → Heights level s → Heights up s
      more [] h = tt
      more (y ∷ s) h = ((h.0.0, omega (arith, h.0.1, l)), more s h.1)
  inserted-Heights level up x (y ∷ q) s l a b h =
      ((h.0.0, omega (arith, h.0.1, l)), inserted-Heights level up x q s l a b h.1)

  pub inserted-Distinct :
      (x : Item A) (q s : List (Item A))
      → Apart x.id (q ++ s)
      → Distinct (q ++ s)
      → Distinct (q ++ x ∷ s)
  inserted-Distinct x [] s a d = (a, d)
  inserted-Distinct x (y ∷ q) s a d = (
    append-Apart y.id q (x ∷ s) (left-Apart y.id q s d.0)
        ((λ e. a.0 (sym e)), right-Apart y.id q s d.0),
    inserted-Distinct x q s a.1 d.1,
  )

  module _ (compare : A → A → Ordering) (order : IsOrder compare) where
    -- The nodes before the place are below the value.
    abbrev pub AllBelow : List (Item A) → A → Type ℓ
    AllBelow [] v = Unit
    AllBelow (x ∷ xs) v = (compare x.val v ≡ Ordering.lt) × AllBelow xs v

    pub le-AllBelow :
        (v : A) (o : Option A) (q s : List (Item A))
        → Sorted compare (q ++ s)
        → Passes (λ x. is_le (compare x v)) q
        → equals compare (last_value o q) v ≡ false
        → AllBelow q v
    le-AllBelow v o [] s t p h = tt
    le-AllBelow v o (x ∷ []) s t p h = (ground (arith, p.0, h), tt)
    le-AllBelow v o (x ∷ y ∷ q) s t p h =
        (order.lt_le x.val y.val v t.0.0 p.1.0, le-AllBelow v (some x.val) (y ∷ q) s t.1 p.1 h)

    pub Fails-Below :
        (v : A) (s : List (Item A)) → Fails (λ x. is_le (compare x v)) s → Below compare v s
    Fails-Below v [] f = tt
    Fails-Below v (y ∷ s) f = (order.flip y.val v (ground (arith, f.0)), Fails-Below v s f.1)

    inserted-Below :
        (u : A) (x : Item A) (q s : List (Item A))
        → compare u x.val ≡ Ordering.lt
        → Below compare u (q ++ s)
        → Below compare u (q ++ x ∷ s)
    inserted-Below u x [] s l b = (l, b)
    inserted-Below u x (y ∷ q) s l b = (b.0, inserted-Below u x q s l b.1)

    pub inserted-Sorted :
        (x : Item A) (q s : List (Item A))
        → AllBelow q x.val
        → Below compare x.val s
        → Sorted compare (q ++ s)
        → Sorted compare (q ++ x ∷ s)
    inserted-Sorted x [] s a b t = (b, t)
    inserted-Sorted x (y ∷ q) s a b t =
        (inserted-Below y.val x q s a.0 t.0, inserted-Sorted x q s a.1 b t.1)

  -- Where SkipList puts the value.
  pub place-values :
      (compare : A → A → Ordering) (x : Item A) (q s : List (Item A))
      → Passes (λ y. is_le (compare y x.val)) q
      → Fails (λ y. is_le (compare y x.val)) s
      → place compare x.val (values (q ++ s)) ≡ values (q ++ x ∷ s)
  unfolding place
  place-values compare x [] [] p f = refl
  place-values compare x [] (y ∷ s) p f = ground (arith, f.0)
  place-values compare x (y ∷ q) s p f = ground (arith, p.0, place-values compare x q s p.1 f)
