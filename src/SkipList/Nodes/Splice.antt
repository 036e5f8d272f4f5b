-- ===== src/SkipList/Nodes/Splice.antt =====
-- Chains of utils/ut_skiplist.c with changed pointers: nodes that keep theirs, the last node of a level
-- before a place, and nodes with other numbers.
use viabtc_exchange_server.Base.{
  ℕ, ◌≤◌, ◌≡◌, ◌≢◌, inl, inr, refl, sym, ◌∙◌, true, some, List, [], ◌∷◌, ◌++◌, arith, ltb,
  Bool-cases,
}
use viabtc_exchange_server.SkipList.Nodes.{Node}
use viabtc_exchange_server.SkipList.Nodes.Links.{Item, next, last_at, Chain, reaches}
use viabtc_exchange_server.SkipList.Nodes.Invariant.{Apart, Distinct, Made}

module _ {ℓ} {A : Type ℓ} where
  -- Every node of the list has the same value and pointers.
  abbrev pub Kept : (ℕ → Node A) → (ℕ → Node A) → List (Item A) → Type ℓ
  Kept old new [] = Unit
  Kept old new (x ∷ xs) =
      (((new x.id).value ≡ (old x.id).value)
        × ((l : ℕ) → (new x.id).forward l ≡ (old x.id).forward l))
      × Kept old new xs

  pub Kept-Chain :
      (old new : ℕ → Node A) (xs : List (Item A)) → Kept old new xs → Chain old xs → Chain new xs
  Kept-Chain old new [] k c = tt
  Kept-Chain old new (x ∷ xs) k c =
      (k.0.0 ∙ c.0, (λ l h. k.0.1 l ∙ c.1.0 l h, Kept-Chain old new xs k.1 c.1.1))

  pub last_at-Apart : (l m n : ℕ) (q : List (Item A)) → m ≢ n → Apart m q → m ≢ last_at l n q
  last_at-Apart l m n [] h a = h
  last_at-Apart l m n (x ∷ q) h a = elim (Bool-cases (ltb l x.height)) [
    | inl y ↦ rw y (last_at-Apart l m x.id q a.0 a.1)
    | inr f ↦ rw f (last_at-Apart l m n q h a.1)
  ]

  pub last_at-other :
      (l m n : ℕ) (q : List (Item A)) → reaches l q ≡ true → Apart m q → m ≢ last_at l n q
  last_at-other l m n [] r a = ground (arith, r)
  last_at-other l m n (x ∷ q) r a = elim (Bool-cases (ltb l x.height)) [
    | inl y ↦ rw y (last_at-Apart l m x.id q a.0 a.1)
    | inr f ↦ rw f (last_at-other l m n q (ground (arith, r, f)) a.1)
  ]

  -- The last node before a place points to the first one behind it.
  pub last_at-next :
      (l n : ℕ) (nodes : ℕ → Node A) (q s : List (Item A))
      → (nodes n).forward l ≡ next l (q ++ s)
      → Chain nodes (q ++ s)
      → (nodes (last_at l n q)).forward l ≡ next l s
  last_at-next l n nodes [] s h c = h
  last_at-next l n nodes (x ∷ q) s h c = elim (Bool-cases (ltb l x.height)) [
    | inl y ↦ rw y (last_at-next l x.id nodes q s (c.1.0 l (ground (arith, y))) c.1.1)
    | inr f ↦ rw f (last_at-next l n nodes q s (h ∙ rw f refl) c.1.1)
  ]

  pub next-Apart : (l m : ℕ) (xs : List (Item A)) → Apart m xs → next l xs ≢ some m
  next-Apart l m [] a e = ground (arith, e)
  next-Apart l m (x ∷ xs) a e = ground (arith, next-Apart l m xs a.1, a.0, e)

  -- The parts of a list.
  pub left-Apart : (m : ℕ) (q s : List (Item A)) → Apart m (q ++ s) → Apart m q
  left-Apart m [] s a = tt
  left-Apart m (x ∷ q) s a = (a.0, left-Apart m q s a.1)

  pub right-Apart : (m : ℕ) (q s : List (Item A)) → Apart m (q ++ s) → Apart m s
  right-Apart m [] s a = a
  right-Apart m (x ∷ q) s a = right-Apart m q s a.1

  pub append-Apart : (m : ℕ) (q s : List (Item A)) → Apart m q → Apart m s → Apart m (q ++ s)
  append-Apart m [] s a b = b
  append-Apart m (x ∷ q) s a b = (a.0, append-Apart m q s a.1 b)

  pub right-Distinct : (q s : List (Item A)) → Distinct (q ++ s) → Distinct s
  right-Distinct [] s d = d
  right-Distinct (x ∷ q) s d = right-Distinct q s d.1

  pub left-Distinct : (q s : List (Item A)) → Distinct (q ++ s) → Distinct q
  left-Distinct [] s d = tt
  left-Distinct (x ∷ q) s d = (left-Apart x.id q s d.0, left-Distinct q s d.1)

  -- The last node before a place is none of those behind it.
  pub last_at_across :
      (l n : ℕ) (q s : List (Item A)) → Distinct (q ++ s) → Apart n s → Apart (last_at l n q) s
  last_at_across l n [] s d a = a
  last_at_across l n (x ∷ q) s d a = elim (Bool-cases (ltb l x.height)) [
    | inl y ↦ rw y (last_at_across l x.id q s d.1 (right-Apart x.id q s d.0))
    | inr f ↦ rw f (last_at_across l n q s d.1 a)
  ]

  pub right-Chain :
      (nodes : ℕ → Node A) (q s : List (Item A)) → Chain nodes (q ++ s) → Chain nodes s
  right-Chain nodes [] s c = c
  right-Chain nodes (x ∷ q) s c = right-Chain nodes q s c.1.1

  pub Made-Apart : (made m : ℕ) (xs : List (Item A)) → made ≤ m → Made made xs → Apart m xs
  Made-Apart made m [] l h = tt
  Made-Apart made m (x ∷ xs) l h = (λ e. ground (arith, l, h.0.1, e), Made-Apart made m xs l h.1)

  pub Made-Apart_0 : (made : ℕ) (xs : List (Item A)) → Made made xs → Apart 0 xs
  Made-Apart_0 made [] h = tt
  Made-Apart_0 made (x ∷ xs) h = (λ e. ground (arith, h.0.0, e), Made-Apart_0 made xs h.1)

  -- A number that is not in the second part of a list, of a node that is not in the first.
  pub across-Apart : (x : Item A) (q s : List (Item A)) → Distinct (q ++ x ∷ s) → Apart x.id q
  across-Apart x [] s d = tt
  across-Apart x (y ∷ q) s d = ((λ e. apart_first q d.0 (sym e)), across-Apart x q s d.1)
    where
      apart_first : (q : List (Item A)) → Apart y.id (q ++ x ∷ s) → y.id ≢ x.id
      apart_first [] a = a.0
      apart_first (z ∷ q) a = apart_first q a.1
