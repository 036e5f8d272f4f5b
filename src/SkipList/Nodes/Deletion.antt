-- ===== src/SkipList/Nodes/Deletion.antt =====
-- skiplist_delete of utils/ut_skiplist.c: it ends, keeps the list well formed, and takes out what
-- SkipList takes out.
use Prim.Native.Nat.{Ordering}
use viabtc_exchange_server.Base.{
  ℕ, suc, ◌≤◌, ◌<◌, ◌≡◌, ◌≢◌, ◌⊎◌, inl, inr, refl, ap, sym, ◌∙◌, subst, Bool, true, false, none,
  some, List, [], ◌∷◌, ◌++◌, arith, ◌==◌, ==_iff, Bool-cases, length-append,
}
use viabtc_exchange_server.SkipList
use viabtc_exchange_server.SkipList.{is_le, is_lt, is_eq, delete}
use viabtc_exchange_server.SkipList.Nodes.{
  Node, Nodes, max_level, unlink, lower, delete_node, skiplist_delete, search,
}
use viabtc_exchange_server.SkipList.Nodes.Links.{Item, next, last_at, Points}
use viabtc_exchange_server.SkipList.Nodes.Removal.{unlink-forward, unlink-value, lower-IsLower}
use viabtc_exchange_server.SkipList.Nodes.Splice.{
  across-Apart, last_at-Apart, left-Apart, right-Apart, append-Apart, left-Distinct, right-Distinct,
  last_at_across, right-Chain, Made-Apart_0,
}
use viabtc_exchange_server.SkipList.Nodes.Delete.{
  Unlinked, deleted-Points, deleted-Chain, deleted-Kept,
}
use viabtc_exchange_server.SkipList.Nodes.Find.{search-last_at}
use viabtc_exchange_server.SkipList.Nodes.Invariant.{
  IsOrder, values, IsSkipList, Heights, Made, Apart, Distinct, Sorted, Below, before,
}

module _ {ℓ} {A : Type ℓ} where
  deleted-Made :
      (made : ℕ) (x : Item A) (q s : List (Item A)) → Made made (q ++ x ∷ s) → Made made (q ++ s)
  deleted-Made made x [] s h = h.1
  deleted-Made made x (y ∷ q) s h = (h.0, deleted-Made made x q s h.1)

  deleted-Heights :
      (level : ℕ) (x : Item A) (q s : List (Item A))
      → Heights level (q ++ x ∷ s)
      → Heights level (q ++ s)
  deleted-Heights level x [] s h = h.1
  deleted-Heights level x (y ∷ q) s h = (h.0, deleted-Heights level x q s h.1)

  middle-Heights :
      (level : ℕ) (x : Item A) (q s : List (Item A)) → Heights level (q ++ x ∷ s) → x.height ≤ level
  middle-Heights level x [] s h = h.0.1
  middle-Heights level x (y ∷ q) s h = middle-Heights level x q s h.1

  middle-Made : (made : ℕ) (x : Item A) (q s : List (Item A)) → Made made (q ++ x ∷ s) → 1 ≤ x.id
  middle-Made made x [] s h = h.0.0
  middle-Made made x (y ∷ q) s h = middle-Made made x q s h.1

  deleted-Distinct : (x : Item A) (q s : List (Item A)) → Distinct (q ++ x ∷ s) → Distinct (q ++ s)
  deleted-Distinct x [] s d = d.1
  deleted-Distinct x (y ∷ q) s d = (
    append-Apart y.id q s (left-Apart y.id q (x ∷ s) d.0) (right-Apart y.id q (x ∷ s) d.0).1,
    deleted-Distinct x q s d.1,
  )

  -- A level that the header does not point on is above all nodes.
  lowered-Heights :
      (level up : ℕ) (xs : List (Item A)) → next level xs ≡ none → Heights up xs → Heights level xs
  lowered-Heights level up [] n h = tt
  lowered-Heights level up (x ∷ xs) n h =
      ((h.0.0, ground (arith, n)), lowered-Heights level up xs (ground (arith, n)) h.1)

  unlink-Unlinked :
      (x : Item A) (level : ℕ) (update : ℕ → ℕ) (nodes : ℕ → Node A)
      → ((l : ℕ) → update l ≢ x.id)
      → Unlinked x level update nodes (unlink level 0 update x.id nodes)
  unlink-Unlinked x level update nodes d = record {
    pointers = λ m l. unlink-forward level 0 x.id update nodes m l d ∙ ground arith;
    values = unlink-value level 0 x.id update nodes;
  }

  module _ (compare : A → A → Ordering) where
    deleted-Below :
        (u : A) (x : Item A) (q s : List (Item A))
        → Below compare u (q ++ x ∷ s)
        → Below compare u (q ++ s)
    deleted-Below u x [] s b = b.1
    deleted-Below u x (y ∷ q) s b = (b.0, deleted-Below u x q s b.1)

    deleted-Sorted :
        (x : Item A) (q s : List (Item A)) → Sorted compare (q ++ x ∷ s) → Sorted compare (q ++ s)
    deleted-Sorted x [] s t = t.1
    deleted-Sorted x (y ∷ q) s t = (deleted-Below y.val x q s t.0, deleted-Sorted x q s t.1)

    middle-Below :
        (u : A) (x : Item A) (q s : List (Item A))
        → Below compare u (q ++ x ∷ s)
        → compare u x.val ≡ Ordering.lt
    middle-Below u x [] s b = b.0
    middle-Below u x (z ∷ q) s b = middle-Below u x q s b.1

    before_middle :
        (order : IsOrder compare) (x : Item A) (q s : List (Item A))
        → Sorted compare (q ++ x ∷ s)
        → before (λ y. is_lt (compare y x.val)) (q ++ x ∷ s) ≡ q
    before_middle order x [] s t = rw (order.same x.val) refl
    before_middle order x (y ∷ q) s t =
        let low : compare y.val x.val ≡ Ordering.lt = middle-Below y.val x q s t.0 in
        rw low (ap (λ zs. y ∷ zs) (before_middle order x q s t.1))

    delete-values :
        (order : IsOrder compare) (x : Item A) (q s : List (Item A))
        → Sorted compare (q ++ x ∷ s)
        → delete compare x.val (values (q ++ x ∷ s)) ≡ values (q ++ s)
    unfolding delete
    delete-values order x [] s t = rw (order.same x.val) refl
    delete-values order x (y ∷ q) s t =
        let low : compare y.val x.val ≡ Ordering.lt = middle-Below y.val x q s t.0 in
        rw (delete, low) (ap (λ zs. y.val ∷ zs) (delete-values order x q s t.1))

module _ {ℓ} {A : Type ℓ} (compare : A → A → Ordering) (order : IsOrder compare) where
  lt_mono :
      (v x y : A)
      → compare x y ≡ Ordering.lt
      → is_lt (compare y v) ≡ true
      → is_lt (compare x v) ≡ true
  lt_mono v x y h l = ap is_lt (order.lt_le x y v h (ground (arith, l)))

  delete_node-IsSkipList :
      (d : Nodes A) (x : Item A) (update : ℕ → ℕ) (q s : List (Item A))
      → IsSkipList compare d (q ++ x ∷ s)
      → ((l : ℕ) → update l ≡ last_at l 0 q)
      → IsSkipList compare (delete_node compare d x.id update) (q ++ s)
  unfolding delete_node
  delete_node-IsSkipList d x update q s g u = record {
    header = pointed;
    no_value = w.values 0 ∙ g.no_value;
    chain =
        deleted-Chain x d.level update d.node_at new w s fits points apart.0 (λ l. 0) q
          (left-Distinct q (x ∷ s) g.distinct)
          (deleted-Kept x d.level update d.node_at new w s fits points apart.0 s (λ l.
            subst (λ n. Apart n s) (sym (u l)) (last_at_across l 0 q (x ∷ s) g.distinct none_0).1))
          u g.chain;
    sorted = deleted-Sorted compare x q s g.sorted;
    distinct = deleted-Distinct x q s g.distinct;
    numbers = deleted-Made d.made x q s g.numbers;
    heights = heights (Bool-cases (lower (new 0) d.level == d.level));
    levels = (low.0, omega (arith, low.1.0, g.levels.1));
    first = g.first;
    counted = omega (arith, g.counted, length-append q (x ∷ s), length-append q s);
  }
    where
      none_0 : Apart 0 (x ∷ s)
      none_0 = right-Apart 0 q (x ∷ s) (Made-Apart_0 d.made (q ++ x ∷ s) g.numbers)

      other : (l : ℕ) → update l ≢ x.id
      other l e =
          last_at-Apart l x.id 0 q (λ z. ground (arith, z, middle-Made d.made x q s g.numbers))
            (across-Apart x q s g.distinct) (sym e ∙ u l)

      new : ℕ → Node A
      new = unlink d.level 0 update x.id d.node_at

      w : Unlinked x d.level update d.node_at new
      w = unlink-Unlinked x d.level update d.node_at other

      fits : x.height ≤ d.level
      fits = middle-Heights d.level x q s g.heights

      points : Points (d.node_at x.id) x.height s
      points = (right-Chain d.node_at q (x ∷ s) g.chain).1.0

      apart : Distinct (x ∷ s)
      apart = right-Distinct q (x ∷ s) g.distinct

      pointed : Points (new 0) max_level (q ++ s)
      pointed =
          deleted-Points x d.level update d.node_at new w s fits points apart.0 0 max_level q
            (left-Apart 0 q (x ∷ s) (Made-Apart_0 d.made (q ++ x ∷ s) g.numbers)) (λ l h. u l)
            g.header

      low :
          (1 ≤ lower (new 0) d.level)
          × ((lower (new 0) d.level ≤ d.level)
              × ((i : ℕ) → lower (new 0) d.level ≤ i → i < d.level → (new 0).forward i ≡ none))
      low = lower-IsLower (new 0) d.level g.levels.0

      all : Heights d.level (q ++ s)
      all = deleted-Heights d.level x q s g.heights

      heights :
          ((lower (new 0) d.level == d.level) ≡ true) ⊎ ((lower (new 0) d.level == d.level) ≡ false)
          → Heights (lower (new 0) d.level) (q ++ s)
      heights (inl y) =
          subst (λ l. Heights l (q ++ s)) (sym ((==_iff (lower (new 0) d.level) d.level).0 y)) all
      heights (inr n) =
          let less : lower (new 0) d.level < d.level = ground (arith, n, low.1.0) in
          lowered-Heights (lower (new 0) d.level) d.level (q ++ s)
            (sym (pointed (lower (new 0) d.level) (omega (arith, less, g.levels.1)))
              ∙ low.1.1 (lower (new 0) d.level) (omega arith) less)
            all

  -- Deleting a node of a well-formed skip list ends and takes this node off all its levels: the
  -- list stays well formed, with its level lowered to one that is used, and its values are those
  -- that the specification leaves. The comparison is a strict order.
  pub skiplist_delete-delete :
      (d : Nodes A) (x : Item A) (q s : List (Item A))
      → IsSkipList compare d (q ++ x ∷ s)
      → (d2 : Nodes A) × ((skiplist_delete compare d x.id ≡ some d2)
          × (IsSkipList compare d2 (q ++ s)
              × (values (q ++ s) ≡ SkipList.delete compare x.val (values (q ++ x ∷ s)))))
  unfolding skiplist_delete
  skiplist_delete-delete d x q s g =
      go (search-last_at compare passes d (q ++ x ∷ s) (lt_mono x.val) g)
    where
      passes : A → Bool
      passes = λ y. is_lt (compare y x.val)

      value : (d.node_at x.id).value ≡ some x.val
      value = (right-Chain d.node_at q (x ∷ s) g.chain).0

      go :
          (found : ℕ × (ℕ → ℕ)) × ((search (suc d.len) passes d.node_at d.level 0 (λ i. 0)
                ≡ some found)
              × (((j : ℕ) → found.1 j ≡ last_at j 0 (before passes (q ++ x ∷ s)))
                  × (found.0 ≡ last_at 0 0 (before passes (q ++ x ∷ s)))))
          → (d2 : Nodes A) × ((skiplist_delete compare d x.id ≡ some d2)
              × (IsSkipList compare d2 (q ++ s)
                  × (values (q ++ s) ≡ SkipList.delete compare x.val (values (q ++ x ∷ s)))))
      go (found, (f, (u, e))) = (
        delete_node compare d x.id found.1,
        (
          rw (skiplist_delete, value, f) refl,
          (
            delete_node-IsSkipList d x found.1 q s g
                (λ l. u l ∙ ap (last_at l 0) (before_middle compare order x q s g.sorted)),
            sym (delete-values compare order x q s g.sorted),
          ),
        ),
      )
