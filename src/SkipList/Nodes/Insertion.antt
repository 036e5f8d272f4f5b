-- ===== src/SkipList/Nodes/Insertion.antt =====
-- skiplist_insert of utils/ut_skiplist.c: it ends, keeps the list well formed, and puts the value where
-- SkipList puts it.
use Prim.Native.Nat.{Ordering}
use viabtc_exchange_server.Base.{
  ℕ, suc, ◌+◌, ◌-◌, ◌≤◌, ◌<◌, ◌≡◌, ◌≢◌, inl, inr, refl, ap, sym, ◌∙◌, subst, Bool, true, false,
  ◌&&◌, Option, none, some, List, ◌∷◌, ◌++◌, arith, ltb, leb, ◌==◌, ==_iff, Bool-cases,
  if◌then◌else◌, length, length-append,
}
use viabtc_exchange_server.SkipList
use viabtc_exchange_server.SkipList.{is_le, is_lt, is_eq, last_le, place}
use viabtc_exchange_server.SkipList.Nodes.{
  Node, Nodes, max_level, raise, link, update_at, empty_node, insert_node, skiplist_insert, search,
  equals,
}
use viabtc_exchange_server.SkipList.Nodes.Links.{
  Item, last_at, last_at-unreached, last_value, Fails,
}
use viabtc_exchange_server.SkipList.Nodes.Writes.{linked, link-forward, link-value}
use viabtc_exchange_server.SkipList.Nodes.Removal.{raise-levels}
use viabtc_exchange_server.SkipList.Nodes.Splice.{
  last_at-Apart, last_at-next, left-Apart, right-Apart, left-Distinct, last_at_across, Made-Apart,
  Made-Apart_0,
}
use viabtc_exchange_server.SkipList.Nodes.Insert.{
  Linked, inserted-Points, inserted-Chain, inserted-Kept,
}
use viabtc_exchange_server.SkipList.Nodes.Find.{search-last_at, last_at-value, le_mono, found_value}
use viabtc_exchange_server.SkipList.Nodes.Between.{
  inserted-Made, inserted-Heights, inserted-Distinct, AllBelow, le-AllBelow, Fails-Below,
  inserted-Sorted, place-values,
}
use viabtc_exchange_server.SkipList.Nodes.Invariant.{
  IsOrder, values, IsSkipList, Apart, Below, before, behind, before-behind, before-Passes,
  behind-Fails, reaches-level, left-Heights,
}

module _ {ℓ} {A : Type ℓ} where
  -- The loop of skiplist_insert for a node that was not in the list.
  link-Linked :
      (x : Item A) (update : ℕ → ℕ) (nodes : ℕ → Node A)
      → ((l : ℕ) → update l ≢ x.id)
      → Linked x update nodes
          (link x.height 0 update x.id (update_at x.id (empty_node (some x.val)) nodes))
  unfolding update_at
  link-Linked x update nodes d =
      let nodes2 : ℕ → Node A = update_at x.id (empty_node (some x.val)) nodes in
      let kept : (m : ℕ) → m ≢ x.id → nodes2 m ≡ nodes m =
        λ m h. let other : (m == x.id) ≡ false = ground (arith, h) in rw other refl in
      record {
        others = λ m l h.
            link-forward x.height 0 x.id update nodes2 m l d
            ∙ others m l h (ap (λ n. n.forward l) (kept m h));
        itself = λ l h.
            link-forward x.height 0 x.id update nodes2 x.id l d
            ∙ itself l h (ap (λ n. n.forward l) (kept (update l) (d l)));
        value = link-value x.height 0 x.id update nodes2 x.id ∙ rw ((==_iff x.id x.id).1 refl) refl;
        values = λ m h. link-value x.height 0 x.id update nodes2 m ∙ ap (λ n. n.value) (kept m h);
      }
    where
      others :
          (m l : ℕ)
          → m ≢ x.id
          → (update_at x.id (empty_node (some x.val)) nodes m).forward l ≡ (nodes m).forward l
          → (if leb 0 l && ltb l (0 + x.height)
              then linked x.id update (update_at x.id (empty_node (some x.val)) nodes) m l
              else (update_at x.id (empty_node (some x.val)) nodes m).forward l)
            ≡ (if ltb l x.height && (m == update l) then some x.id else (nodes m).forward l)
      others m l h e = ground (arith, h, e)

      itself :
          (l : ℕ)
          → l < x.height
          → (update_at x.id (empty_node (some x.val)) nodes (update l)).forward l
            ≡ (nodes (update l)).forward l
          → (if leb 0 l && ltb l (0 + x.height)
              then linked x.id update (update_at x.id (empty_node (some x.val)) nodes) x.id l
              else (update_at x.id (empty_node (some x.val)) nodes x.id).forward l)
            ≡ (nodes (update l)).forward l
      itself l h e = ground (arith, h, e)

  length-middle : (x : Item A) (q s : List (Item A)) → length (q ++ x ∷ s) ≡ suc (length (q ++ s))
  length-middle x q s = omega (arith, length-append q (x ∷ s), length-append q s)

module _ {ℓ} {A : Type ℓ} (compare : A → A → Ordering) (order : IsOrder compare) where
  -- With the last nodes of each level in `update`, and no equal value.
  pub insert_node-IsSkipList :
      (d : Nodes A) (v : A) (level : ℕ) (update : ℕ → ℕ) (q s : List (Item A))
      → IsSkipList compare d (q ++ s)
      → (1 ≤ level) × (level ≤ max_level)
      → ((l : ℕ) → update l ≡ last_at l 0 q)
      → AllBelow compare order q v
      → Below compare v s
      → IsSkipList compare
          (insert_node compare d v level update)
          (q ++ record { id = d.made; val = v; height = level } ∷ s)
  unfolding insert_node
  insert_node-IsSkipList d v level update q s g h u a b = record {
    header =
        inserted-Points x up d.node_at new w 0 max_level q s (λ e. ground (arith, e, g.first))
          (left-Apart 0 q s none_0) (λ l h t. ups l) g.header;
    no_value = w.values 0 (λ e. ground (arith, e, g.first)) ∙ g.no_value;
    chain =
        inserted-Chain x up d.node_at new w (λ l. 0) q s
          (λ l t.
            w.itself l t
            ∙ ap (λ n. (d.node_at n).forward l) (ups l)
            ∙ last_at-next l 0 d.node_at q s (g.header l (omega (arith, t, h.1))) g.chain)
          (left-Apart d.made q s apart) (left-Distinct q s g.distinct)
          (inserted-Kept x up d.node_at new w s (right-Apart d.made q s apart) (λ l t.
            subst (λ n. Apart n s) (sym (ups l))
              (last_at_across l 0 q s g.distinct (right-Apart 0 q s none_0))))
          (λ l t. ups l) g.chain;
    sorted = inserted-Sorted compare order x q s a b g.sorted;
    distinct = inserted-Distinct x q s apart g.distinct;
    numbers = inserted-Made d.made x q s refl g.first g.numbers;
    heights =
        inserted-Heights d.level (if ltb d.level level then level else d.level) x q s (ground arith)
          h.0 (ground arith) g.heights;
    levels = (ground (arith, g.levels.0), ground (arith, g.levels.1, h.1));
    first = omega arith;
    counted = omega (arith, g.counted, length-middle x q s);
  }
    where
      x : Item A
      x = record { id = d.made; val = v; height = level }

      up : ℕ → ℕ
      up = if ltb d.level level then raise (level - d.level) d.level update else update

      ups : (l : ℕ) → up l ≡ last_at l 0 q
      ups l =
          let zero_at : d.level ≤ l → last_at l 0 q ≡ 0 = λ t.
            last_at-unreached l 0 q
              (reaches-level d.level q (left-Heights d.level q s g.heights) l t) in
          elim (Bool-cases (ltb d.level level)) [
            | inr n ↦ rw n (u l)
            | inl y ↦
                rw (y, raise-levels (level - d.level) d.level update l)
                  (ground (arith, u l, zero_at, y))
          ]

      apart : Apart d.made (q ++ s)
      apart = Made-Apart d.made d.made (q ++ s) (omega arith) g.numbers

      other : (l : ℕ) → up l ≢ d.made
      other l e =
          last_at-Apart l d.made 0 q (λ z. ground (arith, z, g.first)) (left-Apart d.made q s apart)
            (sym e ∙ ups l)

      none_0 : Apart 0 (q ++ s)
      none_0 = Made-Apart_0 d.made (q ++ s) g.numbers

      new : ℕ → Node A
      new = link level 0 up d.made (update_at d.made (empty_node (some v)) d.node_at)

      w : Linked x up d.node_at new
      w = link-Linked x up d.node_at other

  -- What SkipList does, by the value that its walk ends at.
  inserts_equal :
      (v : A) (o : Option A) (xs : List A)
      → last_le compare v none xs ≡ o
      → equals compare o v ≡ true
      → SkipList.insert compare v xs ≡ none
  unfolding SkipList.insert SkipList.find
  inserts_equal v none xs h e = ground (arith, e)
  inserts_equal v (some x) xs h e = rw (SkipList.insert, SkipList.find, h, e) refl

  inserts_other :
      (v : A) (o : Option A) (xs : List A)
      → last_le compare v none xs ≡ o
      → equals compare o v ≡ false
      → SkipList.insert compare v xs ≡ some (place compare v xs)
  unfolding SkipList.insert SkipList.find
  inserts_other v none xs h e = rw (SkipList.insert, SkipList.find, h) refl
  inserts_other v (some x) xs h e = rw (SkipList.insert, SkipList.find, h, e) refl

  -- NULL where SkipList refuses the value, else a list of the values that SkipList gives.
  abbrev pub Inserts : A → List (Item A) → Option (Nodes A) → Type ℓ
  Inserts v xs none = SkipList.insert compare v (values xs) ≡ none
  Inserts v xs (some d) =
      (ys : List (Item A)) × (IsSkipList compare d ys
        × (SkipList.insert compare v (values xs) ≡ some (values ys)))

  -- Inserting a value into a well-formed skip list, with any level from 1 to 16, ends. It gives
  -- NULL exactly where the specification refuses a value that compares equal to one there;
  -- otherwise the forward pointers of all levels make a well-formed list, whose values are those
  -- that the specification gives, in order. The comparison is a strict order.
  pub skiplist_insert-Inserts :
      (d : Nodes A) (v : A) (level : ℕ) (xs : List (Item A))
      → IsSkipList compare d xs
      → (1 ≤ level) × (level ≤ max_level)
      → (r : Option (Nodes A)) × ((skiplist_insert compare d v level ≡ some r) × Inserts v xs r)
  unfolding skiplist_insert
  skiplist_insert-Inserts d v level xs g h =
      go (search-last_at compare passes d xs (le_mono compare order v) g)
    where
      passes : A → Bool
      passes = λ x. is_le (compare x v)

      q : List (Item A)
      q = before passes xs

      s : List (Item A)
      s = behind passes xs

      split : q ++ s ≡ xs
      split = before-behind passes xs

      g2 : IsSkipList compare d (q ++ s)
      g2 = subst (IsSkipList compare d) (sym split) g

      fails : Fails passes s
      fails = behind-Fails passes compare (le_mono compare order v) xs g.sorted

      last : last_le compare v none (values xs) ≡ last_value none q
      last =
          found_value compare d v xs order g
          ∙ last_at-value compare d.level 0 none d.node_at q s g2.no_value g2.chain g2.heights

      go :
          (found : ℕ × (ℕ → ℕ)) × ((search (suc d.len) passes d.node_at d.level 0 (λ i. 0)
                ≡ some found)
              × (((j : ℕ) → found.1 j ≡ last_at j 0 q) × (found.0 ≡ last_at 0 0 q)))
          → (r : Option (Nodes A)) × ((skiplist_insert compare d v level ≡ some r) × Inserts v xs r)
      go (found, (f, (u, e))) =
          let at_v : (d.node_at found.0).value ≡ last_value none q =
            ap (λ n. (d.node_at n).value) e
            ∙ last_at-value compare d.level 0 none d.node_at q s g2.no_value g2.chain g2.heights in
          elim (Bool-cases (equals compare (last_value none q) v)) [
            | inl y ↦ (
              none,
              (
                rw (skiplist_insert, f, at_v, y) refl,
                inserts_equal v (last_value none q) (values xs) last y,
              ),
            )
            | inr m ↦ (
              some (insert_node compare d v level found.1),
              (
                rw (skiplist_insert, f, at_v, m) refl,
                (
                  q ++ record { id = d.made; val = v; height = level } ∷ s,
                  (
                    insert_node-IsSkipList d v level found.1 q s g2 h u
                        (le-AllBelow compare order v none q s g2.sorted (before-Passes passes xs) m)
                        (Fails-Below compare order v s fails),
                    inserts_other v (last_value none q) (values xs) last m
                        ∙ ap (λ ys. some (place compare v (values ys))) (sym split)
                        ∙ ap some (
                            place-values compare (record { id = d.made; val = v; height = level }) q
                              s (before-Passes passes xs) fails),
                  ),
                ),
              ),
            )
          ]
