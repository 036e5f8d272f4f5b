-- ===== src/SkipList/Nodes/Find.antt =====
-- skiplist_find of utils/ut_skiplist.c returns, and finds what the walk along the lowest level finds.
use Prim.Native.Nat.{Ordering}
use viabtc_exchange_server.Base.{
  ℕ, suc, ◌≤◌, ◌≡◌, inl, inr, refl, ap, sym, ◌∙◌, subst, Bool, true, false, Option, none, some,
  List, [], ◌∷◌, ◌++◌, arith, ltb, lt→ltb, Bool-cases, Option-cases, if◌then◌else◌,
}
use viabtc_exchange_server.SkipList
use viabtc_exchange_server.SkipList.{is_le, is_lt, is_eq, last_le}
use viabtc_exchange_server.SkipList.Nodes.{Node, Nodes, search, skiplist_find, equals}
use viabtc_exchange_server.SkipList.Nodes.Links.{
  Item, last_at, last_at-unreached, last_value, Chain, Passes, Fails, reaches,
}
use viabtc_exchange_server.SkipList.Nodes.Search.{search_from, Updated}
use viabtc_exchange_server.SkipList.Nodes.Invariant.{
  IsOrder, values, IsSkipList, Heights, before, behind, before-behind, before-Passes, behind-Fails,
  length-before, reaches-level, left-Heights,
}

module _ {ℓ} {A : Type ℓ} (compare : A → A → Ordering) where
  -- The search of all levels from the header.
  pub search-last_at :
      (passes : A → Bool) (d : Nodes A) (xs : List (Item A))
      → ((x y : A) → compare x y ≡ Ordering.lt → passes y ≡ true → passes x ≡ true)
      → IsSkipList compare d xs
      → (found : ℕ × (ℕ → ℕ)) × ((search (suc d.len) passes d.node_at d.level 0 (λ i. 0)
            ≡ some found)
          × (((j : ℕ) → found.1 j ≡ last_at j 0 (before passes xs))
              × (found.0 ≡ last_at 0 0 (before passes xs))))
  search-last_at passes d xs mono g = go start
    where
      q : List (Item A)
      q = before passes xs

      s : List (Item A)
      s = behind passes xs

      split : q ++ s ≡ xs
      split = before-behind passes xs

      g2 : IsSkipList compare d (q ++ s)
      g2 = subst (IsSkipList compare d) (sym split) g

      low : (i : ℕ) → d.level ≤ i → reaches i q ≡ false
      low i l = reaches-level d.level q (left-Heights d.level q s g2.heights) i l

      any : (j : ℕ) → (if ltb j d.level then last_at j 0 q else 0) ≡ last_at j 0 q
      any j = elim (Bool-cases (ltb j d.level)) [
        | inl y ↦ rw y refl
        | inr n ↦ rw n (sym (last_at-unreached j 0 q (low j (ground (arith, n)))))
      ]

      start :
          (found : ℕ × (ℕ → ℕ)) × ((search
                (suc d.len)
                passes
                d.node_at
                d.level
                (last_at d.level 0 q)
                (λ i. 0)
              ≡ some found)
            × (Updated passes d.node_at d.level q (λ i. 0) found.1
                × (found.0 ≡ last_at (if ltb 0 d.level then 0 else d.level) 0 q)))
      start =
          search_from passes d.node_at (suc d.len) d.level d.level q s (λ i. 0)
            (omega (arith, length-before passes xs, g.counted)) (omega arith)
            (λ i l. g2.header i (omega (arith, l, g.levels.1))) g2.chain (before-Passes passes xs)
            (behind-Fails passes compare mono xs g.sorted)

      go :
          (found : ℕ × (ℕ → ℕ)) × ((search
                  (suc d.len)
                  passes
                  d.node_at
                  d.level
                  (last_at d.level 0 q)
                  (λ i. 0)
                ≡ some found)
              × (Updated passes d.node_at d.level q (λ i. 0) found.1
                  × (found.0 ≡ last_at (if ltb 0 d.level then 0 else d.level) 0 q)))
          → (found : ℕ × (ℕ → ℕ)) × ((search (suc d.len) passes d.node_at d.level 0 (λ i. 0)
                ≡ some found)
              × (((j : ℕ) → found.1 j ≡ last_at j 0 q) × (found.0 ≡ last_at 0 0 q)))
      go (found, (h, (u, e))) = (
        found,
        (
          subst (λ n. search (suc d.len) passes d.node_at d.level n (λ i. 0) ≡ some found)
              (last_at-unreached d.level 0 q (low d.level (omega arith))) h,
          (λ j. u j ∙ any j, e ∙ rw (lt→ltb 0 d.level g.levels.0) refl),
        ),
      )

  pub last_at-value :
      (level n : ℕ) (o : Option A) (nodes : ℕ → Node A) (q s : List (Item A))
      → (nodes n).value ≡ o
      → Chain nodes (q ++ s)
      → Heights level (q ++ s)
      → (nodes (last_at 0 n q)).value ≡ last_value o q
  last_at-value level n o nodes [] s h c t = h
  last_at-value level n o nodes (x ∷ q) s h c t =
      rw (lt→ltb 0 x.height t.0.0) (last_at-value level x.id (some x.val) nodes q s c.0 c.1.1 t.1)

  last_le-value :
      (v : A) (o : Option A) (q s : List (Item A))
      → Passes (λ x. is_le (compare x v)) q
      → Fails (λ x. is_le (compare x v)) s
      → last_le compare v o (values (q ++ s)) ≡ last_value o q
  unfolding last_le
  last_le-value v o [] [] p f = refl
  last_le-value v o [] (y ∷ s) p f = ground (arith, f.0)
  last_le-value v o (x ∷ q) s p f = ground (arith, p.0, last_le-value v (some x.val) q s p.1 f)

  -- What a pointer leads to.
  abbrev pub pointed : Nodes A → Option ℕ → Option A
  pointed d none = none
  pointed d (some n) = (d.node_at n).value

  same_result :
      (d : Nodes A) (v : A) (n : ℕ) (xs : List A)
      → last_le compare v none xs ≡ (d.node_at n).value
      → pointed d (if equals compare (d.node_at n).value v then some n else none)
        ≡ SkipList.find compare v xs
  unfolding SkipList.find
  same_result d v n xs h = elim (Option-cases (d.node_at n).value) [
    | inl q ↦ rw (SkipList.find, h, q) refl
    | inr (x, q) ↦
        rw (SkipList.find, h, q)
          (elim (Bool-cases (is_eq (compare x v))) [ inl y ↦ rw y q | inr f ↦ rw f refl ])
  ]

  pub le_mono :
      IsOrder compare
      → (v x y : A) → compare x y ≡ Ordering.lt
      → is_le (compare y v) ≡ true
      → is_le (compare x v) ≡ true
  le_mono order v x y h l = ap is_le (order.lt_le x y v h l)

  -- The last node that is not behind `v`, and the last value that the spec's walk sees.
  pub found_value :
      (d : Nodes A) (v : A) (xs : List (Item A))
      → IsOrder compare
      → IsSkipList compare d xs
      → last_le compare v none (values xs)
        ≡ (d.node_at (last_at 0 0 (before (λ x. is_le (compare x v)) xs))).value
  found_value d v xs order g =
      let q : List (Item A) = before (λ x. is_le (compare x v)) xs in
      let s : List (Item A) = behind (λ x. is_le (compare x v)) xs in
      let split : q ++ s ≡ xs = before-behind (λ x. is_le (compare x v)) xs in
      let g2 : IsSkipList compare d (q ++ s) = subst (IsSkipList compare d) (sym split) g in
      ap (λ ys. last_le compare v none (values ys)) (sym split)
      ∙ last_le-value v none q s (before-Passes (λ x. is_le (compare x v)) xs)
          (behind-Fails (λ x. is_le (compare x v)) compare (le_mono order v) xs g.sorted)
      ∙ sym (last_at-value d.level 0 none d.node_at q s g.no_value g2.chain g2.heights)

  -- The search of a well-formed skip list over its levels ends, and its pointer leads to the value
  -- that the walk along the lowest level finds, or is NULL where that finds none. The comparison
  -- is a strict order.
  pub skiplist_find-find :
      (d : Nodes A) (v : A) (xs : List (Item A))
      → IsOrder compare
      → IsSkipList compare d xs
      → (p : Option ℕ) × ((skiplist_find compare d v ≡ some p)
          × (pointed d p ≡ SkipList.find compare v (values xs)))
  unfolding skiplist_find
  skiplist_find-find d v xs order g =
      go (search-last_at (λ x. is_le (compare x v)) d xs (le_mono order v) g)
    where
      go :
          (found : ℕ × (ℕ → ℕ)) × ((search
                  (suc d.len)
                  (λ x. is_le (compare x v))
                  d.node_at
                  d.level
                  0
                  (λ i. 0)
                ≡ some found)
              × (((j : ℕ) → found.1 j ≡ last_at j 0 (before (λ x. is_le (compare x v)) xs))
                  × (found.0 ≡ last_at 0 0 (before (λ x. is_le (compare x v)) xs))))
          → (p : Option ℕ) × ((skiplist_find compare d v ≡ some p)
              × (pointed d p ≡ SkipList.find compare v (values xs)))
      go (found, (h, (u, e))) = (
        if equals compare (d.node_at found.0).value v then some found.0 else none,
        (
          rw (skiplist_find, h) refl,
          same_result d v found.0 (values xs)
              (found_value d v xs order g ∙ ap (λ n. (d.node_at n).value) (sym e)),
        ),
      )
