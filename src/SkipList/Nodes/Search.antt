-- ===== src/SkipList/Nodes/Search.antt =====
-- The search of utils/ut_skiplist.c over all levels ends, and at the last node whose value passes.
use viabtc_exchange_server.Base.{
  ℕ, zero, suc, ◌≤◌, ◌<◌, ◌≡◌, ◌⊎◌, inl, inr, refl, ap, ◌∙◌, Bool, true, false, some, List, [], ◌∷◌,
  ◌++◌, arith, ltb, ltb→lt, ◌==◌, ==_iff, Bool-cases, if◌then◌else◌, length,
}
use viabtc_exchange_server.SkipList.Nodes.{Node, walk, search, update_at}
use viabtc_exchange_server.SkipList.Nodes.Links.{
  Item, next, last_at, Points, Chain, Passes, Fails, reaches, last_at-reached, last_at-unreached,
}

module _ {ℓ} {A : Type ℓ} (passes : A → Bool) (nodes : ℕ → Node A) where
  -- One level, from a node that points on to the rest.
  walk-last_at :
      (fuel i n : ℕ) (q s : List (Item A))
      → length q < fuel
      → (nodes n).forward i ≡ next i (q ++ s)
      → Chain nodes (q ++ s)
      → Passes passes q
      → Fails passes s
      → walk fuel passes nodes i n ≡ some (last_at i n q)
  unfolding walk
  walk-last_at zero i n q s l h c p f = ground (arith, l)
  walk-last_at (suc fuel) i n [] [] l h c p f = rw (walk, h) refl
  walk-last_at (suc fuel) i n [] (y ∷ s) l h c p f = elim (Bool-cases (ltb i y.height)) [
    | inl t ↦
        let to : (nodes n).forward i ≡ some y.id = rw (h, t) refl in rw (walk, to, c.0, f.0) refl
    | inr m ↦ walk-last_at (suc fuel) i n [] s l (rw (h, m) refl) c.1.1 p f.1
  ]
  walk-last_at (suc fuel) i n (x ∷ q) s l h c p f = elim (Bool-cases (ltb i x.height)) [
    | inl t ↦
        let to : (nodes n).forward i ≡ some x.id = rw (h, t) refl in
        rw (walk, to, c.0, p.0, t)
          (walk-last_at fuel i x.id q s (omega (arith, l)) (c.1.0 i (ltb→lt i x.height t)) c.1.1 p.1
            f)
    | inr m ↦ rw m (walk-last_at (suc fuel) i n q s (omega (arith, l)) (rw (h, m) refl) c.1.1 p.1 f)
  ]

  -- Also from the last node of a higher level.
  walk-last_at-down :
      (fuel i j n : ℕ) (q s : List (Item A))
      → length q < fuel
      → i ≤ j
      → (nodes n).forward i ≡ next i (q ++ s)
      → Chain nodes (q ++ s)
      → Passes passes q
      → Fails passes s
      → walk fuel passes nodes i (last_at j n q) ≡ some (last_at i n q)
  walk-last_at-down fuel i j n [] s l le h c p f = walk-last_at fuel i n [] s l h c p f
  walk-last_at-down fuel i j n (x ∷ q) s l le h c p f = elim (Bool-cases (ltb i x.height)) [
    | inr m ↦
        let above : ltb j x.height ≡ false = ground (arith, m, le) in
        rw (m, above)
          (walk-last_at-down fuel i j n q s (omega (arith, l)) le (rw (h, m) refl) c.1.1 p.1 f)
    | inl t ↦
        let from_x : walk fuel passes nodes i (last_at j x.id q) ≡ some (last_at i x.id q) =
          walk-last_at-down fuel i j x.id q s (omega (arith, l)) le (c.1.0 i (ltb→lt i x.height t))
            c.1.1 p.1 f in
        rw t (from_n t from_x (Bool-cases (ltb j x.height)) (Bool-cases (reaches j q)))
  ]
    where
      from_n :
          ltb i x.height ≡ true
          → walk fuel passes nodes i (last_at j x.id q) ≡ some (last_at i x.id q)
          → (ltb j x.height ≡ true) ⊎ (ltb j x.height ≡ false)
          → (reaches j q ≡ true) ⊎ (reaches j q ≡ false)
          → walk fuel passes nodes i (if ltb j x.height then last_at j x.id q else last_at j n q)
            ≡ some (last_at i x.id q)
      from_n t from_x (inl u) r = rw u from_x
      from_n t from_x (inr u) (inl r) = rw (u, last_at-reached j n x.id q r) from_x
      from_n t from_x (inr u) (inr r) =
          let from_n : walk fuel passes nodes i n ≡ some (last_at i n (x ∷ q)) =
            walk-last_at fuel i n (x ∷ q) s l h c p f in
          rw (u, last_at-unreached j n q r) (from_n ∙ rw t refl)

  -- What the search leaves in `update`: below level `i` the last nodes that pass, above it what was there.
  abbrev pub Updated : ℕ → List (Item A) → (ℕ → ℕ) → (ℕ → ℕ) → Type 0
  Updated i q old new = (j : ℕ) → new j ≡ (if ltb j i then last_at j 0 q else old j)

  pub search_from :
      (fuel i j : ℕ) (q s : List (Item A)) (update : ℕ → ℕ)
      → length q < fuel
      → i ≤ j
      → Points (nodes 0) i (q ++ s)
      → Chain nodes (q ++ s)
      → Passes passes q
      → Fails passes s
      → (found : ℕ × (ℕ → ℕ)) × ((search fuel passes nodes i (last_at j 0 q) update ≡ some found)
          × (Updated i q update found.1 × (found.0 ≡ last_at (if ltb 0 i then 0 else j) 0 q)))
  unfolding search update_at
  search_from fuel zero j q s update l le points c p f =
      ((last_at j 0 q, update), (refl, (λ k. ground arith, ground arith)))
  search_from fuel (suc i) j q s update l le points c p f =
      go
        (search_from fuel i i q s (update_at i (last_at i 0 q) update) l (omega arith)
          (λ k h. points k (omega (arith, h))) c p f)
        (walk-last_at-down fuel i j 0 q s l (omega (arith, le)) (points i (omega arith)) c p f)
    where
      one_more :
          (k : ℕ)
          → (if ltb k i then last_at k 0 q else update_at i (last_at i 0 q) update k)
            ≡ (if ltb k (suc i) then last_at k 0 q else update k)
      one_more k = elim (Bool-cases (k == i)) [
        | inl y ↦
            let same : k ≡ i = (==_iff k i).0 y in
            let last : last_at k 0 q ≡ last_at i 0 q = ap (λ l. last_at l 0 q) same in
            ground (arith, last, same)
        | inr m ↦ ground (arith, m)
      ]

      bottom : last_at (if ltb 0 i then 0 else i) 0 q ≡ last_at (if ltb 0 (suc i) then 0 else j) 0 q
      bottom =
          let same : (if ltb 0 i then 0 else i) ≡ (if ltb 0 (suc i) then 0 else j) = ground arith in
          ap (λ l. last_at l 0 q) same

      go :
          (found : ℕ × (ℕ → ℕ)) × ((search fuel passes nodes i
                  (last_at i 0 q)
                  (update_at i (last_at i 0 q) update)
                ≡ some found)
              × (Updated i q (update_at i (last_at i 0 q) update) found.1
                  × (found.0 ≡ last_at (if ltb 0 i then 0 else i) 0 q)))
          → walk fuel passes nodes i (last_at j 0 q) ≡ some (last_at i 0 q)
          → (found : ℕ × (ℕ → ℕ)) × ((search fuel passes nodes (suc i) (last_at j 0 q) update
                ≡ some found)
              × (Updated (suc i) q update found.1
                  × (found.0 ≡ last_at (if ltb 0 (suc i) then 0 else j) 0 q)))
      go (found, (h, (u, e))) w = (found, (rw (search, w) h, (λ k. u k ∙ one_more k, e ∙ bottom)))
