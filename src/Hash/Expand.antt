-- ===== src/Hash/Expand.antt =====
-- dict_expand and dict_create of utils/ut_dict.c.
use Prim.Native.Nat.{bit_and}
use viabtc_exchange_server.Base.{
  ℕ, zero, suc, ◌+◌, ◌≤◌, ◌<◌, ◌≡◌, ◌≢◌, inl, inr, refl, ap, subst, sym, ◌∙◌, Option, none, some,
  List, [], ◌∷◌, arith, ltb, Bool-cases, Eq, length, All,
}
use viabtc_exchange_server.Hash.{
  Entry, HashDict, at, find_chain, move_chain, move_table, empty_table,
}
use viabtc_exchange_server.Hash.Slots.{
  Rows, count, length-empty_table, count-empty_table, at_empty, empty_table-Rows,
}
use viabtc_exchange_server.Hash.Invariant.{InSlot, IsChain, IsHashDict, entry}
use viabtc_exchange_server.Hash.Rehash.{with_table, or_else, CanMove, Moved, move_chain-Moved}

module _ {ℓ κ} {K : Type ℓ} {V : Type κ} ⦃e : Eq K⦄ (hash : K → ℕ) where
  -- An empty table of any size.
  pub empty-IsHashDict :
      (n start clear : ℕ)
      → clear ≤ start
      → IsHashDict {K = K} {V = V} hash (record {
        table = empty_table (suc n);
        size = suc n;
        mask = n;
        used = 0;
        id_start = start;
        id_clear = clear;
      })
  empty-IsHashDict n start clear l = record {
    slots = length-empty_table (Entry K V) (suc n);
    masked = refl;
    marked = l;
    counted = sym (count-empty_table (Entry K V) (suc n));
    chains = empty_table-Rows (IsChain hash n start) (λ i. (tt, tt)) 0 (suc n);
  }

  -- A key of another slot is not in a chain.
  other_slot :
      (j : K) (mask start i : ℕ) (c : List (Entry K V))
      → All (InSlot hash mask start i) c
      → bit_and (hash j) mask ≢ i
      → find_chain j c ≡ none
  unfolding find_chain
  other_slot j mask start i [] a h = refl
  other_slot j mask start i (x ∷ xs) a h = elim (Bool-cases (e.beq j x.key)) [
    | inl y ↦ elim (h (ap (λ k. bit_and (hash k) mask) ((e.beq_iff j x.key).0 y) ∙ a.0.0)) [ ]
    | inr n ↦ rw n (other_slot j mask start i xs a.1 h)
  ]

  -- No key of slot `i` of the old table or a later one has an entry in the new one.
  abbrev pub Fresh : ℕ → ℕ → HashDict K V → Type (ℓ ⊔ κ)
  Fresh mask i d = (j : K) → i ≤ bit_and (hash j) mask → entry hash d j ≡ none

  Fresh-CanMove :
      (mask i : ℕ) (d : HashDict K V) (c : List (Entry K V))
      → Fresh mask i d
      → All (InSlot hash mask d.id_start i) c
      → CanMove hash d c
  Fresh-CanMove mask i d [] f a = tt
  Fresh-CanMove mask i d (x ∷ xs) f a =
      ((a.0.1, f x.key (omega (arith, a.0.0))), Fresh-CanMove mask i d xs f a.1)

  pub record MovedAll (mask i : ℕ) (d : HashDict K V) (t new : List (List (Entry K V)))
      : Type (ℓ ⊔ κ) where
    pub is_hash_dict : IsHashDict hash (with_table d new (count t + d.used))
    pub found :
        (j : K) (p : ℕ)
        → bit_and (hash j) mask ≡ i + p
        → entry hash (with_table d new (count t + d.used)) j ≡ find_chain j (at p t)
    pub kept :
        (j : K)
        → bit_and (hash j) mask < i
        → entry hash (with_table d new (count t + d.used)) j ≡ entry hash d j

  unmoved :
      (mask i : ℕ) (d : HashDict K V) (t : List (List (Entry K V)))
      → IsHashDict hash d
      → Fresh mask i d
      → count t ≡ 0
      → MovedAll mask i d t d.table
  unfolding find_chain
  unmoved mask i d t g f h = record {
    is_hash_dict = subst (λ n. IsHashDict hash (with_table d d.table n)) (omega (arith, h)) g;
    found = λ j p s. f j (omega (arith, s)) ∙ sym (ap (find_chain j) (at_empty p t h));
    kept = λ j l. refl;
  }

  or_else-none : (o : Option (Entry K V)) → or_else o none ≡ o
  or_else-none none = refl
  or_else-none (some x) = refl

  pub move_table-MovedAll :
      (mask i : ℕ) (d : HashDict K V) (t : List (List (Entry K V))) (used : ℕ)
      → IsHashDict hash d
      → Rows (IsChain hash mask d.id_start) i t
      → Fresh mask i d
      → used ≡ count t
      → MovedAll mask i d t (move_table hash d.mask t used d.table)
  unfolding move_table at
  move_table-MovedAll mask i d [] used g r f u = unmoved mask i d [] g f refl
  move_table-MovedAll mask i d (c ∷ t) used g r f u =
      let s : ℕ × List (List (Entry K V)) = move_chain hash d.mask c used d.table in
      let m : Moved hash d c used s =
        move_chain-Moved hash c used d g r.0.1 (Fresh-CanMove mask i d c f r.0.0)
          (omega (arith, u)) in
      let d2 : HashDict K V = with_table d s.1 (length c + d.used) in
      let other : (j : K) → bit_and (hash j) mask ≢ i → entry hash d2 j ≡ entry hash d j = λ j h.
        m.found j
        ∙ ap (λ o. or_else o (entry hash d j)) (other_slot j mask d.id_start i c r.0.0 h) in
      let rest : MovedAll mask (suc i) d2 t (move_table hash d.mask t s.0 s.1) =
        move_table-MovedAll mask (suc i) d2 t s.0 m.is_hash_dict r.1
          (λ j h. other j (omega (arith, h)) ∙ f j (omega (arith, h)))
          (omega (arith, m.counter, u)) in
      elim (Bool-cases (ltb 0 used)) [
        | inr n ↦ rw n (unmoved mask i d (c ∷ t) g f (ground (arith, n, u)))
        | inl y ↦ rw y (record {
          is_hash_dict =
              subst (λ n. IsHashDict hash (with_table d (move_table hash d.mask t s.0 s.1) n))
                (omega arith) rest.is_hash_dict;
          found = λ j p h. found_at j p h m rest;
          kept = λ j h. rest.kept j (omega (arith, h)) ∙ other j (omega (arith, h));
        })
      ]
    where
      found_at :
          (j : K) (p : ℕ)
          → bit_and (hash j) mask ≡ i + p
          → Moved hash d c used (move_chain hash d.mask c used d.table)
          → MovedAll mask
              (suc i)
              (with_table d (move_chain hash d.mask c used d.table).1 (length c + d.used))
              t
              (move_table hash d.mask t
                (move_chain hash d.mask c used d.table).0
                (move_chain hash d.mask c used d.table).1)
          → entry hash
              (with_table d
                (move_table hash d.mask t
                  (move_chain hash d.mask c used d.table).0
                  (move_chain hash d.mask c used d.table).1)
                (length c + count t + d.used))
              j
            ≡ find_chain j (at p (c ∷ t))
      found_at j zero h m rest =
          rest.kept j (omega (arith, h))
          ∙ m.found j
          ∙ ap (or_else (find_chain j c)) (f j (omega (arith, h)))
          ∙ or_else-none (find_chain j c)
      found_at j (suc p) h m rest = rest.found j p (omega (arith, h))
