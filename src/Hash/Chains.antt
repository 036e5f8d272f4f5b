-- ===== src/Hash/Chains.antt =====
-- One chain of utils/ut_dict.c: what is found in it behind each change.
use viabtc_exchange_server.Base.{
  inl, inr, Bool-cases, ℕ, zero, suc, ◌+◌, ◌≤◌, ◌≡◌, ◌≢◌, refl, true, false, Option, none, some,
  List, [], ◌∷◌, arith, ltb, if◌then◌else◌, Eq, length, All,
}
use viabtc_exchange_server.Hash.{
  Entry, pred_u32, clear_chain, find_chain, write_chain, delete_chain,
}

-- The entry, unless it is older than the last mark.
abbrev pub live {ℓ κ} : {K : Type ℓ} {V : Type κ} → ℕ → Option (Entry K V) → Option (Entry K V)
live id_clear none = none
live id_clear (some x) = if ltb x.id id_clear then none else some x

abbrev pub value {ℓ κ} : {K : Type ℓ} {V : Type κ} → Option (Entry K V) → Option V
value none = none
value (some x) = some x.val

module _ {ℓ κ} {K : Type ℓ} {V : Type κ} ⦃e : Eq K⦄ where
  -- No key has two entries.
  abbrev pub Unique : List (Entry K V) → Type (ℓ ⊔ κ)
  Unique [] = Unit
  Unique (x ∷ xs) = (find_chain x.key xs ≡ none) × Unique xs

  pub find-clear_chain-none :
      (k : K) (id_clear : ℕ) (xs : List (Entry K V)) (used : ℕ)
      → find_chain k xs ≡ none
      → find_chain k (clear_chain id_clear xs used).1 ≡ none
  unfolding find_chain clear_chain
  find-clear_chain-none k i [] used h = refl
  find-clear_chain-none k i (x ∷ xs) used h =
      ground
        (arith, find-clear_chain-none k i xs used, find-clear_chain-none k i xs (pred_u32 used))

  pub find-clear_chain :
      (k : K) (id_clear : ℕ) (xs : List (Entry K V)) (used : ℕ)
      → Unique xs
      → find_chain k (clear_chain id_clear xs used).1 ≡ live id_clear (find_chain k xs)
  unfolding find_chain clear_chain
  find-clear_chain k i [] used u = refl
  find-clear_chain k i (x ∷ xs) used u = ground (
    arith,
    find-clear_chain k i xs used u.1,
    find-clear_chain k i xs (pred_u32 used) u.1,
    find-clear_chain-none k i xs (pred_u32 used),
    e.beq_iff k x.key,
  )

  pub clear_chain-Unique :
      (id_clear : ℕ) (xs : List (Entry K V)) (used : ℕ)
      → Unique xs
      → Unique (clear_chain id_clear xs used).1
  unfolding clear_chain
  clear_chain-Unique i [] used u = tt
  clear_chain-Unique i (x ∷ xs) used u = ground (
    arith,
    clear_chain-Unique i xs used u.1,
    clear_chain-Unique i xs (pred_u32 used) u.1,
    find-clear_chain-none x.key i xs used u.0,
  )

  pub find-write_chain :
      (j k : K) (v : V) (x : Entry K V) (xs : List (Entry K V))
      → find_chain k xs ≡ some x
      → find_chain j (write_chain k v xs)
        ≡ (if e.beq j k then some (record x { val = v }) else find_chain j xs)
  unfolding find_chain write_chain
  find-write_chain j k v x [] h = ground arith
  find-write_chain j k v x (y ∷ xs) h =
      ground
        (arith, find-write_chain j k v x xs, e.beq_iff j k, e.beq_iff k y.key, e.beq_iff j y.key)

  pub find-write_chain-none :
      (j k : K) (v : V) (xs : List (Entry K V))
      → find_chain j xs ≡ none
      → find_chain j (write_chain k v xs) ≡ none
  unfolding find_chain write_chain
  find-write_chain-none j k v [] h = refl
  find-write_chain-none j k v (x ∷ xs) h = ground (arith, find-write_chain-none j k v xs)

  pub length-write_chain :
      (k : K) (v : V) (xs : List (Entry K V)) → length (write_chain k v xs) ≡ length xs
  unfolding write_chain
  length-write_chain k v [] = refl
  length-write_chain k v (x ∷ xs) = ground (arith, length-write_chain k v xs)

  pub write_chain-Unique :
      (k : K) (v : V) (xs : List (Entry K V)) → Unique xs → Unique (write_chain k v xs)
  unfolding write_chain
  write_chain-Unique k v [] u = tt
  write_chain-Unique k v (x ∷ xs) u =
      ground (arith, write_chain-Unique k v xs u.1, find-write_chain-none x.key k v xs u.0)

  pub find-delete_chain-none :
      (j k : K) (xs : List (Entry K V))
      → find_chain j xs ≡ none
      → find_chain j (delete_chain k xs).1 ≡ none
  unfolding find_chain delete_chain
  find-delete_chain-none j k [] f = refl
  find-delete_chain-none j k (x ∷ xs) f = ground (arith, find-delete_chain-none j k xs)

  pub find-delete_chain :
      (j k : K) (xs : List (Entry K V))
      → Unique xs
      → find_chain j (delete_chain k xs).1 ≡ (if e.beq j k then none else find_chain j xs)
  unfolding find_chain delete_chain
  find-delete_chain j k [] u = ground arith
  find-delete_chain j k (x ∷ xs) u =
      ground
        (arith, find-delete_chain j k xs u.1, e.beq_iff x.key k, e.beq_iff j k, e.beq_iff j x.key)

  -- One entry less where the flag is set; else the key has none.
  pub length-delete_chain :
      (k : K) (xs : List (Entry K V))
      → length xs ≡ (
          if (delete_chain k xs).0
          then suc (length (delete_chain k xs).1)
          else length (delete_chain k xs).1)
  unfolding delete_chain
  length-delete_chain k [] = refl
  length-delete_chain k (x ∷ xs) = ground (arith, length-delete_chain k xs)

  pub delete_chain-found :
      (k : K) (xs : List (Entry K V)) → (delete_chain k xs).0 ≡ false → find_chain k xs ≡ none
  unfolding find_chain delete_chain
  delete_chain-found k [] h = refl
  delete_chain-found k (x ∷ xs) h =
      ground (arith, delete_chain-found k xs, e.beq_iff x.key k, e.beq_iff k x.key)

  -- Without a mark, the flag is set for a key that is found only.
  pub delete_chain-live :
      (k : K) (xs : List (Entry K V))
      → (delete_chain k xs).0 ≡ true
      → value (live 0 (find_chain k xs)) ≢ none
  unfolding find_chain delete_chain
  delete_chain-live k [] h = ground (arith, h)
  delete_chain-live k (x ∷ xs) h =
      ground (arith, h, delete_chain-live k xs, e.beq_iff x.key k, e.beq_iff k x.key)

  pub delete_chain-Unique :
      (k : K) (xs : List (Entry K V)) → Unique xs → Unique (delete_chain k xs).1
  unfolding delete_chain
  delete_chain-Unique k [] u = tt
  delete_chain-Unique k (x ∷ xs) u =
      ground (arith, delete_chain-Unique k xs u.1, find-delete_chain-none x.key k xs u.0)

module _ {ℓ κ μ} {K : Type ℓ} {V : Type κ} ⦃e : Eq K⦄ (P : Entry K V → Type μ) where
  pub clear_chain-All :
      (id_clear : ℕ) (xs : List (Entry K V)) (used : ℕ)
      → All P xs
      → All P (clear_chain id_clear xs used).1
  unfolding clear_chain
  clear_chain-All i [] used a = tt
  clear_chain-All i (x ∷ xs) used a = elim (Bool-cases (ltb x.id i)) [
    | inl y ↦ rw y (clear_chain-All i xs (pred_u32 used) a.1)
    | inr n ↦ rw n (a.0, clear_chain-All i xs used a.1)
  ]

  pub delete_chain-All : (k : K) (xs : List (Entry K V)) → All P xs → All P (delete_chain k xs).1
  unfolding delete_chain
  delete_chain-All k [] a = tt
  delete_chain-All k (x ∷ xs) a = elim (Bool-cases (e.beq x.key k)) [
    | inl y ↦ rw y a.1
    | inr n ↦ rw n (a.0, delete_chain-All k xs a.1)
  ]

  pub write_chain-All :
      (k : K) (v : V) (xs : List (Entry K V))
      → ((x : Entry K V) → P x → P (record x { val = v }))
      → All P xs
      → All P (write_chain k v xs)
  unfolding write_chain
  write_chain-All k v [] keep a = tt
  write_chain-All k v (x ∷ xs) keep a = elim (Bool-cases (e.beq k x.key)) [
    | inl y ↦ rw y (keep x a.0, a.1)
    | inr n ↦ rw n (a.0, write_chain-All k v xs keep a.1)
  ]

module _ {ℓ κ} {K : Type ℓ} {V : Type κ} where
  -- The counter falls by the number of entries that go.
  pub clear_chain-used :
      (id_clear : ℕ) (xs : List (Entry K V)) (used : ℕ)
      → length xs ≤ used
      → (clear_chain id_clear xs used).0 + length xs
        ≡ used + length (clear_chain id_clear xs used).1
  unfolding clear_chain
  clear_chain-used i [] used h = refl
  clear_chain-used i (x ∷ xs) zero h = ground arith
  clear_chain-used i (x ∷ xs) (suc used) h =
      ground (arith, clear_chain-used i xs used, clear_chain-used i xs (suc used))

  pub clear_chain-le :
      (id_clear : ℕ) (xs : List (Entry K V)) (used : ℕ)
      → length xs ≤ used
      → (clear_chain id_clear xs used).0 ≤ used
  unfolding clear_chain
  clear_chain-le i [] used h = omega arith
  clear_chain-le i (x ∷ xs) zero h = ground arith
  clear_chain-le i (x ∷ xs) (suc used) h =
      ground (arith, clear_chain-le i xs used, clear_chain-le i xs (suc used))
