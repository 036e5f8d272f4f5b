-- ===== src/Hash/Slots.antt =====
-- The table of utils/ut_dict.c as an array of chains: reads behind writes, what holds of every chain,
-- and the number of entries.
use Prim.Native.Nat.{min, digits, bit_and, bit_and-bitwise}
use viabtc_exchange_server.Base.{
  ℕ, zero, suc, ◌+◌, ◌/◌, ◌≤◌, ◌<◌, ◌≡◌, refl, subst, List, [], ◌∷◌, arith, ◌==◌, if◌then◌else◌,
  length,
}
use viabtc_exchange_server.Hash.{at, set_at, empty_table}

digits-le : (n a b : ℕ) → digits (λ y. 0) min n a b ≤ b
digits-le zero a b = ground arith
digits-le (suc n) zero b = ground arith
digits-le (suc n) (suc a) b = ground (arith, digits-le n (suc a / 2) (b / 2))

-- A slot is at most the mask.
pub bit_and-le : (a b : ℕ) → bit_and a b ≤ b
bit_and-le a b = simp bit_and-bitwise (digits-le a a b)

abbrev pub count {ℓ} : {A : Type ℓ} → List (List A) → ℕ
count [] = 0
count (c ∷ t) = length c + count t

module _ {ℓ} {A : Type ℓ} where
  pub at-set_at :
      (i j : ℕ) (c : List A) (t : List (List A))
      → j < length t
      → at i (set_at j c t) ≡ (if i == j then c else at i t)
  unfolding at set_at
  at-set_at i j c [] h = ground arith
  at-set_at zero zero c (b ∷ t) h = refl
  at-set_at zero (suc j) c (b ∷ t) h = ground arith
  at-set_at (suc i) zero c (b ∷ t) h = ground arith
  at-set_at (suc i) (suc j) c (b ∷ t) h = ground (arith, at-set_at i j c t)

  pub at_empty : (i : ℕ) (t : List (List A)) → count t ≡ 0 → at i t ≡ []
  unfolding at
  at_empty i [] h = refl
  at_empty zero ([] ∷ t) h = refl
  at_empty zero ((x ∷ c) ∷ t) h = ground arith
  at_empty (suc i) (c ∷ t) h = at_empty i t (omega (arith, h))

  pub length-set_at : (j : ℕ) (c : List A) (t : List (List A)) → length (set_at j c t) ≡ length t
  unfolding set_at
  length-set_at j c [] = refl
  length-set_at zero c (b ∷ t) = refl
  length-set_at (suc j) c (b ∷ t) = ground (arith, length-set_at j c t)

  pub count-set_at :
      (j : ℕ) (c : List A) (t : List (List A))
      → j < length t
      → count (set_at j c t) + length (at j t) ≡ count t + length c
  unfolding at set_at
  count-set_at j c [] h = omega (arith, h)
  count-set_at zero c (b ∷ t) h = omega arith
  count-set_at (suc j) c (b ∷ t) h = omega (arith, count-set_at j c t (omega (arith, h)))

pub length-empty_table {ℓ} : (A : Type ℓ) (n : ℕ) → length (empty_table {A = A} n) ≡ n
unfolding empty_table
length-empty_table A zero = refl
length-empty_table A (suc n) = ground (arith, length-empty_table A n)

pub at-empty_table {ℓ} : (A : Type ℓ) (i n : ℕ) → at i (empty_table {A = A} n) ≡ []
unfolding at empty_table
at-empty_table A i zero = refl
at-empty_table A zero (suc n) = refl
at-empty_table A (suc i) (suc n) = at-empty_table A i n

pub count-empty_table {ℓ} : (A : Type ℓ) (n : ℕ) → count (empty_table {A = A} n) ≡ 0
unfolding empty_table
count-empty_table A zero = refl
count-empty_table A (suc n) = omega (arith, count-empty_table A n)

-- A predicate on all chains with their slots, the first of which is `i`.
abbrev pub Rows {ℓ κ} : {A : Type ℓ} → (ℕ → List A → Type κ) → ℕ → List (List A) → Type κ
Rows P i [] = Unit
Rows P i (c ∷ t) = P i c × Rows P (suc i) t

module _ {ℓ κ} {A : Type ℓ} (P : ℕ → List A → Type κ) where
  Rows-at : (i j : ℕ) (t : List (List A)) → j < length t → Rows P i t → P (i + j) (at j t)
  unfolding at
  Rows-at i j [] h r = ground arith
  Rows-at i zero (c ∷ t) h r = subst (λ n. P n c) (omega arith) r.0
  Rows-at i (suc j) (c ∷ t) h r =
      subst (λ n. P n (at j t)) (omega arith) (Rows-at (suc i) j t (omega (arith, h)) r.1)

  set_at-Rows :
      (i j : ℕ) (c : List A) (t : List (List A))
      → P (i + j) c
      → Rows P i t
      → Rows P i (set_at j c t)
  unfolding set_at
  set_at-Rows i j c [] p r = tt
  set_at-Rows i zero c (b ∷ t) p r = (subst (λ n. P n c) (omega arith) p, r.1)
  set_at-Rows i (suc j) c (b ∷ t) p r =
      (r.0, set_at-Rows (suc i) j c t (subst (λ n. P n c) (omega arith) p) r.1)

  pub empty_table-Rows : ((i : ℕ) → P i []) → (i n : ℕ) → Rows P i (empty_table n)
  unfolding empty_table
  empty_table-Rows p i zero = tt
  empty_table-Rows p i (suc n) = (p i, empty_table-Rows p (suc i) n)

module _ {ℓ κ} {A : Type ℓ} (P : ℕ → List A → Type κ) where
  pub Rows-chain : (j : ℕ) (t : List (List A)) → j < length t → Rows P 0 t → P j (at j t)
  Rows-chain j t h r = subst (λ n. P n (at j t)) (omega arith) (Rows-at P 0 j t h r)

  pub set_at-Rows_0 :
      (j : ℕ) (c : List A) (t : List (List A)) → P j c → Rows P 0 t → Rows P 0 (set_at j c t)
  set_at-Rows_0 j c t p r = set_at-Rows P 0 j c t (subst (λ n. P n c) (omega arith) p) r
