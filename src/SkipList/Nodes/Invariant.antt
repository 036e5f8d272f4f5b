-- ===== src/SkipList/Nodes/Invariant.antt =====
-- What holds of every list of utils/ut_skiplist.c between two calls, and the two parts in which a
-- search splits it.
use Prim.Native.Nat.{Ordering}
use viabtc_exchange_server.Base.{
  ℕ, ◌≤◌, ◌<◌, ◌≡◌, ◌≢◌, inl, inr, refl, ap, Bool, true, false, none, List, [], ◌∷◌, ◌++◌, arith,
  Bool-cases, if◌then◌else◌, length,
}
use viabtc_exchange_server.SkipList.{is_le}
use viabtc_exchange_server.SkipList.Nodes.{Nodes, max_level}
use viabtc_exchange_server.SkipList.Nodes.Links.{Item, Points, Chain, Passes, Fails, reaches}

-- The laws of a strict order that a comparison of an element type has.
pub record IsOrder {ℓ} {A : Type ℓ} (compare : A → A → Ordering) : Type ℓ where
  pub lt_le :
      (x y z : A)
      → compare x y ≡ Ordering.lt
      → is_le (compare y z) ≡ true
      → compare x z ≡ Ordering.lt
  pub flip : (x y : A) → compare x y ≡ Ordering.gt → compare y x ≡ Ordering.lt
  pub same : (x : A) → compare x x ≡ Ordering.eq

module _ {ℓ} {A : Type ℓ} where
  abbrev pub values : List (Item A) → List A
  values [] = []
  values (x ∷ xs) = x.val ∷ values xs

  -- Another number than that of any node of the list.
  abbrev pub Apart : ℕ → List (Item A) → Type 0
  Apart n [] = Unit
  Apart n (x ∷ xs) = (n ≢ x.id) × Apart n xs

  abbrev pub Distinct : List (Item A) → Type 0
  Distinct [] = Unit
  Distinct (x ∷ xs) = Apart x.id xs × Distinct xs

  -- The numbers were given out, and the heights are within the level.
  abbrev pub Made : ℕ → List (Item A) → Type 0
  Made made [] = Unit
  Made made (x ∷ xs) = ((1 ≤ x.id) × (x.id < made)) × Made made xs

  abbrev pub Heights : ℕ → List (Item A) → Type 0
  Heights level [] = Unit
  Heights level (x ∷ xs) = ((1 ≤ x.height) × (x.height ≤ level)) × Heights level xs

  pub values-append : (xs ys : List (Item A)) → values (xs ++ ys) ≡ values xs ++ values ys
  values-append [] ys = refl
  values-append (x ∷ xs) ys = ap (λ zs. x.val ∷ zs) (values-append xs ys)

  module _ (compare : A → A → Ordering) where
    abbrev pub Below : A → List (Item A) → Type ℓ
    Below v [] = Unit
    Below v (x ∷ xs) = (compare v x.val ≡ Ordering.lt) × Below v xs

    abbrev pub Sorted : List (Item A) → Type ℓ
    Sorted [] = Unit
    Sorted (x ∷ xs) = Below x.val xs × Sorted xs

    -- `xs` are the nodes of the list in order.
    pub record IsSkipList (d : Nodes A) (xs : List (Item A)) : Type ℓ where
      pub header : Points (d.node_at 0) max_level xs
      pub no_value : (d.node_at 0).value ≡ none
      pub chain : Chain d.node_at xs
      pub sorted : Sorted xs
      pub distinct : Distinct xs
      pub numbers : Made d.made xs
      pub heights : Heights d.level xs
      pub levels : (1 ≤ d.level) × (d.level ≤ max_level)
      pub first : 1 ≤ d.made
      pub counted : d.len ≡ length xs

  -- The nodes before the first one that fails, and the others.
  abbrev pub before : (A → Bool) → List (Item A) → List (Item A)
  before passes [] = []
  before passes (x ∷ xs) = if passes x.val then x ∷ before passes xs else []

  abbrev pub behind : (A → Bool) → List (Item A) → List (Item A)
  behind passes [] = []
  behind passes (x ∷ xs) = if passes x.val then behind passes xs else x ∷ xs

  pub before-behind :
      (passes : A → Bool) (xs : List (Item A)) → before passes xs ++ behind passes xs ≡ xs
  before-behind passes [] = refl
  before-behind passes (x ∷ xs) = elim (Bool-cases (passes x.val)) [
    | inl y ↦ rw y (ap (λ zs. x ∷ zs) (before-behind passes xs))
    | inr n ↦ rw n refl
  ]

  pub before-Passes : (passes : A → Bool) (xs : List (Item A)) → Passes passes (before passes xs)
  before-Passes passes [] = tt
  before-Passes passes (x ∷ xs) = elim (Bool-cases (passes x.val)) [
    | inl y ↦ rw y (y, before-Passes passes xs)
    | inr n ↦ rw n tt
  ]

  pub behind-Fails :
      (passes : A → Bool) (compare : A → A → Ordering)
      → ((x y : A) → compare x y ≡ Ordering.lt → passes y ≡ true → passes x ≡ true)
      → (xs : List (Item A)) → Sorted compare xs
      → Fails passes (behind passes xs)
  behind-Fails passes compare mono [] s = tt
  behind-Fails passes compare mono (x ∷ xs) s = elim (Bool-cases (passes x.val)) [
    | inl y ↦ rw y (behind-Fails passes compare mono xs s.1)
    | inr n ↦ rw n (n, all_fail x.val n xs s.0)
  ]
    where
      all_fail :
          (v : A) → passes v ≡ false → (ys : List (Item A)) → Below compare v ys → Fails passes ys
      all_fail v n [] b = tt
      all_fail v n (y ∷ ys) b = (
        elim (Bool-cases (passes y.val)) [
          | inl t ↦ ground (arith, mono v y.val b.0 t, n)
          | inr f ↦ f
        ],
        all_fail v n ys b.1,
      )

  pub length-before :
      (passes : A → Bool) (xs : List (Item A)) → length (before passes xs) ≤ length xs
  length-before passes [] = omega arith
  length-before passes (x ∷ xs) = ground (arith, length-before passes xs)

  -- No node is higher than the level.
  pub reaches-level :
      (level : ℕ) (xs : List (Item A))
      → Heights level xs
      → (i : ℕ) → level ≤ i
      → reaches i xs ≡ false
  reaches-level level [] h i l = refl
  reaches-level level (x ∷ xs) h i l = ground (arith, reaches-level level xs h.1 i l, h.0.1, l)

  pub left-Heights :
      (level : ℕ) (xs ys : List (Item A)) → Heights level (xs ++ ys) → Heights level xs
  left-Heights level [] ys h = tt
  left-Heights level (x ∷ xs) ys h = (h.0, left-Heights level xs ys h.1)
