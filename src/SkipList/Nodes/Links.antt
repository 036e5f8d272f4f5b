-- ===== src/SkipList/Nodes/Links.antt =====
-- The list that the forward pointers of utils/ut_skiplist.c make: on each level, the nodes that are
-- higher than it, in the order of the lowest level.
use viabtc_exchange_server.Base.{
  ℕ, ◌≤◌, ◌<◌, ◌≡◌, refl, Bool, true, false, Option, none, some, List, [], ◌∷◌, ◌++◌, arith, ltb,
  if◌then◌else◌,
}
use viabtc_exchange_server.SkipList.Nodes.{Node}

-- A node in the list: its number, its value, and how many levels it has.
pub record Item {ℓ} (A : Type ℓ) : Type ℓ where
  pub id : ℕ
  pub val : A
  pub height : ℕ

module _ {ℓ} {A : Type ℓ} where
  -- The first node that is higher than level `i`.
  abbrev pub next : ℕ → List (Item A) → Option ℕ
  next i [] = none
  next i (x ∷ xs) = if ltb i x.height then some x.id else next i xs

  -- The last one, or `n` if there is none.
  abbrev pub last_at : ℕ → ℕ → List (Item A) → ℕ
  last_at i n [] = n
  last_at i n (x ∷ xs) = if ltb i x.height then last_at i x.id xs else last_at i n xs

  -- The value of the last node, or that of the node before.
  abbrev pub last_value : Option A → List (Item A) → Option A
  last_value o [] = o
  last_value o (x ∷ xs) = last_value (some x.val) xs

  abbrev pub Points : Node A → ℕ → List (Item A) → Type 0
  Points node height xs = (i : ℕ) → i < height → node.forward i ≡ next i xs

  -- Each node holds its value and points to the next nodes.
  abbrev pub Chain : (ℕ → Node A) → List (Item A) → Type ℓ
  Chain nodes [] = Unit
  Chain nodes (x ∷ xs) =
      ((nodes x.id).value ≡ some x.val) × (Points (nodes x.id) x.height xs × Chain nodes xs)

  abbrev pub Passes : (A → Bool) → List (Item A) → Type ℓ
  Passes passes [] = Unit
  Passes passes (x ∷ xs) = (passes x.val ≡ true) × Passes passes xs

  abbrev pub Fails : (A → Bool) → List (Item A) → Type ℓ
  Fails passes [] = Unit
  Fails passes (x ∷ xs) = (passes x.val ≡ false) × Fails passes xs

  -- Whether a node of the list is higher than level `i`.
  abbrev pub reaches : ℕ → List (Item A) → Bool
  reaches i [] = false
  reaches i (x ∷ xs) = if ltb i x.height then true else reaches i xs

  pub reaches-le :
      (i j : ℕ) (xs : List (Item A)) → i ≤ j → reaches j xs ≡ true → reaches i xs ≡ true
  reaches-le i j [] l h = ground (arith, h)
  reaches-le i j (x ∷ xs) l h = ground (arith, reaches-le i j xs l, h, l)

  pub last_at-reached :
      (i m n : ℕ) (xs : List (Item A)) → reaches i xs ≡ true → last_at i m xs ≡ last_at i n xs
  last_at-reached i m n [] h = ground (arith, h)
  last_at-reached i m n (x ∷ xs) h = ground (arith, last_at-reached i m n xs, h)

  pub last_at-unreached : (i n : ℕ) (xs : List (Item A)) → reaches i xs ≡ false → last_at i n xs ≡ n
  last_at-unreached i n [] h = refl
  last_at-unreached i n (x ∷ xs) h = ground (arith, last_at-unreached i n xs, h)

  pub next-append :
      (i : ℕ) (xs ys : List (Item A))
      → next i (xs ++ ys) ≡ (if reaches i xs then next i xs else next i ys)
  next-append i [] ys = refl
  next-append i (x ∷ xs) ys = ground (arith, next-append i xs ys)
