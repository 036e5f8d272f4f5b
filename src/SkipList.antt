-- ===== src/SkipList.antt =====
-- What utils/ut_skiplist.c promises: the values of a skip list in the order of its lowest level, and
-- insertion, search and deletion by one walk along it. `compare` gives the sign of the C comparison.
pub mod Nodes
use Prim.Native.Nat.{Ordering}
use viabtc_exchange_server.Base.{
  Bool, true, false, Option, none, some, List, [], ◌∷◌, if◌then◌else◌,
}

abbrev pub is_le : Ordering → Bool
is_le Ordering.lt = true
is_le Ordering.eq = true
is_le Ordering.gt = false

abbrev pub is_lt : Ordering → Bool
is_lt Ordering.lt = true
is_lt Ordering.eq = false
is_lt Ordering.gt = false

abbrev pub is_eq : Ordering → Bool
is_eq Ordering.lt = false
is_eq Ordering.eq = true
is_eq Ordering.gt = false

module _ {ℓ} {A : Type ℓ} (compare : A → A → Ordering) where
  -- The last value of the walk over all values that do not stand behind `v`; `node` is where it is.
  unfoldable pub last_le : A → Option A → List A → Option A
  last_le v node [] = node
  last_le v node (x ∷ xs) = elim (compare x v) [ Ordering.gt ↦ node | _ ↦ last_le v (some x) xs ]

  unfoldable pub place : A → List A → List A
  place v [] = v ∷ []
  place v (x ∷ xs) = elim (compare x v) [ Ordering.gt ↦ v ∷ x ∷ xs | _ ↦ x ∷ place v xs ]

  -- skiplist_find
  unfoldable pub find : A → List A → Option A
  find v xs = elim (last_le v none xs) [
    | none ↦ none
    | some x ↦ if is_eq (compare x v) then some x else none
  ]

  -- skiplist_insert; `none` for NULL.
  unfoldable pub insert : A → List A → Option (List A)
  insert v xs = elim (find v xs) [ none ↦ some (place v xs) | some _ ↦ none ]

  -- skiplist_delete of a node that holds `v`.
  unfoldable pub delete : A → List A → List A
  delete v [] = []
  delete v (x ∷ xs) = elim (compare x v) [
    | Ordering.lt ↦ x ∷ delete v xs
    | Ordering.eq ↦ xs
    | Ordering.gt ↦ x ∷ xs
  ]
