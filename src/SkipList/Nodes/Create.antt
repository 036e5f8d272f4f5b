-- ===== src/SkipList/Nodes/Create.antt =====
-- skiplist_create and skiplist_random_level of utils/ut_skiplist.c.
use Prim.Native.Nat.{Ordering}
use viabtc_exchange_server.Base.{ℕ, ◌+◌, ◌≤◌, refl, Bool, true, false, List, [], ◌∷◌, arith}
use viabtc_exchange_server.SkipList.Nodes.{
  max_level, skiplist_create, skiplist_random_level, level_loop,
}
use viabtc_exchange_server.SkipList.Nodes.Invariant.{IsSkipList}

pub skiplist_create-IsSkipList {ℓ} :
    {A : Type ℓ} (compare : A → A → Ordering) → IsSkipList compare (skiplist_create {A = A}) []
unfolding skiplist_create
skiplist_create-IsSkipList compare = record {
  header = λ i h. refl;
  no_value = refl;
  chain = tt;
  sorted = tt;
  distinct = tt;
  numbers = tt;
  heights = tt;
  levels = (omega arith, omega arith);
  first = omega arith;
  counted = refl;
}

level_loop-bounds :
    (draws : List Bool) (level : ℕ)
    → 1 ≤ level
    → (1 ≤ level_loop draws level) × (level_loop draws level ≤ max_level)
unfolding level_loop
level_loop-bounds [] level h = ground (arith, h)
level_loop-bounds (true ∷ rest) level h = level_loop-bounds rest (level + 1) (omega (arith, h))
level_loop-bounds (false ∷ rest) level h = ground (arith, h)

-- A random level is between 1 and 16, whatever is drawn.
pub skiplist_random_level-bounds :
    (draws : List Bool)
    → (1 ≤ skiplist_random_level draws) × (skiplist_random_level draws ≤ max_level)
skiplist_random_level-bounds draws = level_loop-bounds draws 1 (omega arith)
