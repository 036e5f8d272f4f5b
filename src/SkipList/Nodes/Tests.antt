-- ===== src/SkipList/Nodes/Tests.antt =====
-- Skip lists of numbers, with the theorems on utils/ut_skiplist.c at them.
use Prim.Native.Nat.{compare}
use viabtc_exchange_server.Base.{ℕ, ◌≤◌, ◌≡◌, refl, true, false, Option, some, [], ◌∷◌, arith}
use viabtc_exchange_server.SkipList
use viabtc_exchange_server.SkipList.{is_le}
use viabtc_exchange_server.SkipList.Nodes.{
  Nodes, max_level, skiplist_create, skiplist_find, skiplist_insert, skiplist_delete, insert_node,
  skiplist_random_level, search, walk, link, set_forward, update_at, raise,
}
use viabtc_exchange_server.SkipList.Nodes.Links.{Item}
use viabtc_exchange_server.SkipList.Nodes.Find.{pointed, skiplist_find-find}
use viabtc_exchange_server.SkipList.Nodes.Insertion.{
  Inserts, insert_node-IsSkipList, skiplist_insert-Inserts,
}
use viabtc_exchange_server.SkipList.Nodes.Deletion.{skiplist_delete-delete}
use viabtc_exchange_server.SkipList.Nodes.Create.{
  skiplist_create-IsSkipList, skiplist_random_level-bounds,
}
use viabtc_exchange_server.SkipList.Nodes.Invariant.{IsOrder, IsSkipList, values}

numbers : IsOrder compare
numbers = record {
  lt_le = λ x y z h l. ground (arith, h, l);
  flip = λ x y h. ground (arith, h);
  same = λ x. ground arith;
}

abbrev five : Item ℕ
five = record { id = 1; val = 5; height = 2 }

-- 5 on two levels, in an empty list.
abbrev with_five : Nodes ℕ
with_five = insert_node compare skiplist_create 5 2 (λ l. 0)

with_five-IsSkipList : IsSkipList compare with_five (five ∷ [])
unfolding skiplist_create
with_five-IsSkipList =
    insert_node-IsSkipList compare numbers skiplist_create 5 2 (λ l. 0) [] []
      (skiplist_create-IsSkipList compare) (omega arith, omega arith) (λ l. refl) tt tt

found_five : skiplist_find compare with_five 5 ≡ some (some 1)
unfolding skiplist_find insert_node search skiplist_create walk link set_forward update_at raise
found_five = refl

skiplist_find-find_example :
    (p : Option ℕ) × ((skiplist_find compare with_five 7 ≡ some p)
      × (pointed compare with_five p ≡ SkipList.find compare 7 (values (five ∷ []))))
skiplist_find-find_example =
    skiplist_find-find compare with_five 7 (five ∷ []) numbers with_five-IsSkipList

skiplist_insert-Inserts_example :
    (r : Option (Nodes ℕ)) × ((skiplist_insert compare with_five 3 4 ≡ some r)
      × Inserts compare numbers 3 (five ∷ []) r)
skiplist_insert-Inserts_example =
    skiplist_insert-Inserts compare numbers with_five 3 4 (five ∷ []) with_five-IsSkipList
      (omega arith, omega arith)

skiplist_delete-delete_example :
    (d : Nodes ℕ) × ((skiplist_delete compare with_five 1 ≡ some d)
      × (IsSkipList compare d []
          × (values {A = ℕ} [] ≡ SkipList.delete compare 5 (values (five ∷ [])))))
skiplist_delete-delete_example =
    skiplist_delete-delete compare numbers with_five five [] [] with_five-IsSkipList

skiplist_random_level-bounds_example :
    (1 ≤ skiplist_random_level (true ∷ true ∷ false ∷ []))
    × (skiplist_random_level (true ∷ true ∷ false ∷ []) ≤ max_level)
skiplist_random_level-bounds_example = skiplist_random_level-bounds (true ∷ true ∷ false ∷ [])
