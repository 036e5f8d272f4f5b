-- ===== src/Hash/Tests.antt =====
-- Runs of the hash table of utils/ut_dict.c.
use viabtc_exchange_server.Base.{
  ℕ, ◌+◌, ◌^◌, ◌≡◌, refl, none, some, true, false, List, [], ◌∷◌, arith, nat_eq,
}
use viabtc_exchange_server.Hash.{
  HashDict, dict_generic_hash_function, dict_create, dict_next_power, next_power_loop, dict_find,
  dict_delete, dict_mark_clear, delete_chain, find_chain, at, set_at, check_clear, clear_chain,
}
use viabtc_exchange_server.Dict.{find, store, delete}
use viabtc_exchange_server.Hash.Fnv.{fnv1a, dict_generic_hash_function-fnv1a}
use viabtc_exchange_server.Hash.Grow.{
  IsNextPower, dict_next_power-IsNextPower, next_power_loop-endless,
}
use viabtc_exchange_server.Hash.Sequences.{
  Call, get, put_new, put, remove, forget_all, found, made, put_as, removed, done, run_list, listed,
}
use viabtc_exchange_server.Hash.Runs.{RunsAs, run-dict_create}

abbrev hash : ℕ → ℕ
hash k = dict_generic_hash_function (k ∷ [])

abbrev calls : List (Call ℕ ℕ)
calls =
    put_new 5 50
    ∷ put 7 70
    ∷ put 5 51
    ∷ get 5
    ∷ forget_all
    ∷ get 7
    ∷ put_new 7 71
    ∷ remove 7
    ∷ get 7
    ∷ []

run_list-answers :
    (run_list calls []).0
    ≡ made true
      ∷ put_as 1
      ∷ put_as 0
      ∷ found (some 51)
      ∷ done
      ∷ found none
      ∷ made true
      ∷ removed true
      ∷ found none
      ∷ []
unfolding run_list listed find store delete
run_list-answers = refl

run-dict_create_example :
    (d : HashDict ℕ ℕ) × ((dict_create hash 4 ≡ some d) × RunsAs hash 0 false calls d [])
run-dict_create_example = run-dict_create hash 4 calls (omega arith) (omega arith)

-- An old entry that no search has swept away: dict_delete finds it, dict_find does not.
abbrev old : HashDict ℕ ℕ
old = record {
  table = (record { key = 5; val = 50; id = 0 } ∷ []) ∷ [] ∷ [] ∷ [] ∷ [];
  size = 4;
  mask = 3;
  used = 1;
  id_start = 1;
  id_clear = 0;
}

delete_old : (dict_delete (λ k. 0) (dict_mark_clear old) 5).0 ≡ true
unfolding dict_delete delete_chain at dict_mark_clear
delete_old = refl

find_old : (dict_find (λ k. 0) (dict_mark_clear old) 5).0 ≡ none
unfolding dict_find find_chain at set_at check_clear clear_chain dict_mark_clear
find_old = refl

dict_next_power-IsNextPower_example :
    (n : ℕ) × ((dict_next_power 1000 ≡ some n) × IsNextPower 1000 n)
dict_next_power-IsNextPower_example = dict_next_power-IsNextPower 1000 (omega arith)

next_power_loop-endless_example : next_power_loop 1000 4 (2 ^ 31 + 1) ≡ none
next_power_loop-endless_example = next_power_loop-endless 1000 (2 ^ 31 + 1) (omega arith)

dict_generic_hash_function-fnv1a_example :
    dict_generic_hash_function (97 ∷ 98 ∷ []) ≡ fnv1a 2166136261 (97 ∷ 98 ∷ [])
dict_generic_hash_function-fnv1a_example = dict_generic_hash_function-fnv1a (97 ∷ 98 ∷ [])
