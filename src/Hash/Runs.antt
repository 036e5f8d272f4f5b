-- ===== src/Hash/Runs.antt =====
-- Sequences of calls of utils/ut_dict.c on a new table, against the association list.
use viabtc_exchange_server.Base.{
  ℕ, ◌^◌, ◌≤◌, ◌≡◌, refl, Bool, false, some, List, [], ◌∷◌, Eq, length,
}
use viabtc_exchange_server.Dict
use viabtc_exchange_server.Dict.{Dict}
use viabtc_exchange_server.Hash.{HashDict, dict_create}
use viabtc_exchange_server.Hash.Room.{Room}
use viabtc_exchange_server.Hash.Refines.{Refines}
use viabtc_exchange_server.Hash.Calls.{dict_create-Refines}
use viabtc_exchange_server.Hash.Sequences.{
  Call, Answer, marked_by, SameAnswers, no_calls, one_more, listed, run_list, run, listed-Unique,
}
use viabtc_exchange_server.Hash.Answers.{CalledAs, called_as, dict_create-id_clear}

module _ {ℓ κ} {K : Type ℓ} {V : Type κ} ⦃e : Eq K⦄ (hash : K → ℕ) where
  -- The result of a run.
  pub record RunsAs (n : ℕ) (marked : Bool) (cs : List (Call K V)) (d : HashDict K V) (m : Dict K V)
      : Type (ℓ ⊔ κ) where
    pub answers : List (Answer V)
    pub dict : HashDict K V
    pub result : run hash cs d ≡ some (answers, dict)
    pub same : SameAnswers marked cs answers (run_list cs m).0
    pub refines : Refines hash dict (run_list cs m).1
    pub room : Room n dict

  run_as :
      (cs : List (Call K V)) (d : HashDict K V) (m : Dict K V) (marked : Bool)
      → Refines hash d m
      → Dict.Unique m
      → Room (length cs) d
      → (marked ≡ false → d.id_clear ≡ 0)
      → RunsAs 0 marked cs d m
  unfolding run run_list
  run_as [] d m marked r u room unmarked = record {
    answers = [];
    dict = d;
    result = refl;
    same = no_calls;
    refines = r;
    room = room;
  }
  run_as (c ∷ cs) d m marked r u room unmarked =
      let x : CalledAs hash (length cs) marked c d m =
        called_as hash c d m (length cs) marked r u room unmarked in
      let y : RunsAs 0 (marked_by c marked) cs x.dict (listed c m).1 =
        run_as cs x.dict (listed c m).1 (marked_by c marked) x.refines (listed-Unique c m u) x.room
          x.unmarked in
      record {
        answers = x.answer ∷ y.answers;
        dict = y.dict;
        result = rw (run, x.result, y.result) refl;
        same = one_more x.same y.same;
        refines = y.refines;
        room = y.room;
      }

  -- A new table, of at most 2^28 slots to begin with, answers every sequence of at most 2^28 calls
  -- of dict_find, dict_add, dict_replace, dict_delete and dict_mark_clear as an empty association
  -- list with distinct keys does, but for one case: behind a mark, dict_delete may answer 1 for a
  -- key that the list does not hold, and it never answers 0 for one that it holds. No call fails
  -- to return, the table ends with the values of the list, and its growth and the collisions of
  -- any hash function do not show.
  pub run-dict_create :
      (size : ℕ) (cs : List (Call K V))
      → size ≤ 2 ^ 28
      → length cs ≤ 2 ^ 28
      → (d : HashDict K V) × ((dict_create hash size ≡ some d) × RunsAs 0 false cs d [])
  run-dict_create size cs h l = go (dict_create-Refines hash size (length cs) h l)
    where
      go :
          (d : HashDict K V) × ((dict_create hash size ≡ some d)
              × (Refines hash d [] × Room (length cs) d))
          → (d : HashDict K V) × ((dict_create hash size ≡ some d) × RunsAs 0 false cs d [])
      go (d, (q, p)) =
          (d, (q, run_as cs d [] false p.0 tt p.1 (λ _. dict_create-id_clear hash size d q)))
