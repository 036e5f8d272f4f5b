-- ===== src/Hash/Answers.antt =====
-- One call of utils/ut_dict.c, on the table and on the association list.
use Prim.Native.Nat.{bit_and}
use viabtc_exchange_server.Base.{
  ℕ, suc, ◌≡◌, inl, inr, refl, ap, sym, ◌∙◌, arith, Bool, false, Option, none, some, Option-cases,
  Bool-cases, Eq,
}
use viabtc_exchange_server.Dict
use viabtc_exchange_server.Dict.{Dict}
use viabtc_exchange_server.Hash.{
  HashDict, dict_find, dict_add, dict_replace, dict_delete, dict_mark_clear, dict_create,
  dict_expand_if_needed, dict_expand, check_clear, add_entry, find_chain, delete_chain, at,
}
use viabtc_exchange_server.Hash.Chains.{live, value, delete_chain-found, delete_chain-live}
use viabtc_exchange_server.Hash.Room.{Room}
use viabtc_exchange_server.Hash.Refines.{Refines, dict_find-Refines}
use viabtc_exchange_server.Hash.Add.{
  add, replace, Returns, fewer, dict_add-Returns, dict_replace-Returns,
}
use viabtc_exchange_server.Hash.Calls.{dict_delete-Refines, dict_mark_clear-Refines}
use viabtc_exchange_server.Hash.Sequences.{
  Call, get, put_new, put, remove, forget_all, Answer, found, made, put_as, removed, marked_by,
  removes, marked_by-false, SameAnswer, held, listed, answer, called,
}

module _ {ℓ κ} {K : Type ℓ} {V : Type κ} ⦃e : Eq K⦄ (hash : K → ℕ) where
  answer-Returns {μ} :
      {A : Type μ} (f : A → Answer V) (n : ℕ) (r : Option (A × HashDict K V)) (s : A × Dict K V)
      → Returns hash n r s
      → Returns hash n (answer f r) (f s.0, s.1)
  answer-Returns f n r s (d, (q, p)) = (d, (ap (answer f) q, p))

  -- A call that returns, with what it leaves.
  pub record CalledAs (n : ℕ) (marked : Bool) (c : Call K V) (d : HashDict K V) (m : Dict K V)
      : Type (ℓ ⊔ κ) where
    pub answer : Answer V
    pub dict : HashDict K V
    pub result : called hash c d ≡ some (answer, dict)
    pub same : SameAnswer marked answer (listed c m).0
    pub refines : Refines hash dict (listed c m).1
    pub room : Room n dict
    pub unmarked : marked_by c marked ≡ false → dict.id_clear ≡ 0

  called-id_clear :
      (c : Call K V) (d : HashDict K V) (r : Answer V × HashDict K V)
      → called hash c d ≡ some r
      → marked_by c false ≡ false
      → r.1.id_clear ≡ d.id_clear
  unfolding called dict_find dict_add dict_replace dict_delete dict_expand_if_needed dict_expand
      check_clear add_entry
  called-id_clear (get k) d r h u = ground (arith, h)
  called-id_clear (put_new k v) d r h u = ground (arith, h)
  called-id_clear (put k v) d r h u = ground (arith, h)
  called-id_clear (remove k) d r h u = ground (arith, h)
  called-id_clear forget_all d r h u = ground (arith, u)

  pub dict_create-id_clear :
      (size : ℕ) (d : HashDict K V) → dict_create hash size ≡ some d → d.id_clear ≡ 0
  unfolding dict_create
  dict_create-id_clear size d h = ground (arith, h)

  returning_call :
      (c : Call K V) (d : HashDict K V) (m : Dict K V) (n : ℕ)
      → Refines hash d m
      → Dict.Unique m
      → Room (suc n) d
      → removes c ≡ false
      → Returns hash n (called hash c d) (listed c m)
  unfolding called listed
  returning_call (get k) d m n r u room h =
      let f : (value (dict_find hash d k).0 ≡ Dict.find k m)
          × (Refines hash (dict_find hash d k).1 m × Room (suc n) (dict_find hash d k).1) =
        dict_find-Refines hash d m (suc n) k r room in
      (
        (dict_find hash d k).1,
        (
          ap (λ o. some (found o, (dict_find hash d k).1)) f.0,
          (f.1.0, fewer hash (dict_find hash d k).1 n f.1.1),
        ),
      )
  returning_call (put_new k v) d m n r u room h =
      answer-Returns made n (dict_add hash d k v) (add k v m)
        (dict_add-Returns hash d m n k v r room)
  returning_call (put k v) d m n r u room h =
      answer-Returns put_as n (dict_replace hash d k v) (replace k v m)
        (dict_replace-Returns hash d m n k v r room)
  returning_call (remove k) d m n r u room h = ground (arith, h)
  returning_call forget_all d m n r u room h =
      (dict_mark_clear d, (refl, dict_mark_clear-Refines hash d m n r room))

  -- What dict_delete answers.
  removed_as :
      (d : HashDict K V) (m : Dict K V) (k : K) (marked : Bool)
      → Refines hash d m
      → (marked ≡ false → d.id_clear ≡ 0)
      → SameAnswer {V = V} marked
          (removed (dict_delete hash d k).0)
          (removed (held (Dict.find k m)))
  unfolding dict_delete
  removed_as d m k marked r unmarked =
      elim (Bool-cases (delete_chain k (at (bit_and (hash k) d.mask) d.table)).0) [
        | inl y ↦ elim (Option-cases (Dict.find k m)) [
          | inl missing ↦ elim (Bool-cases marked) [
            | inl was ↦ rw (y, missing) (inr (was, (refl, refl)))
            | inr never ↦
                let dead : value
                      (live d.id_clear (find_chain k (at (bit_and (hash k) d.mask) d.table)))
                    ≡ none =
                  r.same k ∙ missing in
                absurd (
                  delete_chain-live k (at (bit_and (hash k) d.mask) d.table) y (
                    ap (λ i. value (live i (find_chain k (at (bit_and (hash k) d.mask) d.table))))
                      (sym (unmarked never))
                    ∙ dead))
          ]
          | inr (v, q) ↦ rw (y, q) (inl refl)
        ]
        | inr f ↦
            let missing : Dict.find k m ≡ none =
              sym (r.same k)
              ∙ ap (λ o. value (live d.id_clear o))
                  (delete_chain-found k (at (bit_and (hash k) d.mask) d.table) f) in
            rw (f, missing) (inl refl)
      ]

  returned_as :
      (c : Call K V) (d : HashDict K V) (m : Dict K V) (n : ℕ) (marked : Bool)
      → (marked ≡ false → d.id_clear ≡ 0)
      → Returns hash n (called hash c d) (listed c m)
      → CalledAs n marked c d m
  returned_as c d m n marked unmarked (d2, (q, p)) = record {
    answer = (listed c m).0;
    dict = d2;
    result = q;
    same = inl refl;
    refines = p.0;
    room = p.1;
    unmarked = λ z.
        let b : (marked ≡ false) × (marked_by c false ≡ false) = marked_by-false c marked z in
        called-id_clear c d ((listed c m).0, d2) q b.1 ∙ unmarked b.0;
  }

  pub called_as :
      (c : Call K V) (d : HashDict K V) (m : Dict K V) (n : ℕ) (marked : Bool)
      → Refines hash d m
      → Dict.Unique m
      → Room (suc n) d
      → (marked ≡ false → d.id_clear ≡ 0)
      → CalledAs n marked c d m
  unfolding called listed
  called_as (get k) d m n marked r u room unmarked =
      returned_as (get k) d m n marked unmarked (returning_call (get k) d m n r u room refl)
  called_as (put_new k v) d m n marked r u room unmarked =
      returned_as (put_new k v) d m n marked unmarked
        (returning_call (put_new k v) d m n r u room refl)
  called_as (put k v) d m n marked r u room unmarked =
      returned_as (put k v) d m n marked unmarked (returning_call (put k v) d m n r u room refl)
  called_as forget_all d m n marked r u room unmarked =
      returned_as forget_all d m n marked unmarked (returning_call forget_all d m n r u room refl)
  called_as (remove k) d m n marked r u room unmarked =
      let p : Refines hash (dict_delete hash d k).1 (Dict.delete k m)
          × Room n (dict_delete hash d k).1 =
        dict_delete-Refines hash d m n k r u (fewer hash d n room) in
      let q : called hash (remove k) d
          ≡ some (removed (dict_delete hash d k).0, (dict_delete hash d k).1) =
        refl in
      record {
        answer = removed (dict_delete hash d k).0;
        dict = (dict_delete hash d k).1;
        result = q;
        same = removed_as d m k marked r unmarked;
        refines = p.0;
        room = p.1;
        unmarked = λ z.
            called-id_clear (remove k) d
              (removed (dict_delete hash d k).0, (dict_delete hash d k).1) q refl
            ∙ unmarked z;
      }
