-- ===== src/Hash/Refines.antt =====
-- The hash table of utils/ut_dict.c against the association list of Dict: each call gives what the
-- list gives, as long as the counters have room.
use viabtc_exchange_server.Base.{
  ℕ, suc, ◌+◌, ◌≤◌, ◌≡◌, inl, inr, ap, ◌∙◌, subst, none, some, ◌∷◌, arith, Bool-cases,
  if◌then◌else◌, Eq,
}
use viabtc_exchange_server.Dict
use viabtc_exchange_server.Dict.{Dict}
use viabtc_exchange_server.Hash.{Entry, HashDict, u32, u64, push, add_entry, dict_find}
use viabtc_exchange_server.Hash.Chains.{live, value}
use viabtc_exchange_server.Hash.Invariant.{later-IsHashDict, IsHashDict, entry}
use viabtc_exchange_server.Hash.Find.{lookup, Swept, dict_find-Swept, dict_find-entry}
use viabtc_exchange_server.Hash.Rehash.{with_table, push-IsHashDict, entry-push}
use viabtc_exchange_server.Hash.Room.{Room}

module _ {ℓ κ} {K : Type ℓ} {V : Type κ} ⦃e : Eq K⦄ (hash : K → ℕ) where
  -- The table holds for each key what the list holds.
  pub record Refines (d : HashDict K V) (m : Dict K V) : Type (ℓ ⊔ κ) where
    pub is_hash_dict : IsHashDict hash d
    pub same : (k : K) → lookup hash d k ≡ Dict.find k m

  pub dict_find-Refines :
      (d : HashDict K V) (m : Dict K V) (n : ℕ) (k : K)
      → Refines d m
      → Room n d
      → (value (dict_find hash d k).0 ≡ Dict.find k m)
        × (Refines (dict_find hash d k).1 m × Room n (dict_find hash d k).1)
  dict_find-Refines d m n k r room =
      let s : Swept hash d (dict_find hash d k).1 k = dict_find-Swept hash d k r.is_hash_dict in
      (
        ap value (dict_find-entry hash d k ∙ s.fresh) ∙ r.same k,
        (
          record { is_hash_dict = s.is_hash_dict; same = λ j. s.same j ∙ r.same j },
          record {
            size = omega (arith, s.size, room.size);
            used = omega (arith, s.used, room.used);
            ids = omega (arith, s.id_start, room.ids);
          },
        ),
      )

  new_value :
      (j k : K) (v : V) (d : HashDict K V) (m : Dict K V)
      → d.id_clear ≤ d.id_start
      → lookup hash d j ≡ Dict.find j m
      → value (
          live d.id_clear (
            if e.beq j k
            then some (record { key = k; val = v; id = d.id_start })
            else entry hash d j))
        ≡ Dict.find j ((k, v) ∷ m)
  unfolding Dict.find
  new_value j k v d m old h = elim (Bool-cases (e.beq j k)) [
    | inl y ↦ rw y (ground (arith, old))
    | inr n ↦ rw n h
  ]

  -- A new entry for a key that has none, behind the search.
  pub add_entry-Refines :
      (d : HashDict K V) (m : Dict K V) (n : ℕ) (k : K) (v : V)
      → Refines d m
      → Room (suc n) d
      → entry hash d k ≡ none
      → Refines (add_entry hash d k v) ((k, v) ∷ m) × Room n (add_entry hash d k v)
  unfolding add_entry
  add_entry-Refines d m n k v r room h =
      let g : IsHashDict hash d = r.is_hash_dict in
      let x : Entry K V = record { key = k; val = v; id = d.id_start } in
      let d1 : HashDict K V = record d { id_start = suc d.id_start } in
      let g1 : IsHashDict hash d1 =
        later-IsHashDict hash (suc d.id_start) d.id_clear d g (omega arith)
          (omega (arith, g.marked)) in
      let used : suc d.used ≡ u32 (d.used + 1) = omega (arith, room.used) in
      let ids : suc d.id_start ≡ u64 (d.id_start + 1) = omega (arith, room.ids) in
      (
        record {
          is_hash_dict =
              subst
                (λ i. IsHashDict hash (record d {
                  table = push hash d.mask x d.table;
                  used = u32 (d.used + 1);
                  id_start = i;
                }))
                ids
                (subst (λ u. IsHashDict hash (with_table d1 (push hash d.mask x d.table) u)) used
                  (push-IsHashDict hash x d1 g1 (omega arith) h));
          same = λ j.
              ap (λ o. value (live d.id_clear o)) (entry-push hash j x d g)
              ∙ new_value j k v d m g.marked (r.same j);
        },
        record { size = room.size; used = omega (arith, room.used); ids = omega (arith, room.ids) },
      )
