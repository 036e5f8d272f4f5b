-- ===== src/Hash/Calls.antt =====
-- dict_delete, dict_mark_clear and dict_create of utils/ut_dict.c, and sequences of calls, against the
-- association list of Dict.
use Prim.Native.Nat.{bit_and}
use viabtc_exchange_server.Base.{
  ℕ, zero, suc, ◌+◌, ◌^◌, ◌≤◌, ◌≡◌, inl, inr, refl, ap, sym, ◌∙◌, subst, none, some, List, [], ◌∷◌,
  arith, Bool-cases, if◌then◌else◌, Eq, length, All,
}
use viabtc_exchange_server.Dict
use viabtc_exchange_server.Dict.{Dict}
use viabtc_exchange_server.Hash.{
  Entry, HashDict, at, u64, find_chain, delete_chain, dict_delete, dict_mark_clear, dict_create,
  dict_next_power, empty_table, pred_u32,
}
use viabtc_exchange_server.Hash.Slots.{at-empty_table}
use viabtc_exchange_server.Hash.Chains.{
  live, value, find-delete_chain, length-delete_chain, delete_chain-found, delete_chain-Unique,
  delete_chain-All,
}
use viabtc_exchange_server.Hash.Invariant.{
  later-IsHashDict, InSlot, IsChain, IsHashDict, entry, slot-IsChain, chain-used, set_at-IsHashDict,
  entry-set_at,
}
use viabtc_exchange_server.Hash.Find.{lookup}
use viabtc_exchange_server.Hash.Expand.{empty-IsHashDict}
use viabtc_exchange_server.Hash.Grow.{IsNextPower, dict_next_power-IsNextPower}
use viabtc_exchange_server.Hash.Room.{Room}
use viabtc_exchange_server.Hash.Refines.{Refines}

module _ {ℓ κ} {K : Type ℓ} {V : Type κ} ⦃e : Eq K⦄ (hash : K → ℕ) where
  deleted_value :
      (j k : K) (d : HashDict K V) (m : Dict K V)
      → Dict.Unique m
      → lookup hash d j ≡ Dict.find j m
      → value (live d.id_clear (if e.beq j k then none else entry hash d j))
        ≡ Dict.find j (Dict.delete k m)
  deleted_value j k d m u h = elim (Bool-cases (e.beq j k)) [
    | inl y ↦ rw (Dict.find-delete j k m u, y) refl
    | inr n ↦ rw (Dict.find-delete j k m u, n) h
  ]

  -- The entry goes, also one from before the last mark; without one nothing changes.
  pub dict_delete-Refines :
      (d : HashDict K V) (m : Dict K V) (n : ℕ) (k : K)
      → Refines hash d m
      → Dict.Unique m
      → Room n d
      → Refines hash (dict_delete hash d k).1 (Dict.delete k m) × Room n (dict_delete hash d k).1
  unfolding dict_delete
  dict_delete-Refines d m n k r u room =
      let g : IsHashDict hash d = r.is_hash_dict in
      let s : ℕ = bit_and (hash k) d.mask in
      let c : List (Entry K V) = at s d.table in
      let ch : IsChain hash d.mask d.id_start s c = slot-IsChain hash k d g in
      let size : length c ≡ (
          if (delete_chain k c).0
          then suc (length (delete_chain k c).1)
          else length (delete_chain k c).1) =
        length-delete_chain k c in
      elim (Bool-cases (delete_chain k c).0) [
        | inl y ↦
            let one : length c ≡ suc (length (delete_chain k c).1) = ground (arith, size, y) in
            let less : suc (pred_u32 d.used) ≡ d.used =
              ground (arith, one, chain-used hash k d g) in
            rw y (
              record {
                is_hash_dict =
                    set_at-IsHashDict hash k (delete_chain k c).1 (pred_u32 d.used) d g
                      (
                        delete_chain-All (InSlot hash d.mask d.id_start s) k c ch.0,
                        delete_chain-Unique k c ch.1,
                      )
                      (omega (arith, one, less));
                same = λ j.
                    ap (λ o. value (live d.id_clear o))
                      (entry-set_at hash j k (delete_chain k c).1 none (pred_u32 d.used) d g
                        (find-delete_chain j k c ch.1))
                    ∙ deleted_value j k d m u (r.same j);
              },
              record { size = room.size; used = omega (arith, room.used, less); ids = room.ids },
            )
        | inr f ↦
            let missing : Dict.find k m ≡ none =
              sym (r.same k) ∙ ap (λ o. value (live d.id_clear o)) (delete_chain-found k c f) in
            rw (f, Dict.delete_missing k m missing) (r, room)
      ]

  -- A mark forgets all entries at once.
  pub dict_mark_clear-Refines :
      (d : HashDict K V) (m : Dict K V) (n : ℕ)
      → Refines hash d m
      → Room (suc n) d
      → Refines hash (dict_mark_clear d) [] × Room n (dict_mark_clear d)
  unfolding dict_mark_clear Dict.find find_chain
  dict_mark_clear-Refines d m n r room =
      let ids : suc d.id_start ≡ u64 (d.id_start + 1) = omega (arith, room.ids) in
      (
        record {
          is_hash_dict =
              subst (λ i. IsHashDict hash (record d { id_start = i; id_clear = d.id_start })) ids
                (later-IsHashDict hash (suc d.id_start) d.id_start d r.is_hash_dict (omega arith)
                  (omega arith));
          same = λ j.
              forgotten j (at (bit_and (hash j) d.mask) d.table)
                (slot-IsChain hash j d r.is_hash_dict).0;
        },
        record { size = room.size; used = omega (arith, room.used); ids = omega (arith, room.ids) },
      )
    where
      forgotten :
          (j : K) (c : List (Entry K V))
          → All (InSlot hash d.mask d.id_start (bit_and (hash j) d.mask)) c
          → value (live d.id_start (find_chain j c)) ≡ none
      forgotten j [] a = refl
      forgotten j (x ∷ xs) a = ground (arith, forgotten j xs a.1, a.0.1)

  pub dict_create-Refines :
      (size n : ℕ)
      → size ≤ 2 ^ 28
      → n ≤ 2 ^ 28
      → (d : HashDict K V) × ((dict_create hash size ≡ some d) × (Refines hash d [] × Room n d))
  unfolding dict_create Dict.find find_chain
  dict_create-Refines size n h l = go (dict_next_power-IsNextPower size (omega (arith, h)))
    where
      go :
          (p : ℕ) × ((dict_next_power size ≡ some p) × IsNextPower size p)
          → (d : HashDict K V) × ((dict_create hash size ≡ some d) × (Refines hash d [] × Room n d))
      go (zero, (q, p)) = ground (arith, p.four)
      go (suc p, (q, s)) =
          let d : HashDict K V = record {
            table = empty_table (suc p);
            size = suc p;
            mask = p;
            used = 0;
            id_start = 0;
            id_clear = 0;
          } in
          (
            d,
            (
              rw (q, dict_create) refl,
              (
                record {
                  is_hash_dict = empty-IsHashDict hash p 0 0 (omega arith);
                  same = λ k.
                      ap (λ c. value (live 0 (find_chain k c)))
                        (at-empty_table (Entry K V) (bit_and (hash k) p) (suc p));
                },
                record {
                  size = ground (arith, s.least, h);
                  used = omega (arith, l);
                  ids = omega (arith, l);
                },
              ),
            ),
          )
