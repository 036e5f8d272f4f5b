-- ===== src/Hash/Add.antt =====
-- dict_add and dict_replace of utils/ut_dict.c against the association list of Dict.
use Prim.Native.Nat.{bit_and}
use viabtc_exchange_server.Base.{
  ℕ, suc, ◌≤◌, ◌≡◌, inl, inr, refl, ap, sym, ◌∙◌, subst, Bool, true, false, Option, none, some,
  List, ◌∷◌, arith, Bool-cases, Option-cases, if◌then◌else◌, Eq,
}
use viabtc_exchange_server.Dict
use viabtc_exchange_server.Dict.{Dict}
use viabtc_exchange_server.Hash.{
  Entry, HashDict, at, set_at, write_chain, add_entry, dict_find, dict_add, dict_replace,
  dict_expand_if_needed,
}
use viabtc_exchange_server.Hash.Chains.{
  live, value, write_chain-All, write_chain-Unique, find-write_chain, length-write_chain,
}
use viabtc_exchange_server.Hash.Invariant.{
  InSlot, IsChain, IsHashDict, entry, slot-IsChain, set_at-IsHashDict, entry-set_at,
}
use viabtc_exchange_server.Hash.Find.{lookup, Swept, dict_find-Swept, dict_find-entry}
use viabtc_exchange_server.Hash.Room.{Room, Grown, dict_expand_if_needed-Grown}
use viabtc_exchange_server.Hash.Refines.{Refines, dict_find-Refines, add_entry-Refines}

-- What the two calls do to the list.
abbrev pub add {ℓ κ} : {K : Type ℓ} {V : Type κ} ⦃e : Eq K⦄ → K → V → Dict K V → Bool × Dict K V
add k v m = elim (Dict.find k m) [ none ↦ (true, (k, v) ∷ m) | some w ↦ (false, m) ]

abbrev pub replace {ℓ κ} : {K : Type ℓ} {V : Type κ} ⦃e : Eq K⦄ → K → V → Dict K V → ℕ × Dict K V
replace k v m = elim (Dict.find k m) [ none ↦ (1, (k, v) ∷ m) | some w ↦ (0, Dict.store k v m) ]

module _ {ℓ κ} {K : Type ℓ} {V : Type κ} ⦃e : Eq K⦄ (hash : K → ℕ) where
  -- A call returned an answer with a table that holds the list and has room for `n` calls.
  abbrev pub Returns {μ} :
      {A : Type μ} → ℕ → Option (A × HashDict K V) → A × Dict K V → Type (ℓ ⊔ κ ⊔ μ)
  Returns n r s = (d : HashDict K V) × ((r ≡ some (s.0, d)) × (Refines hash d s.1 × Room n d))

  pub fewer : (d : HashDict K V) (n : ℕ) → Room (suc n) d → Room n d
  fewer d n r = record { size = r.size; used = omega (arith, r.used); ids = omega (arith, r.ids) }

  value_none : (o : Option (Entry K V)) → value o ≡ none → o ≡ none
  value_none none h = refl
  value_none (some x) h = ground (arith, h)

  grown_add :
      (d : HashDict K V) (m : Dict K V) (n : ℕ) (k : K) (v : V)
      → Refines hash d m
      → Room (suc n) d
      → entry hash d k ≡ none
      → Returns n
          (elim (dict_expand_if_needed hash d) as (λ _. Option (Bool × HashDict K V)) [
            | none ↦ none
            | some grown ↦ some (true, add_entry hash grown k v)
          ])
          (true, (k, v) ∷ m)
  grown_add d m n k v r room h = go (dict_expand_if_needed-Grown hash d (suc n) r.is_hash_dict room)
    where
      go :
          (d2 : HashDict K V) × ((dict_expand_if_needed hash d ≡ some d2)
              × (((size : ℕ) × Grown hash size d d2) × Room (suc n) d2))
          → Returns n
              (elim (dict_expand_if_needed hash d) as (λ _. Option (Bool × HashDict K V)) [
                | none ↦ none
                | some grown ↦ some (true, add_entry hash grown k v)
              ])
              (true, (k, v) ∷ m)
      go (d2, (q, ((size, p), room2))) =
          let r2 : Refines hash d2 m = record {
            is_hash_dict = p.is_hash_dict;
            same = λ j. rw (p.same j, p.id_clear) (r.same j);
          } in
          (
            add_entry hash d2 k v,
            (rw q refl, add_entry-Refines hash d2 m n k v r2 room2 (p.same k ∙ h)),
          )

  pub dict_add-Returns :
      (d : HashDict K V) (m : Dict K V) (n : ℕ) (k : K) (v : V)
      → Refines hash d m
      → Room (suc n) d
      → Returns n (dict_add hash d k v) (add k v m)
  unfolding dict_add
  dict_add-Returns d m n k v r room =
      let f : (value (dict_find hash d k).0 ≡ Dict.find k m)
          × (Refines hash (dict_find hash d k).1 m × Room (suc n) (dict_find hash d k).1) =
        dict_find-Refines hash d m (suc n) k r room in
      elim (Option-cases (dict_find hash d k).0) [
        | inl q ↦
            rw (q, sym f.0 ∙ ap value q, dict_add, add)
              (grown_add (dict_find hash d k).1 m n k v f.1.0 f.1.1
                (sym (dict_find-entry hash d k) ∙ q))
        | inr (x, q) ↦
            rw (q, sym f.0 ∙ ap value q, dict_add, add)
              ((dict_find hash d k).1, (refl, (f.1.0, fewer (dict_find hash d k).1 n f.1.1)))
      ]

  stored :
      (j k : K) (v : V) (x : Entry K V) (d : HashDict K V) (m : Dict K V)
      → entry hash d k ≡ some x
      → d.id_clear ≤ x.id
      → lookup hash d j ≡ Dict.find j m
      → lookup hash d k ≡ Dict.find k m
      → value (live d.id_clear (if e.beq j k then some (record x { val = v }) else entry hash d j))
        ≡ Dict.find j (Dict.store k v m)
  stored j k v x d m h l hj hk =
      let kept : (y : Entry K V) → y.id ≡ x.id → value (live d.id_clear (some y)) ≡ some y.val =
        λ y i. ground (arith, l, i) in
      let held : Dict.find k m ≡ some x.val =
        sym hk ∙ ap (λ o. value (live d.id_clear o)) h ∙ kept x refl in
      elim (Bool-cases (e.beq j k)) [
        | inl y ↦ rw (Dict.find-store j k v x.val m held, y) (kept (record x { val = v }) refl)
        | inr n ↦ rw (Dict.find-store j k v x.val m held, n) hj
      ]

  live_fresh : (n : ℕ) (o : Option (Entry K V)) (x : Entry K V) → live n o ≡ some x → n ≤ x.id
  live_fresh n none x h = ground (arith, h)
  live_fresh n (some y) x h = ground (arith, h)

  -- A new value at the entry of a key.
  write-Refines :
      (d : HashDict K V) (m : Dict K V) (k : K) (v : V) (x : Entry K V)
      → Refines hash d m
      → entry hash d k ≡ some x
      → d.id_clear ≤ x.id
      → Refines hash
          (record d {
            table =
                set_at
                  (bit_and (hash k) d.mask)
                  (write_chain k v (at (bit_and (hash k) d.mask) d.table))
                  d.table;
          })
          (Dict.store k v m)
  write-Refines d m k v x r h l =
      let g : IsHashDict hash d = r.is_hash_dict in
      let s : ℕ = bit_and (hash k) d.mask in
      let c : List (Entry K V) = at s d.table in
      let ch : IsChain hash d.mask d.id_start s c = slot-IsChain hash k d g in
      record {
        is_hash_dict =
            set_at-IsHashDict hash k (write_chain k v c) d.used d g
              (
                write_chain-All (InSlot hash d.mask d.id_start s) k v c (λ y p. p) ch.0,
                write_chain-Unique k v c ch.1,
              )
              (omega (arith, length-write_chain k v c));
        same = λ j.
            ap (λ o. value (live d.id_clear o))
              (entry-set_at hash j k (write_chain k v c) (some (record x { val = v })) d.used d g
                (find-write_chain j k v x c h))
            ∙ stored j k v x d m h l (r.same j) (r.same k);
      }

  added :
      (d : HashDict K V) (m m2 : Dict K V) (n : ℕ) (k : K) (v : V)
      → Returns n (dict_add hash d k v) (true, m2)
      → Returns n
          (elim (dict_add hash d k v) as (λ _. Option (ℕ × HashDict K V)) [
            | none ↦ none
            | some r ↦ some (1, r.1)
          ])
          (1, m2)
  added d m m2 n k v (d2, (q, p)) = (d2, (rw q refl, p))

  pub dict_replace-Returns :
      (d : HashDict K V) (m : Dict K V) (n : ℕ) (k : K) (v : V)
      → Refines hash d m
      → Room (suc n) d
      → Returns n (dict_replace hash d k v) (replace k v m)
  unfolding dict_replace
  dict_replace-Returns d m n k v r room =
      let d2 : HashDict K V = (dict_find hash d k).1 in
      let s : Swept hash d d2 k = dict_find-Swept hash d k r.is_hash_dict in
      let f : (value (dict_find hash d k).0 ≡ Dict.find k m)
          × (Refines hash d2 m × Room (suc n) d2) =
        dict_find-Refines hash d m (suc n) k r room in
      elim (Option-cases (dict_find hash d k).0) [
        | inl q ↦
            let missing : Dict.find k m ≡ none = sym f.0 ∙ ap value q in
            let made : add k v m ≡ (true, (k, v) ∷ m) = rw (missing, add) refl in
            rw (q, missing, dict_replace, replace)
              (added d2 m ((k, v) ∷ m) n k v (
                subst (Returns n (dict_add hash d2 k v)) made
                  (dict_add-Returns d2 m n k v f.1.0 f.1.1)))
        | inr (x, q) ↦
            let at_k : entry hash d2 k ≡ some x = sym (dict_find-entry hash d k) ∙ q in
            let after : d.id_clear ≤ x.id =
              live_fresh d.id_clear (entry hash d k) x (sym s.fresh ∙ at_k) in
            rw (q, sym f.0 ∙ ap value q, dict_replace, replace)
              (
                record d2 {
                  table =
                      set_at (bit_and (hash k) d2.mask)
                        (write_chain k v (at (bit_and (hash k) d2.mask) d2.table)) d2.table;
                },
                (
                  refl,
                  (
                    write-Refines d2 m k v x f.1.0 at_k (omega (arith, after, s.id_clear)),
                    record {
                      size = f.1.1.size;
                      used = omega (arith, f.1.1.used);
                      ids = omega (arith, f.1.1.ids);
                    },
                  ),
                ),
              )
      ]
