-- ===== src/Hash/Find.antt =====
-- dict_find of utils/ut_dict.c with its check_clear, and dict_mark_clear.
use Prim.Native.Nat.{bit_and}
use viabtc_exchange_server.Base.{
  ℕ, ◌+◌, ◌≤◌, ◌≡◌, inl, inr, refl, ap, subst, sym, false, Option, none, some, List, arith, ltb,
  ◌==◌, ==_iff, Bool-cases, if◌then◌else◌, Eq, length,
}
use viabtc_exchange_server.Hash.{
  Entry, HashDict, at, clear_chain, check_clear, find_chain, dict_find,
}
use viabtc_exchange_server.Hash.Slots.{at-set_at}
use viabtc_exchange_server.Hash.Chains.{
  live, value, find-clear_chain, clear_chain-Unique, clear_chain-All, clear_chain-used,
  clear_chain-le,
}
use viabtc_exchange_server.Hash.Invariant.{
  InSlot, IsChain, IsHashDict, slot-lt, slot-IsChain, chain-used, set_at-IsHashDict, entry,
}

module _ {ℓ κ} {K : Type ℓ} {V : Type κ} ⦃e : Eq K⦄ (hash : K → ℕ) where
  -- What a dictionary holds for a key: entries from before the last mark do not count.
  abbrev pub lookup : HashDict K V → K → Option V
  lookup d k = value (live d.id_clear (entry hash d k))

  live-live : (i : ℕ) (o : Option (Entry K V)) → live i (live i o) ≡ live i o
  live-live i none = refl
  live-live i (some x) = ground arith

  pub live_zero : (o : Option (Entry K V)) → live 0 o ≡ o
  live_zero none = refl
  live_zero (some x) = ground arith

  swept_slot :
      (j : K) (n i s : ℕ) (c b r : List (Entry K V))
      → (i ≡ s → r ≡ b)
      → find_chain j c ≡ live n (find_chain j b)
      → live n (find_chain j (if i == s then c else r)) ≡ live n (find_chain j r)
  swept_slot j n i s c b r same h = elim (Bool-cases (i == s)) [
    | inl y ↦ rw (y, same ((==_iff i s).0 y), h) (live-live n (find_chain j b))
    | inr m ↦ rw m refl
  ]

  -- What dict_find leaves: the same dictionary for its users, with no old entry in the key's chain.
  pub record Swept (d d2 : HashDict K V) (k : K) : Type (ℓ ⊔ κ) where
    pub is_hash_dict : IsHashDict hash d2
    pub same : (j : K) → lookup d2 j ≡ lookup d j
    pub fresh : entry hash d2 k ≡ live d.id_clear (entry hash d k)
    pub mask : d2.mask ≡ d.mask
    pub size : d2.size ≡ d.size
    pub id_start : d2.id_start ≡ d.id_start
    pub id_clear : d2.id_clear ≡ d.id_clear
    pub used : d2.used ≤ d.used

  check_clear-Swept :
      (d : HashDict K V) (k : K)
      → IsHashDict hash d
      → Swept d (check_clear d (bit_and (hash k) d.mask)) k
  unfolding check_clear
  check_clear-Swept d k g =
      let s : ℕ = bit_and (hash k) d.mask in
      let c : List (Entry K V) = at s d.table in
      let h : IsChain hash d.mask d.id_start s c = slot-IsChain hash k d g in
      let kept : ℕ × List (Entry K V) = clear_chain d.id_clear c d.used in
      let u : kept.0 + length c ≡ d.used + length kept.1 =
        clear_chain-used d.id_clear c d.used (chain-used hash k d g) in
      record {
        is_hash_dict =
            set_at-IsHashDict hash k kept.1 kept.0 d g
              (
                clear_chain-All (InSlot hash d.mask d.id_start s) d.id_clear c d.used h.0,
                clear_chain-Unique d.id_clear c d.used h.1,
              )
              u;
        same = λ j. ap value (
            rw (at-set_at (bit_and (hash j) d.mask) s kept.1 d.table (slot-lt hash k d g)) (
              swept_slot j d.id_clear (bit_and (hash j) d.mask) s kept.1 c
                (at (bit_and (hash j) d.mask) d.table) (ap (λ i. at i d.table))
                (find-clear_chain j d.id_clear c d.used h.1)));
        fresh =
            rw (at-set_at s s kept.1 d.table (slot-lt hash k d g), (==_iff s s).1 refl)
              (find-clear_chain k d.id_clear c d.used h.1);
        mask = refl;
        size = refl;
        id_start = refl;
        id_clear = refl;
        used = clear_chain-le d.id_clear c d.used (chain-used hash k d g);
      }

  pub dict_find-Swept :
      (d : HashDict K V) (k : K) → IsHashDict hash d → Swept d (dict_find hash d k).1 k
  unfolding dict_find
  dict_find-Swept d k g = elim (Bool-cases (ltb 0 d.id_clear)) [
    | inl y ↦ rw y (check_clear-Swept d k g)
    | inr n ↦ rw n (record {
      is_hash_dict = g;
      same = λ j. refl;
      fresh = sym (
          subst (λ i. live i (entry hash d k) ≡ entry hash d k) (zero_clear n)
            (live_zero (entry hash d k)));
      mask = refl;
      size = refl;
      id_start = refl;
      id_clear = refl;
      used = omega arith;
    })
  ]
    where
      zero_clear : ltb 0 d.id_clear ≡ false → 0 ≡ d.id_clear
      zero_clear n = ground arith

  -- The entry that is found is the one that counts.
  pub dict_find-entry :
      (d : HashDict K V) (k : K) → (dict_find hash d k).0 ≡ entry hash (dict_find hash d k).1 k
  unfolding dict_find check_clear
  dict_find-entry d k = elim (Bool-cases (ltb 0 d.id_clear)) [
    | inl y ↦ rw y refl
    | inr n ↦ rw n refl
  ]
