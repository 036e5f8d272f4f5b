-- ===== src/Balance/Invariant.antt =====
-- What every balance of me_balance.c satisfies, and the arithmetic of one change of a balance.
use viabtc_exchange_server.Base.{
  ℕ, ◌≡◌, ◌⊎◌, refl, ◌∙◌, Bool, true, false, Option, none, some, [], ◌∷◌, All, if◌then◌else◌,
  nat_eq, Bool-cases, Option-cases, inl, inr,
}
use viabtc_exchange_server.Base.Int.{ℤ, pos, ◌+ℤ◌, ◌-ℤ◌, ◌≤ℤ◌, int_laws}
use viabtc_exchange_server.Decimal.{Decimal, IsDecimal, Fits, OnGrid}
use viabtc_exchange_server.Dict.{
  Dict, find, delete, Unique, sum_where, weigh, sum_where-store, sum_where-delete, delete_missing,
  find-store, find-delete, store-Unique, delete-Unique,
}
use viabtc_exchange_server.Balance.{
  BalanceKey, AssetType, Ledger, key_eq, key_compare, key_compare_iff, get_asset_type, write,
}

-- A value at the precision of its asset, not negative and of at most 34 digits.
abbrev pub Stored : Decimal → Option AssetType → ℤ → Type 0
Stored d none v = ⊥
Stored d (some at) v = OnGrid d at.prec_save v × (pos 0 ≤ℤ v) × Fits d v

abbrev pub StoredOption : Decimal → Option AssetType → Option ℤ → Type 0
StoredOption d at none = Unit
StoredOption d at (some v) = Stored d at v

pub record IsSound (d : Decimal) (l : Ledger) : Type 0 where
  pub unique : Unique l.dict_balance
  pub stored : (k : BalanceKey) → StoredOption d (get_asset_type l k.asset) (find k l.dict_balance)

-- The balance that a missing entry stands for is zero.
abbrev pub or_zero : Option ℤ → ℤ
or_zero none = pos 0
or_zero (some v) = v

weigh-zero : (b : Bool) → weigh b (pos 0) ≡ pos 0
weigh-zero true = refl
weigh-zero false = refl

-- Where one balance changes: every other entry stays, and any sum moves by the difference.
abbrev pub Changes : Ledger → BalanceKey → Option ℤ → Ledger → Type 0
Changes l k o l' =
    (l'.dict_asset ≡ l.dict_asset)
    × Unique l'.dict_balance
    × ((j : BalanceKey)
        → find j l'.dict_balance ≡ (if key_compare j k then o else find j l.dict_balance))
    × ((p : BalanceKey → Bool)
        → sum_where p l'.dict_balance +ℤ weigh (p k) (or_zero (find k l.dict_balance))
          ≡ sum_where p l.dict_balance +ℤ weigh (p k) (or_zero o))

pub Changes-IsSound :
    (d : Decimal) (l : Ledger) (k : BalanceKey) (o : Option ℤ) (l' : Ledger)
    → IsSound d l
    → StoredOption d (get_asset_type l k.asset) o
    → Changes l k o l'
    → IsSound d l'
unfolding get_asset_type
Changes-IsSound d l k o l' s so (assets, unique, found, sums) = record {
  unique = unique;
  stored = λ j. rw (assets, found j) (at j (Bool-cases (key_compare j k)));
}
  where
    at :
        (j : BalanceKey)
        → (key_compare j k ≡ true) ⊎ (key_compare j k ≡ false)
        → StoredOption d
            (find j.asset l.dict_asset)
            (if key_compare j k then o else find j l.dict_balance)
    at j (inl same) = rw same (let p : j ≡ k = (key_compare_iff j k).0 same in rw p so)
    at j (inr other) = rw other (s.stored j)

module _ (l : Ledger) (k : BalanceKey) where
  pub write-Changes :
      (v w : ℤ)
      → Unique l.dict_balance
      → find k l.dict_balance ≡ some w
      → Changes l k (some v) (write l k v)
  unfolding write
  write-Changes v w u h = (
    refl,
    store-Unique k v l.dict_balance u,
    λ j. find-store j k v w l.dict_balance h,
    λ p. rw h (sum_where-store p k v w l.dict_balance h),
  )

  pub insert-Changes :
      (v : ℤ)
      → Unique l.dict_balance
      → find k l.dict_balance ≡ none
      → Changes l k (some v) (record l { dict_balance = (k, v) ∷ l.dict_balance })
  unfolding find
  insert-Changes v u h = (refl, (h, u), λ j. refl, λ p. rw (h, weigh-zero (p k)) (omega int_laws))

  pub delete-Changes :
      Unique l.dict_balance → Changes l k none (record l { dict_balance = delete k l.dict_balance })
  delete-Changes u = (
    refl,
    delete-Unique k l.dict_balance u,
    λ j. find-delete j k l.dict_balance u,
    λ p. sums p (Option-cases (find k l.dict_balance)),
  )
    where
      sums :
          (p : BalanceKey → Bool)
          → (find k l.dict_balance ≡ none) ⊎ ((v : ℤ) × (find k l.dict_balance ≡ some v))
          → sum_where p (delete k l.dict_balance) +ℤ weigh (p k) (or_zero (find k l.dict_balance))
            ≡ sum_where p l.dict_balance +ℤ weigh (p k) (pos 0)
      sums p (inl e) = rw (e, delete_missing k l.dict_balance e)
      sums p (inr (v, e)) =
          rw (e, weigh-zero (p k)) (sum_where-delete p k v l.dict_balance e ∙ omega int_laws)

-- balance_add and the end of balance_sub on a value that the context holds exactly.
module _ (d : Decimal) (law : IsDecimal d) (p : ℕ) (r x : ℤ) (gr : OnGrid d p r)
    (gx : OnGrid d p x) where
  pub rescale-add : Fits d (r +ℤ x) → d.rescale (d.add r x) p ≡ r +ℤ x
  rescale-add f = rw (law.add_exact r x f) (law.add_OnGrid r x p gr gx f)

  pub rescale-sub : Fits d (r -ℤ x) → d.rescale (d.sub r x) p ≡ r -ℤ x
  rescale-sub f = rw (law.sub_exact r x f) (law.sub_OnGrid r x p gr gx f)

-- Entry by entry, as a list of concrete balances is checked.
pub Stored-of_entries :
    (d : Decimal) (assets : Dict ℕ AssetType) (m : Dict BalanceKey ℤ)
    → All (λ (e : BalanceKey × ℤ). Stored d (find e.0.asset assets) e.1) m
    → (k : BalanceKey) → StoredOption d (find k.asset assets) (find k m)
unfolding find
Stored-of_entries d assets [] h k = tt
Stored-of_entries d assets ((j, v) ∷ m) h k =
    at (Bool-cases (key_compare k j)) (Stored-of_entries d assets m h.1 k)
  where
    at :
        (key_compare k j ≡ true) ⊎ (key_compare k j ≡ false)
        → StoredOption d (find k.asset assets) (find k m)
        → StoredOption d (find k.asset assets) (if key_compare k j then some v else find k m)
    at (inl y) rest = rw y (let p : k ≡ j = (key_compare_iff k j).0 y in rw p h.0)
    at (inr n) rest = rw n rest
