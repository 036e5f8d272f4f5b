-- ===== src/Balance.antt =====
-- viabtc_exchange_server/matchengine/me_balance.c: the assets and the balances of the users. The two global dictionaries
-- are one state; a user, an asset's name and a precision are numbers. Allocation does not fail.
pub mod Invariant
pub mod Effects
pub mod Freeze
pub mod Rounding
pub mod Listing
pub mod Listed
mod Tests
use viabtc_exchange_server.Base.{
  ℕ, ◌+◌, ◌≡◌, ◌↔◌, Bool, true, false, ◌&&◌, Option, none, some, [], ◌∷◌, arith, ◌==◌,
  if◌then◌else◌, Eq, nat_eq,
}
use viabtc_exchange_server.Base.Int.{ℤ, pos, negsuc, ltb_ℤ, eqb_ℤ}
use viabtc_exchange_server.Decimal.{Decimal}
use viabtc_exchange_server.Dict.{Dict, find, store, delete}

-- BALANCE_TYPE_AVAILABLE, BALANCE_TYPE_FREEZE
pub data BalanceType : Type 0 where
  available freeze : BalanceType

abbrev pub type_eq : BalanceType → BalanceType → Bool
type_eq available available = true
type_eq available freeze = false
type_eq freeze available = false
type_eq freeze freeze = true

-- struct balance_key
pub record BalanceKey : Type 0 where
  pub user_id : ℕ
  pub type : BalanceType
  pub asset : ℕ

abbrev pub key : ℕ → BalanceType → ℕ → BalanceKey
key u t a = record { user_id = u; type = t; asset = a }

-- balance_dict_key_compare
abbrev pub key_compare : BalanceKey → BalanceKey → Bool
key_compare k j = k.user_id == j.user_id && type_eq k.type j.type && k.asset == j.asset

type_eq_iff : (s t : BalanceType) → (type_eq s t ≡ true) ↔ (s ≡ t)
type_eq_iff available available = ground arith
type_eq_iff available freeze = ground arith
type_eq_iff freeze available = ground arith
type_eq_iff freeze freeze = ground arith

pub key_compare_iff : (k j : BalanceKey) → (key_compare k j ≡ true) ↔ (k ≡ j)
key_compare_iff k j = ground (arith, type_eq_iff k.type j.type)

instance abbrev pub key_eq : Eq BalanceKey
key_eq = record { beq = key_compare; beq_iff = key_compare_iff }

-- struct asset_type
pub record AssetType : Type 0 where
  pub prec_save : ℕ
  pub prec_show : ℕ

-- dict_asset and dict_balance
pub record Ledger : Type 0 where
  pub dict_asset : Dict ℕ AssetType
  pub dict_balance : Dict BalanceKey ℤ

-- get_asset_type
unfoldable pub get_asset_type : Ledger → ℕ → Option AssetType
get_asset_type l a = find a l.dict_asset

unfoldable pub asset_exist : Ledger → ℕ → Bool
asset_exist l a = elim (get_asset_type l a) [ none ↦ false | some _ ↦ true ]

-- -1 for an unknown asset.
unfoldable pub asset_prec : Ledger → ℕ → ℤ
asset_prec l a = elim (get_asset_type l a) [ none ↦ negsuc 0 | some at ↦ pos at.prec_save ]

unfoldable pub asset_prec_show : Ledger → ℕ → ℤ
asset_prec_show l a = elim (get_asset_type l a) [ none ↦ negsuc 0 | some at ↦ pos at.prec_show ]

unfoldable pub balance_get : Ledger → ℕ → BalanceType → ℕ → Option ℤ
balance_get l u t a = find (key u t a) l.dict_balance

unfoldable pub balance_del : Ledger → ℕ → BalanceType → ℕ → Ledger
balance_del l u t a = record l { dict_balance = delete (key u t a) l.dict_balance }

-- A write through the value that `balance_get` returned.
unfoldable pub write : Ledger → BalanceKey → ℤ → Ledger
write l k v = record l { dict_balance = store k v l.dict_balance }

-- An operation returns what the C function returns, NULL as `none`, beside the new ledger.
module _ (d : Decimal) where
  open d use {add, sub, rescale}

  unfoldable pub balance_set : Ledger → ℕ → BalanceType → ℕ → ℤ → Option ℤ × Ledger
  balance_set l u t a amount = elim (get_asset_type l a) [
    | none ↦ (none, l)
    | some at ↦
        if ltb_ℤ amount (pos 0)
        then (none, l)
        else if eqb_ℤ amount (pos 0)
        then (some (pos 0), balance_del l u t a)
        else (
          some (rescale amount at.prec_save),
          elim (find (key u t a) l.dict_balance) [
            | some _ ↦ write l (key u t a) (rescale amount at.prec_save)
            | none ↦ record l {
              dict_balance = (key u t a, rescale amount at.prec_save) ∷ l.dict_balance;
            }
          ],
        )
  ]

  unfoldable pub balance_add : Ledger → ℕ → BalanceType → ℕ → ℤ → Option ℤ × Ledger
  unfolding balance_set
  balance_add l u t a amount = elim (get_asset_type l a) [
    | none ↦ (none, l)
    | some at ↦ if ltb_ℤ amount (pos 0) then (none, l) else elim (find (key u t a) l.dict_balance) [
      | some result ↦ (
        some (rescale (add result amount) at.prec_save),
        write l (key u t a) (rescale (add result amount) at.prec_save),
      )
      | none ↦ balance_set l u t a amount
    ]
  ]

  -- The end of balance_sub, balance_freeze and balance_unfreeze: `amount` is taken off a balance.
  unfoldable pub take_off : Ledger → ℕ → BalanceType → ℕ → ℕ → ℤ → ℤ → Option ℤ × Ledger
  take_off l u t a prec result amount =
      if eqb_ℤ (sub result amount) (pos 0) then (some (pos 0), balance_del l u t a) else (
        some (rescale (sub result amount) prec),
        write l (key u t a) (rescale (sub result amount) prec),
      )

  unfoldable pub balance_sub : Ledger → ℕ → BalanceType → ℕ → ℤ → Option ℤ × Ledger
  unfolding take_off
  balance_sub l u t a amount = elim (get_asset_type l a) [
    | none ↦ (none, l)
    | some at ↦ if ltb_ℤ amount (pos 0) then (none, l) else elim (balance_get l u t a) [
      | none ↦ (none, l)
      | some result ↦
          if ltb_ℤ result amount then (none, l) else take_off l u t a at.prec_save result amount
    ]
  ]

  -- balance_freeze and balance_unfreeze, which differ in the two types only.
  unfoldable pub move : Ledger → ℕ → BalanceType → BalanceType → ℕ → ℤ → Option ℤ × Ledger
  unfolding balance_add take_off
  move l u from to a amount = elim (get_asset_type l a) [
    | none ↦ (none, l)
    | some at ↦ if ltb_ℤ amount (pos 0) then (none, l) else elim (balance_get l u from a) [
      | none ↦ (none, l)
      | some result ↦
          if ltb_ℤ result amount
          then (none, l)
          else let added = balance_add l u to a amount in
            elim added.0 [
              | none ↦ (none, added.1)
              | some _ ↦ take_off added.1 u from a at.prec_save result amount
            ]
    ]
  ]

  unfoldable pub balance_freeze : Ledger → ℕ → ℕ → ℤ → Option ℤ × Ledger
  unfolding move
  balance_freeze l u a amount = move l u available freeze a amount

  unfoldable pub balance_unfreeze : Ledger → ℕ → ℕ → ℤ → Option ℤ × Ledger
  unfolding move
  balance_unfreeze l u a amount = move l u freeze available a amount

  unfoldable pub add_found : ℤ → Option ℤ → ℤ
  add_found total none = total
  add_found total (some v) = add total v

  unfoldable pub balance_total : Ledger → ℕ → ℕ → ℤ
  unfolding add_found
  balance_total l u a =
      add_found (add_found (pos 0) (balance_get l u available a)) (balance_get l u freeze a)

-- The out parameters of balance_status.
pub record Status : Type 0 where
  pub total : ℤ
  pub available_count : ℕ
  pub available : ℤ
  pub freeze_count : ℕ
  pub freeze : ℤ

module _ (d : Decimal) where
  open d use {add}

  unfoldable pub count_entry : Status → BalanceType → ℤ → Status
  count_entry s available v = record s {
    total = add s.total v;
    available_count = s.available_count + 1;
    available = add s.available v;
  }
  count_entry s freeze v = record s {
    total = add s.total v;
    freeze_count = s.freeze_count + 1;
    freeze = add s.freeze v;
  }

  -- The loop of balance_status over the entries of dict_balance.
  unfoldable pub status_loop : ℕ → Status → Dict BalanceKey ℤ → Status
  unfolding count_entry
  status_loop a s [] = s
  status_loop a s ((k, v) ∷ m) =
      status_loop a (if k.asset == a then count_entry s k.type v else s) m

  unfoldable pub balance_status : Ledger → ℕ → Status
  unfolding status_loop
  balance_status l a =
      status_loop a
        (record {
          total = pos 0;
          available_count = 0;
          available = pos 0;
          freeze_count = 0;
          freeze = pos 0;
        })
        l.dict_balance
