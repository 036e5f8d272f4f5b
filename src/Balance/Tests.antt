-- ===== src/Balance/Tests.antt =====
-- Runs of the operations of me_balance.c on a small ledger in cents.
use viabtc_exchange_server.Base.{
  ℕ, ◌≡◌, refl, true, false, Option, List, some, none, [], ◌∷◌, arith, nat_eq,
}
use viabtc_exchange_server.Base.Int.{pos, ◌+ℤ◌, ◌-ℤ◌}
use viabtc_exchange_server.Decimal.Sample.{cents, cents-IsDecimal}
use viabtc_exchange_server.Dict.{find, store, delete}
use viabtc_exchange_server.Balance.{
  AssetType, Ledger, key, available, freeze, get_asset_type, balance_get, balance_add, balance_sub,
  balance_freeze, balance_unfreeze, balance_total, balance_status, write, balance_del,
}
use viabtc_exchange_server.Balance.Invariant.{IsSound, Stored-of_entries}
use viabtc_exchange_server.Balance.Listing.{
  AssetRow, absent, whole, text, read_cfg_str, read_cfg_int, add_asset, read_row, load_rows,
  load_assets_listing, init_assets, init_balance,
}
use viabtc_exchange_server.Balance.Listed.{Listed}
use viabtc_exchange_server.Balance.Effects.{
  balance_of, Becomes, balance_add-Becomes, balance_sub-Becomes,
}
use viabtc_exchange_server.Balance.Freeze.{
  Moves, Refused, FailsAs, balance_freeze-Moves, balance_unfreeze-Moves, balance_freeze-FailsAs,
  balance_sub-FailsAs, unfreeze-freeze,
}

-- Asset 1 has two decimals, asset 2 none.
abbrev coin : AssetType
coin = record { prec_save = 2; prec_show = 2 }

abbrev token : AssetType
token = record { prec_save = 0; prec_show = 0 }

-- User 7 has 5.00 of asset 1, of which 1.25 is frozen.
abbrev ledger : Ledger
ledger = record {
  dict_asset = (1, coin) ∷ (2, token) ∷ [];
  dict_balance = (key 7 available 1, pos 375) ∷ (key 7 freeze 1, pos 125) ∷ [];
}

ledger-IsSound : IsSound cents ledger
unfolding get_asset_type find
ledger-IsSound = record {
  unique = (refl, (refl, tt));
  stored =
      Stored-of_entries cents ledger.dict_asset ledger.dict_balance
        ((refl, omega arith, omega arith), ((refl, omega arith, omega arith), tt));
}

known_coin : get_asset_type ledger 1 ≡ some coin
unfolding get_asset_type find
known_coin = refl

runs :
    ((balance_freeze cents ledger 7 1 (pos 75)).1.dict_balance
      ≡ (key 7 available 1, pos 300) ∷ (key 7 freeze 1, pos 200) ∷ [])
    × ((balance_sub cents ledger 7 available 1 (pos 375)).1.dict_balance
        ≡ (key 7 freeze 1, pos 125) ∷ [])
    × ((balance_sub cents ledger 7 available 1 (pos 376)).0 ≡ none)
    × (balance_total cents ledger 7 1 ≡ pos 500)
    × ((balance_status cents ledger 1).freeze_count ≡ 1)
unfolding balance_freeze balance_sub balance_total balance_status balance_get ◌+ℤ◌ ◌-ℤ◌
    get_asset_type find write store balance_del delete
runs = (refl, refl, refl, refl, refl)

balance_add-Becomes_example :
    Becomes cents ledger
      (key 7 available 1)
      (pos 375 +ℤ pos 25)
      (balance_add cents ledger 7 available 1 (pos 25))
unfolding find ◌+ℤ◌
balance_add-Becomes_example =
    balance_add-Becomes cents cents-IsDecimal ledger ledger-IsSound 7 available 1 coin known_coin
      (pos 25) refl (omega arith) (omega arith)

balance_sub-Becomes_example :
    Becomes cents ledger
      (key 7 available 1)
      (pos 375 -ℤ pos 25)
      (balance_sub cents ledger 7 available 1 (pos 25))
unfolding find balance_get
balance_sub-Becomes_example =
    balance_sub-Becomes cents cents-IsDecimal ledger ledger-IsSound 7 available 1 coin known_coin
      (pos 25) refl (omega arith) (pos 375) refl (omega arith)

balance_freeze-Moves_example :
    Moves cents ledger
      (key 7 available 1)
      (key 7 freeze 1)
      (pos 75)
      (balance_freeze cents ledger 7 1 (pos 75))
unfolding find balance_get ◌+ℤ◌
balance_freeze-Moves_example =
    balance_freeze-Moves cents cents-IsDecimal ledger ledger-IsSound 7 1 coin known_coin (pos 75)
      refl (omega arith) (pos 375) refl (omega arith) (omega arith)

balance_unfreeze-Moves_example :
    Moves cents ledger
      (key 7 freeze 1)
      (key 7 available 1)
      (pos 125)
      (balance_unfreeze cents ledger 7 1 (pos 125))
unfolding find balance_get ◌+ℤ◌
balance_unfreeze-Moves_example =
    balance_unfreeze-Moves cents cents-IsDecimal ledger ledger-IsSound 7 1 coin known_coin (pos 125)
      refl (omega arith) (pos 125) refl (omega arith) (omega arith)

unfreeze-freeze_example :
    balance_of
      (balance_unfreeze cents (balance_freeze cents ledger 7 1 (pos 75)).1 7 1 (pos 75)).1
      (key 7 freeze 1)
    ≡ pos 125
unfolding find balance_get ◌+ℤ◌
unfreeze-freeze_example =
    unfreeze-freeze cents cents-IsDecimal ledger ledger-IsSound 7 1 coin known_coin (pos 75) refl
      (omega arith) (pos 375) refl (omega arith) (omega arith) (key 7 freeze 1)

balance_freeze-FailsAs_example :
    FailsAs
      (Refused ledger 7 available 1 (pos 376))
      ledger
      (balance_freeze cents ledger 7 1 (pos 376))
balance_freeze-FailsAs_example = balance_freeze-FailsAs cents ledger 7 1 (pos 376)

balance_sub-FailsAs_example :
    FailsAs
      (Refused ledger 7 freeze 1 (pos 126))
      ledger
      (balance_sub cents ledger 7 freeze 1 (pos 126))
balance_sub-FailsAs_example = balance_sub-FailsAs cents ledger 7 freeze 1 (pos 126)

-- Asset 1 again, with other precisions, and a new asset 3.
abbrev listing : Option (List AssetRow)
listing = some (
    record { is_object = true; name = text (1 ∷ []); prec_save = whole 4; prec_show = absent }
    ∷ record { is_object = true; name = text (3 ∷ []); prec_save = whole 1; prec_show = absent }
    ∷ [])

abbrev intern : List ℕ → ℕ
intern [] = 0
intern (n ∷ ns) = n

listed_assets : load_assets_listing intern listing ledger ≡ (
  some 1,
  record ledger { dict_asset = (3, record { prec_save = 1; prec_show = 1 }) ∷ ledger.dict_asset },
)
unfolding load_assets_listing load_rows read_row read_cfg_str read_cfg_int add_asset find
listed_assets = refl

init_twice : (init_balance ((1, coin) ∷ (1, token) ∷ [])).0 ≡ false
unfolding init_assets add_asset find
init_twice = refl
