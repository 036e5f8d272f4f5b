-- ===== src/Update/Tests.antt =====
-- Runs of me_update.c on a small ledger in cents.
use viabtc_exchange_server.Base.{ℕ, ◌≡◌, refl, true, [], ◌∷◌, arith, ◌+◌, nat_eq}
use viabtc_exchange_server.Base.Int.{pos, negsuc, ◌+ℤ◌, ◌-ℤ◌}
use viabtc_exchange_server.Decimal.Sample.{cents, cents-IsDecimal}
use viabtc_exchange_server.Dict.{find}
use viabtc_exchange_server.Balance.{AssetType, key, available, key_eq, get_asset_type, balance_add}
use viabtc_exchange_server.Balance.Invariant.{IsSound, Stored-of_entries}
use viabtc_exchange_server.Update.{
  UpdateKey, Updates, update_key_eq, applied, repeated, update_user_balance, on_timer,
  change_balance,
}
use viabtc_exchange_server.Update.Once.{update_user_balance-update_user_balance}
use viabtc_exchange_server.Update.Effect.{
  Answers, Applied, update_user_balance-Answers, update_user_balance-Applied,
}
use viabtc_exchange_server.Update.Expiry.{Forgets, on_timer-Forgets, update_user_balance-on_timer}

abbrev coin : AssetType
coin = record { prec_save = 2; prec_show = 2 }

abbrev clock : ℕ → ℕ
clock n = n + 100000

abbrev deposit : ℕ → ℕ → UpdateKey
deposit padding i = record {
  user_id = 7;
  asset = 1;
  business = 1;
  padding = padding;
  business_id = i;
}

-- User 7 has 3.75 of asset 1; deposit 4 was made long ago, deposit 5 just now.
abbrev start : Updates
start = record {
  dict_update = (deposit 0 5, 99000) ∷ (deposit 0 4, 1000) ∷ [];
  engine = record {
    ledger = record {
      dict_asset = (1, coin) ∷ [];
      dict_balance = (key 7 available 1, pos 375) ∷ [];
    };
    order_id_start = 0;
    deals_id_start = 0;
    ticks = 0;
    log = [];
    detached = [];
    orders = [];
    users = [];
    asks = [];
    bids = [];
  };
}

start-IsSound : IsSound cents start.engine.ledger
unfolding get_asset_type find
start-IsSound = record {
  unique = (refl, tt);
  stored =
      Stored-of_entries cents start.engine.ledger.dict_asset start.engine.ledger.dict_balance
        ((refl, omega arith, omega arith), tt);
}

-- The same deposit with other padding bytes is applied again.
padded :
    ((update_user_balance cents clock true (deposit 0 5) (pos 25) start).0 ≡ repeated)
    × ((update_user_balance cents clock true (deposit 1 5) (pos 25) start).0 ≡ applied)
unfolding update_user_balance find change_balance balance_add get_asset_type
padded = (refl, refl)

update_user_balance-update_user_balance_example :
    update_user_balance cents clock true
      (deposit 0 6)
      (pos 25)
      (update_user_balance cents clock true (deposit 0 6) (pos 50) start).1
    ≡ (repeated, (update_user_balance cents clock true (deposit 0 6) (pos 50) start).1)
unfolding update_user_balance find change_balance balance_add get_asset_type
update_user_balance-update_user_balance_example =
    update_user_balance-update_user_balance cents clock true (deposit 0 6) (pos 50) (pos 25) start
      (λ h. ground arith)

update_user_balance-Answers_example :
    Answers
      (deposit 0 6)
      (negsuc 400)
      start
      (update_user_balance cents clock true (deposit 0 6) (negsuc 400) start)
update_user_balance-Answers_example =
    update_user_balance-Answers cents clock true (deposit 0 6) (negsuc 400) start

-- A withdrawal of 1.00.
update_user_balance-Applied_example :
    Applied cents
      (deposit 0 6)
      (negsuc 99)
      start
      (update_user_balance cents clock true (deposit 0 6) (negsuc 99) start)
unfolding find get_asset_type ◌+ℤ◌ ◌-ℤ◌
update_user_balance-Applied_example =
    update_user_balance-Applied cents cents-IsDecimal clock true (deposit 0 6) (negsuc 99) start
      start-IsSound coin refl refl refl (omega arith) (omega arith, omega arith)

on_timer-Forgets_example : Forgets 100000 start (on_timer 100000 start)
unfolding find
on_timer-Forgets_example = on_timer-Forgets 100000 start (refl, (refl, tt))

update_user_balance-on_timer_example :
    update_user_balance cents clock true (deposit 0 5) (pos 1) (on_timer 100000 start)
    ≡ (repeated, on_timer 100000 start)
unfolding find
update_user_balance-on_timer_example =
    update_user_balance-on_timer cents clock true (deposit 0 5) (pos 1) start 99000 100000
      (refl, (refl, tt)) refl (omega arith)
