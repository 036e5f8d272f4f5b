-- ===== src/Update/Once.antt =====
-- update_user_balance (matchengine/me_update.c) applies an update at most once.
use viabtc_exchange_server.Base.{ℕ, ◌≡◌, ◌≢◌, Bool, none, arith}
use viabtc_exchange_server.Base.Int.{ℤ}
use viabtc_exchange_server.Decimal.{Decimal}
use viabtc_exchange_server.Dict.{find}
use viabtc_exchange_server.Update.{
  UpdateKey, Updates, repeated, failed, update_key_eq, update_key_compare_iff, record_update,
  update_user_balance,
}

module _ (d : Decimal) (clock : ℕ → ℕ) (real : Bool) (k : UpdateKey) where
  recorded :
      (change : ℤ) (s : Updates)
      → (update_user_balance d clock real k change s).0 ≢ failed
      → find k (update_user_balance d clock real k change s).1.dict_update ≢ none
  unfolding update_user_balance record_update find
  recorded change s h = ground (arith, update_key_compare_iff k k)

  pub refused_if_found :
      (change : ℤ) (s : Updates)
      → find k s.dict_update ≢ none
      → update_user_balance d clock real k change s ≡ (repeated, s)
  unfolding update_user_balance
  refused_if_found change s h = ground arith

  -- Once an update has been applied, or refused as a repeated one, the same update, with the same
  -- padding bytes in its key, is refused and changes nothing, whatever its amount.
  pub update_user_balance-update_user_balance :
      (change again : ℤ) (s : Updates)
      → (update_user_balance d clock real k change s).0 ≢ failed
      → update_user_balance d clock real k again (update_user_balance d clock real k change s).1
        ≡ (repeated, (update_user_balance d clock real k change s).1)
  update_user_balance-update_user_balance change again s h =
      refused_if_found again (update_user_balance d clock real k change s).1 (recorded change s h)
