-- ===== src/Update.antt =====
-- matchengine/me_update.c: a balance update by a business, and the dictionary of the updates of the last
-- day that refuses a repeated one.
use viabtc_exchange_server.Base.{
  ℕ, ◌≡◌, ◌↔◌, ◌+◌, Bool, true, false, Option, none, some, [], ◌∷◌, arith, ◌==◌, ltb, ◌&&◌,
  if◌then◌else◌, Eq,
}
use viabtc_exchange_server.Base.Int.{ℤ, pos, ◌-ℤ◌, ltb_ℤ}
use viabtc_exchange_server.Decimal.{Decimal}
use viabtc_exchange_server.Dict.{Dict, find, delete}
use viabtc_exchange_server.Balance.{Ledger, available, balance_add, balance_sub}
use viabtc_exchange_server.Order.{State, Event, balance_history, balance_message}
use viabtc_exchange_server.Market.Book.{log_if}
pub mod Once
pub mod Effect
pub mod Expiry
mod Tests

-- struct update_key. `padding` is what stands between `business` and `business_id`: bytes that the code
-- does not set, and that it hashes and compares.
pub record UpdateKey : Type 0 where
  pub user_id : ℕ
  pub asset : ℕ
  pub business : ℕ
  pub padding : ℕ
  pub business_id : ℕ

-- update_dict_key_compare: memcmp of all bytes
abbrev pub update_key_compare : UpdateKey → UpdateKey → Bool
update_key_compare k j =
    k.user_id == j.user_id
    && k.asset == j.asset
    && k.business == j.business
    && k.padding == j.padding
    && k.business_id == j.business_id

pub update_key_compare_iff : (k j : UpdateKey) → (update_key_compare k j ≡ true) ↔ (k ≡ j)
update_key_compare_iff k j = ground arith

instance abbrev pub update_key_eq : Eq UpdateKey
update_key_eq = record { beq = update_key_compare; beq_iff = update_key_compare_iff }

-- dict_update, which holds the time of each update, beside the state of the engine.
pub record Updates : Type 0 where
  pub dict_update : Dict UpdateKey ℕ
  pub engine : State

-- The return values 0, -1 and -2.
pub data Outcome : Type 0 where
  applied repeated failed : Outcome

-- The library's absolute value.
abbrev pub mpd_abs : ℤ → ℤ
mpd_abs v = if ltb_ℤ v (pos 0) then pos 0 -ℤ v else v

module _ (d : Decimal) (clock : ℕ → ℕ) where
  -- The balance operation, by the sign of the change.
  unfoldable pub change_balance : Ledger → ℕ → ℕ → ℤ → Option ℤ × Ledger
  change_balance l u a change =
      if ltb_ℤ change (pos 0)
      then balance_sub d l u available a (mpd_abs change)
      else balance_add d l u available a (mpd_abs change)

  -- Behind the balance operation: the update is recorded, and published if `real`.
  unfoldable pub record_update : Bool → UpdateKey → ℤ → Updates → Ledger → Updates
  unfolding log_if
  record_update real k change s l =
      let created = clock s.engine.ticks in
      let now = clock (s.engine.ticks + 1) in
      let published = log_if real (balance_message now k.user_id k.asset k.business change) (
        log_if real (balance_history now k.user_id k.asset k.business change k.business_id)
          (record s.engine {
            ledger = l;
            ticks = if real then s.engine.ticks + 2 else s.engine.ticks + 1;
          })) in
      record { dict_update = (k, created) ∷ s.dict_update; engine = published }

  unfoldable pub update_user_balance : Bool → UpdateKey → ℤ → Updates → Outcome × Updates
  unfolding change_balance record_update
  update_user_balance real k change s = elim (find k s.dict_update) [
    | some _ ↦ (repeated, s)
    | none ↦
        let r = change_balance s.engine.ledger k.user_id k.asset change in
        elim r.0 [
          | none ↦ (failed, record s { engine = record s.engine { ledger = r.1 } })
          | some _ ↦ (applied, record_update real k change s r.1)
        ]
  ]

-- `val->create_time < now - 86400`, in seconds.
abbrev pub expired : ℕ → ℕ → Bool
expired now created = ltb (created + 86400) now

-- The loop of on_timer over the entries that its iterator has still to give.
unfoldable pub sweep : ℕ → Dict UpdateKey ℕ → Dict UpdateKey ℕ → Dict UpdateKey ℕ
sweep now [] dict = dict
sweep now ((k, created) ∷ entries) dict =
    sweep now entries (if expired now created then delete k dict else dict)

unfoldable pub on_timer : ℕ → Updates → Updates
unfolding sweep
on_timer now s = record s { dict_update = sweep now s.dict_update s.dict_update }
