-- ===== src/Request.antt =====
-- Requests for limit orders: on_cmd_order_put_limit of matchengine/me_server.c, which checks them, runs
-- them and appends them to the operation log, and load_limit_order of matchengine/me_load.c, which runs
-- an entry of that log again. The bytes of a name give its number by `intern`; `parse` is the reading
-- of a number by the decimal library, `none` for a syntax error; a text that it reads as a NaN or an
-- infinity is outside the model. `m` is the market of the model.
pub mod Replay
pub mod Cancel
pub mod MarketOrder
mod Tests
use viabtc_exchange_server.Base.{
  ℕ, zero, suc, ◌-◌, ◌%◌, ◌^◌, Bool, true, false, not, ◌&&◌, Option, none, some, List, [], ◌∷◌, ltb,
  leb, ◌==◌, if◌then◌else◌, length,
}
use viabtc_exchange_server.Base.Int.{ℤ, pos, negsuc, ltb_ℤ}
use viabtc_exchange_server.Decimal.{Decimal}
use viabtc_exchange_server.Order.{Order, Side, ask, bid, Market, State}
use viabtc_exchange_server.Market.Put.{
  Code, done, no_balance, small_amount, no_counterpart, Request, Reply, market_put_limit_order,
}

-- A JSON value of a request.
pub data Json : Type 0 where
  integer : ℤ → Json
  text : List ℕ → Json
  other : Json

-- The conversion of a json_int_t to a uint32_t.
abbrev pub as_u32 : ℤ → ℕ
as_u32 (pos n) = n % 2 ^ 32
as_u32 (negsuc n) = 2 ^ 32 - 1 - n % 2 ^ 32

-- json_array_get with json_is_integer or json_is_string.
unfoldable pub integer_at : ℕ → List Json → Option ℤ
integer_at i [] = none
integer_at zero (integer n ∷ js) = some n
integer_at zero (text t ∷ js) = none
integer_at zero (other ∷ js) = none
integer_at (suc i) (j ∷ js) = integer_at i js

unfoldable pub text_at : ℕ → List Json → Option (List ℕ)
text_at i [] = none
text_at zero (integer n ∷ js) = none
text_at zero (text t ∷ js) = some t
text_at zero (other ∷ js) = none
text_at (suc i) (j ∷ js) = text_at i js

infixl 20 ◌>>=◌
abbrev pub ◌>>=◌ {ℓ κ} : {A : Type ℓ} {B : Type κ} → Option A → (A → Option B) → Option B
none >>= f = none
some x >>= f = f x

abbrev pub keep {ℓ} : {A : Type ℓ} → Bool → A → Option A
keep true x = some x
keep false x = none

-- MARKET_ORDER_SIDE_ASK is 1 and MARKET_ORDER_SIDE_BID is 2.
abbrev pub as_side : ℕ → Option Side
as_side n = if n == 1 then some ask else if n == 2 then some bid else none

-- What an entry of the operation log comes to: an error, nothing for an unknown market, or a call.
pub data Loaded : Type 0 where
  bad skipped : Loaded
  loads : Market → Request → Loaded

abbrev pub or_bad {ℓ} : {A : Type ℓ} → Option A → (A → Loaded) → Loaded
or_bad none f = bad
or_bad (some x) f = f x

abbrev pub source_max_len : ℕ
source_max_len = 31

-- reply_error_invalid_argument, the errors 10 and 11, reply_error_internal_error, and the result.
pub data Answer : Type 0 where
  invalid_argument balance_not_enough amount_too_small internal_error : Answer
  result : Option Order → Answer

module _ (d : Decimal) (intern : List ℕ → ℕ) (parse : List ℕ → Option ℤ) (m : Market) where
  open d use {one, rescale}

  -- decimal of utils/ut_decimal.c
  unfoldable pub decimal : List ℕ → ℕ → Option ℤ
  decimal str prec = do x ← parse str; some (if prec == 0 then x else rescale x prec)

  abbrev pub get_market : List ℕ → Option Market
  get_market name = keep (intern name == m.name) m

  -- An amount or a price, above zero.
  unfoldable pub positive_at : ℕ → List Json → ℕ → Option ℤ
  positive_at i params prec = do
    str ← text_at i params
    x ← decimal str prec
    keep (ltb_ℤ (pos 0) x) x

  -- A fee, from zero on and below one.
  unfoldable pub fee_at : ℕ → List Json → ℕ → Option ℤ
  fee_at i params prec = do
    str ← text_at i params
    x ← decimal str prec
    keep (not (ltb_ℤ x (pos 0)) && ltb_ℤ x (pos one)) x

  -- The arguments that on_cmd_order_put_limit goes on with.
  unfoldable pub limit_args : List Json → Option (Market × Request)
  limit_args params = if not (length params == 8) then none else do
    user ← integer_at 0 params
    name ← text_at 1 params
    found ← get_market name
    number ← integer_at 2 params
    side ← as_side (as_u32 number)
    amount ← positive_at 3 params found.stock_prec
    price ← positive_at 4 params found.money_prec
    taker_fee ← fee_at 5 params found.fee_prec
    maker_fee ← fee_at 6 params found.fee_prec
    source ← text_at 7 params
    keep (not (leb source_max_len (length source))) (
      found,
      record {
        user_id = as_u32 user;
        side = side;
        amount = amount;
        price = price;
        taker_fee = taker_fee;
        maker_fee = maker_fee;
        source = intern source;
      },
    )

  -- Those of load_limit_order, in whose order an unknown market ends the call before its errors.
  unfoldable pub load_args : List Json → Loaded
  load_args params =
      if not (length params == 8)
      then bad
      else or_bad (integer_at 0 params) (λ user. or_bad (text_at 1 params) (λ name.
        elim (get_market name) [
          | none ↦ skipped
          | some found ↦
              or_bad
                (do
                  number ← integer_at 2 params
                  side ← as_side (as_u32 number)
                  amount ← positive_at 3 params found.stock_prec
                  price ← positive_at 4 params found.money_prec
                  taker_fee ← fee_at 5 params found.fee_prec
                  maker_fee ← fee_at 6 params found.fee_prec
                  source ← text_at 7 params
                  keep (not (ltb source_max_len (length source))) (record {
                    user_id = as_u32 user;
                    side = side;
                    amount = amount;
                    price = price;
                    taker_fee = taker_fee;
                    maker_fee = maker_fee;
                    source = intern source;
                  }))
                (loads found)
        ]))

  module _ (clock : ℕ → ℕ) where
    -- The answer, the state, and whether the request was appended to the operation log.
    unfoldable pub limit_reply : Reply → Answer × State × Bool
    limit_reply r = elim r.code [
      | done ↦ (result r.result, r.state, true)
      | no_balance ↦ (balance_not_enough, r.state, false)
      | small_amount ↦ (amount_too_small, r.state, false)
      | no_counterpart ↦ (internal_error, r.state, false)
    ]

    unfoldable pub on_cmd_order_put_limit : List Json → State → Answer × State × Bool
    on_cmd_order_put_limit params s = elim (limit_args params) [
      | none ↦ (invalid_argument, s, false)
      | some a ↦ limit_reply (market_put_limit_order d clock true a.0 a.1 s)
    ]

    -- `none` for an error in the arguments; an unknown market changes nothing.
    unfoldable pub load_limit_order : List Json → State → Option (Code × State)
    load_limit_order params s = elim (load_args params) [
      | bad ↦ none
      | skipped ↦ some (done, s)
      | loads found q ↦
          let r = market_put_limit_order d clock false found q s in some (r.code, r.state)
    ]
