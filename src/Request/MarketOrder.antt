-- ===== src/Request/MarketOrder.antt =====
-- Requests for market orders: on_cmd_order_put_market of matchengine/me_server.c and load_market_order
-- of matchengine/me_load.c. `fuel` is that of the inner loop of a bid.
use viabtc_exchange_server.Base.{
  ℕ, ◌≡◌, inl, inr, refl, ap, sym, ◌∙◌, Bool, true, false, not, Option, none, some, List, arith,
  ltb, leb, ◌==◌, if◌then◌else◌, Option-cases, length,
}
use viabtc_exchange_server.Base.Int.{ℤ, pos}
use viabtc_exchange_server.Decimal.{Decimal}
use viabtc_exchange_server.Order.{Order, Market, State}
use viabtc_exchange_server.Market.Put.{
  Code, done, no_balance, small_amount, no_counterpart, Request, Reply, market_put_market_order,
}
use viabtc_exchange_server.Request.{
  Json, Loaded, bad, skipped, loads, ◌>>=◌, keep, or_bad, source_max_len, integer_at, text_at,
  get_market, as_side, as_u32, positive_at, fee_at,
}

-- The errors 10, 11 and 12, and the others as for limit orders.
pub data MarketAnswer : Type 0 where
  wrong_argument short_balance too_small no_enough_trader failed : MarketAnswer
  put_result : Option Order → MarketAnswer

module _ (d : Decimal) (intern : List ℕ → ℕ) (parse : List ℕ → Option ℤ) (m : Market) where
  unfoldable pub market_args : List Json → Option (Market × Request)
  market_args params = if not (length params == 6) then none else do
    user ← integer_at 0 params
    name ← text_at 1 params
    found ← get_market d intern parse m name
    number ← integer_at 2 params
    side ← as_side (as_u32 number)
    amount ← positive_at d intern parse m 3 params found.stock_prec
    taker_fee ← fee_at d intern parse m 4 params found.fee_prec
    source ← text_at 5 params
    keep (not (leb source_max_len (length source))) (
      found,
      record {
        user_id = as_u32 user;
        side = side;
        amount = amount;
        price = pos 0;
        taker_fee = taker_fee;
        maker_fee = pos 0;
        source = intern source;
      },
    )

  unfoldable pub load_market_args : List Json → Loaded
  load_market_args params =
      if not (length params == 6)
      then bad
      else or_bad (integer_at 0 params) (λ user. or_bad (text_at 1 params) (λ name.
        elim (get_market d intern parse m name) [
          | none ↦ skipped
          | some found ↦
              or_bad
                (do
                  number ← integer_at 2 params
                  side ← as_side (as_u32 number)
                  amount ← positive_at d intern parse m 3 params found.stock_prec
                  taker_fee ← fee_at d intern parse m 4 params found.fee_prec
                  source ← text_at 5 params
                  keep (not (ltb source_max_len (length source))) (record {
                    user_id = as_u32 user;
                    side = side;
                    amount = amount;
                    price = pos 0;
                    taker_fee = taker_fee;
                    maker_fee = pos 0;
                    source = intern source;
                  }))
                (loads found)
        ]))

  load_market_args-market_args :
      (params : List Json) (a : Market × Request)
      → market_args params ≡ some a
      → load_market_args params ≡ loads a.0 a.1
  unfolding market_args load_market_args
  load_market_args-market_args params a h = ground (arith, h)

  module _ (clock : ℕ → ℕ) (fuel : ℕ) where
    unfoldable pub market_reply : Reply → MarketAnswer × State × Bool
    market_reply r = elim r.code [
      | done ↦ (put_result r.result, r.state, true)
      | no_balance ↦ (short_balance, r.state, false)
      | small_amount ↦ (too_small, r.state, false)
      | no_counterpart ↦ (no_enough_trader, r.state, false)
    ]

    unfoldable pub on_cmd_order_put_market : List Json → State → MarketAnswer × State × Bool
    on_cmd_order_put_market params s = elim (market_args params) [
      | none ↦ (wrong_argument, s, false)
      | some a ↦ market_reply (market_put_market_order d clock fuel true a.0 a.1 s)
    ]

    unfoldable pub load_market_order : List Json → State → Option (Code × State)
    load_market_order params s = elim (load_market_args params) [
      | bad ↦ none
      | skipped ↦ some (done, s)
      | loads found q ↦
          let r = market_put_market_order d clock fuel false found q s in some (r.code, r.state)
    ]

    market_reply_logged :
        (r : Reply) → (market_reply r).2 ≡ true → (r.code ≡ done) × ((market_reply r).1 ≡ r.state)
    unfolding market_reply
    market_reply_logged r h = ground (arith, h)

    -- A request for a market order that the server appended to the operation log was put into the
    -- market with some arguments, its code was 0 and the server goes on with the state of this
    -- call; the loader, given the logged request, puts an order with the same arguments into
    -- whatever state it is in.
    pub load_market_order-on_cmd :
        (params : List Json) (s t : State)
        → (on_cmd_order_put_market params s).2 ≡ true
        → (a : Market × Request) × (((market_put_market_order d clock fuel true a.0 a.1 s).code
              ≡ done)
            × (((on_cmd_order_put_market params s).1
                  ≡ (market_put_market_order d clock fuel true a.0 a.1 s).state)
                × (load_market_order params t
                    ≡ some (
                      (market_put_market_order d clock fuel false a.0 a.1 t).code,
                      (market_put_market_order d clock fuel false a.0 a.1 t).state,
                    ))))
    unfolding on_cmd_order_put_market load_market_order
    load_market_order-on_cmd params s t h = elim (Option-cases (market_args params)) [
      | inl q ↦ ground (arith, h, q)
      | inr (a, q) ↦
          let r : Reply = market_put_market_order d clock fuel true a.0 a.1 s in
          let same : on_cmd_order_put_market params s ≡ market_reply r =
            rw (on_cmd_order_put_market, q) refl in
          let ran : (r.code ≡ done) × ((market_reply r).1 ≡ r.state) =
            market_reply_logged r (sym (ap (λ o. o.2) same) ∙ h) in
          (
            a,
            (
              ran.0,
              (
                ap (λ o. o.1) same ∙ ran.1,
                rw (load_market_order, load_market_args-market_args params a q) refl,
              ),
            ),
          )
    ]
