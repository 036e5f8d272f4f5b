-- ===== src/Market/MarketAsk.antt =====
-- market_put_market_order (matchengine/me_market.c) of an order that asks.
use viabtc_exchange_server.Base.{
  ℕ, ◌≡◌, ◌≤◌, ◌<◌, ◌+◌, ◌^◌, refl, sym, subst, ◌∙◌, inl, inr, Bool, false, arith, ◌⊎◌,
}
use viabtc_exchange_server.Base.Int.{pos, ◌≤ℤ◌, int_laws}
use viabtc_exchange_server.Decimal.{Decimal, IsDecimal, Fits}
use viabtc_exchange_server.Order.{Order, State, ask, bid, market, Market, next_id}
use viabtc_exchange_server.Market.Book.{log_if}
use viabtc_exchange_server.Market.Execute.{execute_market_ask_order}
use viabtc_exchange_server.Market.Put.{
  Code, done, no_balance, small_amount, no_counterpart, Request, new_order, admit, market_check,
  execute_market, settle_market, market_put_market_order,
}
use viabtc_exchange_server.Market.Matching.Front.{Matched}
use viabtc_exchange_server.Market.Matching.Fills.{IsFilled, IsMaker}
use viabtc_exchange_server.Market.Matching.Rounds.{book_of, other_of}
use viabtc_exchange_server.Market.Matching.Limits.{execute_market_ask_order-Matched}
use viabtc_exchange_server.Market.Invariant.{IsMarket, IsMarket-of_books, IsBook-mono}
use viabtc_exchange_server.Market.Limit.{next_id_lem, Eaten-IsBook, bids-Eaten}

code_cases : (c : Code) → (c ≡ done) ⊎ (c ≡ no_balance) ⊎ (c ≡ small_amount) ⊎ (c ≡ no_counterpart)
code_cases done = inl refl
code_cases no_balance = inr (inl refl)
code_cases small_amount = inr (inr (inl refl))
code_cases no_counterpart = inr (inr (inr refl))

module _ (d : Decimal) (law : IsDecimal d) (clock : ℕ → ℕ) (real : Bool) (m : Market) where
  -- A market whose bids were run against by an order that asks.
  asked-IsMarket :
      (o : Order) (s s0 s1 : State) (t : Order)
      → IsMarket d s
      → s.order_id_start ≤ o.id
      → s0.asks ≡ s.asks
      → s0.order_id_start ≡ o.id
      → Matched
          (book_of bid)
          (other_of bid)
          (IsFilled d)
          (IsMaker d bid)
          (λ t k. false)
          o
          s0
          s.bids
          (t, s1)
      → IsMarket d s1
  asked-IsMarket o s s0 s1 t inv le ea es r =
      IsMarket-of_books d s1 o.id s.asks s1.bids (r.other_book ∙ ea) refl (r.start ∙ es) (record {
        asks_sound = IsBook-mono d ask s.order_id_start o.id s.asks le inv.asks_sound;
        bids_sound =
            Eaten-IsBook d bid o.id s.bids s1.bids
              (IsBook-mono d bid s.order_id_start o.id s.bids le inv.bids_sound) r.eaten r.makers;
        uncrossed = bids-Eaten s.asks s.bids s1.bids r.eaten inv.uncrossed;
      })

  module _ (fuel : ℕ) (q : Request) (s : State) (inv : IsMarket d s)
      (room : s.order_id_start + 1 < 2 ^ 64) (nonneg : pos 0 ≤ℤ q.amount) (fits : Fits d q.amount)
      (sells : q.side ≡ ask) where
    abbrev entering : Order
    unfolding new_order
    entering =
        new_order market m (record q { price = pos 0; maker_fee = pos 0 })
          (next_id s.order_id_start) (clock s.ticks)

    entering-IsFilled : IsFilled d entering
    unfolding new_order
    entering-IsFilled = record {
      left_nonneg = nonneg;
      dealt_nonneg = omega arith;
      whole = omega int_laws;
      fits = fits;
    }

    executed : IsMarket d (execute_market d clock fuel ask real m entering (admit s)).1
    unfolding execute_market new_order
    executed =
        let r = execute_market_ask_order d clock real m entering s.bids (admit s) in
        asked-IsMarket entering s (admit s) r.1 r.0 inv
          (let e = next_id_lem s.order_id_start room in omega arith) refl refl
          (execute_market_ask_order-Matched d law clock real m entering (admit s) entering-IsFilled
            inv.bids_sound.makers inv.bids_sound.in_order)

    -- A request to put a market order that asks, refused or run against the bids, leaves a sound
    -- market, where the market was sound before, the order counter has room, and the amount is not
    -- negative and fits.
    pub market_put_market_order_ask-IsMarket :
        IsMarket d (market_put_market_order d clock fuel real m q s).state
    unfolding market_put_market_order settle_market log_if new_order entering
    market_put_market_order_ask-IsMarket = elim (code_cases (market_check d clock m q q.side s)) [
      | inl e ↦
          rw (e, market_put_market_order)
            (subst (λ z. IsMarket d (execute_market d clock fuel z real m entering (admit s)).1)
              (sym sells) executed)
      | inr (inl e) ↦ rw (e, market_put_market_order) inv
      | inr (inr (inl e)) ↦ rw (e, market_put_market_order) inv
      | inr (inr (inr e)) ↦ rw (e, market_put_market_order) inv
    ]
