-- ===== src/Market/Limit/Ask.antt =====
-- The end of market_put_limit_order (matchengine/me_market.c) for an order that asks.
use viabtc_exchange_server.Base.{
  ℕ, ◌≡◌, ◌<◌, refl, ◌∙◌, ap, subst, inl, inr, Bool, true, false, List, [], ◌∷◌, arith, All,
  Bool-cases,
}
use viabtc_exchange_server.Base.Int.{pos, ◌<ℤ◌, eqb_ℤ, ltb_ℤ→lt}
use viabtc_exchange_server.Decimal.{Decimal, IsDecimal}
use viabtc_exchange_server.Order.{Order, State, ask, bid, limit, Market, order_message, put}
use viabtc_exchange_server.Market.Book.{log_if, order_put}
use viabtc_exchange_server.Market.Execute.{ask_stops}
use viabtc_exchange_server.Market.Put.{settle_limit}
use viabtc_exchange_server.Market.Matching.Front.{Matched, Ended, InOrder}
use viabtc_exchange_server.Market.Matching.Fills.{IsFilled, IsMaker}
use viabtc_exchange_server.Market.Matching.Rounds.{book_of, other_of}
use viabtc_exchange_server.Market.Placing.{bids_below}
use viabtc_exchange_server.Market.Invariant.{
  IsBook, IsMarket, AreBooks, IsMarket-of_books, PutSide, resting, order_put-PutSide, IsBook-mono,
  Enters-IsBook,
}
use viabtc_exchange_server.Market.Limit.{ask-Enters, Eaten-IsBook, bids-Eaten}

module _ (d : Decimal) (law : IsDecimal d) (clock : ℕ → ℕ) (real : Bool) (m : Market) where
  module _ (o : Order) (s s0 s1 : State) (t : Order) (inv : IsMarket d s)
      (lt : s.order_id_start < o.id) (ty : o.type ≡ limit) (ea : s0.asks ≡ s.asks)
      (eb : s0.bids ≡ s.bids) (es : s0.order_id_start ≡ o.id) where
    -- The end of a limit order that asks, from what its loop has done.
    module _ (sd : o.side ≡ ask)
        (r : Matched
          (book_of bid)
          (other_of bid)
          (IsFilled d)
          (IsMaker d bid)
          (ask_stops d clock)
          o
          s0
          s.bids
          (t, s1)) where
      asks_kept : s1.asks ≡ s.asks
      asks_kept = r.other_book ∙ ea

      start_kept : s1.order_id_start ≡ o.id
      start_kept = r.start ∙ es

      bids_after : IsBook d bid o.id s1.bids
      bids_after =
          Eaten-IsBook d bid o.id s.bids s1.bids
            (IsBook-mono d bid s.order_id_start o.id s.bids (omega arith) inv.bids_sound) r.eaten
            r.makers

      asks_before : AreBooks d o.id s.asks s1.bids
      asks_before = record {
        asks_sound = IsBook-mono d ask s.order_id_start o.id s.asks (omega arith) inv.asks_sound;
        bids_sound = bids_after;
        uncrossed = bids-Eaten s.asks s.bids s1.bids r.eaten inv.uncrossed;
      }

      -- An order that is not filled stopped at a bid below its price.
      stopped_below :
          (bids : List Order)
          → Ended (ask_stops d clock) t bids
          → eqb_ℤ t.left (pos 0) ≡ false
          → InOrder bids
          → All (IsMaker d bid) bids
          → All (λ b. b.price <ℤ t.price) bids
      stopped_below [] e more io mk = tt
      stopped_below (k ∷ bids) (inl z) more io mk =
          let y : eqb_ℤ t.left (pos 0) ≡ true = ap (λ v. eqb_ℤ v (pos 0)) z in cc
      stopped_below (k ∷ bids) (inr st) more io mk =
          bids_below d t.price k bids (ltb_ℤ→lt k.price t.price st) io mk

      ask_rests :
          (s' : State) → PutSide d m t ask s1 s' → eqb_ℤ t.left (pos 0) ≡ false → IsMarket d s'
      ask_rests s' (en, eb', es') more =
          IsMarket-of_books d s' o.id s'.asks s1.bids refl eb' (es' ∙ start_kept) (record {
            asks_sound =
                subst (λ n. IsBook d ask n s'.asks) r.same.id
                  (Enters-IsBook d ask (resting d m t ask) s.order_id_start s.asks s'.asks
                    inv.asks_sound
                    (record {
                      filled = record {
                        left_nonneg = r.taker.left_nonneg;
                        dealt_nonneg = r.taker.dealt_nonneg;
                        whole = r.taker.whole;
                        fits = r.taker.fits;
                      };
                      on_side = r.same.side ∙ sd;
                      resting = r.same.type ∙ ty;
                    })
                    (rw r.same.id lt) (rw (← asks_kept) en));
            bids_sound = bids_after;
            uncrossed =
                ask-Enters (resting d m t ask) t.price s1.bids s.asks s'.asks refl
                  (stopped_below s1.bids r.ended more bids_after.in_order r.makers)
                  asks_before.uncrossed (rw (← asks_kept) en);
          })

      pub settle_limit_ask-IsMarket : IsMarket d (settle_limit d clock real m t s1).state
      unfolding settle_limit log_if
      settle_limit_ask-IsMarket = elim (Bool-cases (eqb_ℤ t.left (pos 0))) [
        | inl z ↦
            rw z (IsMarket-of_books d s1 o.id s.asks s1.bids asks_kept refl start_kept asks_before)
        | inr more ↦ rw more (
            ask_rests (order_put d m (log_if real (order_message put t) s1) t).1
              (order_put-PutSide d m t ask (log_if real (order_message put t) s1)
                (r.same.side ∙ sd))
              more)
      ]
