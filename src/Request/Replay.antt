-- ===== src/Request/Replay.antt =====
-- What the server of matchengine/me_server.c logs, and what matchengine/me_load.c makes of it.
use viabtc_exchange_server.Base.{
  ℕ, ◌≡◌, ◌⊎◌, inl, inr, refl, ap, sym, ◌∙◌, true, false, Option, none, some, List, arith,
  Bool-cases, Option-cases,
}
use viabtc_exchange_server.Base.Int.{ℤ, pos, ltb_ℤ, eqb_ℤ}
use viabtc_exchange_server.Decimal.{Decimal}
use viabtc_exchange_server.Order.{Order, limit, next_id, Market, State}
use viabtc_exchange_server.Market.Put.{
  done, Request, Reply, market_put_limit_order, limit_short, settle_limit, execute_limit, new_order,
  admit,
}
use viabtc_exchange_server.Request.{
  Json, loads, limit_args, load_args, limit_reply, on_cmd_order_put_limit, load_limit_order, ◌>>=◌,
}

-- A chain that succeeds has a first result.
bind-some {ℓ κ} :
    {A : Type ℓ} {B : Type κ} (o : Option A) (f : A → Option B) (b : B)
    → (o >>= f) ≡ some b
    → (a : A) × ((o ≡ some a) × (f a ≡ some b))
bind-some none f b h = ground (arith, h)
bind-some (some a) f b h = (a, (refl, h))

module _ (d : Decimal) (intern : List ℕ → ℕ) (parse : List ℕ → Option ℤ) (m : Market) where
  pub load_args-limit_args :
      (params : List Json) (a : Market × Request)
      → limit_args d intern parse m params ≡ some a
      → load_args d intern parse m params ≡ loads a.0 a.1
  unfolding limit_args load_args
  load_args-limit_args params a h = ground (arith, h)

  module _ (clock : ℕ → ℕ) where
    reply_logged :
        (r : Reply)
        → (limit_reply d intern parse m clock r).2 ≡ true
        → (r.code ≡ done) × ((limit_reply d intern parse m clock r).1 ≡ r.state)
    unfolding limit_reply
    reply_logged r h = ground (arith, h)

    unlogged :
        (r : Reply) (s : State)
        → (limit_reply d intern parse m clock r).2 ≡ false
        → (r.code ≡ done) ⊎ (r.state ≡ s)
        → (limit_reply d intern parse m clock r).1 ≡ s
    unfolding limit_reply
    unlogged r s h u = ground (arith, h, u)

    -- A request for a limit order that the server appended to the operation log was put into the
    -- market with some arguments, its code was 0 and the server goes on with the state of this
    -- call; the loader, given the logged request, puts an order with the same arguments into
    -- whatever state it is in.
    pub load_limit_order-on_cmd :
        (params : List Json) (s t : State)
        → (on_cmd_order_put_limit d intern parse m clock params s).2 ≡ true
        → (a : Market × Request) × (((market_put_limit_order d clock true a.0 a.1 s).code ≡ done)
            × (((on_cmd_order_put_limit d intern parse m clock params s).1
                  ≡ (market_put_limit_order d clock true a.0 a.1 s).state)
                × (load_limit_order d intern parse m clock params t
                    ≡ some (
                      (market_put_limit_order d clock false a.0 a.1 t).code,
                      (market_put_limit_order d clock false a.0 a.1 t).state,
                    ))))
    unfolding on_cmd_order_put_limit load_limit_order
    load_limit_order-on_cmd params s t h =
        elim (Option-cases (limit_args d intern parse m params)) [
          | inl q ↦ ground (arith, h, q)
          | inr (a, q) ↦
              let r : Reply = market_put_limit_order d clock true a.0 a.1 s in
              let same : on_cmd_order_put_limit d intern parse m clock params s
                  ≡ limit_reply d intern parse m clock r =
                rw (on_cmd_order_put_limit, q) refl in
              let ran : (r.code ≡ done) × ((limit_reply d intern parse m clock r).1 ≡ r.state) =
                reply_logged r (sym (ap (λ o. o.2) same) ∙ h) in
              (
                a,
                (
                  ran.0,
                  (
                    ap (λ o. o.1) same ∙ ran.1,
                    rw (load_limit_order, load_args-limit_args params a q) refl,
                  ),
                ),
              )
        ]

    settled :
        (found : Market) (o : Order) (s : State) → (settle_limit d clock true found o s).code ≡ done
    unfolding settle_limit
    settled found o s = elim (Bool-cases (eqb_ℤ o.left (pos 0))) [
      | inl y ↦ rw (settle_limit, y) refl
      | inr n ↦ rw (settle_limit, n) refl
    ]

    refused :
        (found : Market) (q : Request) (s : State)
        → ((market_put_limit_order d clock true found q s).code ≡ done)
          ⊎ ((market_put_limit_order d clock true found q s).state ≡ s)
    unfolding market_put_limit_order
    refused found q s = elim (Bool-cases (limit_short d clock found q q.side s.ledger)) [
      | inl y ↦ inr (rw (market_put_limit_order, y) refl)
      | inr n ↦ elim (Bool-cases (ltb_ℤ q.amount found.min_amount)) [
        | inl y ↦ inr (rw (market_put_limit_order, n, y) refl)
        | inr k ↦ inl (
            rw (market_put_limit_order, n, k)
              (settled found
                (execute_limit d clock q.side true found
                  (new_order limit found q (next_id s.order_id_start) (clock s.ticks)) (admit s)).0
                (execute_limit d clock q.side true found
                  (new_order limit found q (next_id s.order_id_start) (clock s.ticks))
                  (admit s)).1))
      ]
    ]

    -- A request for a limit order that is not appended to the operation log, because an argument
    -- is wrong, the balance does not cover it or the amount is too small, leaves the engine as it
    -- was.
    pub on_cmd_order_put_limit-refuses :
        (params : List Json) (s : State)
        → (on_cmd_order_put_limit d intern parse m clock params s).2 ≡ false
        → (on_cmd_order_put_limit d intern parse m clock params s).1 ≡ s
    unfolding on_cmd_order_put_limit limit_reply
    on_cmd_order_put_limit-refuses params s h =
        elim (Option-cases (limit_args d intern parse m params)) [
          | inl q ↦ rw (on_cmd_order_put_limit, q) refl
          | inr (a, q) ↦
              let r : Reply = market_put_limit_order d clock true a.0 a.1 s in
              let same : on_cmd_order_put_limit d intern parse m clock params s
                  ≡ limit_reply d intern parse m clock r =
                rw (on_cmd_order_put_limit, q) refl in
              ap (λ o. o.1) same ∙ unlogged r s (sym (ap (λ o. o.2) same) ∙ h) (refused a.0 a.1 s)
        ]
