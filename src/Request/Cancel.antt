-- ===== src/Request/Cancel.antt =====
-- Requests to cancel an order: on_cmd_order_cancel of matchengine/me_server.c and load_cancel_order of
-- matchengine/me_load.c.
use viabtc_exchange_server.Base.{
  ℕ, ◌-◌, ◌%◌, ◌^◌, ◌≡◌, inl, inr, refl, Bool, true, false, not, Option, none, some, List, arith,
  ◌==◌, ==_iff, if◌then◌else◌, Bool-cases, Option-cases, length,
}
use viabtc_exchange_server.Base.Int.{ℤ, pos, negsuc}
use viabtc_exchange_server.Decimal.{Decimal}
use viabtc_exchange_server.Order.{Order, Market, State}
use viabtc_exchange_server.Market.Book.{market_get_order}
use viabtc_exchange_server.Market.Put.{market_cancel_order}
use viabtc_exchange_server.Request.{Json, ◌>>=◌, integer_at, text_at, get_market, as_u32}

-- The conversion of a json_int_t to a uint64_t.
abbrev pub as_u64 : ℤ → ℕ
as_u64 (pos n) = n % 2 ^ 64
as_u64 (negsuc n) = 2 ^ 64 - 1 - n % 2 ^ 64

-- The errors 10 and 11, and the others.
pub data CancelAnswer : Type 0 where
  wrong_cancel order_not_found user_not_match : CancelAnswer
  cancelled : Option Order → CancelAnswer

module _ (d : Decimal) (intern : List ℕ → ℕ) (parse : List ℕ → Option ℤ) (m : Market)
    (clock : ℕ → ℕ) where
  -- The user, the market and the id; the two functions read them alike.
  unfoldable pub cancel_args : List Json → Option (ℕ × Market × ℕ)
  cancel_args params = if not (length params == 3) then none else do
    user ← integer_at 0 params
    name ← text_at 1 params
    found ← get_market d intern parse m name
    number ← integer_at 2 params
    some (as_u32 user, found, as_u64 number)

  unfoldable pub on_cmd_order_cancel : List Json → State → CancelAnswer × State × Bool
  on_cmd_order_cancel params s = elim (cancel_args params) [
    | none ↦ (wrong_cancel, s, false)
    | some a ↦ elim (market_get_order s a.2) [
      | none ↦ (order_not_found, s, false)
      | some o ↦
          let r = market_cancel_order d clock true a.1 o s in
          if o.user_id == a.0
          then (cancelled r.result, r.state, true)
          else (user_not_match, s, false)
    ]
  ]

  -- `none` for an error; an unknown market changes nothing. The user is not looked at.
  unfoldable pub load_cancel_order : List Json → State → Option State
  load_cancel_order params s = if not (length params == 3) then none else do
    user ← integer_at 0 params
    name ← text_at 1 params
    elim (get_market d intern parse m name) [
      | none ↦ some s
      | some found ↦ do
        number ← integer_at 2 params
        o ← market_get_order s (as_u64 number)
        some (market_cancel_order d clock false found o s).state
    ]

  load_cancel_order-args :
      (params : List Json) (s : State) (a : ℕ × Market × ℕ) (o : Order)
      → cancel_args params ≡ some a
      → market_get_order s a.2 ≡ some o
      → load_cancel_order params s ≡ some (market_cancel_order d clock false a.1 o s).state
  unfolding cancel_args load_cancel_order
  load_cancel_order-args params s a o h g = ground (arith, h, g)

  -- A cancellation that the server appended to the operation log has a user, a market and an id as
  -- its arguments; the market had an order with this id, of this user, and the server cancelled
  -- it; the loader, given the logged request in the same state, cancels the same order.
  pub load_cancel_order-on_cmd :
      (params : List Json) (s : State)
      → (on_cmd_order_cancel params s).2 ≡ true
      → (a : ℕ × Market × ℕ) × ((cancel_args params ≡ some a)
          × ((o : Order) × ((market_get_order s a.2 ≡ some o)
                × ((o.user_id ≡ a.0)
                    × (((on_cmd_order_cancel params s).1
                          ≡ (market_cancel_order d clock true a.1 o s).state)
                        × (load_cancel_order params s
                            ≡ some (market_cancel_order d clock false a.1 o s).state))))))
  unfolding on_cmd_order_cancel
  load_cancel_order-on_cmd params s h = elim (Option-cases (cancel_args params)) [
    | inl q ↦ ground (arith, h, q)
    | inr (a, q) ↦ elim (Option-cases (market_get_order s a.2)) [
      | inl n ↦ ground (arith, h, q, n)
      | inr (o, g) ↦ elim (Bool-cases (o.user_id == a.0)) [
        | inl y ↦ (
          a,
          (
            q,
            (
              o,
              (
                g,
                (
                  (==_iff o.user_id a.0).0 y,
                  (rw (on_cmd_order_cancel, q, g, y) refl, load_cancel_order-args params s a o q g),
                ),
              ),
            ),
          ),
        )
        | inr n ↦ ground (arith, h, q, g, n)
      ]
    ]
  ]
