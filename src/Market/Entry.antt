-- ===== src/Market/Entry.antt =====
-- order_put (matchengine/me_market.c) of a new limit order.
use Prim.Native.Nat.{Ordering}
use viabtc_exchange_server.Base.{
  ℕ, ◌≡◌, ◌≢◌, ◌↔◌, refl, subst, sym, ◌∙◌, ap, inl, inr, Bool, false, Option, none, some, List, [],
  ◌∷◌, arith, All, Option-cases, nat_eq,
}
use viabtc_exchange_server.Base.Int.{ℤ}
use viabtc_exchange_server.Decimal.{Decimal}
use viabtc_exchange_server.Dict
use viabtc_exchange_server.SkipList
use viabtc_exchange_server.Balance.{Ledger, balance_freeze}
use viabtc_exchange_server.Order.{
  Order, State, Side, ask, bid, limit, Market, order_match_compare, order_id_compare,
}
use viabtc_exchange_server.Market.Book.{
  contains, put_user, charged, freeze_funds, put_side, put_limit, order_put,
}
use viabtc_exchange_server.Market.Invariant.{resting}
use viabtc_exchange_server.Market.Cancel.Exactly.{book_at, other_at}

-- The list of the user does not hold the id.
abbrev pub NotListed : Option (List ℕ) → ℕ → Type 0
NotListed none i = Unit
NotListed (some ids) i = SkipList.find order_id_compare i ids ≡ none

-- The order is in no dictionary, and its id in no order of the book.
pub record IsNew (o : Order) (s : State) : Type 0 where
  pub type : o.type ≡ limit
  pub unknown : contains o.id s.orders ≡ false
  pub unlisted : NotListed (Dict.find o.user_id s.users) o.id
  pub outside : All (λ x. x.id ≢ o.id) (book_at o.side s)

equal_ids : (x v : Order) → x.id ≢ v.id → order_match_compare x v ≢ Ordering.eq
unfolding order_match_compare
equal_ids x v n = ground arith

module _ (v : Order) where
  last_le_differs :
      (seen : Option Order) (xs : List Order)
      → ((x : Order) → seen ≡ some x → order_match_compare x v ≢ Ordering.eq)
      → All (λ x. x.id ≢ v.id) xs
      → (x : Order) → SkipList.last_le order_match_compare v seen xs ≡ some x
      → order_match_compare x v ≢ Ordering.eq
  unfolding SkipList.last_le
  last_le_differs seen [] h hs x e = h x e
  last_le_differs seen (y ∷ ys) h hs x e =
      step (order_match_compare y v) (last_le_differs (some y) ys on hs.1) x e
    where
      on : (x : Order) → some y ≡ some x → order_match_compare x v ≢ Ordering.eq
      on x e =
          let q : y ≡ x = cc in
          subst (λ z. order_match_compare z v ≢ Ordering.eq) q (equal_ids y v hs.0)

      step :
          (c : Ordering)
          → ((x : Order)
              → SkipList.last_le order_match_compare v (some y) ys ≡ some x
              → order_match_compare x v ≢ Ordering.eq)
          → (x : Order)
          → (elim c [ Ordering.gt ↦ seen | _ ↦ SkipList.last_le order_match_compare v (some y) ys ])
            ≡ some x
          → order_match_compare x v ≢ Ordering.eq
      step Ordering.gt later x e = h x e
      step Ordering.lt later x e = later x e
      step Ordering.eq later x e = later x e

  find_lem :
      (xs : List Order) → All (λ x. x.id ≢ v.id) xs → SkipList.find order_match_compare v xs ≡ none
  unfolding SkipList.find
  find_lem xs new = elim (Option-cases (SkipList.last_le order_match_compare v none xs)) [
    | inl e ↦ rw (e, SkipList.find) refl
    | inr (x, e) ↦
        let n = last_le_differs none xs (λ x q. absurd (ground arith)) new x e in
        let c : SkipList.is_eq (order_match_compare x v) ≡ false =
          differs (order_match_compare x v) n in
        rw (e, SkipList.find) (rw c refl)
  ]
    where
      differs : (c : Ordering) → c ≢ Ordering.eq → SkipList.is_eq c ≡ false
      differs Ordering.lt n = refl
      differs Ordering.gt n = refl
      differs Ordering.eq n = absurd (n refl)

  -- skiplist_insert of an order with a new id does not fail.
  insert_lem :
      (xs : List Order)
      → All (λ x. x.id ≢ v.id) xs
      → SkipList.insert order_match_compare v xs ≡ some (SkipList.place order_match_compare v xs)
  unfolding SkipList.insert
  insert_lem xs new = rw (find_lem xs new, SkipList.insert) refl

module _ (d : Decimal) (m : Market) (o : Order) where
  -- What balance_freeze returns for the order.
  abbrev pub freezing : Side → State → Option ℤ × Ledger
  freezing ask s = balance_freeze d s.ledger o.user_id m.stock o.left
  freezing bid s = balance_freeze d s.ledger o.user_id m.money (d.mul o.price o.left)

  -- The order stands in its book, with its funds frozen or not.
  pub record Entered (side : Side) (s : State) (r : Bool × State) : Type 0 where
    pub in_book :
        book_at side r.1 ≡ SkipList.place order_match_compare (resting d m o side) (book_at side s)
    pub other_book : other_at side r.1 ≡ other_at side s
    pub ledger : r.1.ledger ≡ (freezing side s).1
    pub answer : (r.0 ≡ false) ↔ ((freezing side s).0 ≡ none)

  charged_answer : (s : State) (r : Option ℤ × Ledger) → ((charged s r).0 ≡ false) ↔ (r.0 ≡ none)
  unfolding charged
  charged_answer s (none, l) = ground arith
  charged_answer s (some v, l) = ground arith

  charged_state : (s : State) (r : Option ℤ × Ledger) → (charged s r).1 ≡ record s { ledger = r.1 }
  unfolding charged
  charged_state s (none, l) = refl
  charged_state s (some v, l) = refl

  -- What put_user leaves alone.
  abbrev Listed : State → State → Type 0
  Listed s s' = (s'.asks ≡ s.asks) × (s'.bids ≡ s.bids) × (s'.ledger ≡ s.ledger)

  put_user_lem :
      (u i : ℕ) (s : State)
      → NotListed (Dict.find u s.users) i
      → (s' : State) × (put_user u i s ≡ some s') × Listed s s'
  unfolding put_user SkipList.insert
  put_user_lem u i s n = elim (Option-cases (Dict.find u s.users)) [
    | inl e ↦
        (record s { users = (u, i ∷ []) ∷ s.users }, rw (e, put_user) refl, (refl, refl, refl))
    | inr (ids, e) ↦
        let k : SkipList.find order_id_compare i ids ≡ none = rw e at n in
        (
          record s { users = Dict.store u (SkipList.place order_id_compare i ids) s.users },
          rw (e, put_user) (rw (k, SkipList.insert) refl),
          (refl, refl, refl),
        )
  ]

  put_side-Entered :
      (side : Side) (s : State)
      → All (λ x. x.id ≢ o.id) (book_at side s)
      → Entered side s (put_side d m s o side)
  unfolding put_side freeze_funds
  put_side-Entered ask s new =
      let r = freezing ask s in
      let v = resting d m o ask in
      let s1 = record s { asks = SkipList.place order_match_compare v s.asks } in
      rw (insert_lem v s.asks new, put_side)
        (record {
          in_book = ap (λ z. z.asks) (charged_state s1 r);
          other_book = ap (λ z. z.bids) (charged_state s1 r);
          ledger = ap (λ z. z.ledger) (charged_state s1 r);
          answer = charged_answer s1 r;
        })
  put_side-Entered bid s new =
      let r = freezing bid s in
      let v = resting d m o bid in
      let s1 = record s { bids = SkipList.place order_match_compare v s.bids } in
      rw (insert_lem v s.bids new, put_side)
        (record {
          in_book = ap (λ z. z.bids) (charged_state s1 r);
          other_book = ap (λ z. z.asks) (charged_state s1 r);
          ledger = ap (λ z. z.ledger) (charged_state s1 r);
          answer = charged_answer s1 r;
        })

  then-Entered :
      (side : Side) (s s1 : State) (r : Bool × State)
      → Listed s s1
      → Entered side s1 r
      → Entered side s r
  then-Entered ask s s1 r (ea, eb, el) e = record {
    in_book = e.in_book ∙ ap (SkipList.place order_match_compare (resting d m o ask)) ea;
    other_book = e.other_book ∙ eb;
    ledger = e.ledger ∙ ap (λ l. (balance_freeze d l o.user_id m.stock o.left).1) el;
    answer =
        subst (λ l. (r.0 ≡ false) ↔ ((balance_freeze d l o.user_id m.stock o.left).0 ≡ none)) el
          e.answer;
  }
  then-Entered bid s s1 r (ea, eb, el) e = record {
    in_book = e.in_book ∙ ap (SkipList.place order_match_compare (resting d m o bid)) eb;
    other_book = e.other_book ∙ ea;
    ledger =
        e.ledger ∙ ap (λ l. (balance_freeze d l o.user_id m.money (d.mul o.price o.left)).1) el;
    answer =
        subst
          (λ l.
            (r.0 ≡ false)
            ↔ ((balance_freeze d l o.user_id m.money (d.mul o.price o.left)).0 ≡ none))
          el e.answer;
  }

  outside_after :
      (side : Side) (s s1 : State)
      → Listed s s1
      → All (λ x. x.id ≢ o.id) (book_at side s)
      → All (λ x. x.id ≢ o.id) (book_at side s1)
  outside_after ask s s1 l h = rw l.0 h
  outside_after bid s s1 l h = rw l.1 h

  -- A new limit order enters its book at its place with its freeze field set, and the other book
  -- stays as it is, whether balance_freeze covers it or not: the ledger is what balance_freeze
  -- leaves, and order_put fails exactly when balance_freeze does. It is a limit order, unknown to
  -- the dictionaries, and its id in no order of its book.
  pub order_put-Entered : (s : State) → IsNew o s → Entered o.side s (order_put d m s o)
  unfolding order_put put_limit
  order_put-Entered s new =
      let s1 = record s { orders = o.id ∷ s.orders } in
      let (s2, e, l) = put_user_lem o.user_id o.id s1 new.unlisted in
      let entered : put_limit d m s o limit ≡ put_side d m s2 o o.side =
        rw (new.unknown, put_limit) (rw e refl) in
      subst (Entered o.side s) (sym (ap (put_limit d m s o) new.type ∙ entered)) (
        then-Entered o.side s s2 (put_side d m s2 o o.side) l
          (put_side-Entered o.side s2 (outside_after o.side s s2 l new.outside)))
