-- ===== src/Market/Matching/Rounds.antt =====
-- One round of the loops of matchengine/me_market.c: what is left of the two orders, and of the book.
use viabtc_exchange_server.Base.{
  ℕ, ◌≡◌, refl, ◌∙◌, ap, ◌⊎◌, inl, inr, Bool, true, false, List, ◌∷◌, arith, if◌then◌else◌,
  Bool-cases,
}
use viabtc_exchange_server.Base.Int.{
  ℤ, pos, pos_part, neg_part, ◌+ℤ◌, ◌-ℤ◌, ◌≤ℤ◌, eqb_ℤ, eqb_ℤ→eq, int_laws,
}
use viabtc_exchange_server.Decimal.{Decimal, IsDecimal}
use viabtc_exchange_server.Order.{Order, State, Side, ask, bid, Market, order_message, finish}
use viabtc_exchange_server.Market.Book.{log_if, drop_node}
use viabtc_exchange_server.Market.Settle.{fill_taker, fill_maker, trade_ask, trade_bid}
use viabtc_exchange_server.Market.Execute.{
  min_left, finish_round, write_order, write_side, limit_ask_deal, limit_ask_round, limit_bid_deal,
  limit_bid_round, market_ask_deal, market_ask_round,
}
use viabtc_exchange_server.Market.Matching.Front.{
  Before, SameOrder, Rounded, Before-SameOrder, total_left,
}
use viabtc_exchange_server.Market.Matching.Fills.{
  IsFilled, IsMaker, IsMin, min_left-IsMin, fill-IsFilled, all_used, left_exact,
}
use viabtc_exchange_server.Market.Matching.Frames.{
  SameBooks, asks_without, bids_without, drop_node_first, order_finish-Books, trade_ask-SameBooks,
  trade_bid-SameBooks, write_order_first,
}

-- The book of a side.
abbrev pub book_of : Side → State → List Order
book_of ask s = s.asks
book_of bid s = s.bids

module _ (d : Decimal) (clock : ℕ → ℕ) (real : Bool) (m : Market) (k k' : Order)
    (rest : List Order) where
  finish_round_bid :
      (s : State)
      → s.bids ≡ k ∷ rest
      → Before k' rest
      → SameOrder k k'
      → k'.side ≡ bid
      → (finish_round d clock real m k' bid s).bids
        ≡ (if eqb_ℤ k'.left (pos 0) then rest else k' ∷ rest)
  unfolding finish_round write_side log_if
  finish_round_bid s e h same side = elim (Bool-cases (eqb_ℤ k'.left (pos 0))) [
    | inl z ↦ rw z ((order_finish-Books d real m s1 k').1 ∙ without ∙ drop_node_first k' rest h)
    | inr n ↦ rw n written
  ]
    where
      s1 : State
      s1 = log_if real (order_message finish k') (write_side s k' bid)

      written : write_order k' s.bids ≡ k' ∷ rest
      written = ap (write_order k') e ∙ write_order_first k k' rest same.id

      without : bids_without d k' k'.side s1.bids ≡ drop_node k' (k' ∷ rest)
      without = ap (λ x. bids_without d k' x s1.bids) side ∙ ap (drop_node k') written

  finish_round_ask :
      (s : State)
      → s.asks ≡ k ∷ rest
      → Before k' rest
      → SameOrder k k'
      → k'.side ≡ ask
      → (finish_round d clock real m k' ask s).asks
        ≡ (if eqb_ℤ k'.left (pos 0) then rest else k' ∷ rest)
  unfolding finish_round write_side log_if
  finish_round_ask s e h same side = elim (Bool-cases (eqb_ℤ k'.left (pos 0))) [
    | inl z ↦ rw z ((order_finish-Books d real m s1 k').0 ∙ without ∙ drop_node_first k' rest h)
    | inr n ↦ rw n written
  ]
    where
      s1 : State
      s1 = log_if real (order_message finish k') (write_side s k' ask)

      written : write_order k' s.asks ≡ k' ∷ rest
      written = ap (write_order k') e ∙ write_order_first k k' rest same.id

      without : asks_without d k' k'.side s1.asks ≡ drop_node k' (k' ∷ rest)
      without = ap (λ x. asks_without d k' x s1.asks) side ∙ ap (drop_node k') written

  -- A filled maker leaves the front of its book; any other is written back there.
  pub finish_round_lem :
      (side : Side) (s : State)
      → book_of side s ≡ k ∷ rest
      → Before k' rest
      → SameOrder k k'
      → k'.side ≡ side
      → book_of side (finish_round d clock real m k' side s)
        ≡ (if eqb_ℤ k'.left (pos 0) then rest else k' ∷ rest)
  finish_round_lem ask s = finish_round_ask s
  finish_round_lem bid s = finish_round_bid s

abbrev pub other_of : Side → State → List Order
other_of ask s = s.bids
other_of bid s = s.asks

module _ (d : Decimal) (clock : ℕ → ℕ) (real : Bool) (m : Market) (k' : Order) where
  pub finish_round-other :
      (side : Side) (s : State)
      → k'.side ≡ side
      → (other_of side (finish_round d clock real m k' side s) ≡ other_of side s)
        × ((finish_round d clock real m k' side s).order_id_start ≡ s.order_id_start)
  unfolding finish_round write_side log_if
  finish_round-other ask s h = elim (Bool-cases (eqb_ℤ k'.left (pos 0))) [
    | inl z ↦
        let b =
          order_finish-Books d real m (log_if real (order_message finish k') (write_side s k' ask))
            k' in
        rw z (b.1 ∙ ap (λ x. bids_without d k' x s.bids) h, b.2)
    | inr n ↦ rw n (refl, refl)
  ]
  finish_round-other bid s h = elim (Bool-cases (eqb_ℤ k'.left (pos 0))) [
    | inl z ↦
        let b =
          order_finish-Books d real m (log_if real (order_message finish k') (write_side s k' bid))
            k' in
        rw z (b.0 ∙ ap (λ x. asks_without d k' x s.asks) h, b.2)
    | inr n ↦ rw n (refl, refl)
  ]

same_other : (side : Side) (s s' : State) → SameBooks s s' → other_of side s' ≡ other_of side s
same_other ask s s' h = h.bids
same_other bid s s' h = h.asks

same_book : (side : Side) (s s' : State) → SameBooks s s' → book_of side s' ≡ book_of side s
same_book ask s s' h = h.asks
same_book bid s s' h = h.bids

deal_moved :
    (t k a t' l : ℤ) (rest : List Order) (k' : Order)
    → k'.left ≡ l
    → t' ≡ t -ℤ a
    → l ≡ k -ℤ a
    → (eqb_ℤ l (pos 0) ≡ true) ⊎ (eqb_ℤ l (pos 0) ≡ false)
    → t +ℤ total_left (if eqb_ℤ l (pos 0) then rest else k' ∷ rest) ≡ t' +ℤ (k +ℤ total_left rest)
deal_moved t k a t' l rest k' kl tl ll (inl z) =
    let n : l ≡ pos 0 = eqb_ℤ→eq l (pos 0) z in
    rw z (
      omega (
        int_laws,
        ap pos_part n,
        ap neg_part n,
        ap pos_part tl,
        ap neg_part tl,
        ap pos_part ll,
        ap neg_part ll,
      ))
deal_moved t k a t' l rest k' kl tl ll (inr n) =
    rw (n, kl) (omega (int_laws, ap pos_part tl, ap neg_part tl, ap pos_part ll, ap neg_part ll))

module _ (d : Decimal) (law : IsDecimal d) (clock : ℕ → ℕ) (real : Bool) (m : Market) where
  -- A round of a loop over the book of a side, from what it does to the taker, the maker and the books.
  side_round :
      (side : Side) (t k : Order) (rest : List Order) (a : ℤ) (t' k' : Order) (s s' : State)
      → IsFilled d t
      → IsMaker d side k
      → IsMin a t k
      → book_of side s ≡ k ∷ rest
      → Before k rest
      → SameBooks s s'
      → SameOrder t t'
      → SameOrder k k'
      → t'.left ≡ d.sub t.left a
      → t'.deal_stock ≡ d.add t.deal_stock a
      → k'.left ≡ d.sub k.left a
      → k'.deal_stock ≡ d.add k.deal_stock a
      → Rounded
          (book_of side)
          (other_of side)
          (IsFilled d)
          (IsMaker d side)
          t
          k
          rest
          s
          (t', finish_round d clock real m k' side s')
  side_round side t k rest a t' k' s s' ft mk mn e h same st sk tl td kl kd = (
    fill-IsFilled d law t ft a mn.nonneg mn.le_taker t' tl td st.amount,
    st,
    after.0 ∙ same_other side s s' same,
    after.1 ∙ same.start,
    moved (Bool-cases (eqb_ℤ k'.left (pos 0))),
    cases (Bool-cases (eqb_ℤ k'.left (pos 0))),
  )
    where
      on : k'.side ≡ side
      on = sk.side ∙ mk.on_side

      after :
          (other_of side (finish_round d clock real m k' side s') ≡ other_of side s')
          × ((finish_round d clock real m k' side s').order_id_start ≡ s'.order_id_start)
      after = finish_round-other d clock real m k' side s' on

      book :
          book_of side (finish_round d clock real m k' side s')
          ≡ (if eqb_ℤ k'.left (pos 0) then rest else k' ∷ rest)
      book =
          finish_round_lem d clock real m k k' rest side s' (same_book side s s' same ∙ e)
            (Before-SameOrder k k' rest sk h) sk on

      -- The maker loses what the taker is filled by; a maker that is gone had no more.
      moved :
          (eqb_ℤ k'.left (pos 0) ≡ true) ⊎ (eqb_ℤ k'.left (pos 0) ≡ false)
          → t.left +ℤ total_left (book_of side (finish_round d clock real m k' side s'))
            ≡ t'.left +ℤ (k.left +ℤ total_left rest)
      moved c =
          ap (λ b. t.left +ℤ total_left b) book
          ∙ deal_moved t.left k.left a t'.left k'.left rest k' refl
              (tl ∙ left_exact d law t ft a mn.nonneg mn.le_taker)
              (kl ∙ left_exact d law k mk.filled a mn.nonneg mn.le_maker) c

      cases :
          (eqb_ℤ k'.left (pos 0) ≡ true) ⊎ (eqb_ℤ k'.left (pos 0) ≡ false)
          → (book_of side (finish_round d clock real m k' side s') ≡ rest)
            ⊎ ((k'' : Order) × SameOrder k k''
                × (k''.left ≤ℤ k.left)
                × IsMaker d side k''
                × (book_of side (finish_round d clock real m k' side s') ≡ k'' ∷ rest)
                × (t'.left ≡ pos 0))
      cases (inl z) = inl (book ∙ ap (λ b. if b then rest else k' ∷ rest) z)
      cases (inr z) = inr (
        k',
        sk,
        rw (kl ∙ left_exact d law k mk.filled a mn.nonneg mn.le_maker)
            (omega (int_laws, mn.nonneg)),
        record {
          filled = fill-IsFilled d law k mk.filled a mn.nonneg mn.le_maker k' kl kd sk.amount;
          on_side = on;
          resting = sk.type ∙ mk.resting;
        },
        book ∙ ap (λ b. if b then rest else k' ∷ rest) z,
        taker_done mn.one,
      )
        where
          taker_done : (a ≡ t.left) ⊎ (a ≡ k.left) → t'.left ≡ pos 0
          taker_done (inl q) = all_used d law t ft a mn.nonneg mn.le_taker t'.left tl q
          taker_done (inr q) =
              let w = all_used d law k mk.filled a mn.nonneg mn.le_maker k'.left kl q in
              let y : eqb_ℤ k'.left (pos 0) ≡ true = ap (λ v. eqb_ℤ v (pos 0)) w in cc

  pub limit_ask_Rounded :
      (t k : Order) (rest : List Order) (s : State)
      → IsFilled d t
      → IsMaker d bid k
      → s.bids ≡ k ∷ rest
      → Before k rest
      → Rounded
          (book_of bid)
          (other_of bid)
          (IsFilled d)
          (IsMaker d bid)
          t
          k
          rest
          s
          (limit_ask_round d clock real m t k s)
  unfolding limit_ask_round trade_ask fill_taker fill_maker limit_ask_deal
  limit_ask_Rounded t k rest s ft mk e h =
      let r = trade_ask d clock real m m.money (limit_ask_deal d t k) t k s in
      side_round bid t k rest (min_left t k) r.0 r.1 s r.2 ft mk (min_left-IsMin d t k ft mk.filled)
        e h (trade_ask-SameBooks d clock real m m.money (limit_ask_deal d t k) t k s) (ground arith)
        (ground arith) refl refl refl refl

  pub market_ask_Rounded :
      (t k : Order) (rest : List Order) (s : State)
      → IsFilled d t
      → IsMaker d bid k
      → s.bids ≡ k ∷ rest
      → Before k rest
      → Rounded
          (book_of bid)
          (other_of bid)
          (IsFilled d)
          (IsMaker d bid)
          t
          k
          rest
          s
          (market_ask_round d clock real m t k s)
  unfolding market_ask_round trade_ask fill_taker fill_maker market_ask_deal
  market_ask_Rounded t k rest s ft mk e h =
      let r = trade_ask d clock real m m.stock (market_ask_deal d t k) t k s in
      side_round bid t k rest (min_left t k) r.0 r.1 s r.2 ft mk (min_left-IsMin d t k ft mk.filled)
        e h (trade_ask-SameBooks d clock real m m.stock (market_ask_deal d t k) t k s)
        (ground arith) (ground arith) refl refl refl refl

  pub limit_bid_Rounded :
      (t k : Order) (rest : List Order) (s : State)
      → IsFilled d t
      → IsMaker d ask k
      → s.asks ≡ k ∷ rest
      → Before k rest
      → Rounded
          (book_of ask)
          (other_of ask)
          (IsFilled d)
          (IsMaker d ask)
          t
          k
          rest
          s
          (limit_bid_round d clock real m t k s)
  unfolding limit_bid_round trade_bid fill_taker fill_maker limit_bid_deal
  limit_bid_Rounded t k rest s ft mk e h =
      let a = min_left t k in
      let r = trade_bid d clock real m m.money (limit_bid_deal d t k) a t k s in
      side_round ask t k rest a r.0 r.1 s r.2 ft mk (min_left-IsMin d t k ft mk.filled) e h
        (trade_bid-SameBooks d clock real m m.money (limit_bid_deal d t k) a t k s) (ground arith)
        (ground arith) refl refl refl refl
