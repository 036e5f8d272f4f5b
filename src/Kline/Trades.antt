-- ===== src/Kline/Trades.antt =====
-- Candles of a sequence of trades (marketprice/mp_kline.c).
use viabtc_exchange_server.Base.{◌≡◌, refl, sym, ◌∙◌, ap, List, [], ◌∷◌, ◌++◌, arith, All}
use viabtc_exchange_server.Base.Int.{ℤ, pos, pos_part, neg_part, ◌+ℤ◌, ◌≤ℤ◌, int_laws}
use viabtc_exchange_server.Decimal.{Decimal, IsDecimal, Fits}
use viabtc_exchange_server.Kline.{
  KlineInfo, kline_info_new, kline_info_update, kline_info_merge, raised, lowered,
}

-- A trade: its price and its amount.
abbrev pub Trade : Type 0
Trade = ℤ × ℤ

-- The highest and the lowest price, and the exact sum of the amounts.
abbrev pub highest : ℤ → List Trade → ℤ
highest high [] = high
highest high ((price, amount) ∷ trades) = highest (raised price high) trades

abbrev pub lowest : ℤ → List Trade → ℤ
lowest low [] = low
lowest low ((price, amount) ∷ trades) = lowest (lowered price low) trades

abbrev pub last_price : ℤ → List Trade → ℤ
last_price close [] = close
last_price close ((price, amount) ∷ trades) = last_price price trades

abbrev pub total : (Trade → ℤ) → List Trade → ℤ
total f [] = pos 0
total f (t ∷ trades) = f t +ℤ total f trades

raised-raised : (a b c : ℤ) → raised a (raised b c) ≡ raised (raised a b) c
raised-raised a b c = ground arith

lowered-lowered : (a b c : ℤ) → lowered a (lowered b c) ≡ lowered (lowered a b) c
lowered-lowered a b c = ground arith

raised_same : (a : ℤ) → raised a a ≡ a
raised_same a = ground arith

lowered_same : (a : ℤ) → lowered a a ≡ a
lowered_same a = ground arith

highest-raised : (q h : ℤ) (us : List Trade) → highest (raised q h) us ≡ raised (highest q us) h
highest-raised q h [] = refl
highest-raised q h ((p, a) ∷ us) =
    ap (λ v. highest v us) (raised-raised p q h) ∙ highest-raised (raised p q) h us

lowest-lowered : (q h : ℤ) (us : List Trade) → lowest (lowered q h) us ≡ lowered (lowest q us) h
lowest-lowered q h [] = refl
lowest-lowered q h ((p, a) ∷ us) =
    ap (λ v. lowest v us) (lowered-lowered p q h) ∙ lowest-lowered (lowered p q) h us

total-append : (f : Trade → ℤ) (ts us : List Trade) → total f (ts ++ us) ≡ total f ts +ℤ total f us
total-append f [] us = omega int_laws
total-append f (t ∷ ts) us =
    let ih = total-append f ts us in omega (int_laws, ap pos_part ih, ap neg_part ih)

total_nonneg : (f : Trade → ℤ) (ts : List Trade) → All (λ t. pos 0 ≤ℤ f t) ts → pos 0 ≤ℤ total f ts
total_nonneg f [] h = omega arith
total_nonneg f (t ∷ ts) h = let ih = total_nonneg f ts h.1 in let e = h.0 in omega int_laws

module _ (d : Decimal) where
  -- The candle after some trades.
  abbrev pub candle : KlineInfo → List Trade → KlineInfo
  candle info [] = info
  candle info ((price, amount) ∷ trades) = candle (kline_info_update d info price amount) trades

  abbrev pub money : Trade → ℤ
  money (price, amount) = d.mul price amount

  -- Nothing negative is traded, and the sums of the amounts and of the money fit.
  pub record AreTrades (trades : List Trade) : Type 0 where
    pub amounts : All (λ t. pos 0 ≤ℤ t.1) trades
    pub moneys : All (λ t. pos 0 ≤ℤ money t) trades
    pub volume_fits : Fits d (total (λ t. t.1) trades)
    pub deal_fits : Fits d (total money trades)

  -- The candle that the trades ought to give.
  abbrev pub summary : ℤ → List Trade → KlineInfo
  summary price trades = record {
    open_price = price;
    close = last_price price trades;
    high = highest price trades;
    low = lowest price trades;
    volume = total (λ t. t.1) trades;
    deal = total money trades;
  }

  module _ (law : IsDecimal d) where
    candle-volume :
        (info : KlineInfo) (ts : List Trade)
        → pos 0 ≤ℤ info.volume
        → All (λ t. pos 0 ≤ℤ t.1) ts
        → Fits d (info.volume +ℤ total (λ t. t.1) ts)
        → (candle info ts).volume ≡ info.volume +ℤ total (λ t. t.1) ts
    unfolding kline_info_update
    candle-volume info [] n h f = omega int_laws
    candle-volume info ((p, a) ∷ ts) n h f =
        let rest = total_nonneg (λ t. t.1) ts h.1 in
        let here = h.0 in
        let e = law.add_exact info.volume a (omega int_laws) in
        let assoc : (info.volume +ℤ a) +ℤ total (λ t. t.1) ts
            ≡ info.volume +ℤ (a +ℤ total (λ t. t.1) ts) =
          omega int_laws in
        candle-volume (kline_info_update d info p a) ts (rw e (omega int_laws)) h.1
          (rw (e, assoc) f)
        ∙ rw (e, assoc) refl

    candle-deal :
        (info : KlineInfo) (ts : List Trade)
        → pos 0 ≤ℤ info.deal
        → All (λ t. pos 0 ≤ℤ money t) ts
        → Fits d (info.deal +ℤ total money ts)
        → (candle info ts).deal ≡ info.deal +ℤ total money ts
    unfolding kline_info_update
    candle-deal info [] n h f = omega int_laws
    candle-deal info ((p, a) ∷ ts) n h f =
        let m = d.mul p a in
        let rest = total_nonneg money ts h.1 in
        let here = h.0 in
        let e = law.add_exact info.deal m (omega int_laws) in
        let assoc : (info.deal +ℤ m) +ℤ total money ts ≡ info.deal +ℤ (m +ℤ total money ts) =
          omega int_laws in
        candle-deal (kline_info_update d info p a) ts (rw e (omega int_laws)) h.1 (rw (e, assoc) f)
        ∙ rw (e, assoc) refl

    -- The prices of a candle.
    abbrev Prices : KlineInfo → List Trade → KlineInfo → Type 0
    Prices info ts c =
        (c.open_price ≡ info.open_price)
        × (c.close ≡ last_price info.close ts)
        × (c.high ≡ highest info.high ts)
        × (c.low ≡ lowest info.low ts)

    candle-Prices : (info : KlineInfo) (ts : List Trade) → Prices info ts (candle info ts)
    unfolding kline_info_update
    candle-Prices info [] = (refl, refl, refl, refl)
    candle-Prices info ((p, a) ∷ ts) = candle-Prices (kline_info_update d info p a) ts

    kline_eq :
        (a b : KlineInfo)
        → (a.open_price ≡ b.open_price) × (a.close ≡ b.close) × (a.high ≡ b.high) × (a.low ≡ b.low)
        → a.volume ≡ b.volume
        → a.deal ≡ b.deal
        → a ≡ b
    kline_eq a b p v m = ground arith

    -- A candle that is opened at a price and updated by trades opens at the price, closes at the
    -- last price, has the highest and the lowest price, and the exact sums of the amounts and of
    -- the money; no amount is negative and the sums fit.
    pub candle-kline_info_new :
        (price : ℤ) (ts : List Trade)
        → AreTrades ts
        → candle (kline_info_new price) ts ≡ summary price ts
    unfolding kline_info_new
    candle-kline_info_new price ts h =
        let v0 : pos 0 +ℤ total (λ t. t.1) ts ≡ total (λ t. t.1) ts = omega int_laws in
        let m0 : pos 0 +ℤ total money ts ≡ total money ts = omega int_laws in
        kline_eq (candle (kline_info_new price) ts) (summary price ts)
          (candle-Prices (kline_info_new price) ts)
          (candle-volume (kline_info_new price) ts (omega arith) h.amounts (rw v0 h.volume_fits)
            ∙ v0)
          (candle-deal (kline_info_new price) ts (omega arith) h.moneys (rw m0 h.deal_fits) ∙ m0)

    last_price-append :
        (c : ℤ) (ts us : List Trade) → last_price c (ts ++ us) ≡ last_price (last_price c ts) us
    last_price-append c [] us = refl
    last_price-append c ((p, a) ∷ ts) us = last_price-append p ts us

    highest-append : (c : ℤ) (ts us : List Trade) → highest c (ts ++ us) ≡ highest (highest c ts) us
    highest-append c [] us = refl
    highest-append c ((p, a) ∷ ts) us = highest-append (raised p c) ts us

    lowest-append : (c : ℤ) (ts us : List Trade) → lowest c (ts ++ us) ≡ lowest (lowest c ts) us
    lowest-append c [] us = refl
    lowest-append c ((p, a) ∷ ts) us = lowest-append (lowered p c) ts us

    merge_summaries :
        (p q a : ℤ) (ts us : List Trade)
        → Fits d (total (λ t. t.1) (ts ++ (q, a) ∷ us))
        → Fits d (total money (ts ++ (q, a) ∷ us))
        → kline_info_merge d (summary p ts) (summary q ((q, a) ∷ us))
          ≡ summary p (ts ++ (q, a) ∷ us)
    unfolding kline_info_merge
    merge_summaries p q a ts us fv fm =
        let us' = (q, a) ∷ us in
        let v = total-append (λ t. t.1) ts us' in
        let m = total-append money ts us' in
        kline_eq (kline_info_merge d (summary p ts) (summary q us')) (summary p (ts ++ us'))
          (
            refl,
            sym (last_price-append p ts us'),
            (ap (λ h. raised (highest h us) (highest p ts)) (raised_same q)
                ∙ sym (highest-raised q (highest p ts) us)
                ∙ sym (highest-append p ts us')),
            (ap (λ h. lowered (lowest h us) (lowest p ts)) (lowered_same q)
                ∙ sym (lowest-lowered q (lowest p ts) us)
                ∙ sym (lowest-append p ts us')),
          )
          (law.add_exact (total (λ t. t.1) ts) (total (λ t. t.1) us') (rw v at fv) ∙ sym v)
          (law.add_exact (total money ts) (total money us') (rw m at fm) ∙ sym m)

    -- Merging the candles of two consecutive intervals, the second opened at its first price,
    -- gives the candle of both intervals together; in each and in both no amount is negative and
    -- the sums fit.
    pub kline_info_merge-candle :
        (p q a : ℤ) (ts us : List Trade)
        → AreTrades ts
        → AreTrades ((q, a) ∷ us)
        → AreTrades (ts ++ (q, a) ∷ us)
        → kline_info_merge d
            (candle (kline_info_new p) ts)
            (candle (kline_info_new q) ((q, a) ∷ us))
          ≡ candle (kline_info_new p) (ts ++ (q, a) ∷ us)
    kline_info_merge-candle p q a ts us ht hu h =
        rw
          (
            candle-kline_info_new p ts ht,
            candle-kline_info_new q ((q, a) ∷ us) hu,
            candle-kline_info_new p (ts ++ (q, a) ∷ us) h,
          )
          (merge_summaries p q a ts us h.volume_fits h.deal_fits)
