-- ===== src/Kline/Tests.antt =====
-- Candles of a few trades in cents.
use viabtc_exchange_server.Base.{◌≡◌, ◌++◌, refl, List, [], ◌∷◌, arith}
use viabtc_exchange_server.Base.Int.{pos, ◌+ℤ◌, ◌*ℤ◌}
use viabtc_exchange_server.Decimal.Sample.{cents, cents-IsDecimal}
use viabtc_exchange_server.Kline.{kline_info_new, kline_info_update, kline_info_merge}
use viabtc_exchange_server.Kline.Trades.{Trade, AreTrades, candle, kline_info_merge-candle}

abbrev morning : List Trade
morning = (pos 100, pos 200) ∷ (pos 130, pos 100) ∷ []

abbrev evening : List Trade
evening = (pos 90, pos 300) ∷ []

morning-AreTrades : AreTrades cents morning
unfolding ◌+ℤ◌ ◌*ℤ◌
morning-AreTrades = record {
  amounts = (omega arith, (omega arith, tt));
  moneys = (omega arith, (omega arith, tt));
  volume_fits = (omega arith, omega arith);
  deal_fits = (omega arith, omega arith);
}

evening-AreTrades : AreTrades cents evening
unfolding ◌+ℤ◌ ◌*ℤ◌
evening-AreTrades = record {
  amounts = (omega arith, tt);
  moneys = (omega arith, tt);
  volume_fits = (omega arith, omega arith);
  deal_fits = (omega arith, omega arith);
}

day-AreTrades : AreTrades cents (morning ++ evening)
unfolding ◌+ℤ◌ ◌*ℤ◌
day-AreTrades = record {
  amounts = (omega arith, (omega arith, (omega arith, tt)));
  moneys = (omega arith, (omega arith, (omega arith, tt)));
  volume_fits = (omega arith, omega arith);
  deal_fits = (omega arith, omega arith);
}

runs :
    ((candle cents (kline_info_new (pos 100)) (morning ++ evening)).low ≡ pos 90)
    × ((candle cents (kline_info_new (pos 100)) (morning ++ evening)).deal ≡ pos 600)
unfolding kline_info_new kline_info_update ◌+ℤ◌ ◌*ℤ◌
runs = (refl, refl)

kline_info_merge-candle_example :
    kline_info_merge cents
      (candle cents (kline_info_new (pos 100)) morning)
      (candle cents (kline_info_new (pos 90)) evening)
    ≡ candle cents (kline_info_new (pos 100)) (morning ++ evening)
kline_info_merge-candle_example =
    kline_info_merge-candle cents cents-IsDecimal (pos 100) (pos 90) (pos 300) morning []
      morning-AreTrades evening-AreTrades day-AreTrades
