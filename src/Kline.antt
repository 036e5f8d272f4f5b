-- ===== src/Kline.antt =====
-- marketprice/mp_kline.c: the candle of an interval. Candles are mutable in the code; here a function
-- returns the new candle.
use viabtc_exchange_server.Base.{Bool, true, false, if◌then◌else◌}
use viabtc_exchange_server.Base.Int.{ℤ, pos, ltb_ℤ}
use viabtc_exchange_server.Decimal.{Decimal}
pub mod Trades
mod Tests

-- struct kline_info
pub record KlineInfo : Type 0 where
  pub open_price : ℤ
  pub close : ℤ
  pub high : ℤ
  pub low : ℤ
  pub volume : ℤ
  pub deal : ℤ

unfoldable pub kline_info_new : ℤ → KlineInfo
kline_info_new price = record {
  open_price = price;
  close = price;
  high = price;
  low = price;
  volume = pos 0;
  deal = pos 0;
}

-- `if (mpd_cmp(price, high) > 0) mpd_copy(high, price)` and its mirror.
abbrev pub raised : ℤ → ℤ → ℤ
raised price high = if ltb_ℤ high price then price else high

abbrev pub lowered : ℤ → ℤ → ℤ
lowered price low = if ltb_ℤ price low then price else low

module _ (d : Decimal) where
  unfoldable pub kline_info_update : KlineInfo → ℤ → ℤ → KlineInfo
  kline_info_update info price amount = record info {
    close = price;
    volume = d.add info.volume amount;
    deal = d.add info.deal (d.mul price amount);
    high = raised price info.high;
    low = lowered price info.low;
  }

  unfoldable pub kline_info_merge : KlineInfo → KlineInfo → KlineInfo
  kline_info_merge info update = record info {
    close = update.close;
    volume = d.add info.volume update.volume;
    deal = d.add info.deal update.deal;
    high = raised update.high info.high;
    low = lowered update.low info.low;
  }
