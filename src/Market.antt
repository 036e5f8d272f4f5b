-- ===== src/Market.antt =====
-- viabtc_exchange_server/matchengine/me_market.c: the books, the settlement of a deal, the matching
-- loops and the operations on orders. Memory does not run out.
pub mod Book
pub mod Settle
pub mod Execute
pub mod Put
pub mod Matching
pub mod Placing
pub mod Invariant
pub mod Limit
pub mod Cancel
pub mod MarketAsk
pub mod Affordable
pub mod Entry
mod Tests
