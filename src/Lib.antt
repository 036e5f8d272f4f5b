-- ===== src/Lib.antt =====
-- A model of the core of an exchange server: the match engine with its balances and order books, and
-- some of the structures that it stands on. Paths are relative to viabtc_exchange_server/.
--
-- Parts. The match engine (matchengine/) keeps the balances of all users (me_balance.c) and, per
-- market, two skip lists of resting orders (me_market.c). A request to put an order checks the
-- balance, runs the order against the other book, moves stock and money between the balances of the
-- two users of each deal, and lets what is left of a limit order rest with its funds frozen.
--
--   Base        numbers, Boolean tests, lists, and integers over the native numbers
--   Decimal     libmpdec as a parameter: `Decimal` holds its operations, `IsDecimal` the laws that it
--               documents, and `IsDivision` those of its division and of rounding; Decimal/Sample is
--               a two-decimal arithmetic that meets the laws
--   Dict        what utils/ut_dict.c promises: an association list with find, store and delete
--   SkipList    what utils/ut_skiplist.c promises: the values in order, with find, insert and delete
--   Balance     matchengine/me_balance.c; balance_get, balance_set, balance_add, balance_sub,
--               balance_freeze, balance_unfreeze, balance_total and balance_status by their names;
--               Balance/Listing has init_balance and load_assets_listing
--   Order       order_t, market_t and the comparisons of matchengine/me_market.c
--   Market      matchengine/me_market.c: Book has order_put and order_finish, Settle one deal,
--               Execute the four loops, Put the calls of the server
--   Buf         network/nw_buf.c: nw_buf_write, nw_buf_shift, nw_buf_alloc, nw_buf_free,
--               nw_buf_list_write, nw_buf_list_append and nw_buf_list_shift by their names
--   Hash        utils/ut_dict.c: the table of chains, dict_create, dict_find with check_clear, dict_add,
--               dict_replace, dict_delete, dict_expand and dict_mark_clear by their names
--   Kline       marketprice/mp_kline.c: kline_info_new, kline_info_update and kline_info_merge
--   SkipList/Nodes  utils/ut_skiplist.c: nodes with forward pointers on up to 16 levels, with
--               skiplist_create, skiplist_insert, skiplist_find and skiplist_delete by their names
--   Pack        utils/ut_pack.c: the functions by their names, in Pack and Pack/Script
--   Request     matchengine/me_server.c and me_load.c: the requests for limit orders (Request),
--               market orders (MarketOrder) and cancellations (Cancel), and their entries in the
--               operation log, with get_market of me_trade.c and decimal of utils/ut_decimal.c
--   Update      matchengine/me_update.c: update_user_balance and on_timer
--
-- State. A C function that changes a global takes the state and returns it with its result. An
-- order_t in a skip list is the order itself in a list, and a pointer to it elsewhere is its id. An
-- order that market_get_order finds stands in a book or among the `detached` ones: order_finish takes
-- an order off its book and returns early where its funds cannot be unfrozen, and the dictionary
-- keeps it; order_put may stop behind its dict_add too. The writes to the history database and to the
-- message queue are events in `log`. Names of assets and markets are numbers. A balance operation
-- returns `none` for NULL, also where the C code does not look at it.
--
-- Decimals. A decimal number is an integer of units of a fixed size (`one` of them make the number
-- 1). Comparisons and absolute values are exact. NaN and the infinities, which mpd_set_string
-- (utils/ut_decimal.c) reads too, are outside the model: nothing is said of a request or an update
-- that has one.
--
-- Loops. The matching loops recur on the nodes that the iterator has still to give. The inner loop of
-- a market order that bids, which lowers an amount until it is affordable, runs on fuel; division
-- rounds toward zero, so that the first amount is affordable and any fuel is enough. The walks of a
-- skip list have fuel for one node more than the list holds, a write to a list of buffers one round
-- more than bytes, and dict_next_power 30 doublings, which a size up to 2^31 never uses up; a run out of
-- fuel is `none`.
--
-- Bounds. Order and deal ids are counters modulo 2^64, the sizes and counters of the hash table have
-- 32 and 64 bits. Sums of decimals that fit in 34 digits are exact; theorems name the sums that have
-- to fit.
--
-- Not modelled: load_markets_listing (matchengine/me_trade.c) of a listing update, memory that runs
-- out, sockets and sessions, the databases, Kafka and Redis, and the services around the match engine
-- (accessws, accesshttp, readhistory, marketprice apart from its candles, alertcenter), which pass
-- requests on.

pub mod Balance
pub mod Base
pub mod Buf
pub mod Decimal
pub mod Dict
pub mod Hash
pub mod Kline
pub mod Market
pub mod Order
pub mod Pack
pub mod Request
pub mod SkipList
pub mod Update
