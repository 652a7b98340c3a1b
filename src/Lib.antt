-- ===== src/Lib.antt =====
-- A model of the exchange's core: the matching of orders, the order book of a market, the ledger of
-- balances and reservations, and what the orders service decides. Paths are from the repository's
-- root.
--
-- How the parts work together. A request becomes an order (`Place` and `buildOrder` of
-- internal/app/orders/service.go), whose funds are locked (`ReserveOrderFunds`). It is matched either
-- with the orders that the database lists (`match`, by `MatchLimit` of internal/core/matching/engine.go)
-- or with the book of its market (`matchWithBook`, by `Apply` of internal/core/matching/book.go). Each
-- trade is settled (`SettleTrades` of internal/adapters/storage/postgres/exchange_repository.go), which
-- moves locked money between the two users and spends their reservations
-- (internal/adapters/storage/postgres/reservation_repository.go). What is left of an order that ends is
-- given back (`ReleaseOrderFunds`).
--
-- Which file models which part:
--   Prelude      Boolean tests on numbers, lists, dictionaries for Go's maps, `sort.Search`, and
--                results that may be an error.
--   Decimal      internal/core/decimal/decimal.go. An amount is counted in units of 10⁻¹⁸, to which
--                the columns of the database and `String` round; `none` is the empty text, which reads
--                as 0. A product is rounded to the nearest unit, a half up. Decimal/Texts is `Trim`, on the
--                codes of a text's characters.
--   Order        internal/core/order/model.go, event.go and internal/core/trade/model.go. A text that
--                is only compared is a number, and 0 is the empty text.
--   Engine       internal/core/matching/engine.go: `MatchLimit` is `match_limit`, its loop
--                `match_makers`, and its body `visit`. Engine/Run says what a run of trades is, apart
--                from how it is carried out; Engine/Refines shows that the loop carries one out.
--   Book         internal/core/matching/book.go: `MarketBook` and its methods; `Apply` is
--                `Book.Apply.apply`. Book/Apply/Carried shows that its loop carries out a run too, with
--                orders of the side that it goes through (Book/Apply/Queued lists them), Book/Levels which
--                queues a write changes, and Book/Ranked states when a book is in order. Book/Snapshot is
--                `Snapshot` of the same file, and internal/core/matching/snapshot.go.
--   Ledger       exchange_repository.go and reservation_repository.go: each method is a function from
--                a store to a result and a store, under its own name. Ledger/Totals says how much of an
--                asset the balances hold together, and Ledger/Balanced when a reservation is accounted
--                for.
--   Orders       internal/app/orders/service.go: `buildOrder`, the rules on stops and prices, the
--                events of a match, and `Cancel`.
--   Exchange     the tables of the database that trading writes, and an action on them that may fail
--                (`Tx`, a `Transaction` of exchange_repository.go). Exchange/ActiveOrders is the table
--                of active orders with the queries on it, Exchange/Sequences the next sequence of a
--                market, Exchange/Levels the table of price levels, and Exchange/Commands what is
--                written of order_command_repository.go, order_command_log_repository.go,
--                match_job_repository.go, match_event_log_repository.go and
--                matcher_snapshot_repository.go. Exchange/Keeps has rules for what an action keeps.
--   Trading      the requests of internal/app/orders/service.go as whole transactions: Trading/Match
--                is `match` and `matchWithBook`, Trading/Stops `activateTriggeredStops`,
--                Trading/Requests `MatchOrder`, `MatchOrderWithBookAtSequence`,
--                `PersistBookMatchResult`, `TriggerStops` and `Cancel`, Trading/Place `Place`, and
--                Trading/Service serves any of them one after the other. Trading/Kept has the rules
--                for a property that the statements of the requests keep; Trading/Sound and
--                Trading/Repeated are two of them. `Cancel` stands twice: in Orders on the ledger
--                alone, and here on all tables.
--   Queues       the tables that workers take rows from, over one interface of a queue: Queues/Jobs is
--                match_job_repository.go, Queues/Logs the claims of order_command_log_repository.go,
--                Queues/Outbox outbox_repository.go, Queues/Leases lease_repository.go and
--                Queues/Offsets projection_offset_repository.go.
--   Gateway      the callbacks of the payment gateway in internal/app/orders/service.go:
--                `ApplyGatewayDepositCallback` and `ApplyGatewayWithdrawalCallback`.
--   Candles      internal/core/trade/candle.go, and `UpdateCandles` of exchange_repository.go.
--   Tests        the theorems at concrete orders, books and stores.
--
-- Fuel. The loops of `Apply`, of `match` and of `sort.Search` run on fuel, and so do the digits of
-- a printed number, which are given the number itself. The loop of `Apply` is given the number of
-- prices and orders of the makers' side and two more, since each round takes a price or an order or
-- fills the taker; the one of `match` the number of active orders and one more, since each round
-- takes an order out of the table of active orders or is the last; `sort.Search` the length of the
-- range, which each round halves.
--
-- Parameters. The ids of trades are a function of their number, as `idgen` makes them; the time is
-- an argument. The ids of events are either given or fresh. The hash of a snapshot and of a
-- reservation's name, of a command's payload and of a match's result are functions. All of a
-- request happens at one time. Rows that tie in a query come in the order of the list that holds
-- them, and the keys of a level tracker are a list without repetitions. A transaction that fails
-- keeps no state, as `Transaction` rolls back. A statement of the database fails only for a row
-- that is missing or a key or a unique index that is taken.
--
-- What is not modelled. The decimal texts themselves, which `Parse` reads and `String` prints,
-- stand as counts of units. The matcher service with its resident books, how the requests of the
-- gateway are read, the rebuild of the read models, the market data, the messages that a
-- request publishes, the venues on other chains, pricing, swaps, authentication and the interfaces
-- are left out. The checks for a nil book and a nil factory cannot fail here and are left out too.
pub mod Prelude
pub mod Decimal
pub mod Order
pub mod Engine
mod Tests
pub mod Ledger
pub mod Exchange
pub mod Trading
pub mod Queues
pub mod Gateway
pub mod Candles
pub mod Book
pub mod Orders
