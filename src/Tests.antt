-- ===== src/Tests.antt =====
-- Concrete inputs, and the theorems of the other modules at them.
mod Samples
mod Decimal
mod Engine
mod Book
mod Ledger
mod Trading
mod Requests
mod Queues
mod Gateway
mod Candles
mod Orders
mod Snapshot
