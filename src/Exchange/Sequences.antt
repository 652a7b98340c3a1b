-- ===== src/Exchange/Sequences.antt =====
-- exchange_repository.go and order_command_log_repository.go: the next sequence of a market, which
-- is above every one that is in use. `uint64` wraps around.
pub mod Rising
use crosschainswap.Prelude.{
  ℕ, ◌+◌, ◌%◌, ◌^◌, ◌<◌, ◌&&◌, ◌||◌, List, [], ◌∷◌, Option, none, some, leb, ltb, ◌==◌,
  if◌then◌else◌, arith,
}
use crosschainswap.Prelude.Dict.{lookup, insert}
use crosschainswap.Order.{Order}
use crosschainswap.Exchange.{Tables, ExchangeError, Tx, pure, reads, modify, throw_if, ◌>>=◌, ◌>>◌}
use crosschainswap.Exchange.ActiveOrders.{or_blank, rows_of}

abbrev pub uint64 : ℕ
uint64 = 2 ^ 64

-- `firstSeq`
unfoldable pub first_sequence : ℕ → ℕ
first_sequence max = let first = (max + 1) % uint64 in if first == 0 then 1 else first

-- The row of the market, which is added where there is none.
abbrev pub stored_or : ℕ → Option ℕ → ℕ
stored_or first none = first
stored_or first (some next) = next

-- The sequence that is handed out, given the largest in use and the row of the market.
unfoldable pub next_sequence : ℕ → Option ℕ → ℕ
unfolding first_sequence
next_sequence max row =
    let stored = stored_or (first_sequence max) row in
    if stored == 0 || leb stored max then first_sequence max else stored

-- `maxOrderSequence`
unfoldable pub max_order_sequence : ℕ → List Order → ℕ
max_order_sequence market [] = 0
max_order_sequence market (o ∷ os) =
    let rest = max_order_sequence market os in
    if or_blank market o.market && ltb rest o.sequence_id then o.sequence_id else rest

abbrev pub keep_sequence : ℕ → ℕ → Tables → Tables
keep_sequence market seq t = record t { sequences = insert market ((seq + 1) % uint64) t.sequences }

-- `NextOrderSequence`
unfoldable pub next_order_sequence : ℕ → Tx ℕ
next_order_sequence market = do
  throw_if (market == 0) ExchangeError.market_required
  seq ← reads (λ t.
      next_sequence (max_order_sequence market (rows_of (t.ledger).orders))
        (lookup market t.sequences))
  modify (keep_sequence market seq)
  pure seq

-- The sequence that is handed out is above the largest in use, as long as a `uint64` can be.
pub next_sequence-fresh :
    (max : ℕ) (row : Option ℕ) → max + 1 < uint64 → max < next_sequence max row
unfolding next_sequence
next_sequence-fresh max row h = ground arith
