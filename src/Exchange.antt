-- ===== src/Exchange.antt =====
-- internal/adapters/storage/postgres: the tables of the exchange besides those of the ledger, and a
-- transaction on them: a function from tables to a result and tables. `Transaction` rolls back, so
-- an error keeps no table. The list of a table is in no order but what a query asks for.
pub mod Queries
pub mod ActiveOrders
pub mod Sequences
pub mod Levels
pub mod Commands
pub mod Keeps
pub mod Synced
use crosschainswap.Prelude.{ℕ, Bool, true, false, List, Option, none, some, Result, ok, err}
use crosschainswap.Prelude.Dict.{Dict}
use crosschainswap.Decimal.Texts.{Text}
use crosschainswap.Order.{Side, OrderType, Status, TimeInForce, Order, Trade, OrderEvent}
use crosschainswap.Engine.{MatchError, MatchResult}
use crosschainswap.Book.Snapshot.{BookState, SnapshotError}
use crosschainswap.Ledger.{Store, LedgerError, Action}
use crosschainswap.Orders.{OrderError}

-- `ExchangePriceLevel`
pub record PriceLevelRow : Type 0 where
  pub market : ℕ
  pub side : Side
  pub price : ℕ
  pub quantity : ℕ
  pub order_count : ℕ
  pub first_sequence_id : ℕ
  pub last_updated_at : ℕ

-- `newOrderCommandPayload`; the type of the command is always the same.
pub record CommandPayload : Type 0 where
  pub client_order_id : ℕ
  pub reservation_id : ℕ
  pub user_id : ℕ
  pub market : ℕ
  pub side : Side
  pub type : OrderType
  pub time_in_force : TimeInForce
  pub price : Text
  pub stop_price : Text
  pub quantity : Text

pub data CommandStatus : Type 0 where
  pending completed rejected quarantined : CommandStatus

-- What became of a command: the status of its order, or a word.
pub data CommandOutcome : Type 0 where
  no_outcome duplicate : CommandOutcome
  of_status : Status → CommandOutcome

-- `OrderCommand`
pub record OrderCommand : Type 0 where
  pub id : ℕ
  pub client_order_id : ℕ
  pub user_id : ℕ
  pub market : ℕ
  pub payload_hash : ℕ
  pub payload : CommandPayload
  pub status : CommandStatus
  pub outcome : CommandOutcome
  pub order_id : ℕ
  pub updated_at : ℕ

pub data LogStatus : Type 0 where
  pending processing applied rejected quarantined : LogStatus

-- `OrderCommandLog`; 0 is the empty worker and the zero time.
pub record CommandLogEntry : Type 0 where
  pub command_id : ℕ
  pub sequence_id : ℕ
  pub market : ℕ
  pub payload_hash : ℕ
  pub payload : CommandPayload
  pub status : LogStatus
  pub attempts : ℕ
  pub available_at : ℕ
  pub locked_by : ℕ
  pub locked_at : ℕ
  pub applied_order_id : ℕ
  pub updated_at : ℕ

pub data JobStatus : Type 0 where
  pending processing completed failed quarantined : JobStatus

-- `ExchangeMatchJob`
pub record MatchJob : Type 0 where
  pub id : ℕ
  pub order_id : ℕ
  pub market : ℕ
  pub status : JobStatus
  pub attempts : ℕ
  pub available_at : ℕ
  pub locked_by : ℕ
  pub locked_at : ℕ
  pub created_at : ℕ
  pub updated_at : ℕ

-- `MatchEventLog`, with `matchEventPayload` as its payload; one type of event is ever logged.
pub record MatchLogEntry : Type 0 where
  pub market : ℕ
  pub sequence_id : ℕ
  pub payload_hash : ℕ
  pub payload : MatchResult
  pub levels : List PriceLevelRow
  pub created_at : ℕ

pub record Tables : Type 0 where
  pub ledger : Store
  pub active : List Order
  pub levels : List PriceLevelRow
  pub sequences : Dict ℕ
  pub trades : List Trade
  pub order_events : List OrderEvent
  pub commands : List OrderCommand
  pub command_log : List CommandLogEntry
  pub command_sequences : Dict ℕ
  pub jobs : List MatchJob
  pub match_log : List MatchLogEntry
  pub snapshots : List BookState

pub data ExchangeError : Type 0 where
  of_order : OrderError → ExchangeError
  of_ledger : LedgerError → ExchangeError
  of_match : MatchError → ExchangeError
  of_snapshot : SnapshotError → ExchangeError
  no_record duplicate_row market_required : ExchangeError
  payload_conflict client_id_conflict log_incomplete log_conflict : ExchangeError
  out_of_fuel : ExchangeError

abbrev pub Tx : Type 0 → Type 0
Tx A = Tables → Result ExchangeError (A × Tables)

module _ {A : Type 0} where
  unfoldable pub pure : A → Tx A
  pure a t = ok (a, t)

  unfoldable pub throw : ExchangeError → Tx A
  throw e t = err e

  -- A query.
  unfoldable pub reads : (Tables → A) → Tx A
  reads f t = ok (f t, t)

  unfoldable pub from_option : ExchangeError → Option A → Tx A
  from_option e none t = err e
  from_option e (some a) t = ok (a, t)

  abbrev pub with_ledger :
      Tables → Result LedgerError (A × Store) → Result ExchangeError (A × Tables)
  with_ledger t (ok (a, s)) = ok (a, record t { ledger = s })
  with_ledger t (err e) = err (ExchangeError.of_ledger e)

  -- A method of the ledger.
  unfoldable pub on_ledger : Action A → Tx A
  on_ledger m t = with_ledger t (m t.ledger)

-- A call that reads and writes no row.
unfoldable pub from_result : {E A : Type 0} → (E → ExchangeError) → Result E A → Tx A
from_result wrap (ok a) t = ok (a, t)
from_result wrap (err e) t = err (wrap e)

-- A statement that writes.
unfoldable pub modify : (Tables → Tables) → Tx (Unit {0})
modify f t = ok (tt, f t)

unfoldable pub throw_if : Bool → ExchangeError → Tx (Unit {0})
throw_if true e t = err e
throw_if false e t = ok (tt, t)

module _ {A B : Type 0} where
  abbrev pub continue :
      Result ExchangeError (A × Tables) → (A → Tx B) → Result ExchangeError (B × Tables)
  continue (ok (a, t)) f = f a t
  continue (err e) f = err e

  infixl 5 ◌>>=◌ ◌>>◌
  unfoldable pub ◌>>=◌ : Tx A → (A → Tx B) → Tx B
  unfolding pure throw reads from_option from_result on_ledger modify throw_if
  ◌>>=◌ m f t = continue (m t) f

  abbrev pub ◌>>◌ : Tx A → Tx B → Tx B
  m >> n = m >>= λ _. n
