-- ===== src/Ledger.antt =====
-- internal/adapters/storage/postgres/exchange_repository.go and reservation_repository.go: the rows
-- that hold money, and a method as a state that may fail. `Transaction` rolls back on an error, so
-- an error keeps no state. A text that the methods trim, or turn to upper case, before they use it
-- is taken to be in that form. A statement of the database fails only as its keys say.
pub mod Balances
pub mod Withdrawals
pub mod Reservations
pub mod Funds
pub mod Plan
pub mod Settlement
pub mod Totals
pub mod Conserves
pub mod Finalized
pub mod Settles
pub mod Backed
pub mod Balanced
pub mod Accounts
pub mod OrdersKept
pub mod Methods
pub mod Parts
use crosschainswap.Prelude.{
  ℕ, zero, suc, ◌+◌, Bool, true, false, ◌&&◌, ◌||◌, List, [], ◌∷◌, ◌++◌, Option, none, some, Result,
  ok, err, ◌==◌, if◌then◌else◌,
}
use crosschainswap.Prelude.Dict.{Dict}
use crosschainswap.Order.{Order}

pub record Balance : Type 0 where
  pub user_id : ℕ
  pub asset : ℕ
  pub available : ℕ
  pub locked : ℕ
  pub pending : ℕ
  pub updated_at : ℕ

-- `reservationIDForOrder`: the order's own reservation id, or "res_" before its id, or none.
pub data ReservationId : Type 0 where
  named : ℕ → ReservationId
  of_order : ℕ → ReservationId
  no_id : ReservationId

pub data ReservationStatus : Type 0 where
  active consumed released closed : ReservationStatus

pub record Reservation : Type 0 where
  pub id : ReservationId
  pub user_id : ℕ
  pub market : ℕ
  pub asset : ℕ
  pub amount : ℕ
  pub consumed_amount : ℕ
  pub released_amount : ℕ
  pub remaining_amount : ℕ
  pub status : ReservationStatus
  pub order_id : ℕ
  pub created_at : ℕ
  pub updated_at : ℕ

pub data WithdrawalStatus : Type 0 where
  requested completed canceled : WithdrawalStatus

pub record Withdrawal : Type 0 where
  pub id : ℕ
  pub user_id : ℕ
  pub asset : ℕ
  pub amount : ℕ
  pub chain_key : ℕ
  pub address : ℕ
  pub status : WithdrawalStatus
  pub created_at : ℕ
  pub updated_at : ℕ

-- An id that the caller gives, or one of `idgen.New`, which are distinct from one another and from
-- the given ones.
pub data EventId : Type 0 where
  given : ℕ → EventId
  generated : EventId

pub data BalanceEventType : Type 0 where
  deposit_pending deposit_settled : BalanceEventType
  withdrawal_requested withdrawal_completed withdrawal_canceled : BalanceEventType
  reserve release debit_locked settlement_receive : BalanceEventType

pub record BalanceEvent : Type 0 where
  pub id : EventId
  pub user_id : ℕ
  pub asset : ℕ
  pub type : BalanceEventType
  pub amount : ℕ
  pub order_id : ℕ
  pub reservation_id : ReservationId
  pub trade_id : ℕ
  pub withdrawal_id : ℕ
  pub created_at : ℕ

pub record Store : Type 0 where
  pub balances : List Balance
  pub reservations : List Reservation
  pub withdrawals : List Withdrawal
  pub events : List BalanceEvent
  pub orders : Dict Order

pub data LedgerError : Type 0 where
  record_not_found duplicate_key insufficient_balance : LedgerError
  not_requested reservation_incomplete : LedgerError
  orders_required quantity_not_positive quote_not_positive buyer_price_not_positive : LedgerError
  locked_quote_below_precision quote_exceeds_locked : LedgerError

abbrev pub Action : Type 0 → Type 0
Action A = Store → Result LedgerError (A × Store)

infixl 5 ◌>>=◌ ◌>>◌
abbrev pub ◌>>=◌ : {A B : Type 0} → Action A → (A → Action B) → Action B
◌>>=◌ m f s = elim (m s) [ ok (a, s') ↦ f a s' | err e ↦ err e ]

abbrev pub ◌>>◌ : {A B : Type 0} → Action A → Action B → Action B
m >> k = m >>= λ _. k

abbrev pub pure : {A : Type 0} → A → Action A
pure a s = ok (a, s)

abbrev pub fail_if : Bool → LedgerError → Action (Unit {0})
fail_if true e s = err e
fail_if false e s = ok (tt, s)

abbrev pub or_fail : {A : Type 0} → Option A → LedgerError → Action A
or_fail none e s = err e
or_fail (some a) e s = ok (a, s)

-- A call that reads and writes no row.
abbrev pub of_result : {A : Type 0} → Result LedgerError A → Action A
of_result (ok a) s = ok (a, s)
of_result (err e) s = err e

-- `if err is e { return e' }; return err`
abbrev pub is_not_found : LedgerError → Bool
is_not_found LedgerError.record_not_found = true
is_not_found _ = false

abbrev pub not_found_as : {A : Type 0} → LedgerError → Action A → Action A
not_found_as e' m s = elim (m s) [ ok r ↦ ok r | err e ↦ if is_not_found e then err e' else err e ]

-- A missing record in `m` is no error.
abbrev pub or_else : {A : Type 0} → A → Action A → Action A
or_else a m s = elim (m s) [ ok r ↦ ok r | err e ↦ if is_not_found e then ok (a, s) else err e ]

-- The row of a user and an asset.
unfoldable pub find_balance : ℕ → ℕ → List Balance → Option Balance
find_balance user asset [] = none
find_balance user asset (b ∷ bs) =
    if b.user_id == user && b.asset == asset then some b else find_balance user asset bs

-- `Save` of a row: it replaces the row of its key, or is added.
unfoldable pub put_balance : Balance → List Balance → List Balance
put_balance b [] = b ∷ []
put_balance b (c ∷ cs) =
    if c.user_id == b.user_id && c.asset == b.asset then b ∷ cs else c ∷ put_balance b cs

abbrev pub save_balance : Balance → Action (Unit {0})
save_balance b s = ok (tt, record s { balances = put_balance b s.balances })

abbrev pub same_event_id : EventId → EventId → Bool
same_event_id (EventId.given a) (EventId.given b) = a == b
same_event_id _ _ = false

-- `BalanceEventExists`
unfoldable pub event_exists : EventId → List BalanceEvent → Bool
event_exists id [] = false
event_exists id (e ∷ es) = same_event_id e.id id || event_exists id es

-- `createBalanceEvent`
unfoldable pub create_balance_event : BalanceEvent → Action (Unit {0})
create_balance_event e s =
    if event_exists e.id s.events
    then err LedgerError.duplicate_key
    else ok (tt, record s { events = s.events ++ e ∷ [] })

-- The row that `FirstOrCreate` adds.
abbrev pub fresh_balance : ℕ → ℕ → ℕ → Balance
fresh_balance now user asset = record {
  user_id = user;
  asset = asset;
  available = 0;
  locked = 0;
  pending = 0;
  updated_at = now;
}

-- `balanceForUpdate`
unfoldable pub balance_for_update : ℕ → ℕ → ℕ → Bool → Action Balance
balance_for_update now user asset create s = elim (find_balance user asset s.balances) [
  | some b ↦ ok (b, s)
  | none ↦
      if create
      then ok (
        fresh_balance now user asset,
        record s { balances = put_balance (fresh_balance now user asset) s.balances },
      )
      else err LedgerError.record_not_found
]
