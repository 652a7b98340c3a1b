-- ===== src/Trading.antt =====
-- internal/app/orders/service.go: what a request needs besides the tables. The settings of the
-- service, the time, and what comes from other code: new ids, and the hashes.
pub mod Match
pub mod Outcomes
pub mod Stops
pub mod Requests
pub mod Place
pub mod Service
pub mod Kept
pub mod Sound
pub mod Repeated
use crosschainswap.Prelude.{ℕ, List}
use crosschainswap.Prelude.Dict.{Dict}
use crosschainswap.Engine.{MatchResult}
use crosschainswap.Book.Snapshot.{BookState}
use crosschainswap.Orders.{Market}
use crosschainswap.Exchange.{CommandPayload, PriceLevelRow}

-- How a placed order is matched: at once, by a job, or by the log of commands.
pub data MatchingMode : Type 0 where
  immediate async command_log : MatchingMode

pub record Env : Type 0 where
  pub markets : Dict Market
  pub price_band_bps : ℕ
  pub mode : MatchingMode
  pub now : ℕ
  -- `idgen.New`, by how many trades and jobs there are already.
  pub new_trade_id : ℕ → ℕ
  pub new_job_id : ℕ → ℕ
  -- The hash in `orderReservationID`, the one of a command, of a logged match, and of a snapshot.
  pub default_reservation : ℕ → ℕ → ℕ
  pub payload_hash : CommandPayload → ℕ
  pub result_hash : MatchResult → List PriceLevelRow → ℕ
  pub digest : BookState → ℕ
