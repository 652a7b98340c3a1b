-- ===== src/Queues.antt =====
-- The tables that workers take rows from: match jobs, logged commands and outgoing events
-- (match_job_repository.go, order_command_log_repository.go and outbox_repository.go), with the
-- leases of lease_repository.go and the offsets of projection_offset_repository.go. A row is claimed
-- for a time, in which no other worker claims it; the text of a last error is left out. The limit of
-- the time for which a row is claimed, of attempts and of the wait for a retry is 0 where the caller
-- leaves it to the repository.
pub mod Exclusive
pub mod Jobs
pub mod Logs
pub mod Outbox
pub mod Leases
pub mod Offsets
use crosschainswap.Prelude.{ℕ, ◌+◌, ◌*◌, ◌^◌, ◌||◌, Bool, List, [], ◌∷◌, ltb, ◌==◌, if◌then◌else◌}
use crosschainswap.Exchange.Queries.{select, order_by, take}

abbrev pub or_default : ℕ → ℕ → ℕ
or_default default given = if given == 0 then default else given

-- A limit on rows that is out of range is replaced.
abbrev pub row_limit : ℕ → ℕ → ℕ
row_limit largest given = if given == 0 || ltb largest given then 100 else given

-- Nanoseconds.
abbrev pub second : ℕ
second = 10 ^ 9

abbrev pub five_minutes : ℕ
five_minutes = 300 * second

-- How the rows of a table are claimed. `is_claimable now ttl` is the condition of the query, and
-- `claim now worker` the row that is saved.
pub record Queue (A : Type 0) : Type 0 where
  pub key : A → ℕ
  pub is_claimable : ℕ → ℕ → A → Bool
  pub claim : ℕ → ℕ → A → A
  pub before : A → A → Bool

module _ {A : Type 0} (q : Queue A) where
  -- `Save`, by the key of the row.
  unfoldable pub save_row : A → List A → List A
  save_row row [] = []
  save_row row (r ∷ rs) = (if q.key r == q.key row then row else r) ∷ save_row row rs

  -- The loop over the rows that were found.
  unfoldable pub claim_each : ℕ → ℕ → List A → List A → List A
  claim_each now worker [] rows = rows
  claim_each now worker (r ∷ rs) rows =
      claim_each now worker rs (save_row (q.claim now worker r) rows)

  abbrev pub claimed_rows : ℕ → ℕ → List A → List A
  claimed_rows now worker [] = []
  claimed_rows now worker (r ∷ rs) = q.claim now worker r ∷ claimed_rows now worker rs

  -- The rows that a claim finds.
  abbrev pub found_rows : ℕ → ℕ → ℕ → List A → List A
  found_rows now limit ttl rows =
      take limit (order_by q.before (select (q.is_claimable now ttl) rows))

  -- The rows that are claimed, and the table behind it.
  unfoldable pub claim_rows : ℕ → ℕ → ℕ → ℕ → List A → List A × List A
  unfolding claim_each save_row
  claim_rows now worker limit ttl rows =
      let found = found_rows now limit ttl rows in
      (claimed_rows now worker found, claim_each now worker found rows)
