-- ===== src/Queues/Logs.antt =====
-- order_command_log_repository.go: the log of commands, which the matchers claim in the order of
-- their sequences, apply, or put aside.
use crosschainswap.Prelude.{
  ℕ, ◌+◌, ◌<◌, ◌≡◌, ◌≢◌, refl, arith, Bool, true, false, ◌&&◌, ◌||◌, List, [], ◌∷◌, leb, ltb, ◌==◌,
  if◌then◌else◌, All, ok, err, Bool-cases, inl, inr, ap,
}
use crosschainswap.Exchange.{
  LogStatus, CommandLogEntry, ExchangeError, Tables, Tx, pure, reads, from_option, modify, ◌>>=◌,
}
use crosschainswap.Exchange.Queries.{select, order_by, take}
use crosschainswap.Exchange.Commands.{find_log, update_logs}
use crosschainswap.Exchange.Keeps.{ended_ok, not_ok}
use crosschainswap.Queues.{Queue, or_default, row_limit, second, five_minutes, claim_rows, save_row}
use crosschainswap.Queues.Exclusive.{IsExclusive, claim_rows-exclusive}

unfoldable pub is_claimable_log : ℕ → ℕ → CommandLogEntry → Bool
is_claimable_log now ttl e = elim e.status [
  | LogStatus.pending ↦ leb e.available_at now
  | LogStatus.processing ↦ leb (e.locked_at + ttl) now
  | LogStatus.applied ↦ false
  | LogStatus.rejected ↦ false
  | LogStatus.quarantined ↦ false
]

abbrev pub claimed_log : ℕ → ℕ → CommandLogEntry → CommandLogEntry
claimed_log now worker e = record e {
  status = LogStatus.processing;
  attempts = e.attempts + 1;
  locked_by = worker;
  locked_at = now;
  updated_at = now;
}

abbrev pub is_after : ℕ → CommandLogEntry → Bool
is_after after e = after == 0 || ltb after e.sequence_id

abbrev pub by_log_sequence : CommandLogEntry → CommandLogEntry → Bool
by_log_sequence a b = leb a.sequence_id b.sequence_id

-- The entries of a market behind a sequence.
abbrev pub command_logs : ℕ → ℕ → Queue CommandLogEntry
command_logs market after = record {
  key = λ e. e.command_id;
  is_claimable = λ now ttl e. e.market == market && is_claimable_log now ttl e && is_after after e;
  claim = claimed_log;
  before = by_log_sequence;
}

-- `ClaimOrderCommandLogsAfter`, and `ClaimOrderCommandLogs` where `after` is 0.
unfoldable pub claim_order_command_logs_after :
    ℕ → ℕ → ℕ → ℕ → ℕ → ℕ → ℕ → Tx (List CommandLogEntry)
claim_order_command_logs_after matcher now market worker limit ttl after t =
    let claim =
      claim_rows (command_logs market after) now (or_default matcher worker) (row_limit 1000 limit)
        (or_default five_minutes ttl) t.command_log in
    if market == 0
    then err ExchangeError.market_required
    else ok (claim.0, record t { command_log = claim.1 })

-- A limit of the queries without a claim.
abbrev pub list_limit : ℕ → ℕ
list_limit limit = if limit == 0 || ltb 10000 limit then 1000 else limit

abbrev pub in_market_after : ℕ → ℕ → CommandLogEntry → Bool
in_market_after market after e = e.market == market && ltb after e.sequence_id

-- `ListOrderCommandLogsAfter`
unfoldable pub list_order_command_logs_after : ℕ → ℕ → ℕ → Tx (List CommandLogEntry)
list_order_command_logs_after market after limit = reads (λ t.
    if market == 0
    then []
    else take (list_limit limit)
        (order_by by_log_sequence (select (in_market_after market after) t.command_log)))

abbrev pub is_unapplied : LogStatus → Bool
is_unapplied LogStatus.pending = true
is_unapplied LogStatus.processing = true
is_unapplied _ = false

abbrev pub unapplied_through : ℕ → ℕ → CommandLogEntry → Bool
unapplied_through market through e =
    e.market == market && leb e.sequence_id through && is_unapplied e.status

-- `ListUnappliedOrderCommandLogsThrough`
unfoldable pub list_unapplied_order_command_logs_through : ℕ → ℕ → ℕ → Tx (List CommandLogEntry)
list_unapplied_order_command_logs_through market through limit = reads (λ t.
    if market == 0 || through == 0
    then []
    else take (list_limit limit)
        (order_by by_log_sequence (select (unapplied_through market through) t.command_log)))

abbrev pub is_applied : LogStatus → Bool
is_applied LogStatus.applied = true
is_applied _ = false

-- `LatestAppliedOrderCommandSequence`
unfoldable pub latest_applied : ℕ → List CommandLogEntry → ℕ
latest_applied market [] = 0
latest_applied market (e ∷ es) =
    let rest = latest_applied market es in
    if e.market == market && is_applied e.status && ltb rest e.sequence_id
    then e.sequence_id
    else rest

unfoldable pub latest_applied_order_command_sequence : ℕ → Tx ℕ
latest_applied_order_command_sequence market =
    reads (λ t. if market == 0 then 0 else latest_applied market t.command_log)

-- A row that is put aside for good, under a status.
abbrev pub ended_log : LogStatus → ℕ → CommandLogEntry → CommandLogEntry
ended_log status now e = record e {
  status = status;
  locked_by = 0;
  locked_at = 0;
  updated_at = now;
}

-- `updateOrderCommandLogTerminal`
unfoldable pub update_order_command_log_terminal : LogStatus → ℕ → ℕ → Tx (Unit {0})
update_order_command_log_terminal status now id = modify (λ t.
    if id == 0
    then t
    else record t { command_log = update_logs (ended_log status now) id t.command_log })

-- `RejectOrderCommandLog`
unfoldable pub reject_order_command_log : ℕ → ℕ → Tx (Unit {0})
reject_order_command_log = update_order_command_log_terminal LogStatus.rejected

-- `QuarantineOrderCommandLog`
unfoldable pub quarantine_order_command_log : ℕ → ℕ → Tx (Unit {0})
quarantine_order_command_log = update_order_command_log_terminal LogStatus.quarantined

unfoldable pub failed_log : ℕ → ℕ → ℕ → CommandLogEntry → CommandLogEntry
failed_log now max_attempts retry_after e =
    let last = leb (or_default 5 max_attempts) e.attempts in
    record e {
      status = if last then LogStatus.quarantined else LogStatus.pending;
      available_at = if last then now else now + or_default second retry_after;
      locked_by = 0;
      locked_at = 0;
      updated_at = now;
    }

-- `FailOrderCommandLog`
unfoldable pub fail_order_command_log : ℕ → ℕ → ℕ → ℕ → Tx (Unit {0})
unfolding failed_log
fail_order_command_log now id max_attempts retry_after = if id == 0 then pure tt else do
  found ← reads (λ t. find_log id t.command_log)
  e ← from_option ExchangeError.no_record found
  modify (λ t. record t {
    command_log =
        save_row (command_logs e.market 0) (failed_log now max_attempts retry_after e)
          t.command_log;
  })

command_logs-IsExclusive : (market after : ℕ) → IsExclusive (command_logs market after)
unfolding is_claimable_log
command_logs-IsExclusive market after = record {
  key_kept = λ now worker a. refl;
  held = λ now worker later ttl a h. ground arith;
}

claimed_ok :
    (matcher now market worker limit ttl after : ℕ) (t t' : Tables) {es : List CommandLogEntry}
    → claim_order_command_logs_after matcher now market worker limit ttl after t ≡ ok (es, t')
    → (es
        ≡ (claim_rows
            (command_logs market after)
            now
            (or_default matcher worker)
            (row_limit 1000 limit)
            (or_default five_minutes ttl)
            t.command_log).0)
      × (t'.command_log
          ≡ (claim_rows
              (command_logs market after)
              now
              (or_default matcher worker)
              (row_limit 1000 limit)
              (or_default five_minutes ttl)
              t.command_log).1)
unfolding claim_order_command_logs_after
claimed_ok matcher now market worker limit ttl after t t' h = elim (Bool-cases (market == 0)) [
  | inl e ↦ absurd (not_ok (rw e at h))
  | inr e ↦ let (p, q) = ended_ok (rw e at h) in (p, ap (λ x. x.command_log) q)
]

-- Two claims of a market's logged commands, one after the other, by any workers: while the claim of
-- the first is younger than the time that the second allows, or five minutes where it names none,
-- the second is given no command that the first was.
pub claim_order_command_logs-exclusive :
    (matcher now market worker limit ttl later worker' limit' ttl' after : ℕ) (t t₁ t₂ : Tables)
    (first next : List CommandLogEntry)
    → claim_order_command_logs_after matcher now market worker limit ttl after t ≡ ok (first, t₁)
    → claim_order_command_logs_after matcher later market worker' limit' ttl' after t₁
      ≡ ok (next, t₂)
    → later < now + or_default five_minutes ttl'
    → All (λ a. All (λ b. a.command_id ≢ b.command_id) next) first
claim_order_command_logs-exclusive matcher now market worker limit ttl later worker' limit' ttl'
      after t t₁ t₂ first next h k early =
    let (e, e₁) = claimed_ok matcher now market worker limit ttl after t t₁ h in
    let (e', _) = claimed_ok matcher later market worker' limit' ttl' after t₁ t₂ k in
    rw (e, e', e₁)
      (claim_rows-exclusive (command_logs market after) (command_logs-IsExclusive market after) now
        (or_default matcher worker) (row_limit 1000 limit) (or_default five_minutes ttl) later
        (or_default matcher worker') (row_limit 1000 limit') (or_default five_minutes ttl')
        t.command_log early)
