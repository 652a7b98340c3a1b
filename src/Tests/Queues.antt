-- ===== src/Tests/Queues.antt =====
-- Two workers that claim one after the other, two owners of a lease, and a projection that is told
-- an old offset.
use crosschainswap.Prelude.{ℕ, ◌≤◌, ◌≡◌, ◌≢◌, refl, arith, true, false, List, [], ◌∷◌, ok, All}
use crosschainswap.Prelude.Dict.{Dict, lookup, insert}
use crosschainswap.Exchange.{MatchJob, CommandLogEntry, Tables}
use crosschainswap.Exchange.Queries.{select, order_by, insert_row, take}
use crosschainswap.Exchange.Commands.{new_job, new_log_entry}
use crosschainswap.Queues.{claim_rows, claim_each, save_row}
use crosschainswap.Queues.Jobs.{is_claimable_job, claim_match_jobs}
use crosschainswap.Queues.Logs.{
  is_claimable_log, claim_order_command_logs_after, claim_order_command_logs-exclusive,
}
use crosschainswap.Queues.Leases.{
  Lease, LeaseCall, IsForeign, try_acquire, call_all, try_acquire-excludes,
}
use crosschainswap.Queues.Offsets.{Offset, find_offset, sequence_of, advance_all, advance_all-rises}
use crosschainswap.Trading.Place.{order_command_payload}
use crosschainswap.Tests.Samples.{buyer}
use crosschainswap.Tests.Trading.{crossed}

abbrev waiting : Tables
waiting = record crossed {
  jobs = new_job 1 10 10 1 ∷ new_job 2 20 11 1 ∷ [];
  command_log =
      new_log_entry 10 40 1 1 (order_command_payload buyer) 1
      ∷ new_log_entry 11 41 1 1 (order_command_payload buyer) 2
      ∷ [];
}

claimed_jobs :
    (first : List MatchJob) × (t : Tables) × (claim_match_jobs 9 30 5 1 100 waiting ≡ ok (first, t))
unfolding claim_match_jobs claim_rows claim_each save_row is_claimable_job select order_by
    insert_row take
claimed_jobs = (_, _, refl)

claimed_again :
    (next : List MatchJob) × (t : Tables) × (claim_match_jobs 9 40 6 10 100 claimed_jobs.1
      ≡ ok (next, t))
unfolding claimed_jobs claim_match_jobs claim_rows claim_each save_row is_claimable_job select
    order_by insert_row take
claimed_again = (_, _, refl)

claimed_logs :
    (first : List CommandLogEntry) × (t : Tables) × (claim_order_command_logs_after 9 30 1 5 1 100 0
        waiting
      ≡ ok (first, t))
unfolding claim_order_command_logs_after claim_rows claim_each save_row is_claimable_log select
    order_by insert_row take
claimed_logs = (_, _, refl)

logs_again :
    (next : List CommandLogEntry) × (t : Tables) × (claim_order_command_logs_after 9 40 1 6 10 100 0
        claimed_logs.1
      ≡ ok (next, t))
unfolding claimed_logs claim_order_command_logs_after claim_rows claim_each save_row
    is_claimable_log select order_by insert_row take
logs_again = (_, _, refl)

claim_order_command_logs-exclusive_example :
    All (λ a. All (λ b. a.command_id ≢ b.command_id) logs_again.0) claimed_logs.0
claim_order_command_logs-exclusive_example =
    claim_order_command_logs-exclusive 9 30 1 5 1 100 40 6 10 100 0 waiting claimed_logs.1
      logs_again.1 claimed_logs.0 logs_again.0 claimed_logs.2 logs_again.2 (omega arith)

-- Owner 5 holds the name 1; owner 6 takes the name 2, and releases and asks for 1 in vain.
leased : (d : Dict Lease) × (try_acquire 10 1 5 50 [] ≡ (true, d))
unfolding try_acquire lookup insert
leased = (_, refl)

abbrev calls : List LeaseCall
calls = LeaseCall.acquire 20 2 6 50 ∷ LeaseCall.release 21 1 6 ∷ LeaseCall.acquire 22 1 6 50 ∷ []

calls-IsForeign : All (IsForeign 5 60) calls
calls-IsForeign = (
  record { other = λ e. omega (arith, e); early = omega arith },
  (
    record { other = λ e. omega (arith, e); early = omega arith },
    (record { other = λ e. omega (arith, e); early = omega arith }, tt),
  ),
)

try_acquire-excludes_example :
    try_acquire 59 1 6 50 (call_all calls leased.0) ≡ (false, call_all calls leased.0)
try_acquire-excludes_example =
    try_acquire-excludes 10 1 5 50 [] leased.0 calls 59 6 50 leased.1 calls-IsForeign
      (λ e. omega (arith, e)) (omega arith)

abbrev offset : ℕ → Offset
offset sequence = record {
  projection = 1;
  market = 1;
  stream = 0;
  last_sequence = sequence;
  last_event_id = sequence;
  last_event_hash = 0;
  last_event_at = 0;
  updated_at = 0;
  last_advanced_at = 0;
}

advance_all-rises_example :
    sequence_of (find_offset 1 1 (offset 3 ∷ []))
    ≤ sequence_of
        (find_offset 1 1 (advance_all ((10, offset 5) ∷ (11, offset 4) ∷ []) (offset 3 ∷ [])))
advance_all-rises_example =
    advance_all-rises 1 1 ((10, offset 5) ∷ (11, offset 4) ∷ []) (offset 3 ∷ [])
