-- ===== src/Queues/Jobs.antt =====
-- match_job_repository.go: the jobs of the matchers, each for one order.
use crosschainswap.Prelude.{
  ℕ, ◌+◌, ◌<◌, ◌≡◌, ◌≢◌, refl, arith, Bool, false, List, [], ◌∷◌, Option, none, some, leb, ◌==◌,
  if◌then◌else◌, All, ok,
}
use crosschainswap.Exchange.{
  JobStatus, MatchJob, ExchangeError, Tables, Tx, pure, reads, from_option, modify, ◌>>=◌,
}
use crosschainswap.Exchange.Keeps.{ended_ok}
use crosschainswap.Queues.{Queue, or_default, row_limit, second, five_minutes, claim_rows, save_row}
use crosschainswap.Queues.Exclusive.{IsExclusive, claim_rows-exclusive}

-- Pending and available, or processed by a worker for too long.
unfoldable pub is_claimable_job : ℕ → ℕ → MatchJob → Bool
is_claimable_job now ttl job = elim job.status [
  | JobStatus.pending ↦ leb job.available_at now
  | JobStatus.processing ↦ leb (job.locked_at + ttl) now
  | JobStatus.completed ↦ false
  | JobStatus.failed ↦ false
  | JobStatus.quarantined ↦ false
]

abbrev pub claimed_job : ℕ → ℕ → MatchJob → MatchJob
claimed_job now worker job = record job {
  status = JobStatus.processing;
  attempts = job.attempts + 1;
  locked_by = worker;
  locked_at = now;
  updated_at = now;
}

abbrev pub match_jobs : Queue MatchJob
match_jobs = record {
  key = λ j. j.id;
  is_claimable = is_claimable_job;
  claim = claimed_job;
  before = λ a b. leb a.created_at b.created_at;
}

-- `ClaimMatchJobs`; `matcher` is the name of a worker without one.
unfoldable pub claim_match_jobs : ℕ → ℕ → ℕ → ℕ → ℕ → Tx (List MatchJob)
claim_match_jobs matcher now worker limit ttl t =
    let claim =
      claim_rows match_jobs now (or_default matcher worker) (row_limit 500 limit)
        (or_default five_minutes ttl) t.jobs in
    ok (claim.0, record t { jobs = claim.1 })

unfoldable pub update_jobs : (MatchJob → MatchJob) → ℕ → List MatchJob → List MatchJob
update_jobs change id [] = []
update_jobs change id (j ∷ js) = (if j.id == id then change j else j) ∷ update_jobs change id js

abbrev pub completed_job : ℕ → MatchJob → MatchJob
completed_job now job = record job {
  status = JobStatus.completed;
  locked_by = 0;
  locked_at = 0;
  updated_at = now;
}

-- `CompleteMatchJob`
unfoldable pub complete_match_job : ℕ → ℕ → Tx (Unit {0})
complete_match_job now id =
    modify
      (λ t. if id == 0 then t else record t { jobs = update_jobs (completed_job now) id t.jobs })

unfoldable pub find_job : ℕ → List MatchJob → Option MatchJob
find_job id [] = none
find_job id (j ∷ js) = if j.id == id then some j else find_job id js

-- A job that failed waits for its next attempt, or is put aside after the last.
unfoldable pub failed_job : ℕ → ℕ → ℕ → MatchJob → MatchJob
failed_job now max_attempts retry_after job =
    let last = leb (or_default 5 max_attempts) job.attempts in
    record job {
      status = if last then JobStatus.quarantined else JobStatus.pending;
      available_at = if last then now else now + or_default second retry_after;
      locked_by = 0;
      locked_at = 0;
      updated_at = now;
    }

-- `FailMatchJob`
unfoldable pub fail_match_job : ℕ → ℕ → ℕ → ℕ → Tx (Unit {0})
unfolding failed_job
fail_match_job now id max_attempts retry_after = if id == 0 then pure tt else do
  found ← reads (λ t. find_job id t.jobs)
  job ← from_option ExchangeError.no_record found
  modify (λ t. record t {
    jobs = save_row match_jobs (failed_job now max_attempts retry_after job) t.jobs;
  })

match_jobs-IsExclusive : IsExclusive match_jobs
unfolding is_claimable_job
match_jobs-IsExclusive = record {
  key_kept = λ now worker a. refl;
  held = λ now worker later ttl a h. ground arith;
}

-- Two claims of match jobs, one after the other, by any workers: while the claim of the first is
-- younger than the time that the second allows, or five minutes where it names none, the second is
-- given no job that the first was.
claim_match_jobs-exclusive :
    (matcher now worker limit ttl later worker' limit' ttl' : ℕ) (t t₁ t₂ : Tables)
    (first next : List MatchJob)
    → claim_match_jobs matcher now worker limit ttl t ≡ ok (first, t₁)
    → claim_match_jobs matcher later worker' limit' ttl' t₁ ≡ ok (next, t₂)
    → later < now + or_default five_minutes ttl'
    → All (λ a. All (λ b. a.id ≢ b.id) next) first
unfolding claim_match_jobs
claim_match_jobs-exclusive matcher now worker limit ttl later worker' limit' ttl' t t₁ t₂ first next
      h k early =
    let (e, e₁) = ended_ok h in
    let (e', _) = ended_ok k in
    let exclusive =
      claim_rows-exclusive match_jobs match_jobs-IsExclusive now (or_default matcher worker)
        (row_limit 500 limit) (or_default five_minutes ttl) later (or_default matcher worker')
        (row_limit 500 limit') (or_default five_minutes ttl') t.jobs early in
    rw (e, e', e₁) exclusive
