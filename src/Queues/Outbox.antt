-- ===== src/Queues/Outbox.antt =====
-- outbox_repository.go: the events that wait to be published.
use crosschainswap.Prelude.{
  ℕ, ◌+◌, ◌<◌, ◌≢◌, refl, arith, Bool, false, ◌||◌, List, [], ◌∷◌, ◌++◌, Option, none, some, leb,
  ◌==◌, if◌then◌else◌, All,
}
use crosschainswap.Queues.{Queue, or_default, row_limit, second, five_minutes, claim_rows, save_row}
use crosschainswap.Queues.Exclusive.{IsExclusive, claim_rows-exclusive}

pub data OutboxStatus : Type 0 where
  pending processing published failed : OutboxStatus

-- `ExchangeOutboxEvent`
pub record OutboxEvent : Type 0 where
  pub id : ℕ
  pub topic : ℕ
  pub event_key : ℕ
  pub payload : ℕ
  pub status : OutboxStatus
  pub attempts : ℕ
  pub available_at : ℕ
  pub locked_by : ℕ
  pub locked_at : ℕ
  pub created_at : ℕ
  pub updated_at : ℕ
  pub published_at : ℕ

abbrev pub new_event : ℕ → ℕ → ℕ → ℕ → ℕ → OutboxEvent
new_event now id topic event_key payload = record {
  id = id;
  topic = topic;
  event_key = event_key;
  payload = payload;
  status = OutboxStatus.pending;
  attempts = 0;
  available_at = now;
  locked_by = 0;
  locked_at = 0;
  created_at = now;
  updated_at = now;
  published_at = 0;
}

-- `Create`
unfoldable pub create_event : ℕ → ℕ → ℕ → ℕ → ℕ → List OutboxEvent → List OutboxEvent
create_event now id topic event_key payload rows =
    if topic == 0 || payload == 0
    then rows
    else rows ++ new_event now id topic event_key payload ∷ []

unfoldable pub is_claimable_event : ℕ → ℕ → OutboxEvent → Bool
is_claimable_event now ttl e = elim e.status [
  | OutboxStatus.pending ↦ leb e.available_at now
  | OutboxStatus.processing ↦ leb (e.locked_at + ttl) now
  | OutboxStatus.published ↦ false
  | OutboxStatus.failed ↦ false
]

abbrev pub claimed_event : ℕ → ℕ → OutboxEvent → OutboxEvent
claimed_event now worker e = record e {
  status = OutboxStatus.processing;
  attempts = e.attempts + 1;
  locked_by = worker;
  locked_at = now;
  updated_at = now;
}

abbrev pub outbox_events : Queue OutboxEvent
outbox_events = record {
  key = λ e. e.id;
  is_claimable = is_claimable_event;
  claim = claimed_event;
  before = λ a b. leb a.created_at b.created_at;
}

-- `Claim`; `outbox` is the name of a worker without one.
unfoldable pub claim_events :
    ℕ → ℕ → ℕ → ℕ → ℕ → List OutboxEvent → List OutboxEvent × List OutboxEvent
claim_events outbox now worker limit ttl rows =
    claim_rows outbox_events now (or_default outbox worker) (row_limit 1000 limit)
      (or_default five_minutes ttl) rows

unfoldable pub update_events : (OutboxEvent → OutboxEvent) → ℕ → List OutboxEvent → List OutboxEvent
update_events change id [] = []
update_events change id (e ∷ es) = (if e.id == id then change e else e) ∷ update_events change id es

abbrev pub published_event : ℕ → OutboxEvent → OutboxEvent
published_event now e = record e {
  status = OutboxStatus.published;
  locked_by = 0;
  locked_at = 0;
  updated_at = now;
  published_at = now;
}

-- `MarkPublished`
unfoldable pub mark_published : ℕ → ℕ → List OutboxEvent → List OutboxEvent
mark_published now id rows = if id == 0 then rows else update_events (published_event now) id rows

unfoldable pub failed_event : ℕ → ℕ → ℕ → OutboxEvent → OutboxEvent
failed_event now max_attempts retry_after e =
    let last = leb (or_default 10 max_attempts) e.attempts in
    record e {
      status = if last then OutboxStatus.failed else OutboxStatus.pending;
      available_at = if last then now else now + or_default second retry_after;
      locked_by = 0;
      locked_at = 0;
      updated_at = now;
    }

unfoldable pub find_event : ℕ → List OutboxEvent → Option OutboxEvent
find_event id [] = none
find_event id (e ∷ es) = if e.id == id then some e else find_event id es

-- `MarkFailed`: none where there is no such event.
unfoldable pub mark_failed : ℕ → ℕ → ℕ → ℕ → List OutboxEvent → Option (List OutboxEvent)
unfolding failed_event
mark_failed now id max_attempts retry_after rows =
    if id == 0 then some rows else elim (find_event id rows) [
      | none ↦ none
      | some e ↦ some (save_row outbox_events (failed_event now max_attempts retry_after e) rows)
    ]

outbox_events-IsExclusive : IsExclusive outbox_events
unfolding is_claimable_event
outbox_events-IsExclusive = record {
  key_kept = λ now worker a. refl;
  held = λ now worker later ttl a h. ground arith;
}

-- Two claims of events, one after the other, by any workers: while the claim of the first is younger
-- than the time that the second allows, or five minutes where it names none, the second is given no
-- event that the first was.
pub claim_events-exclusive :
    (outbox now worker limit ttl later worker' limit' ttl' : ℕ) (rows : List OutboxEvent)
    → later < now + or_default five_minutes ttl'
    → All
        (λ a.
          All
            (λ b. a.id ≢ b.id)
            (claim_events outbox later worker' limit' ttl'
              (claim_events outbox now worker limit ttl rows).1).0)
        (claim_events outbox now worker limit ttl rows).0
unfolding claim_events
claim_events-exclusive outbox now worker limit ttl later worker' limit' ttl' rows early =
    claim_rows-exclusive outbox_events outbox_events-IsExclusive now (or_default outbox worker)
      (row_limit 1000 limit) (or_default five_minutes ttl) later (or_default outbox worker')
      (row_limit 1000 limit') (or_default five_minutes ttl') rows early
