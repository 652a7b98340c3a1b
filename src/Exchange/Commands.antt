-- ===== src/Exchange/Commands.antt =====
-- order_command_repository.go, order_command_log_repository.go and match_job_repository.go: the
-- commands by which a request is known again, their log, and the jobs for the matchers. The lock
-- that a statement takes on a row is no part of a table.
use crosschainswap.Prelude.{
  ℕ, ◌+◌, ◌%◌, Bool, true, false, ◌&&◌, ◌||◌, List, [], ◌∷◌, ◌++◌, Option, none, some, ltb, ◌==◌,
  ◌!=◌, if◌then◌else◌,
}
use crosschainswap.Prelude.Dict.{lookup, insert}
use crosschainswap.Exchange.{
  CommandPayload, CommandStatus, CommandOutcome, OrderCommand, LogStatus, CommandLogEntry,
  JobStatus, MatchJob, ExchangeError, Tx, pure, reads, modify, throw_if, ◌>>=◌, ◌>>◌,
}
use crosschainswap.Exchange.Sequences.{uint64, next_sequence}

unfoldable pub find_command : ℕ → List OrderCommand → Option OrderCommand
find_command id [] = none
find_command id (c ∷ cs) = if c.id == id then some c else find_command id cs

-- `GetOrderCommandForUpdate`
unfoldable pub get_order_command : ℕ → Tx (Option OrderCommand)
get_order_command id = reads (λ t. if id == 0 then none else find_command id t.commands)

abbrev pub is_incomplete : OrderCommand → Bool
is_incomplete c = c.id == 0 || c.user_id == 0 || c.client_order_id == 0 || c.payload_hash == 0

abbrev pub has_command : ℕ → List OrderCommand → Bool
has_command id cs = elim (find_command id cs) [ none ↦ false | some c ↦ true ]

-- Does a row stand under the unique index on the user and the client's order id?
unfoldable pub has_client_command : ℕ → ℕ → List OrderCommand → Bool
has_client_command user client [] = false
has_client_command user client (c ∷ cs) =
    c.user_id == user && c.client_order_id == client || has_client_command user client cs

-- `CreateOrderCommand`: a command that is incomplete is not kept, and is no error.
unfoldable pub create_order_command : OrderCommand → Tx (Unit {0})
create_order_command c = if is_incomplete c then pure tt else do
  clash ← reads (λ t.
      has_command c.id t.commands || has_client_command c.user_id c.client_order_id t.commands)
  throw_if clash ExchangeError.duplicate_row
  modify (λ t. record t { commands = t.commands ++ c ∷ [] })

unfoldable pub update_commands :
    (OrderCommand → OrderCommand) → ℕ → List OrderCommand → List OrderCommand
update_commands change id [] = []
update_commands change id (c ∷ cs) =
    (if c.id == id then change c else c) ∷ update_commands change id cs

abbrev pub completed_command : ℕ → ℕ → CommandOutcome → OrderCommand → OrderCommand
completed_command now order_id outcome c = record c {
  status = CommandStatus.completed;
  outcome = outcome;
  order_id = order_id;
  updated_at = now;
}

-- `CompleteOrderCommand`
unfoldable pub complete_order_command : ℕ → ℕ → ℕ → CommandOutcome → Tx (Unit {0})
complete_order_command now id order_id outcome = modify (λ t. if id == 0 then t else record t {
  commands = update_commands (completed_command now order_id outcome) id t.commands;
})

unfoldable pub find_log : ℕ → List CommandLogEntry → Option CommandLogEntry
find_log id [] = none
find_log id (e ∷ es) = if e.command_id == id then some e else find_log id es

-- `maxOrderCommandSequence`
unfoldable pub max_command_sequence : ℕ → List CommandLogEntry → ℕ
max_command_sequence market [] = 0
max_command_sequence market (e ∷ es) =
    let rest = max_command_sequence market es in
    if e.market == market && ltb rest e.sequence_id then e.sequence_id else rest

-- `nextOrderCommandSequence`
unfoldable pub next_order_command_sequence : ℕ → Tx ℕ
next_order_command_sequence market = do
  throw_if (market == 0) ExchangeError.market_required
  seq ← reads (λ t.
      next_sequence (max_command_sequence market t.command_log) (lookup market t.command_sequences))
  modify
      (λ t. record t { command_sequences = insert market ((seq + 1) % uint64) t.command_sequences })
  pure seq

abbrev pub new_log_entry : ℕ → ℕ → ℕ → ℕ → CommandPayload → ℕ → CommandLogEntry
new_log_entry now id market payload_hash payload seq = record {
  command_id = id;
  sequence_id = seq;
  market = market;
  payload_hash = payload_hash;
  payload = payload;
  status = LogStatus.pending;
  attempts = 0;
  available_at = now;
  locked_by = 0;
  locked_at = 0;
  applied_order_id = 0;
  updated_at = now;
}

-- The part of `AppendOrderCommandLog` behind the search for an entry of the same command.
unfoldable pub append_new :
    ℕ → ℕ → ℕ → ℕ → CommandPayload → Option CommandLogEntry → Tx CommandLogEntry
append_new now id market payload_hash payload (some e) = do
  throw_if (e.payload_hash != payload_hash) ExchangeError.log_conflict
  pure e
append_new now id market payload_hash payload none = do
  seq ← next_order_command_sequence market
  modify (λ t. record t {
    command_log = t.command_log ++ new_log_entry now id market payload_hash payload seq ∷ [];
  })
  pure (new_log_entry now id market payload_hash payload seq)

-- `AppendOrderCommandLog`
unfoldable pub append_order_command_log : ℕ → ℕ → ℕ → ℕ → CommandPayload → Tx CommandLogEntry
unfolding append_new
append_order_command_log now id market payload_hash payload = do
  throw_if (id == 0 || market == 0 || payload_hash == 0) ExchangeError.log_incomplete
  existing ← reads (λ t. find_log id t.command_log)
  append_new now id market payload_hash payload existing

unfoldable pub update_logs :
    (CommandLogEntry → CommandLogEntry) → ℕ → List CommandLogEntry → List CommandLogEntry
update_logs change id [] = []
update_logs change id (e ∷ es) =
    (if e.command_id == id then change e else e) ∷ update_logs change id es

abbrev pub applied_entry : ℕ → ℕ → CommandLogEntry → CommandLogEntry
applied_entry now order_id e = record e {
  status = LogStatus.applied;
  applied_order_id = order_id;
  locked_by = 0;
  locked_at = 0;
  updated_at = now;
}

-- `ApplyOrderCommandLog`
unfoldable pub apply_order_command_log : ℕ → ℕ → ℕ → Tx (Unit {0})
apply_order_command_log now id order_id = modify (λ t.
    if id == 0
    then t
    else record t { command_log = update_logs (applied_entry now order_id) id t.command_log })

unfoldable pub has_job : ℕ → List MatchJob → Bool
has_job order_id [] = false
has_job order_id (j ∷ js) = j.order_id == order_id || has_job order_id js

abbrev pub new_job : ℕ → ℕ → ℕ → ℕ → MatchJob
new_job id now order_id market = record {
  id = id;
  order_id = order_id;
  market = market;
  status = JobStatus.pending;
  attempts = 0;
  available_at = now;
  locked_by = 0;
  locked_at = 0;
  created_at = now;
  updated_at = now;
}

-- `CreateMatchJob`: an order has one job at most.
unfoldable pub create_match_job : ℕ → ℕ → ℕ → ℕ → Tx (Unit {0})
create_match_job id now order_id market = modify (λ t.
    if order_id == 0 || has_job order_id t.jobs
    then t
    else record t { jobs = t.jobs ++ new_job id now order_id market ∷ [] })
