-- ===== src/Trading/Kept/Statements.antt =====
-- The statements on sequences, commands, logs and jobs touch neither money nor orders.
use crosschainswap.Prelude.{ℕ, Option, none, some, refl, arith}
use crosschainswap.Exchange.{Tables, CommandPayload, OrderCommand, CommandLogEntry, modify}
use crosschainswap.Exchange.Sequences.{keep_sequence, next_order_sequence}
use crosschainswap.Exchange.Commands.{
  get_order_command, create_order_command, next_order_command_sequence, append_new,
  append_order_command_log, apply_order_command_log, create_match_job,
}
use crosschainswap.Exchange.Keeps.{Keeps, keeps_rules}
use crosschainswap.Trading.Kept.{IsSteady, elsewhere-Keeps}

module _ {P : Tables → Type 0} (w : IsSteady P) where
  keep_sequence-Keeps : (market seq : ℕ) → Keeps P (modify (keep_sequence market seq))
  keep_sequence-Keeps market seq = elsewhere-Keeps w _ (λ t. refl) (λ t. refl) (λ t. refl)

  pub next_order_sequence-Keeps : (market : ℕ) → Keeps P (next_order_sequence market)
  unfolding next_order_sequence
  next_order_sequence-Keeps market = search (keeps_rules, keep_sequence-Keeps)

  pub get_order_command-Keeps : (id : ℕ) → Keeps P (get_order_command id)
  unfolding get_order_command
  get_order_command-Keeps id = search keeps_rules

  pub create_order_command-Keeps : (c : OrderCommand) → Keeps P (create_order_command c)
  create_order_command-Keeps c = w.commanded c

  pub apply_order_command_log-Keeps :
      (now id order_id : ℕ) → Keeps P (apply_order_command_log now id order_id)
  unfolding apply_order_command_log
  apply_order_command_log-Keeps now id order_id =
      elsewhere-Keeps w _ (λ t. ground arith) (λ t. ground arith) (λ t. ground arith)

  pub create_match_job-Keeps :
      (id now order_id market : ℕ) → Keeps P (create_match_job id now order_id market)
  unfolding create_match_job
  create_match_job-Keeps id now order_id market =
      elsewhere-Keeps w _ (λ t. ground arith) (λ t. ground arith) (λ t. ground arith)

  next_order_command_sequence-Keeps : (market : ℕ) → Keeps P (next_order_command_sequence market)
  unfolding next_order_command_sequence
  next_order_command_sequence-Keeps market = search (keeps_rules, elsewhere-Keeps)

  append_new-Keeps :
      (now id market hash : ℕ) (payload : CommandPayload) (old : Option CommandLogEntry)
      → Keeps P (append_new now id market hash payload old)
  unfolding append_new
  append_new-Keeps now id market hash payload none =
      search (keeps_rules, next_order_command_sequence-Keeps, elsewhere-Keeps)
  append_new-Keeps now id market hash payload (some e) = search keeps_rules

  pub append_order_command_log-Keeps :
      (now id market hash : ℕ) (payload : CommandPayload)
      → Keeps P (append_order_command_log now id market hash payload)
  unfolding append_order_command_log
  append_order_command_log-Keeps now id market hash payload = search (keeps_rules, append_new-Keeps)
