-- ===== src/Trading/Kept/Placed.antt =====
-- Placing an order, and any sequence of requests.
use crosschainswap.Prelude.{ℕ, Bool, Option, none, some}
use crosschainswap.Order.{Order}
use crosschainswap.Exchange.{CommandOutcome, OrderCommand, Tables}
use crosschainswap.Exchange.Commands.{complete_order_command}
use crosschainswap.Exchange.ActiveOrders.{find_order_by_client_id}
use crosschainswap.Exchange.Keeps.{Keeps, Keeps-reads, keeps_rules}
use crosschainswap.Trading.{Env}
use crosschainswap.Trading.Place.{
  order_of_command, finish_command, leave_to_matcher, leave_waiting, match_now, dispatch,
  accept_order, place_new, place_twin, place_known, place_order,
}
use crosschainswap.Trading.Kept.{
  IsSteady, save_order-Keeps, create_order-Keeps, reserve-Keeps, create_order_events-Keeps,
}
use crosschainswap.Trading.Kept.Statements.{
  next_order_sequence-Keeps, get_order_command-Keeps, create_order_command-Keeps,
  append_order_command_log-Keeps, apply_order_command_log-Keeps, create_match_job-Keeps,
}
use crosschainswap.Trading.Kept.Matches.{
  match_orders-Keeps, record_match-Keeps, check_price_band-Keeps, check_stop_placement-Keeps,
}
use crosschainswap.Trading.Kept.Requests.{load_order-Keeps, finish_match-Keeps}

module _ {P : Tables → Type 0} (w : IsSteady P) where
  order_of_command-Keeps : (hash : ℕ) (c : Option OrderCommand) → Keeps P (order_of_command hash c)
  unfolding order_of_command
  order_of_command-Keeps hash none = search keeps_rules
  order_of_command-Keeps hash (some c) = search (keeps_rules, load_order-Keeps)

  find_order_by_client_id-Keeps : (user client : ℕ) → Keeps P (find_order_by_client_id user client)
  unfolding find_order_by_client_id
  find_order_by_client_id-Keeps user client = Keeps-reads _

module _ {P : Tables → Type 0} (w : IsSteady P) (env : Env) (command : ℕ)
    (completed : (now order_id : ℕ) (word : CommandOutcome)
      → Keeps P (complete_order_command now command order_id word)) where
  finish_command-Keeps :
      (order_id : ℕ) (word : CommandOutcome) → Keeps P (finish_command env command order_id word)
  unfolding finish_command
  finish_command-Keeps order_id word =
      search (keeps_rules, completed, apply_order_command_log-Keeps)

  leave_to_matcher-Keeps : (item : Order) → Keeps P (leave_to_matcher env command item)
  unfolding leave_to_matcher
  leave_to_matcher-Keeps item =
      search
        (
          keeps_rules, save_order-Keeps, create_match_job-Keeps, completed,
          apply_order_command_log-Keeps,
        )
        depth 12

  leave_waiting-Keeps : (item : Order) → Keeps P (leave_waiting env command item)
  unfolding leave_waiting
  leave_waiting-Keeps item = search (keeps_rules, finish_command-Keeps)

  match_now-Keeps : (item : Order) → Keeps P (match_now env command item)
  unfolding match_now
  match_now-Keeps item =
      search
        (
          keeps_rules, match_orders-Keeps, record_match-Keeps, finish_match-Keeps,
          finish_command-Keeps,
        )
        depth 9

  dispatch-Keeps : (item : Order) → Keeps P (dispatch env command item)
  unfolding dispatch
  dispatch-Keeps item =
      search (keeps_rules, leave_to_matcher-Keeps, leave_waiting-Keeps, match_now-Keeps)

  accept_order-Keeps : (item : Order) → Keeps P (accept_order env item)
  unfolding accept_order
  accept_order-Keeps item =
      search (keeps_rules, create_order-Keeps, reserve-Keeps, create_order_events-Keeps)

  place_new-Keeps : (known : Bool) (item : Order) → Keeps P (place_new env command known item)
  unfolding place_new
  place_new-Keeps known item =
      search
        (
          keeps_rules, create_order_command-Keeps, append_order_command_log-Keeps,
          check_price_band-Keeps, check_stop_placement-Keeps, next_order_sequence-Keeps,
          accept_order-Keeps, dispatch-Keeps,
        )
        depth 12

  place_twin-Keeps :
      (known : Bool) (item : Order) (twin : Option Order)
      → Keeps P (place_twin env command known item twin)
  unfolding place_twin
  place_twin-Keeps known item none = search place_new-Keeps
  place_twin-Keeps known item (some twin) = search (keeps_rules, finish_command-Keeps) depth 9

  place_known-Keeps :
      (known : Bool) (item : Order) (done : Option Order)
      → Keeps P (place_known env command known item done)
  unfolding place_known
  place_known-Keeps known item none =
      search (keeps_rules, find_order_by_client_id-Keeps, place_twin-Keeps)
  place_known-Keeps known item (some done) = search keeps_rules

  pub place_order-Keeps : (item : Order) → Keeps P (place_order env command item)
  unfolding place_order
  place_order-Keeps item =
      search (keeps_rules, get_order_command-Keeps, order_of_command-Keeps, place_known-Keeps)
