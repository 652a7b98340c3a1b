-- ===== src/Trading/Kept/Requests.antt =====
-- The requests that match an order, cancel one or trigger stops.
use crosschainswap.Prelude.{ℕ, true, false, Bool, Option, none, some, List, [], ◌∷◌}
use crosschainswap.Order.{Order, Trade}
use crosschainswap.Engine.{MatchResult}
use crosschainswap.Orders.{NumberText}
use crosschainswap.Exchange.{Tables}
use crosschainswap.Exchange.ActiveOrders.{load_order}
use crosschainswap.Exchange.Levels.{LevelKey}
use crosschainswap.Exchange.Keeps.{Keeps, Keeps-bind, Keeps-reads, keeps_rules}
use crosschainswap.Trading.{Env}
use crosschainswap.Trading.Requests.{
  require_order, finish_match, match_ready, match_order, snapshot_after, persist_result, book_ready,
  match_order_with_book, save_makers, persist_ready, persist_book_match_result, trigger_stops,
  cancel_open, cancel_found, cancel_request,
}
use crosschainswap.Trading.Kept.{
  IsSteady, save_order-Keeps, save_orders-Keeps, release-Keeps, create_order_events-Keeps,
  projection-Keeps,
}
use crosschainswap.Trading.Kept.Matches.{
  match_orders-Keeps, match_with_book-Keeps, record_match-Keeps, append_match_event_log-Keeps,
  capture_matcher_snapshot-Keeps, save_matcher_snapshot-Keeps, activate_triggered_stops-Keeps,
}

module _ {P : Tables → Type 0} (w : IsSteady P) where
  pub load_order-Keeps : (id : ℕ) → Keeps P (load_order id)
  unfolding load_order
  load_order-Keeps id = Keeps-reads _

  require_order-Keeps : (id : ℕ) → Keeps P (require_order id)
  unfolding require_order
  require_order-Keeps id = search (keeps_rules, load_order-Keeps)

module _ {P : Tables → Type 0} (w : IsSteady P) (env : Env) where
  pub finish_match-Keeps :
      (taker : Order) (trades : List Trade) (levels : List LevelKey)
      → Keeps P (finish_match env taker trades levels)
  unfolding finish_match
  finish_match-Keeps taker trades levels =
      search (keeps_rules, activate_triggered_stops-Keeps, projection-Keeps)

  match_ready-Keeps : (item : Order) (o : Option Order) → Keeps P (match_ready env item o)
  unfolding match_ready
  match_ready-Keeps item none = search keeps_rules
  match_ready-Keeps item (some taker) =
      search (keeps_rules, match_orders-Keeps, record_match-Keeps, finish_match-Keeps)

  pub match_order-Keeps : (id : ℕ) → Keeps P (match_order env id)
  unfolding match_order
  match_order-Keeps id = search (keeps_rules, require_order-Keeps, match_ready-Keeps)

  snapshot_after-Keeps :
      (save : Bool) (taker : Order) (sequence : ℕ)
      → Keeps P (snapshot_after env save taker sequence)
  unfolding snapshot_after
  snapshot_after-Keeps false taker sequence = search keeps_rules
  snapshot_after-Keeps true taker sequence =
      search (keeps_rules, capture_matcher_snapshot-Keeps, save_matcher_snapshot-Keeps)

  persist_result-Keeps :
      (r : MatchResult) (levels : List LevelKey) (sequence : ℕ) (save : Bool)
      → Keeps P (persist_result env r levels sequence save)
  unfolding persist_result
  persist_result-Keeps r levels sequence save =
      search
        (
          keeps_rules, record_match-Keeps, finish_match-Keeps, append_match_event_log-Keeps,
          snapshot_after-Keeps,
        )
        depth 9

  book_ready-Keeps :
      (item : Order) (sequence : ℕ) (save : Bool) (o : Option Order)
      → Keeps P (book_ready env item sequence save o)
  unfolding book_ready
  book_ready-Keeps item sequence save none = search keeps_rules
  book_ready-Keeps item sequence save (some taker) =
      search (keeps_rules, match_with_book-Keeps, save_orders-Keeps, persist_result-Keeps)

  pub match_order_with_book-Keeps :
      (id sequence : ℕ) (save : Bool) → Keeps P (match_order_with_book env id sequence save)
  unfolding match_order_with_book
  match_order_with_book-Keeps id sequence save =
      search (keeps_rules, require_order-Keeps, book_ready-Keeps)

  save_makers-Keeps : (ms : List Order) → Keeps P (save_makers env ms)
  unfolding save_makers
  save_makers-Keeps [] = search keeps_rules
  save_makers-Keeps (m ∷ ms) =
      Keeps-bind _ _ (require_order-Keeps w m.id)
        λ o. Keeps-bind _ _ (save_order-Keeps w m) λ u. save_makers-Keeps ms

  persist_ready-Keeps :
      (current : Order) (r : MatchResult) (sequence : ℕ) (save : Bool) (o : Option Order)
      → Keeps P (persist_ready env current r sequence save o)
  unfolding persist_ready
  persist_ready-Keeps current r sequence save none = search keeps_rules
  persist_ready-Keeps current r sequence save (some o) =
      search (keeps_rules, save_makers-Keeps, persist_result-Keeps)

  pub persist_book_match_result-Keeps :
      (r : MatchResult) (sequence : ℕ) (save : Bool)
      → Keeps P (persist_book_match_result env r sequence save)
  unfolding persist_book_match_result
  persist_book_match_result-Keeps r sequence save =
      search (keeps_rules, require_order-Keeps, persist_ready-Keeps)

  pub trigger_stops-Keeps :
      (market : ℕ) (text : NumberText) → Keeps P (trigger_stops env market text)
  unfolding trigger_stops
  trigger_stops-Keeps market text =
      search (keeps_rules, activate_triggered_stops-Keeps, projection-Keeps) depth 9

  cancel_open-Keeps : (item : Order) → Keeps P (cancel_open env item)
  unfolding cancel_open
  cancel_open-Keeps item =
      search
        (keeps_rules, save_order-Keeps, release-Keeps, create_order_events-Keeps, projection-Keeps)
        depth 9

  cancel_found-Keeps : (item : Order) → Keeps P (cancel_found env item)
  unfolding cancel_found
  cancel_found-Keeps item = search (keeps_rules, cancel_open-Keeps)

  pub cancel_request-Keeps : (id user : ℕ) → Keeps P (cancel_request env id user)
  unfolding cancel_request
  cancel_request-Keeps id user = search (keeps_rules, require_order-Keeps, cancel_found-Keeps)
