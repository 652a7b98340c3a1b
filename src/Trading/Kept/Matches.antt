-- ===== src/Trading/Kept/Matches.antt =====
-- A match, and what it leaves in the tables.
use crosschainswap.Prelude.{
  ℕ, zero, suc, Bool, true, false, Option, none, some, List, [], ◌∷◌, refl,
}
use crosschainswap.Order.{Order, Trade}
use crosschainswap.Engine.{MatchResult}
use crosschainswap.Book.Snapshot.{BookState}
use crosschainswap.Exchange.{Tables, MatchLogEntry, PriceLevelRow, Tx}
use crosschainswap.Exchange.ActiveOrders.{last_price}
use crosschainswap.Exchange.Levels.{LevelKey}
use crosschainswap.Exchange.Keeps.{
  Keeps, Keeps-bind, Keeps-if, Keeps-pure, Keeps-reads, Keeps-from_result, keeps_rules,
}
use crosschainswap.Trading.{Env}
use crosschainswap.Trading.Match.{
  Matching, meet_candidates, match_round, go_on, match_loop, match_orders, match_with_book,
}
use crosschainswap.Trading.Outcomes.{
  save_and_settle, release_unfilled, log_trades, record_match, check_price_band,
  check_stop_placement, append_match_log, append_match_event_log, capture_matcher_snapshot,
  save_matcher_snapshot,
}
use crosschainswap.Trading.Stops.{activate_stop, activate_each, activate_triggered_stops}
use crosschainswap.Trading.Kept.{
  IsSteady, elsewhere-Keeps, settle-Keeps, release-Keeps, save_order-Keeps, save_orders-Keeps,
  create_trades-Keeps, create_order_events-Keeps,
}

module _ {P : Tables → Type 0} (w : IsSteady P) (env : Env) where
  meet_candidates-Keeps :
      (base : ℕ) (m : Matching) (cs : List Order) → Keeps P (meet_candidates env base m cs)
  unfolding meet_candidates
  meet_candidates-Keeps base m [] = search keeps_rules
  meet_candidates-Keeps base m (c ∷ cs) = search (keeps_rules, save_orders-Keeps)

  match_round-Keeps : (base : ℕ) (m : Matching) → Keeps P (match_round env base m)
  unfolding match_round
  match_round-Keeps base m = search (keeps_rules, meet_candidates-Keeps)

  go_on-Keeps :
      (again : Matching → Tx Matching)
      → ((m : Matching) → Keeps P (again m))
      → (r : Matching × Bool) → Keeps P (go_on env again r)
  go_on-Keeps again h (m, true) = h m
  go_on-Keeps again h (m, false) = search keeps_rules

  match_loop-Keeps : (fuel base : ℕ) (m : Matching) → Keeps P (match_loop env fuel base m)
  unfolding match_loop
  match_loop-Keeps zero base m = search keeps_rules
  match_loop-Keeps (suc fuel) base m =
      Keeps-if _ _ _
        (Keeps-bind _ _ (match_round-Keeps base m)
          (go_on-Keeps (match_loop env fuel base) (match_loop-Keeps fuel base)))
        (Keeps-pure m)

  pub match_orders-Keeps :
      (taker : Order) (levels : List LevelKey) → Keeps P (match_orders env taker levels)
  unfolding match_orders
  match_orders-Keeps taker levels = search (keeps_rules, match_loop-Keeps)

  pub match_with_book-Keeps :
      (taker : Order) (levels : List LevelKey) → Keeps P (match_with_book env taker levels)
  unfolding match_with_book
  match_with_book-Keeps taker levels = search keeps_rules depth 9

  save_and_settle-Keeps :
      (taker : Order) (trades : List Trade) → Keeps P (save_and_settle env taker trades)
  unfolding save_and_settle
  save_and_settle-Keeps taker trades = search (keeps_rules, save_order-Keeps, settle-Keeps)

  release_unfilled-Keeps : (taker : Order) → Keeps P (release_unfilled env taker)
  unfolding release_unfilled
  release_unfilled-Keeps taker = search (keeps_rules, release-Keeps)

  log_trades-Keeps :
      (taker : Order) (makers : List Order) (trades : List Trade)
      → Keeps P (log_trades env taker makers trades)
  unfolding log_trades
  log_trades-Keeps taker makers trades =
      search (keeps_rules, create_trades-Keeps, create_order_events-Keeps)

  pub record_match-Keeps :
      (taker : Order) (makers : List Order) (trades : List Trade)
      → Keeps P (record_match env taker makers trades)
  unfolding record_match
  record_match-Keeps taker makers trades =
      search (keeps_rules, save_and_settle-Keeps, release_unfilled-Keeps, log_trades-Keeps)

  last_price-Keeps : (market : ℕ) → Keeps P (last_price market)
  unfolding last_price
  last_price-Keeps market = Keeps-reads _

  pub check_price_band-Keeps : (item : Order) → Keeps P (check_price_band env item)
  unfolding check_price_band
  check_price_band-Keeps item = search (keeps_rules, last_price-Keeps)

  pub check_stop_placement-Keeps : (item : Order) → Keeps P (check_stop_placement env item)
  unfolding check_stop_placement
  check_stop_placement-Keeps item = search (keeps_rules, last_price-Keeps)

  append_match_log-Keeps :
      (e : MatchLogEntry) (old : Option MatchLogEntry) → Keeps P (append_match_log env e old)
  unfolding append_match_log
  append_match_log-Keeps e none = elsewhere-Keeps w _ (λ t. refl) (λ t. refl) (λ t. refl)
  append_match_log-Keeps e (some old) = search keeps_rules

  pub append_match_event_log-Keeps :
      (sequence : ℕ) (r : MatchResult) (levels : List PriceLevelRow)
      → Keeps P (append_match_event_log env sequence r levels)
  unfolding append_match_event_log
  append_match_event_log-Keeps sequence r levels = search (keeps_rules, append_match_log-Keeps)

  pub capture_matcher_snapshot-Keeps :
      (market base quote sequence : ℕ)
      → Keeps P (capture_matcher_snapshot env market base quote sequence)
  unfolding capture_matcher_snapshot
  capture_matcher_snapshot-Keeps market base quote sequence = search keeps_rules

  pub save_matcher_snapshot-Keeps : (s : BookState) → Keeps P (save_matcher_snapshot env s)
  unfolding save_matcher_snapshot
  save_matcher_snapshot-Keeps s =
      Keeps-bind _ _ (Keeps-from_result _ _)
        λ u. elsewhere-Keeps w _ (λ t. refl) (λ t. refl) (λ t. refl)

  activate_stop-Keeps :
      (item : Order) (levels : List LevelKey) → Keeps P (activate_stop env item levels)
  unfolding activate_stop
  activate_stop-Keeps item levels = search (
    keeps_rules, check_price_band-Keeps, match_orders-Keeps, save_and_settle-Keeps,
    log_trades-Keeps,
  )

  activate_each-Keeps :
      (price : ℕ) (items : List Order) (levels : List LevelKey)
      → Keeps P (activate_each env price items levels)
  unfolding activate_each
  activate_each-Keeps price [] levels = search keeps_rules
  activate_each-Keeps price (item ∷ items) levels =
      Keeps-if _ _ _
        (Keeps-bind _ _ (activate_stop-Keeps item levels)
          λ m. Keeps-bind _ _ (activate_each-Keeps price items m.levels) λ a. Keeps-pure _)
        (activate_each-Keeps price items levels)

  pub activate_triggered_stops-Keeps :
      (market price : ℕ) (levels : List LevelKey)
      → Keeps P (activate_triggered_stops env market price levels)
  unfolding activate_triggered_stops
  activate_triggered_stops-Keeps market price levels = search (keeps_rules, activate_each-Keeps)
