-- ===== src/Trading/Place.antt =====
-- service.go, `Place`: a request becomes an order once, whose funds are held back; it is then
-- matched at once, left to a matcher, or waits for its stop price.
use crosschainswap.Prelude.{
  ℕ, Bool, true, false, not, ◌&&◌, [], ◌∷◌, Option, none, some, ◌==◌, ◌!=◌, if◌then◌else◌, length,
}
use crosschainswap.Decimal.{val}
use crosschainswap.Decimal.Texts.{trim, decimal_string}
use crosschainswap.Order.{OrderType, Status, TimeInForce, Order, EventType, same_side}
use crosschainswap.Ledger.{EventId}
use crosschainswap.Ledger.Funds.{reserve_order_funds}
use crosschainswap.Orders.{PlaceRequest}
use crosschainswap.Orders.Build.{build_order}
use crosschainswap.Orders.Events.{new_order_event}
use crosschainswap.Exchange.{
  CommandPayload, CommandStatus, CommandOutcome, OrderCommand, ExchangeError, Tx, pure, reads,
  from_result, on_ledger, throw_if, ◌>>=◌, ◌>>◌,
}
use crosschainswap.Exchange.ActiveOrders.{
  is_pending_stop, save_order, create_order, load_order, find_order_by_client_id,
  create_order_events,
}
use crosschainswap.Exchange.Sequences.{next_order_sequence}
use crosschainswap.Exchange.Commands.{
  get_order_command, create_order_command, complete_order_command, append_order_command_log,
  apply_order_command_log, create_match_job,
}
use crosschainswap.Trading.{Env, MatchingMode}
use crosschainswap.Trading.Match.{match_orders}
use crosschainswap.Trading.Outcomes.{record_match, check_price_band, check_stop_placement}
use crosschainswap.Trading.Requests.{Response, unchanged, finish_match}

-- `orderCommandID`
abbrev pub order_command_id : ℕ → Order → ℕ
order_command_id command item = if command == 0 then item.client_order_id else command

-- `orderCommandPayload`, before it is encoded and hashed.
unfoldable pub order_command_payload : Order → CommandPayload
unfolding decimal_string
order_command_payload item = record {
  client_order_id = item.client_order_id;
  reservation_id = item.reservation_id;
  user_id = item.user_id;
  market = item.market;
  side = item.side;
  type = item.type;
  time_in_force = item.time_in_force;
  price = trim (decimal_string item.price);
  stop_price = trim (decimal_string item.stop_price);
  quantity = trim (decimal_string (val item.quantity));
}

abbrev pub same_type : OrderType → OrderType → Bool
same_type OrderType.limit OrderType.limit = true
same_type OrderType.market OrderType.market = true
same_type OrderType.stop_limit OrderType.stop_limit = true
same_type (OrderType.other a) (OrderType.other b) = a == b
same_type _ _ = false

abbrev pub same_time_in_force : TimeInForce → TimeInForce → Bool
same_time_in_force TimeInForce.gtc TimeInForce.gtc = true
same_time_in_force TimeInForce.ioc TimeInForce.ioc = true
same_time_in_force (TimeInForce.other a) (TimeInForce.other b) = a == b
same_time_in_force _ _ = false

-- `sameOrderCommandPayload`
unfoldable pub same_order_command_payload : Order → Order → Bool
same_order_command_payload a b =
    a.user_id == b.user_id
    && a.reservation_id == b.reservation_id
    && a.market == b.market
    && same_side a.side b.side
    && same_type a.type b.type
    && same_time_in_force a.time_in_force b.time_in_force
    && a.price == b.price
    && a.stop_price == b.stop_price
    && val a.quantity == val b.quantity

abbrev pub is_async : MatchingMode → Bool
is_async MatchingMode.immediate = false
is_async _ = true

abbrev pub is_command_log : MatchingMode → Bool
is_command_log MatchingMode.command_log = true
is_command_log _ = false

-- A step that is taken only under a test.
abbrev pub when : Bool → Tx (Unit {0}) → Tx (Unit {0})
when b m = if b then m else pure tt

-- The order that a command of the same id led to.
unfoldable pub order_of_command : ℕ → Option OrderCommand → Tx (Option Order)
order_of_command hash none = pure none
order_of_command hash (some c) = do
  throw_if (c.payload_hash != hash) ExchangeError.payload_conflict
  if c.order_id == 0 then pure none else load_order c.order_id

abbrev pub is_some : Option OrderCommand → Bool
is_some none = false
is_some (some c) = true

module _ (env : Env) where
  abbrev pub new_command : ℕ → Order → OrderCommand
  new_command command item = record {
    id = command;
    client_order_id = item.client_order_id;
    user_id = item.user_id;
    market = item.market;
    payload_hash = env.payload_hash (order_command_payload item);
    payload = order_command_payload item;
    status = CommandStatus.pending;
    outcome = CommandOutcome.no_outcome;
    order_id = 0;
    updated_at = env.now;
  }

  unfoldable pub finish_command : ℕ → ℕ → CommandOutcome → Tx (Unit {0})
  finish_command command order_id outcome = do
    complete_order_command env.now command order_id outcome
    apply_order_command_log env.now command order_id

  -- The order is left to a matcher.
  unfoldable pub leave_to_matcher : ℕ → Order → Tx Response
  leave_to_matcher command item₀ =
      let item = record item₀ { status = Status.pending_match; updated_at = env.now } in
      (do
        save_order item
        jobs ← reads (λ t. length t.jobs)
        when (not (is_command_log env.mode))
            (create_match_job (env.new_job_id jobs) env.now item.id item.market)
        complete_order_command env.now command item.id (CommandOutcome.of_status item.status)
        when (not (is_command_log env.mode)) (apply_order_command_log env.now command item.id)
        pure (unchanged item))

  -- The order waits for its stop price.
  unfoldable pub leave_waiting : ℕ → Order → Tx Response
  leave_waiting command item = do
    finish_command command item.id (CommandOutcome.of_status item.status)
    pure (unchanged item)

  -- The order is matched at once.
  unfoldable pub match_now : ℕ → Order → Tx Response
  match_now command item = do
    m ← match_orders env item []
    record_match env m.taker m.makers m.trades
    response ← finish_match env m.taker m.trades m.levels
    finish_command command m.taker.id (CommandOutcome.of_status m.taker.status)
    pure response

  unfoldable pub dispatch : ℕ → Order → Tx Response
  dispatch command item =
      if not (is_pending_stop item.status) && is_async env.mode
      then leave_to_matcher command item
      else if is_pending_stop item.status
      then leave_waiting command item
      else match_now command item

  abbrev pub sequenced : Order → ℕ → Order
  sequenced item seq = record item { sequence_id = seq }

  -- The order is accepted: it is stored, and its funds are held back.
  unfoldable pub accept_order : Order → Tx (Unit {0})
  accept_order item = do
    create_order item
    on_ledger (reserve_order_funds env.now item EventId.generated)
    create_order_events (new_order_event env.now item EventType.order_accepted 0 ∷ [])

  -- A request that was not seen before.
  unfoldable pub place_new : ℕ → Bool → Order → Tx Response
  place_new command known item = do
    when (not known) (create_order_command (new_command command item))
    append_order_command_log env.now command item.market
        (env.payload_hash (order_command_payload item)) (order_command_payload item)
    check_price_band env item
    check_stop_placement env item
    seq ← next_order_sequence item.market
    accept_order (sequenced item seq)
    dispatch command (sequenced item seq)

  -- The order of the same client's id, if there is one.
  unfoldable pub place_twin : ℕ → Bool → Order → Option Order → Tx Response
  place_twin command known item none = place_new command known item
  place_twin command known item (some twin) = do
    throw_if (not (same_order_command_payload twin item)) ExchangeError.client_id_conflict
    when known (finish_command command twin.id CommandOutcome.duplicate)
    pure (unchanged twin)

  unfoldable pub place_known : ℕ → Bool → Order → Option Order → Tx Response
  place_known command known item (some done) = pure (unchanged done)
  place_known command known item none = do
    twin ← find_order_by_client_id item.user_id item.client_order_id
    place_twin command known item twin

  unfoldable pub place_order : ℕ → Order → Tx Response
  place_order command item = do
    existing ← get_order_command command
    done ← order_of_command (env.payload_hash (order_command_payload item)) existing
    place_known command (is_some existing) item done

  -- `Place`, of a request with the command's id `command` (0 is none) and a new order's id `id`. An
  -- order that is built has a client's id, so the tests for an empty one are left out.
  unfoldable pub place : ℕ → ℕ → PlaceRequest → Tx Response
  place id command req = do
    item ←
        from_result ExchangeError.of_order
          (build_order env.default_reservation env.markets id env.now req)
    place_order (order_command_id command item) item
