-- ===== src/Orders/Events.antt =====
-- service.go: the events that a match leaves in the log of its orders.
pub mod Counts
use crosschainswap.Prelude.{ℕ, Bool, true, false, List, [], ◌∷◌, ◌++◌, if◌then◌else◌}
use crosschainswap.Order.{Status, Order, Trade, EventType, OrderEvent}
use crosschainswap.Book.Apply.{is_filled}

-- `newOrderEvent`, but for its generated id.
abbrev pub new_order_event : ℕ → Order → EventType → ℕ → OrderEvent
new_order_event now item type ref_id = record {
  order_id = item.id;
  user_id = item.user_id;
  market = item.market;
  type = type;
  ref_id = ref_id;
  created_at = now;
}

-- The event of a trade for one of its two orders.
abbrev pub trade_event : Trade → ℕ → ℕ → OrderEvent
trade_event item order_id user_id = record {
  order_id = order_id;
  user_id = user_id;
  market = item.market;
  type = EventType.trade_created;
  ref_id = item.id;
  created_at = item.created_at;
}

-- `eventsForTrades`
unfoldable pub events_for_trades : List Trade → List OrderEvent
events_for_trades [] = []
events_for_trades (x ∷ xs) =
    trade_event x x.maker_order_id x.maker_user_id
    ∷ trade_event x x.taker_order_id x.taker_user_id
    ∷ events_for_trades xs

-- The loop of `matchEvents` over the makers.
unfoldable pub filled_maker_events : ℕ → List Order → List OrderEvent
filled_maker_events now [] = []
filled_maker_events now (m ∷ ms) =
    let rest = filled_maker_events now ms in
    if is_filled m.status then new_order_event now m EventType.order_filled 0 ∷ rest else rest

-- `terminalOrderEvents`
abbrev pub terminal_event : ℕ → Order → Status → List OrderEvent
terminal_event now item Status.filled = new_order_event now item EventType.order_filled 0 ∷ []
terminal_event now item Status.expired = new_order_event now item EventType.order_expired 0 ∷ []
terminal_event now item _ = []

-- `matchEvents`
unfoldable pub match_events : ℕ → Order → List Order → List Trade → List OrderEvent
unfolding events_for_trades filled_maker_events
match_events now taker makers trades =
    events_for_trades trades
    ++ filled_maker_events now makers
    ++ terminal_event now taker taker.status
