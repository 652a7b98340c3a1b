-- ===== src/Orders/Events/Counts.antt =====
-- The log of a match tells each trade to both its orders and each end of an order once.
use crosschainswap.Prelude.{
  ℕ, suc, ◌+◌, ◌*◌, ◌≡◌, Bool, true, false, List, [], ◌∷◌, ◌++◌, arith, length, ap, ◌∙◌,
  if◌then◌else◌,
}
use crosschainswap.Order.{Status, Order, Trade, EventType, OrderEvent}
use crosschainswap.Orders.Events.{
  match_events, events_for_trades, filled_maker_events, terminal_event,
}
use crosschainswap.Book.Apply.{is_filled}

abbrev pub is_trade : EventType → Bool
is_trade EventType.trade_created = true
is_trade _ = false

abbrev pub is_order_filled : EventType → Bool
is_order_filled EventType.order_filled = true
is_order_filled _ = false

-- How many events have a type that passes a test.
abbrev pub count : (EventType → Bool) → List OrderEvent → ℕ
count f [] = 0
count f (e ∷ es) = if f e.type then suc (count f es) else count f es

abbrev pub filled_orders : List Order → ℕ
filled_orders [] = 0
filled_orders (o ∷ os) = if is_filled o.status then suc (filled_orders os) else filled_orders os

count-append :
    (f : EventType → Bool) (xs ys : List OrderEvent) → count f (xs ++ ys) ≡ count f xs + count f ys
count-append f [] ys = omega arith
count-append f (x ∷ xs) ys = ground (arith, count-append f xs ys)

count-trades :
    (xs : List Trade)
    → (count is_trade (events_for_trades xs) ≡ 2 * length xs)
      × (count is_order_filled (events_for_trades xs) ≡ 0)
unfolding events_for_trades
count-trades [] = (omega arith, omega arith)
count-trades (x ∷ xs) = let (a, b) = count-trades xs in (omega (arith, a), b)

count-makers :
    (now : ℕ) (ms : List Order)
    → (count is_trade (filled_maker_events now ms) ≡ 0)
      × (count is_order_filled (filled_maker_events now ms) ≡ filled_orders ms)
unfolding filled_maker_events
count-makers now [] = (omega arith, omega arith)
count-makers now (m ∷ ms) =
    let (a, b) = count-makers now ms in (ground (arith, a), ground (arith, b))

count-terminal :
    (now : ℕ) (t : Order) (s : Status)
    → (count is_trade (terminal_event now t s) ≡ 0)
      × (count is_order_filled (terminal_event now t s) ≡ (if is_filled s then 1 else 0))
count-terminal now t Status.filled = (omega arith, omega arith)
count-terminal now t Status.expired = (omega arith, omega arith)
count-terminal now t Status.pending_match = (omega arith, omega arith)
count-terminal now t Status.pending_stop = (omega arith, omega arith)
count-terminal now t Status.opened = (omega arith, omega arith)
count-terminal now t Status.partially_filled = (omega arith, omega arith)
count-terminal now t Status.canceled = (omega arith, omega arith)
count-terminal now t Status.rejected = (omega arith, omega arith)
count-terminal now t (Status.other _) = (omega arith, omega arith)

-- The log of a match has two events for each trade, and as many fills of orders as its makers and
-- its taker have among them that are filled.
match_events_count :
    (now : ℕ) (taker : Order) (makers : List Order) (trades : List Trade)
    → (count is_trade (match_events now taker makers trades) ≡ 2 * length trades)
      × (count is_order_filled (match_events now taker makers trades)
          ≡ filled_orders (taker ∷ makers))
unfolding match_events
match_events_count now taker makers trades =
    let (a, b) = count-trades trades in
    let (c, d) = count-makers now makers in
    let (e, f) = count-terminal now taker taker.status in
    let split : (f : EventType → Bool)
        → count f (match_events now taker makers trades)
          ≡ count f (events_for_trades trades)
            + count f (filled_maker_events now makers)
            + count f (terminal_event now taker taker.status) =
      λ f.
        count-append f (events_for_trades trades ++ filled_maker_events now makers)
          (terminal_event now taker taker.status)
        ∙ ap (λ n. n + count f (terminal_event now taker taker.status))
            (count-append f (events_for_trades trades) (filled_maker_events now makers)) in
    (omega (arith, split is_trade, a, c, e), ground (arith, split is_order_filled, b, d, f))
