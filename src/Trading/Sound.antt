-- ===== src/Trading/Sound.antt =====
-- What every request keeps: the totals of all assets, reservations that are accounted for, and a
-- table of active orders that is in step with the table of orders.
use crosschainswap.Prelude.{ℕ, ◌≡◌, arith, List}
use crosschainswap.Order.{Order, Trade}
use crosschainswap.Ledger.{EventId, Action}
use crosschainswap.Ledger.Funds.{reserve_order_funds, release_order_funds}
use crosschainswap.Ledger.Settlement.{settle_trades}
use crosschainswap.Ledger.Totals.{total}
use crosschainswap.Ledger.Conserves.{Changes}
use crosschainswap.Ledger.Settles.{settle_trades-Changes}
use crosschainswap.Ledger.Backed.{reserve_order_funds-Changes, release_order_funds-Changes}
use crosschainswap.Ledger.Balanced.{AllBalanced}
use crosschainswap.Ledger.Balanced
use crosschainswap.Ledger.Accounts.{
  reserve_order_funds-Keeps, release_order_funds-Keeps, settle_trades-Keeps,
}
use crosschainswap.Ledger.OrdersKept.{KeepsOrders, release_order_funds-KeepsOrders}
use crosschainswap.Ledger.OrdersKept.Settled.{
  reserve_order_funds-KeepsOrders, settle_trades-KeepsOrders,
}
use crosschainswap.Exchange.{CommandOutcome, OrderCommand, Tables, on_ledger, modify}
use crosschainswap.Exchange.ActiveOrders.{write_order}
use crosschainswap.Exchange.Keeps.{Keeps, Keeps-modify, Keeps-on_ledger, keeps_rules}
use crosschainswap.Exchange.Commands.{create_order_command, complete_order_command}
use crosschainswap.Orders.{PlaceRequest}
use crosschainswap.Trading.{Env}
use crosschainswap.Trading.Place.{place}
use crosschainswap.Trading.Service.{Request, serve}
use crosschainswap.Trading.Kept.{IsSteady}
use crosschainswap.Trading.Kept.Served.{place-Keeps, serve-Keeps}
use crosschainswap.Exchange.Synced.{IsSynced, sync_active-IsSynced}

-- The balances hold `k a` of each asset `a` together.
pub record IsSound (k : ℕ → ℕ) (t : Tables) : Type 0 where
  pub totals : (a : ℕ) → total a (t.ledger).balances ≡ k a
  pub accounted : AllBalanced t.ledger
  pub synced : IsSynced t.active (t.ledger).orders

module _ {k : ℕ → ℕ} where
  -- A method of the ledger that changes no total.
  ledger-IsSound :
      {A : Type 0} (m : Action A)
      → ((a : ℕ) → Changes a m 0 0)
      → Balanced.Keeps m
      → KeepsOrders m
      → Keeps (IsSound k) (on_ledger m)
  ledger-IsSound m moves accounts keeps = Keeps-on_ledger m λ t p x s h. record {
    totals = λ a. omega (arith, moves a t.ledger x s h, p.totals a);
    accounted = accounts t.ledger x s h p.accounted;
    synced = λ id. rw (keeps t.ledger x s h) (p.synced id);
  }

  settle-IsSound :
      (now : ℕ) (items : List Trade) → Keeps (IsSound k) (on_ledger (settle_trades now items))
  settle-IsSound now items =
      ledger-IsSound (settle_trades now items) (settle_trades-Changes now items)
        (settle_trades-Keeps now items) (settle_trades-KeepsOrders now items)

  release-IsSound :
      (now : ℕ) (item : Order) (id : EventId)
      → Keeps (IsSound k) (on_ledger (release_order_funds now item id))
  release-IsSound now item id =
      ledger-IsSound (release_order_funds now item id) (release_order_funds-Changes now item id)
        (release_order_funds-Keeps now item id) (release_order_funds-KeepsOrders now item id)

  reserve-IsSound :
      (now : ℕ) (item : Order) (id : EventId)
      → Keeps (IsSound k) (on_ledger (reserve_order_funds now item id))
  reserve-IsSound now item id =
      ledger-IsSound (reserve_order_funds now item id) (reserve_order_funds-Changes now item id)
        (reserve_order_funds-Keeps now item id) (reserve_order_funds-KeepsOrders now item id)

  write_order-IsSound : (item : Order) (t : Tables) → IsSound k t → IsSound k (write_order item t)
  write_order-IsSound item t p = record {
    totals = p.totals;
    accounted = p.accounted;
    synced = sync_active-IsSynced item t.active (t.ledger).orders p.synced;
  }

  -- A statement on other tables.
  elsewhere-IsSound :
      (f : Tables → Tables)
      → ((t : Tables) → (f t).ledger ≡ t.ledger)
      → ((t : Tables) → (f t).active ≡ t.active)
      → Keeps (IsSound k) (modify f)
  elsewhere-IsSound f same_ledger same_active = Keeps-modify f λ t p. record {
    totals = λ a. rw (same_ledger t) (p.totals a);
    accounted = rw (same_ledger t) p.accounted;
    synced = λ id. rw (same_ledger t, same_active t) (p.synced id);
  }

  create_order_command-IsSound : (c : OrderCommand) → Keeps (IsSound k) (create_order_command c)
  unfolding create_order_command
  create_order_command-IsSound c = search (keeps_rules, elsewhere-IsSound)

  complete_order_command-IsSound :
      (now id order_id : ℕ) (word : CommandOutcome)
      → Keeps (IsSound k) (complete_order_command now id order_id word)
  unfolding complete_order_command
  complete_order_command-IsSound now id order_id word =
      elsewhere-IsSound _ (λ t. ground arith) (λ t. ground arith)

  IsSound-IsSteady : IsSteady (IsSound k)
  IsSound-IsSteady = record {
    written = write_order-IsSound;
    settled = settle-IsSound;
    released = release-IsSound;
    reserved = reserve-IsSound;
    commanded = create_order_command-IsSound;
    elsewhere = λ f l a c. elsewhere-IsSound f l a;
  }

  place-IsSound :
      (env : Env) (id command : ℕ) (req : PlaceRequest)
      → Keeps (IsSound k) (place env id command req)
  place-IsSound env id command req =
      place-Keeps IsSound-IsSteady env id command req
        λ command now order_id word. complete_order_command-IsSound now command order_id word

-- Whatever requests are served, in whatever order and whether or not they succeed, the balances hold
-- what they held of each asset, every reservation stays accounted for, and the table of active
-- orders holds exactly the orders that can be traded with.
pub serve-IsSound :
    (rs : List (Env × Request)) (k : ℕ → ℕ) (t : Tables) → IsSound k t → IsSound k (serve rs t)
serve-IsSound rs k = serve-Keeps IsSound-IsSteady place-IsSound rs
