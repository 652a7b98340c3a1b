-- ===== src/Trading/Kept.antt =====
-- What every request keeps, if the statements that it is made of do: rules for any property of the
-- tables that withstands the writes of an order, the methods of the ledger, a new command, and the
-- statements on the other tables.
pub mod Statements
pub mod Matches
pub mod Requests
pub mod Placed
pub mod Served
use crosschainswap.Prelude.{ℕ, ◌+◌, ◌≡◌, refl, arith, List, [], ◌∷◌, ◌∙◌, subst, sym}
use crosschainswap.Prelude.Dict.{Dict}
use crosschainswap.Order.{Order, Trade, OrderEvent}
use crosschainswap.Ledger.{EventId, Store, Action}
use crosschainswap.Ledger.Funds.{reserve_order_funds, release_order_funds}
use crosschainswap.Ledger.Settlement.{settle_trades}
use crosschainswap.Ledger.Totals.{total}
use crosschainswap.Ledger.Conserves.{Changes}
use crosschainswap.Ledger.Settles.{settle_trades-Changes}
use crosschainswap.Ledger.Backed.{reserve_order_funds-Changes, release_order_funds-Changes}
use crosschainswap.Ledger.Balanced.{AllBalanced}
use crosschainswap.Ledger.Balanced
use crosschainswap.Ledger.Accounts.{
  reserve_order_funds-Keeps, release_order_funds-Keeps, settle_trades-Keeps,
}
use crosschainswap.Ledger.OrdersKept.{KeepsOrders, release_order_funds-KeepsOrders}
use crosschainswap.Ledger.OrdersKept.Settled.{
  reserve_order_funds-KeepsOrders, settle_trades-KeepsOrders,
}
use crosschainswap.Exchange.{Tables, Tx, pure, on_ledger, modify, ◌>>=◌}
use crosschainswap.Exchange.ActiveOrders.{
  write_order, save_order, save_orders, create_order, create_trades, create_order_events,
}
use crosschainswap.Exchange.Levels.{
  LevelKey, refresh_price_levels, prune_stale_price_levels, price_level_deltas,
  refresh_book_projection,
}
use crosschainswap.Exchange.Keeps.{
  Keeps, Keeps-modify, Keeps-on_ledger, Keeps-bind, Keeps-reads, keeps_rules,
}
use crosschainswap.Exchange.Commands.{create_order_command}
use crosschainswap.Exchange.{OrderCommand}

-- The statements that the requests are made of keep `P`.
pub record IsSteady (P : Tables → Type 0) : Type 0 where
  pub written : (item : Order) (t : Tables) → P t → P (write_order item t)
  pub settled : (now : ℕ) (items : List Trade) → Keeps P (on_ledger (settle_trades now items))
  pub released :
      (now : ℕ) (item : Order) (id : EventId)
      → Keeps P (on_ledger (release_order_funds now item id))
  pub reserved :
      (now : ℕ) (item : Order) (id : EventId)
      → Keeps P (on_ledger (reserve_order_funds now item id))
  pub commanded : (c : OrderCommand) → Keeps P (create_order_command c)
  -- A statement on other tables.
  pub elsewhere :
      (f : Tables → Tables)
      → ((t : Tables) → (f t).ledger ≡ t.ledger)
      → ((t : Tables) → (f t).active ≡ t.active)
      → ((t : Tables) → (f t).commands ≡ t.commands)
      → Keeps P (modify f)

module _ {P : Tables → Type 0} (w : IsSteady P) where
  pub elsewhere-Keeps :
      (f : Tables → Tables)
      → ((t : Tables) → (f t).ledger ≡ t.ledger)
      → ((t : Tables) → (f t).active ≡ t.active)
      → ((t : Tables) → (f t).commands ≡ t.commands)
      → Keeps P (modify f)
  elsewhere-Keeps f l a c = w.elsewhere f l a c

  pub settle-Keeps : (now : ℕ) (items : List Trade) → Keeps P (on_ledger (settle_trades now items))
  settle-Keeps now items = w.settled now items

  pub release-Keeps :
      (now : ℕ) (item : Order) (id : EventId)
      → Keeps P (on_ledger (release_order_funds now item id))
  release-Keeps now item id = w.released now item id

  pub reserve-Keeps :
      (now : ℕ) (item : Order) (id : EventId)
      → Keeps P (on_ledger (reserve_order_funds now item id))
  reserve-Keeps now item id = w.reserved now item id

  write-Keeps : (item : Order) → Keeps P (modify (write_order item))
  write-Keeps item = Keeps-modify (write_order item) (w.written item)

  pub save_order-Keeps : (item : Order) → Keeps P (save_order item)
  unfolding save_order
  save_order-Keeps item = write-Keeps item

  pub save_orders-Keeps : (items : List Order) → Keeps P (save_orders items)
  unfolding save_orders
  save_orders-Keeps [] = search keeps_rules
  save_orders-Keeps (o ∷ os) =
      Keeps-bind (save_order o) (λ _. save_orders os) (save_order-Keeps o) λ _. save_orders-Keeps os

  pub create_order-Keeps : (item : Order) → Keeps P (create_order item)
  unfolding create_order
  create_order-Keeps item = search (keeps_rules, write-Keeps)

  pub create_trades-Keeps : (items : List Trade) → Keeps P (create_trades items)
  unfolding create_trades
  create_trades-Keeps items = elsewhere-Keeps _ (λ t. refl) (λ t. refl) (λ t. refl)

  pub create_order_events-Keeps : (items : List OrderEvent) → Keeps P (create_order_events items)
  unfolding create_order_events
  create_order_events-Keeps items = elsewhere-Keeps _ (λ t. refl) (λ t. refl) (λ t. refl)

  prune-Keeps : (market : ℕ) → Keeps P (prune_stale_price_levels market)
  unfolding prune_stale_price_levels
  prune-Keeps market = elsewhere-Keeps _ (λ t. ground arith) (λ t. ground arith) (λ t. ground arith)

  refresh-Keeps : (now : ℕ) (keys : List LevelKey) → Keeps P (refresh_price_levels now keys)
  unfolding refresh_price_levels
  refresh-Keeps now keys = elsewhere-Keeps _ (λ t. refl) (λ t. refl) (λ t. refl)

  deltas-Keeps : (keys : List LevelKey) → Keeps P (price_level_deltas keys)
  unfolding price_level_deltas
  deltas-Keeps keys = Keeps-reads _

  pub projection-Keeps :
      (now market : ℕ) (keys : List LevelKey) → Keeps P (refresh_book_projection now market keys)
  unfolding refresh_book_projection
  projection-Keeps now market keys = search (keeps_rules, refresh-Keeps, prune-Keeps, deltas-Keeps)
