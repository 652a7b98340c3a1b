-- ===== src/Ledger/OrdersKept/Settled.antt =====
-- Holding back the funds of an order and settling trades leave the table of orders alone.
use crosschainswap.Prelude.{ℕ, inl, inr, true, false, List, [], ◌∷◌, arith, ltb, leb, Bool-cases}
use crosschainswap.Prelude.Dict.{lookup}
use crosschainswap.Order.{Order, Trade}
use crosschainswap.Ledger.{EventId, Reservation}
use crosschainswap.Ledger.Reservations.{create_reservation}
use crosschainswap.Ledger.Funds.{
  reserve_amount, new_reservation, reserve_funds, reserve_order_funds,
}
use crosschainswap.Ledger.Plan.{settlement_for_trade}
use crosschainswap.Ledger.Settlement.{
  release_excess, settle_buyer, settle_seller, settle_trade, settle_trades, get_order,
}
use crosschainswap.Ledger.Totals.{
  bind_ok, guard_ok, or_fail_ok, of_result_ok, create_balance_event-Kept,
}
use crosschainswap.Ledger.Finalized.{load_found_ok}
use crosschainswap.Ledger.OrdersKept.{
  KeepsOrders, >>-KeepsOrders, pure-KeepsOrders, debit_locked-KeepsOrders,
  add_available_balance-KeepsOrders, apply_reservation_delta-KeepsOrders,
}

create_reservation-KeepsOrders : (r : Reservation) → KeepsOrders (create_reservation r)
unfolding create_reservation
create_reservation-KeepsOrders r s x s' h = ground arith

reserve_funds-KeepsOrders :
    (now : ℕ) (item : Order) (id : EventId) (asset amount : ℕ)
    → KeepsOrders (reserve_funds now item id asset amount)
unfolding reserve_funds
reserve_funds-KeepsOrders now item id asset amount s x s' h =
    let (b, s₁, l, rest) = load_found_ok now item.user_id asset _ _ s h in
    let (enough, rest₁) = guard_ok (ltb b.available amount) _ _ s₁ rest in
    let (u, s₂, created, rest₂) =
      bind_ok (create_reservation (new_reservation now item asset amount)) _ _ rest₁ in
    let k = create_balance_event-Kept _ _ rest₂ in
    rw (k.orders_kept, create_reservation-KeepsOrders _ _ u s₂ created) l.orders_kept

pub reserve_order_funds-KeepsOrders :
    (now : ℕ) (item : Order) (id : EventId) → KeepsOrders (reserve_order_funds now item id)
unfolding reserve_order_funds
reserve_order_funds-KeepsOrders now item id s x s' h =
    elim (Bool-cases (leb (reserve_amount item) 0)) [
      | inl e ↦ pure-KeepsOrders tt s x s' (rw e at h)
      | inr e ↦ reserve_funds-KeepsOrders now item id _ _ s x s' (rw e at h)
    ]

release_excess-KeepsOrders :
    (now : ℕ) (item : Trade) (buyer : Order) (excess : ℕ)
    → KeepsOrders (release_excess now item buyer excess)
unfolding release_excess
release_excess-KeepsOrders now item buyer excess s x s' h = elim (Bool-cases (leb excess 0)) [
  | inl e ↦ pure-KeepsOrders tt s x s' (rw e at h)
  | inr e ↦
      >>-KeepsOrders _ _ (add_available_balance-KeepsOrders now _ _ excess _ _ _ _ _)
        (apply_reservation_delta-KeepsOrders now _ excess false) s x s' (rw e at h)
]

settle_trade-KeepsOrders :
    (now : ℕ) (item : Trade) (maker taker : Order) → KeepsOrders (settle_trade now item maker taker)
unfolding settle_trade settle_buyer settle_seller
settle_trade-KeepsOrders now item maker taker s x s' h =
    let (p, planned, rest) = of_result_ok (settlement_for_trade item maker taker) _ s h in
    >>-KeepsOrders _ _
      (>>-KeepsOrders _ _ (debit_locked-KeepsOrders now _ _ _ _) (
        >>-KeepsOrders _ _ (apply_reservation_delta-KeepsOrders now _ _ true) (
          >>-KeepsOrders _ _ (release_excess-KeepsOrders now item p.buyer p.buyer_quote_release)
            (add_available_balance-KeepsOrders now _ _ _ _ _ _ _ _))))
      (>>-KeepsOrders _ _ (debit_locked-KeepsOrders now _ _ _ _) (
        >>-KeepsOrders _ _ (apply_reservation_delta-KeepsOrders now _ _ true)
          (add_available_balance-KeepsOrders now _ _ _ _ _ _ _ _)))
      s x s' rest

pub settle_trades-KeepsOrders :
    (now : ℕ) (items : List Trade) → KeepsOrders (settle_trades now items)
unfolding settle_trades get_order
settle_trades-KeepsOrders now [] s x s' h = pure-KeepsOrders tt s x s' h
settle_trades-KeepsOrders now (item ∷ items) s x s' h =
    let (maker, _, h₁) = or_fail_ok (λ t. lookup item.maker_order_id t.orders) _ _ s h in
    let (taker, _, h₂) = or_fail_ok (λ t. lookup item.taker_order_id t.orders) _ _ s h₁ in
    >>-KeepsOrders _ _ (settle_trade-KeepsOrders now item maker taker)
      (settle_trades-KeepsOrders now items) s x s' h₂
