-- ===== src/Ledger/Settles.antt =====
-- Settling trades moves money between users, and makes or loses none.
use crosschainswap.Prelude.{
  ℕ, ◌+◌, inl, inr, Bool, true, false, List, [], ◌∷◌, arith, leb, Bool-cases,
}
use crosschainswap.Prelude.Dict.{lookup}
use crosschainswap.Decimal.{val}
use crosschainswap.Order.{Order, Trade}
use crosschainswap.Ledger.{ReservationId}
use crosschainswap.Ledger.Reservations.{apply_reservation_delta}
use crosschainswap.Ledger.Funds.{reservation_id_for_order}
use crosschainswap.Ledger.Plan.{SettlementPlan, settlement_for_trade, settlement_for_trade-Planned}
use crosschainswap.Ledger.Settlement.{
  release_excess, settle_buyer, settle_seller, settle_trade, settle_trades, get_order,
}
use crosschainswap.Ledger.Totals.{of_asset, or_fail_ok, of_result_ok}
use crosschainswap.Ledger.Conserves.{
  Changes, debit_locked-Changes, add_available_balance-Changes, >>-Changes,
}

pub apply_reservation_delta-Changes :
    (now : ℕ) (id : ReservationId) (amount : ℕ) (consume : Bool) (a : ℕ)
    → Changes a (apply_reservation_delta now id amount consume) 0 0
unfolding apply_reservation_delta
apply_reservation_delta-Changes now id amount consume a s x s' h = ground arith

release_excess-Changes :
    (now : ℕ) (item : Trade) (buyer : Order) (excess a : ℕ)
    → Changes a (release_excess now item buyer excess) (of_asset a item.quote_asset excess) 0
unfolding release_excess
release_excess-Changes now item buyer excess a s x s' h = elim (Bool-cases (leb excess 0)) [
  | inl e ↦ ground arith
  | inr e ↦
      let moves =
        >>-Changes a _ _ _ _ _ _
          (add_available_balance-Changes now buyer.user_id item.quote_asset excess _ _ _ _ _ a)
          (apply_reservation_delta-Changes now (reservation_id_for_order buyer) excess false a) in
      omega (arith, moves s x s' (rw e at h))
]

module _ (now : ℕ) (item : Trade) (p : SettlementPlan) (a : ℕ) where
  settle_buyer-Changes :
      Changes a
        (settle_buyer now item p)
        (of_asset a item.quote_asset p.buyer_quote_release
          + of_asset a item.base_asset (val item.quantity))
        (of_asset a item.quote_asset p.buyer_locked_quote)
  unfolding settle_buyer
  settle_buyer-Changes s x s' h =
      let moves =
        >>-Changes a _ _ _ _ _ _
          (debit_locked-Changes now (p.buyer).user_id item.quote_asset p.buyer_locked_quote _ a)
          (>>-Changes a _ _ _ _ _ _
            (apply_reservation_delta-Changes now _ (val item.quote_quantity) true a)
            (>>-Changes a _ _ _ _ _ _
              (release_excess-Changes now item p.buyer p.buyer_quote_release a)
              (add_available_balance-Changes now (p.buyer).user_id item.base_asset
                (val item.quantity) _ _ _ _ _ a))) in
      omega (arith, moves s x s' h)

  settle_seller-Changes :
      Changes a
        (settle_seller now item p)
        (of_asset a item.quote_asset (val item.quote_quantity))
        (of_asset a item.base_asset (val item.quantity))
  unfolding settle_seller
  settle_seller-Changes s x s' h =
      let moves =
        >>-Changes a _ _ _ _ _ _
          (debit_locked-Changes now (p.seller).user_id item.base_asset (val item.quantity) _ a)
          (>>-Changes a _ _ _ _ _ _
            (apply_reservation_delta-Changes now _ (val item.quantity) true a)
            (add_available_balance-Changes now (p.seller).user_id item.quote_asset
              (val item.quote_quantity) _ _ _ _ _ a)) in
      omega (arith, moves s x s' h)

-- Settling a trade leaves the total of every asset as it was.
pub settle_trade-Changes :
    (now : ℕ) (item : Trade) (maker taker : Order) (a : ℕ)
    → Changes a (settle_trade now item maker taker) 0 0
unfolding settle_trade
settle_trade-Changes now item maker taker a s x s' h =
    let (p, planned, rest) = of_result_ok (settlement_for_trade item maker taker) _ s h in
    let c = (settlement_for_trade-Planned item maker taker planned).covers in
    let moves =
      >>-Changes a _ _ _ _ _ _ (settle_buyer-Changes now item p a)
        (settle_seller-Changes now item p a) in
    ground (arith, moves s x s' rest, c)

-- So does settling a batch of them, whichever orders they name.
pub settle_trades-Changes :
    (now : ℕ) (items : List Trade) (a : ℕ) → Changes a (settle_trades now items) 0 0
unfolding settle_trades get_order
settle_trades-Changes now [] a s x s' h = ground arith
settle_trades-Changes now (item ∷ items) a s x s' h =
    let (maker, _, h₁) = or_fail_ok (λ t. lookup item.maker_order_id t.orders) _ _ s h in
    let (taker, _, h₂) = or_fail_ok (λ t. lookup item.taker_order_id t.orders) _ _ s h₁ in
    >>-Changes a _ _ _ _ _ _ (settle_trade-Changes now item maker taker a)
      (settle_trades-Changes now items a) s x s' h₂
