-- ===== src/Ledger/Accounts.antt =====
-- The methods that orders call keep every reservation accounted for.
use crosschainswap.Prelude.{
  ℕ, ◌<◌, inl, inr, true, false, List, [], ◌∷◌, arith, ltb, leb, Bool-cases,
}
use crosschainswap.Prelude.Dict.{lookup}
use crosschainswap.Order.{Order, Trade}
use crosschainswap.Ledger.{EventId, Reservation}
use crosschainswap.Ledger.Reservations.{create_reservation, reservation_status}
use crosschainswap.Ledger.Funds.{
  reserve_asset, reserve_amount, reservation_id_for_order, new_reservation, reserve_funds,
  reserve_order_funds, clamped_release_amount, release_order_funds,
}
use crosschainswap.Ledger.Plan.{SettlementPlan, settlement_for_trade}
use crosschainswap.Ledger.Settlement.{
  release_excess, settle_buyer, settle_seller, settle_trade, settle_trades, get_order,
}
use crosschainswap.Ledger.Totals.{
  bind_ok, guard_ok, or_fail_ok, of_result_ok, create_balance_event-Kept,
}
use crosschainswap.Ledger.Finalized.{load_found_ok}
use crosschainswap.Ledger.Backed.{clamped_release_amount_bounds, create_reservation-kept}
use crosschainswap.Ledger.Balanced.{
  IsBalanced, AllBalanced, Keeps, pure-Keeps, >>-Keeps, apply_reservation_delta-Keeps,
  create_reservation-Keeps, debit_locked-Keeps, add_available_balance-Keeps,
  move_locked_to_available-Keeps,
}

new_reservation-IsBalanced :
    (now : ℕ) (item : Order) (asset amount : ℕ)
    → 0 < amount
    → IsBalanced (new_reservation now item asset amount)
unfolding reservation_status
new_reservation-IsBalanced now item asset amount h = record {
  accounted = omega arith;
  status_eq = ground arith;
}

reserve_funds-Keeps :
    (now : ℕ) (item : Order) (id : EventId) (asset amount : ℕ)
    → Keeps (reserve_funds now item id asset amount)
unfolding reserve_funds
reserve_funds-Keeps now item id asset amount s x s' h v =
    let (b, s₁, l, rest) = load_found_ok now item.user_id asset _ _ s h in
    let (enough, rest₁) = guard_ok (ltb b.available amount) _ _ s₁ rest in
    let r : Reservation = new_reservation now item asset amount in
    let (_, s₂, created, rest₂) = bind_ok (create_reservation r) _ _ rest₁ in
    let pos = (create_reservation-kept r _ created).1 in
    let v₁ : AllBalanced s₁ = rw l.reservations_kept v in
    let k = create_balance_event-Kept _ _ rest₂ in
    rw k.reservations_kept (
      create_reservation-Keeps r (new_reservation-IsBalanced now item asset amount pos) _ _ s₂
        created v₁)

pub reserve_order_funds-Keeps :
    (now : ℕ) (item : Order) (id : EventId) → Keeps (reserve_order_funds now item id)
unfolding reserve_order_funds
reserve_order_funds-Keeps now item id s x s' h v = elim (Bool-cases (leb (reserve_amount item) 0)) [
  | inl e ↦ pure-Keeps tt s x s' (rw e at h) v
  | inr e ↦ reserve_funds-Keeps now item id _ _ s x s' (rw e at h) v
]

pub release_order_funds-Keeps :
    (now : ℕ) (item : Order) (id : EventId) → Keeps (release_order_funds now item id)
unfolding release_order_funds
release_order_funds-Keeps now item id s x s' h v = elim (Bool-cases (leb (reserve_amount item) 0)) [
  | inl e ↦ pure-Keeps tt s x s' (rw e at h) v
  | inr e ↦
      let user = item.user_id in
      let key = reservation_id_for_order item in
      let (n, s₁, clamped, rest) =
        bind_ok (clamped_release_amount now user (reserve_asset item) key (reserve_amount item)) _ s
          (rw e at h) in
      let same =
        (clamped_release_amount_bounds now user (reserve_asset item) key (reserve_amount item) s
          clamped).1 in
      let v₁ : AllBalanced s₁ = rw same v in
      elim (Bool-cases (leb n 0)) [
        | inl z ↦ pure-Keeps tt s₁ x s' (rw z at rest) v₁
        | inr z ↦
            >>-Keeps _ _ (move_locked_to_available-Keeps now user (reserve_asset item) n _)
              (apply_reservation_delta-Keeps now key n false) s₁ x s' (rw z at rest) v₁
      ]
]

release_excess-Keeps :
    (now : ℕ) (item : Trade) (buyer : Order) (excess : ℕ)
    → Keeps (release_excess now item buyer excess)
unfolding release_excess
release_excess-Keeps now item buyer excess s x s' h v = elim (Bool-cases (leb excess 0)) [
  | inl e ↦ pure-Keeps tt s x s' (rw e at h) v
  | inr e ↦
      >>-Keeps _ _ (add_available_balance-Keeps now buyer.user_id item.quote_asset excess _ _ _ _ _)
        (apply_reservation_delta-Keeps now (reservation_id_for_order buyer) excess false) s x s'
        (rw e at h) v
]

settle_buyer-Keeps : (now : ℕ) (item : Trade) (p : SettlementPlan) → Keeps (settle_buyer now item p)
unfolding settle_buyer
settle_buyer-Keeps now item p = >>-Keeps _ _ (debit_locked-Keeps now _ _ _ _) (
    >>-Keeps _ _ (apply_reservation_delta-Keeps now _ _ true) (
      >>-Keeps _ _ (release_excess-Keeps now item p.buyer p.buyer_quote_release)
        (add_available_balance-Keeps now _ _ _ _ _ _ _ _)))

settle_seller-Keeps :
    (now : ℕ) (item : Trade) (p : SettlementPlan) → Keeps (settle_seller now item p)
unfolding settle_seller
settle_seller-Keeps now item p = >>-Keeps _ _ (debit_locked-Keeps now _ _ _ _) (
    >>-Keeps _ _ (apply_reservation_delta-Keeps now _ _ true)
      (add_available_balance-Keeps now _ _ _ _ _ _ _ _))

settle_trade-Keeps :
    (now : ℕ) (item : Trade) (maker taker : Order) → Keeps (settle_trade now item maker taker)
unfolding settle_trade
settle_trade-Keeps now item maker taker s x s' h v =
    let (p, planned, rest) = of_result_ok (settlement_for_trade item maker taker) _ s h in
    >>-Keeps _ _ (settle_buyer-Keeps now item p) (settle_seller-Keeps now item p) s x s' rest v

pub settle_trades-Keeps : (now : ℕ) (items : List Trade) → Keeps (settle_trades now items)
unfolding settle_trades get_order
settle_trades-Keeps now [] s x s' h v = pure-Keeps tt s x s' h v
settle_trades-Keeps now (item ∷ items) s x s' h v =
    let (maker, _, h₁) = or_fail_ok (λ t. lookup item.maker_order_id t.orders) _ _ s h in
    let (taker, _, h₂) = or_fail_ok (λ t. lookup item.taker_order_id t.orders) _ _ s h₁ in
    >>-Keeps _ _ (settle_trade-Keeps now item maker taker) (settle_trades-Keeps now items) s x s' h₂
      v
