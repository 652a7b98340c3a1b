-- ===== src/Ledger/OrdersKept.antt =====
-- The moves of money leave the table of orders alone.
pub mod Settled
use crosschainswap.Prelude.{
  ℕ, ◌≡◌, inl, inr, ap, refl, false, true, ok, ltb, leb, Bool, Bool-cases, arith, ◌∙◌,
}
use crosschainswap.Order.{Order}
use crosschainswap.Ledger.{
  Store, Action, EventId, BalanceEvent, BalanceEventType, ReservationId, ◌>>◌, pure,
}
use crosschainswap.Ledger.Balances.{debit_locked, add_available_balance, move_locked_to_available}
use crosschainswap.Ledger.Reservations.{apply_reservation_delta}
use crosschainswap.Ledger.Funds.{
  reserve_asset, reserve_amount, reservation_id_for_order, clamped_release_amount,
  release_order_funds,
}
use crosschainswap.Ledger.Totals.{bind_ok, guard_ok, load_ok, create_balance_event-Kept}
use crosschainswap.Ledger.Backed.{clamped_release_amount_bounds}

abbrev pub KeepsOrders : {A : Type 0} → Action A → Type 0
KeepsOrders {A} m = (s : Store) (x : A) (s' : Store) → m s ≡ ok (x, s') → s'.orders ≡ s.orders

pub >>-KeepsOrders :
    {A B : Type 0} (m : Action A) (k : Action B)
    → KeepsOrders m
    → KeepsOrders k
    → KeepsOrders (m >> k)
>>-KeepsOrders m k hm hk s x s' h =
    let (u, s₁, first, second) = bind_ok m (λ _. k) s h in hk s₁ x s' second ∙ hm s u s₁ first

pub pure-KeepsOrders : {A : Type 0} (a : A) → KeepsOrders (pure a)
pure-KeepsOrders a s x s' h = cc

pub debit_locked-KeepsOrders :
    (now user asset amount : ℕ) (e : BalanceEvent)
    → KeepsOrders (debit_locked now user asset amount e)
unfolding debit_locked
debit_locked-KeepsOrders now user asset amount e s x s' h =
    let (b, s₁, l, rest) = load_ok now user asset false _ s h in
    let (enough, rest') = guard_ok (ltb b.locked amount) _ _ s₁ rest in
    let k = create_balance_event-Kept _ _ rest' in rw (k.orders_kept, l.orders_kept) refl

pub add_available_balance-KeepsOrders :
    (now user asset amount : ℕ) (type : BalanceEventType) (order_id : ℕ) (id : ReservationId)
    (trade_id created_at : ℕ)
    → KeepsOrders (add_available_balance now user asset amount type order_id id trade_id created_at)
unfolding add_available_balance
add_available_balance-KeepsOrders now user asset amount type order_id id trade_id created_at s x s'
      h =
    let (b, s₁, l, rest) = load_ok now user asset true _ s h in
    let k = create_balance_event-Kept _ _ rest in rw (k.orders_kept, l.orders_kept) refl

move_locked_to_available-KeepsOrders :
    (now user asset amount : ℕ) (e : BalanceEvent)
    → KeepsOrders (move_locked_to_available now user asset amount e)
unfolding move_locked_to_available
move_locked_to_available-KeepsOrders now user asset amount e =
    >>-KeepsOrders _ _ (debit_locked-KeepsOrders now user asset amount _)
      (add_available_balance-KeepsOrders now user asset amount _ _ _ _ _)

pub apply_reservation_delta-KeepsOrders :
    (now : ℕ) (id : ReservationId) (amount : ℕ) (consume : Bool)
    → KeepsOrders (apply_reservation_delta now id amount consume)
unfolding apply_reservation_delta
apply_reservation_delta-KeepsOrders now id amount consume s x s' h = ground arith

pub release_order_funds-KeepsOrders :
    (now : ℕ) (item : Order) (id : EventId) → KeepsOrders (release_order_funds now item id)
unfolding release_order_funds
release_order_funds-KeepsOrders now item id s x s' h =
    elim (Bool-cases (leb (reserve_amount item) 0)) [
      | inl e ↦ pure-KeepsOrders tt s x s' (rw e at h)
      | inr e ↦
          let user = item.user_id in
          let key = reservation_id_for_order item in
          let (n, s₁, clamped, rest) =
            bind_ok (clamped_release_amount now user (reserve_asset item) key (reserve_amount item))
              _ s (rw e at h) in
          let same =
            (clamped_release_amount_bounds now user (reserve_asset item) key (reserve_amount item) s
              clamped).1 in
          elim (Bool-cases (leb n 0)) [
            | inl z ↦ pure-KeepsOrders tt s₁ x s' (rw z at rest) ∙ ap (λ t. t.orders) same
            | inr z ↦
                >>-KeepsOrders _ _
                  (move_locked_to_available-KeepsOrders now user (reserve_asset item) n _)
                  (apply_reservation_delta-KeepsOrders now key n false) s₁ x s' (rw z at rest)
                ∙ ap (λ t. t.orders) same
          ]
    ]
