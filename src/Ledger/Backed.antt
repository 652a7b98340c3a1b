-- ===== src/Ledger/Backed.antt =====
-- The funds of an order: locking them and giving them back changes no total.
use crosschainswap.Prelude.{
  ℕ, ◌+◌, ◌-◌, ◌≤◌, ◌<◌, ◌≡◌, inl, inr, refl, false, arith, ok, ltb, leb, Bool-cases,
}
use crosschainswap.Order.{Order}
use crosschainswap.Ledger.{EventId, Reservation, ReservationId, Store, balance_for_update}
use crosschainswap.Ledger.Reservations.{create_reservation, get_reservation}
use crosschainswap.Ledger.Funds.{
  reserve_asset, reserve_amount, reservation_id_for_order, reserve_funds, reserve_order_funds,
  clamp_to_reservation, clamped_release_amount, release_order_funds,
}
use crosschainswap.Ledger.Totals.{bind_ok, guard_ok, Loaded-put, create_balance_event-Kept}
use crosschainswap.Ledger.Finalized.{load_found_ok}
use crosschainswap.Ledger.Conserves.{Changes, >>-Changes, move_locked_to_available-Changes}
use crosschainswap.Ledger.Settles.{apply_reservation_delta-Changes}

pub create_reservation-kept :
    (r : Reservation) (s : Store) {u : Unit {0}} {s' : Store}
    → create_reservation r s ≡ ok (u, s')
    → (s'.balances ≡ s.balances) × (0 < r.amount)
unfolding create_reservation
create_reservation-kept r s h = ground arith

reserve_funds-Changes :
    (now : ℕ) (item : Order) (id : EventId) (asset amount a : ℕ)
    → Changes a (reserve_funds now item id asset amount) 0 0
unfolding reserve_funds
reserve_funds-Changes now item id asset amount a s x s' h =
    let (b, s₁, l, rest) = load_found_ok now item.user_id asset _ _ s h in
    let (enough, rest₁) = guard_ok (ltb b.available amount) _ _ s₁ rest in
    let p =
      Loaded-put a
        (record b {
          available = b.available - amount;
          locked = b.locked + amount;
          updated_at = now;
        })
        l refl refl in
    let (_, s₂, created, rest₂) = bind_ok (create_reservation _) _ _ rest₁ in
    let c = (create_reservation-kept _ _ created).0 in
    let k = create_balance_event-Kept _ _ rest₂ in ground (arith, p, c, k.balances_kept)

-- Locking the funds of an order changes no total.
pub reserve_order_funds-Changes :
    (now : ℕ) (item : Order) (id : EventId) (a : ℕ)
    → Changes a (reserve_order_funds now item id) 0 0
unfolding reserve_order_funds
reserve_order_funds-Changes now item id a s x s' h =
    elim (Bool-cases (leb (reserve_amount item) 0)) [
      | inl e ↦ ground arith
      | inr e ↦
          reserve_funds-Changes now item id (reserve_asset item) (reserve_amount item) a s x s'
            (rw e at h)
    ]

-- A clamped amount is at most what was asked for, and the balances are as they were.
pub clamped_release_amount_bounds :
    (now user asset : ℕ) (id : ReservationId) (requested : ℕ) (s : Store) {n : ℕ} {s' : Store}
    → clamped_release_amount now user asset id requested s ≡ ok (n, s')
    → (n ≤ requested) × (s' ≡ s)
unfolding clamped_release_amount clamp_to_reservation get_reservation balance_for_update
clamped_release_amount_bounds now user asset id requested s h = ground arith

-- Giving the rest back changes no total either, and touches nothing where nothing is left.
pub release_order_funds-Changes :
    (now : ℕ) (item : Order) (id : EventId) (a : ℕ)
    → Changes a (release_order_funds now item id) 0 0
unfolding release_order_funds
release_order_funds-Changes now item id a s x s' h =
    elim (Bool-cases (leb (reserve_amount item) 0)) [
      | inl e ↦ ground arith
      | inr e ↦
          let user = item.user_id in
          let (n, s₁, clamped, rest) =
            bind_ok
              (clamped_release_amount now user (reserve_asset item) (reservation_id_for_order item)
                (reserve_amount item))
              _ s (rw e at h) in
          let same =
            (clamped_release_amount_bounds now user (reserve_asset item)
              (reservation_id_for_order item) (reserve_amount item) s clamped).1 in
          elim (Bool-cases (leb n 0)) [
            | inl z ↦ ground arith
            | inr z ↦
                let moves =
                  >>-Changes a _ _ _ _ _ _
                    (move_locked_to_available-Changes now user (reserve_asset item) n _ a)
                    (apply_reservation_delta-Changes now (reservation_id_for_order item) n false
                      a) in
                ground (arith, moves s₁ x s' (rw z at rest), same)
          ]
    ]
