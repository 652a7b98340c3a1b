-- ===== src/Ledger/Reservations.antt =====
-- reservation_repository.go: what an order holds back, and how much of it was spent or given back.
use crosschainswap.Prelude.{
  ℕ, ◌+◌, ◌-◌, Bool, true, false, ◌&&◌, ◌||◌, List, [], ◌∷◌, ◌++◌, Option, none, some, ok, err, ltb,
  leb, ◌==◌, if◌then◌else◌,
}
use crosschainswap.Ledger.{
  Reservation, ReservationId, ReservationStatus, LedgerError, Action, ◌>>◌, fail_if,
}

abbrev pub same_id : ReservationId → ReservationId → Bool
same_id (ReservationId.named a) (ReservationId.named b) = a == b
same_id (ReservationId.of_order a) (ReservationId.of_order b) = a == b
same_id ReservationId.no_id ReservationId.no_id = true
same_id _ _ = false

abbrev pub has_no_id : ReservationId → Bool
has_no_id ReservationId.no_id = true
has_no_id _ = false

-- `First(&model, "id = ?", id)`
unfoldable pub find_reservation : ReservationId → List Reservation → Option Reservation
find_reservation id [] = none
find_reservation id (r ∷ rs) = if same_id r.id id then some r else find_reservation id rs

-- `Save` of a row that is there.
unfoldable pub put_reservation : Reservation → List Reservation → List Reservation
put_reservation r [] = r ∷ []
put_reservation r (q ∷ qs) = if same_id q.id r.id then r ∷ qs else q ∷ put_reservation r qs

-- `GetReservation`; `modelToReservation` copies the row.
unfoldable pub get_reservation : ReservationId → Action Reservation
get_reservation id s = elim (find_reservation id s.reservations) [
  | some r ↦ ok (r, s)
  | none ↦ err LedgerError.record_not_found
]

-- The id is the primary key, and `order_id` is unique too.
unfoldable pub reservation_clashes : Reservation → List Reservation → Bool
reservation_clashes r [] = false
reservation_clashes r (q ∷ qs) =
    same_id q.id r.id || q.order_id == r.order_id || reservation_clashes r qs

-- `createReservation`, where the caller gives a status and the times.
unfoldable pub create_reservation : Reservation → Action (Unit {0})
create_reservation r = do
  fail_if (has_no_id r.id || r.user_id == 0 || r.market == 0 || r.asset == 0 || r.order_id == 0)
      LedgerError.reservation_incomplete
  fail_if (leb r.amount 0 || leb r.remaining_amount 0) LedgerError.insufficient_balance
  λ s.
      if reservation_clashes r s.reservations
      then err LedgerError.duplicate_key
      else ok (tt, record s { reservations = s.reservations ++ r ∷ [] })

-- `reservationStatus`
unfoldable pub reservation_status : ℕ → ℕ → ℕ → ReservationStatus
reservation_status remaining consumed released =
    if ltb 0 remaining
    then ReservationStatus.active
    else if ltb 0 consumed && ltb 0 released
    then ReservationStatus.closed
    else if ltb 0 consumed
    then ReservationStatus.consumed
    else ReservationStatus.released

-- The update that `applyReservationDelta` makes to a row.
unfoldable pub take_from : ℕ → Reservation → ℕ → Bool → Reservation
take_from now r amount consume = record r {
  consumed_amount = consumed;
  released_amount = released;
  remaining_amount = remaining;
  status = reservation_status remaining consumed released;
  updated_at = now;
}
  where
    consumed : ℕ
    consumed = if consume then r.consumed_amount + amount else r.consumed_amount

    released : ℕ
    released = if consume then r.released_amount else r.released_amount + amount

    remaining : ℕ
    remaining = r.remaining_amount - amount

-- `applyReservationDelta`: `consumeReservation` with true, `releaseReservation` with false.
unfoldable pub apply_reservation_delta : ℕ → ReservationId → ℕ → Bool → Action (Unit {0})
apply_reservation_delta now id amount consume s =
    if has_no_id id || leb amount 0 then ok (tt, s) else elim (find_reservation id s.reservations) [
      | none ↦ ok (tt, s)
      | some r ↦
          if ltb r.remaining_amount amount
          then err LedgerError.insufficient_balance
          else ok (
            tt,
            record s {
              reservations = put_reservation (take_from now r amount consume) s.reservations;
            },
          )
    ]

abbrev pub consume_reservation : ℕ → ReservationId → ℕ → Action (Unit {0})
consume_reservation now id amount = apply_reservation_delta now id amount true

abbrev pub release_reservation : ℕ → ReservationId → ℕ → Action (Unit {0})
release_reservation now id amount = apply_reservation_delta now id amount false
