-- ===== src/Ledger/Balanced.antt =====
-- A reservation is always accounted for: what was spent, what was given back and what remains add
-- up to what was held back, and its status says which.
use crosschainswap.Prelude.{
  ℕ, ◌+◌, ◌≤◌, ◌≡◌, ◌⊎◌, inl, inr, refl, Bool, true, false, List, [], ◌∷◌, ◌++◌, some, arith,
  Result, ok, ltb, leb, Bool-cases, Option-cases, All, All-append, subst, ◌||◌,
}
use crosschainswap.Ledger.{
  BalanceEvent, BalanceEventType, Reservation, ReservationId, LedgerError, Store, Action, pure,
  ◌>>◌,
}
use crosschainswap.Ledger.Balances.{debit_locked, add_available_balance, move_locked_to_available}
use crosschainswap.Ledger.Reservations.{
  apply_reservation_delta, create_reservation, find_reservation, has_no_id, put_reservation,
  take_from, reservation_status, same_id,
}
use crosschainswap.Ledger.Totals.{bind_ok, guard_ok, load_ok, create_balance_event-Kept}

pub record IsBalanced (r : Reservation) : Type 0 where
  pub accounted : r.consumed_amount + r.released_amount + r.remaining_amount ≡ r.amount
  pub status_eq :
      r.status ≡ reservation_status r.remaining_amount r.consumed_amount r.released_amount

pub take_from-IsBalanced :
    (now : ℕ) (r : Reservation) (amount : ℕ) (consume : Bool)
    → amount ≤ r.remaining_amount
    → IsBalanced r
    → IsBalanced (take_from now r amount consume)
unfolding take_from
take_from-IsBalanced now r amount true h v = record { accounted = ground arith; status_eq = refl }
take_from-IsBalanced now r amount false h v = record { accounted = ground arith; status_eq = refl }

put_reservation-All :
    (r : Reservation) (rs : List Reservation)
    → IsBalanced r
    → All IsBalanced rs
    → All IsBalanced (put_reservation r rs)
unfolding put_reservation
put_reservation-All r [] h v = (h, tt)
put_reservation-All r (q ∷ qs) h v = elim (Bool-cases (same_id q.id r.id)) [
  | inl e ↦ rw e (h, v.1)
  | inr e ↦ rw e (v.0, put_reservation-All r qs h v.1)
]

find_reservation-All :
    (id : ReservationId) (rs : List Reservation) {r : Reservation}
    → find_reservation id rs ≡ some r
    → All IsBalanced rs
    → IsBalanced r
unfolding find_reservation
find_reservation-All id [] h v = cc
find_reservation-All id (q ∷ qs) h v = elim (Bool-cases (same_id q.id id)) [
  | inl e ↦ subst IsBalanced (ground arith) v.0
  | inr e ↦ find_reservation-All id qs (rw e at h) v.1
]

-- The invariant of the table.
abbrev pub AllBalanced : Store → Type 0
AllBalanced s = All IsBalanced s.reservations

-- A call that succeeds keeps the invariant.
abbrev pub Keeps : {A : Type 0} → Action A → Type 0
Keeps {A} m = (s : Store) (x : A) (s' : Store) → m s ≡ ok (x, s') → AllBalanced s → AllBalanced s'

apply_reservation_delta_cases :
    (now : ℕ) (id : ReservationId) (amount : ℕ) (consume : Bool) (s : Store) {u : Unit {0}}
    {s' : Store}
    → apply_reservation_delta now id amount consume s ≡ ok (u, s')
    → (s'.reservations ≡ s.reservations)
      ⊎ ((r : Reservation) × (find_reservation id s.reservations ≡ some r)
          × (amount ≤ r.remaining_amount)
          × (s'.reservations ≡ put_reservation (take_from now r amount consume) s.reservations))
unfolding apply_reservation_delta
apply_reservation_delta_cases now id amount consume s h =
    elim (Option-cases (find_reservation id s.reservations)) [
      | inl e ↦ inl (ground arith)
      | inr (r, e) ↦ elim (Bool-cases (has_no_id id || leb amount 0)) [
        | inl g ↦ inl (ground arith)
        | inr g ↦ inr (r, e, ground arith, ground arith)
      ]
    ]

pub apply_reservation_delta-Keeps :
    (now : ℕ) (id : ReservationId) (amount : ℕ) (consume : Bool)
    → Keeps (apply_reservation_delta now id amount consume)
apply_reservation_delta-Keeps now id amount consume s x s' h v =
    elim (apply_reservation_delta_cases now id amount consume s h) [
      | inl e ↦ rw e v
      | inr (r, found, le, e) ↦ rw e (
          put_reservation-All _ s.reservations
            (take_from-IsBalanced now r amount consume le
              (find_reservation-All id s.reservations found v))
            v)
    ]

create_reservation-eq :
    (r : Reservation) (s : Store) {u : Unit {0}} {s' : Store}
    → create_reservation r s ≡ ok (u, s')
    → s'.reservations ≡ s.reservations ++ r ∷ []
unfolding create_reservation
create_reservation-eq r s h = ground arith

pub create_reservation-Keeps : (r : Reservation) → IsBalanced r → Keeps (create_reservation r)
create_reservation-Keeps r b s x s' h v =
    rw (create_reservation-eq r s h) (All-append IsBalanced s.reservations (r ∷ []) v (b, tt))

pub >>-Keeps : {A B : Type 0} (m : Action A) (k : Action B) → Keeps m → Keeps k → Keeps (m >> k)
>>-Keeps m k hm hk s x s' h v =
    let (u, s₁, first, second) = bind_ok m (λ _. k) s h in hk s₁ x s' second (hm s u s₁ first v)

pub debit_locked-Keeps :
    (now user asset amount : ℕ) (e : BalanceEvent) → Keeps (debit_locked now user asset amount e)
unfolding debit_locked
debit_locked-Keeps now user asset amount e s x s' h v =
    let (b, s₁, l, rest) = load_ok now user asset false _ s h in
    let (enough, rest') = guard_ok (ltb b.locked amount) _ _ s₁ rest in
    let k = create_balance_event-Kept _ _ rest' in rw (k.reservations_kept, l.reservations_kept) v

pub add_available_balance-Keeps :
    (now user asset amount : ℕ) (type : BalanceEventType) (order_id : ℕ) (id : ReservationId)
    (trade_id created_at : ℕ)
    → Keeps (add_available_balance now user asset amount type order_id id trade_id created_at)
unfolding add_available_balance
add_available_balance-Keeps now user asset amount type order_id id trade_id created_at s x s' h v =
    let (b, s₁, l, rest) = load_ok now user asset true _ s h in
    let k = create_balance_event-Kept _ _ rest in rw (k.reservations_kept, l.reservations_kept) v

pub move_locked_to_available-Keeps :
    (now user asset amount : ℕ) (e : BalanceEvent)
    → Keeps (move_locked_to_available now user asset amount e)
unfolding move_locked_to_available
move_locked_to_available-Keeps now user asset amount e =
    >>-Keeps _ _ (debit_locked-Keeps now user asset amount _)
      (add_available_balance-Keeps now user asset amount _ _ _ _ _)

pure_store :
    {A : Type 0} (a b : A) (s t : Store)
    → ◌≡◌ {A = Result LedgerError (A × Store)} (ok (a, s)) (ok (b, t))
    → s ≡ t
pure_store a b s t h = cc

-- A call that does nothing.
pub pure-Keeps : {A : Type 0} (a : A) → Keeps (pure a)
pure-Keeps a s x s' h v = subst AllBalanced (pure_store a x s s' h) v
