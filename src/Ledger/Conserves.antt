-- ===== src/Ledger/Conserves.antt =====
-- Each method of the ledger changes the total of each asset by what came in or went out, and by no
-- more; the moves between two parts of a balance change no total.
use crosschainswap.Prelude.{ℕ, ◌+◌, ◌-◌, ◌≡◌, refl, true, false, arith, ok, ltb}
use crosschainswap.Ledger.{
  BalanceEvent, BalanceEventType, EventId, ReservationId, Store, Action, ◌>>◌,
}
use crosschainswap.Ledger.Balances.{
  mark_deposit_pending, settle_deposit, debit_locked, add_available_balance,
  move_locked_to_available,
}
use crosschainswap.Ledger.Totals.{
  total, of_asset, load_ok, guard_ok, event_ok, create_balance_event-Kept, bind_ok, Loaded-put,
}

-- What a successful call adds to the total of `a`, and takes from it.
abbrev pub Changes : {A : Type 0} → ℕ → Action A → ℕ → ℕ → Type 0
Changes {A} a m more less =
    (s : Store) (x : A) (s' : Store)
    → m s ≡ ok (x, s')
    → total a s'.balances + less ≡ total a s.balances + more

pub mark_deposit_pending-Changes :
    (now user asset amount : ℕ) (id : EventId) (a : ℕ)
    → Changes a (mark_deposit_pending now user asset amount id) (of_asset a asset amount) 0
unfolding mark_deposit_pending
mark_deposit_pending-Changes now user asset amount id a s x s' h =
    let (b, s₁, l, rest) = load_ok now user asset true _ s h in
    let p =
      Loaded-put a (record b { pending = b.pending + amount; updated_at = now }) l refl refl in
    let (s₂, k, fin) = event_ok _ _ _ rest in ground (arith, p, l.asset_eq, k.balances_kept, fin)

pub settle_deposit-Changes :
    (now user asset amount : ℕ) (id : EventId) (a : ℕ)
    → Changes a (settle_deposit now user asset amount id) 0 0
unfolding settle_deposit
settle_deposit-Changes now user asset amount id a s x s' h =
    let (b, s₁, l, rest) = load_ok now user asset false _ s h in
    let (enough, rest') = guard_ok (ltb b.pending amount) _ _ s₁ rest in
    let p =
      Loaded-put a
        (record b {
          pending = b.pending - amount;
          available = b.available + amount;
          updated_at = now;
        })
        l refl refl in
    let (s₂, k, fin) = event_ok _ _ _ rest' in ground (arith, p, k.balances_kept, fin)

pub debit_locked-Changes :
    (now user asset amount : ℕ) (e : BalanceEvent) (a : ℕ)
    → Changes a (debit_locked now user asset amount e) 0 (of_asset a asset amount)
unfolding debit_locked
debit_locked-Changes now user asset amount e a s x s' h =
    let (b, s₁, l, rest) = load_ok now user asset false _ s h in
    let (enough, rest') = guard_ok (ltb b.locked amount) _ _ s₁ rest in
    let p = Loaded-put a (record b { locked = b.locked - amount; updated_at = now }) l refl refl in
    let k = create_balance_event-Kept _ _ rest' in ground (arith, p, l.asset_eq, k.balances_kept)

pub add_available_balance-Changes :
    (now user asset amount : ℕ) (type : BalanceEventType) (order_id : ℕ) (id : ReservationId)
    (trade_id created_at a : ℕ)
    → Changes a
        (add_available_balance now user asset amount type order_id id trade_id created_at)
        (of_asset a asset amount)
        0
unfolding add_available_balance
add_available_balance-Changes now user asset amount type order_id id trade_id created_at a s x s'
      h =
    let (b, s₁, l, rest) = load_ok now user asset true _ s h in
    let p =
      Loaded-put a (record b { available = b.available + amount; updated_at = now }) l refl refl in
    let k = create_balance_event-Kept _ _ rest in ground (arith, p, l.asset_eq, k.balances_kept)

-- Two calls in turn.
pub >>-Changes :
    {A B : Type 0} (a : ℕ) (m : Action A) (k : Action B) (i d i' d' : ℕ)
    → Changes a m i d
    → Changes a k i' d'
    → Changes a (m >> k) (i + i') (d + d')
>>-Changes a m k i d i' d' hm hk s x s' h =
    let (u, s₁, first, second) = bind_ok m (λ _. k) s h in
    omega (arith, hm s u s₁ first, hk s₁ x s' second)

pub move_locked_to_available-Changes :
    (now user asset amount : ℕ) (e : BalanceEvent) (a : ℕ)
    → Changes a (move_locked_to_available now user asset amount e) 0 0
unfolding move_locked_to_available
move_locked_to_available-Changes now user asset amount e a s x s' h = omega (
  arith,
  >>-Changes a (debit_locked now user asset amount _)
      (add_available_balance now user asset amount _ _ _ _ _) 0 (of_asset a asset amount)
      (of_asset a asset amount) 0 (debit_locked-Changes now user asset amount _ a)
      (add_available_balance-Changes now user asset amount _ _ _ _ _ a) s x s' h,
)
