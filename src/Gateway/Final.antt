-- ===== src/Gateway/Final.antt =====
-- A withdrawal that the gateway has ended stays as it is, whatever callbacks follow.
use crosschainswap.Prelude.{
  ℕ, ◌≡◌, ◌≢◌, refl, sym, ap, subst, ◌∙◌, List, [], ◌∷◌, some, Result, ok, err, arith,
}
use crosschainswap.Ledger.{
  EventId, LedgerError, Store, Action, Withdrawal, WithdrawalStatus, BalanceEventType, ◌>>=◌, pure,
}
use crosschainswap.Ledger.Withdrawals.{
  finalize_withdrawal, complete_withdrawal, cancel_withdrawal, find_withdrawal,
}
use crosschainswap.Ledger.Totals.{bind_ok}
use crosschainswap.Ledger.Finalized.{finalize_withdrawal-Finalized}
use crosschainswap.Gateway.{
  GatewayStatus, apply_withdrawal_callback, after_withdrawal, apply_withdrawal_callbacks,
}

-- The withdrawal is stored, and is not waiting to be ended.
pub record IsEnded (id : ℕ) (s : Store) : Type 0 where
  pub withdrawal : Withdrawal
  pub found : find_withdrawal id s.withdrawals ≡ some withdrawal
  pub not_open : withdrawal.status ≢ WithdrawalStatus.requested

finalize-refused :
    (now id : ℕ) (next : WithdrawalStatus) (type : BalanceEventType) (event_id : EventId)
    (s : Store)
    → IsEnded id s
    → finalize_withdrawal now id next type event_id s ≡ err LedgerError.not_requested
unfolding finalize_withdrawal
finalize-refused now id next type event_id s e =
    let found = e.found in let not_open = e.not_open in ground (arith, found, not_open)

complete-refused :
    (now id : ℕ) (e : EventId) (s : Store)
    → IsEnded id s
    → complete_withdrawal now id e s ≡ err LedgerError.not_requested
unfolding complete_withdrawal
complete-refused now id e s =
    finalize-refused now id WithdrawalStatus.completed BalanceEventType.withdrawal_completed e s

cancel-refused :
    (now id : ℕ) (e : EventId) (s : Store)
    → IsEnded id s
    → cancel_withdrawal now id e s ≡ err LedgerError.not_requested
unfolding cancel_withdrawal
cancel-refused now id e s =
    finalize-refused now id WithdrawalStatus.canceled BalanceEventType.withdrawal_canceled e s

refused_bind :
    {A B : Type 0} (m : Action A) (f : A → Action B) (s : Store) {e : LedgerError}
    → m s ≡ err e
    → (m >>= f) s ≡ err e
refused_bind {A} {B} m f s h =
    ap
      (λ (r : Result LedgerError (A × Store)). elim r as (λ x. Result LedgerError (B × Store)) [
        | ok (a, s') ↦ f a s'
        | err e ↦ err e
      ])
      h

callback-kept :
    (now : ℕ) (status : GatewayStatus) (id : ℕ) (s : Store)
    → IsEnded id s
    → after_withdrawal s (apply_withdrawal_callback now status id s) ≡ s
unfolding apply_withdrawal_callback
callback-kept now GatewayStatus.pending id s e = refl
callback-kept now GatewayStatus.settled id s e = ap (after_withdrawal s) (
    refused_bind (complete_withdrawal now id EventId.generated) (λ w. pure (some w)) s
      (complete-refused now id EventId.generated s e))
callback-kept now GatewayStatus.canceled id s e = ap (after_withdrawal s) (
    refused_bind (cancel_withdrawal now id EventId.generated) (λ w. pure (some w)) s
      (cancel-refused now id EventId.generated s e))
callback-kept now GatewayStatus.other id s e = refl

callbacks-kept :
    (calls : List (ℕ × GatewayStatus)) (id : ℕ) (s : Store)
    → IsEnded id s
    → apply_withdrawal_callbacks calls id s ≡ s
unfolding apply_withdrawal_callbacks
callbacks-kept [] id s e = refl
callbacks-kept ((now, status) ∷ rest) id s e =
    rw (callback-kept now status id s e) (callbacks-kept rest id s e)

finalize-ends :
    (now id : ℕ) (next : WithdrawalStatus) (type : BalanceEventType) (event_id : EventId)
    (s : Store) {x : Withdrawal} {s' : Store}
    → next ≢ WithdrawalStatus.requested
    → finalize_withdrawal now id next type event_id s ≡ ok (x, s')
    → IsEnded id s'
finalize-ends now id next type event_id s n h =
    let (w, found, status) =
      (finalize_withdrawal-Finalized now id next type event_id s h).is_final in
    record { withdrawal = w; found = found; not_open = λ e. n (sym status ∙ e) }

complete-ends :
    (now id : ℕ) (e : EventId) (s : Store) {x : Withdrawal} {s' : Store}
    → complete_withdrawal now id e s ≡ ok (x, s')
    → IsEnded id s'
unfolding complete_withdrawal
complete-ends now id e s h =
    finalize-ends now id WithdrawalStatus.completed BalanceEventType.withdrawal_completed e s
      (λ k. cc) h

cancel-ends :
    (now id : ℕ) (e : EventId) (s : Store) {x : Withdrawal} {s' : Store}
    → cancel_withdrawal now id e s ≡ ok (x, s')
    → IsEnded id s'
unfolding cancel_withdrawal
cancel-ends now id e s h =
    finalize-ends now id WithdrawalStatus.canceled BalanceEventType.withdrawal_canceled e s
      (λ k. cc) h

ended_store :
    {A : Type 0} {a x : A} {s s' : Store}
    → ◌≡◌ {A = Result LedgerError (A × Store)} (ok (a, s)) (ok (x, s'))
    → s ≡ s'
ended_store h = cc

callback-ends :
    (now : ℕ) (status : GatewayStatus) (id : ℕ) (s s' : Store) {w : Withdrawal}
    → apply_withdrawal_callback now status id s ≡ ok (some w, s')
    → IsEnded id s'
unfolding apply_withdrawal_callback
callback-ends now GatewayStatus.pending id s s' h = absurd (cc)
callback-ends now GatewayStatus.settled id s s' h =
    let (x, s₁, done, fin) = bind_ok (complete_withdrawal now id EventId.generated) _ s h in
    subst (IsEnded id) (ended_store fin) (complete-ends now id EventId.generated s done)
callback-ends now GatewayStatus.canceled id s s' h =
    let (x, s₁, done, fin) = bind_ok (cancel_withdrawal now id EventId.generated) _ s h in
    subst (IsEnded id) (ended_store fin) (cancel-ends now id EventId.generated s done)
callback-ends now GatewayStatus.other id s s' h = absurd (cc)

-- A withdrawal is ended once: after a callback that completed or canceled it, no further callbacks
-- for it, of any status and in any number, change anything in the store.
pub apply_withdrawal_callbacks_once :
    (now : ℕ) (status : GatewayStatus) (id : ℕ) (s s' : Store) (w : Withdrawal)
    (calls : List (ℕ × GatewayStatus))
    → apply_withdrawal_callback now status id s ≡ ok (some w, s')
    → apply_withdrawal_callbacks calls id s' ≡ s'
apply_withdrawal_callbacks_once now status id s s' w calls h =
    callbacks-kept calls id s' (callback-ends now status id s s' h)
