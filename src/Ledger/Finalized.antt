-- ===== src/Ledger/Finalized.antt =====
-- Withdrawals: the amount waits in `pending`, and it leaves the exchange or comes back once.
use crosschainswap.Prelude.{
  ℕ, ◌+◌, ◌-◌, ◌≡◌, ◌≢◌, refl, true, false, List, [], ◌∷◌, none, some, arith, ok, err, ltb, ◌==◌,
  if◌then◌else◌, ==_refl,
}
use crosschainswap.Ledger.{
  Balance, BalanceEventType, EventId, LedgerError, Store, Action, ◌>>=◌, not_found_as, Withdrawal,
  WithdrawalStatus, balance_for_update,
}
use crosschainswap.Ledger.Withdrawals.{
  find_withdrawal, put_withdrawal, create_withdrawal, request_withdrawal, finalize_withdrawal,
  refunded, is_requested,
}
use crosschainswap.Ledger.Totals.{
  total, of_asset, Loaded, or_fail_ok, load_ok, guard_ok, event_ok, bind_ok, Loaded-put,
  balance_for_update-Loaded,
}

find_withdrawal-id :
    (id : ℕ) (ws : List Withdrawal) {w : Withdrawal} → find_withdrawal id ws ≡ some w → w.id ≡ id
unfolding find_withdrawal
find_withdrawal-id id [] h = cc
find_withdrawal-id id (v ∷ vs) {w} h = ground (arith, find_withdrawal-id id vs {w = w})

pub find_withdrawal-put :
    (id : ℕ) (w : Withdrawal) (ws : List Withdrawal)
    → find_withdrawal id (put_withdrawal w ws)
      ≡ (if w.id == id then some w else find_withdrawal id ws)
unfolding find_withdrawal put_withdrawal
find_withdrawal-put id w [] = refl
find_withdrawal-put id w (v ∷ vs) = ground (arith, find_withdrawal-put id w vs)

found_ok :
    {A : Type 0} (e : LedgerError) (m : Action A) (s : Store) {r : A × Store}
    → not_found_as e m s ≡ ok r
    → m s ≡ ok r
found_ok e m s h = ground arith

-- A row that was loaded, where a missing one would have been another error.
pub load_found_ok :
    {B : Type 0} (now user asset : ℕ) (e : LedgerError) (f : Balance → Action B) (s : Store)
    {r : B × Store}
    → (not_found_as e (balance_for_update now user asset false) >>= f) s ≡ ok r
    → (b : Balance) × (s' : Store) × Loaded user asset s b s' × (f b s' ≡ ok r)
load_found_ok now user asset e f s h =
    let load = balance_for_update now user asset false in
    let (b, s', found, rest) = bind_ok (not_found_as e load) f s h in
    (b, s', balance_for_update-Loaded now user asset false s (found_ok e load s found), rest)

create_withdrawal-eq :
    (w : Withdrawal) (s : Store) {u : Unit {0}} {s' : Store}
    → create_withdrawal w s ≡ ok (u, s')
    → (find_withdrawal w.id s.withdrawals ≡ none)
      × (s'.balances ≡ s.balances)
      × (s'.withdrawals ≡ put_withdrawal w s.withdrawals)
unfolding create_withdrawal
create_withdrawal-eq w s h = ground arith

-- What a successful request does: it moves the amount from `available` to `pending`, and the
-- withdrawal is on record as requested.
pub record Requested (item : Withdrawal) (s s' : Store) : Type 0 where
  pub totals : (a : ℕ) → total a s'.balances ≡ total a s.balances
  pub recorded :
      (w : Withdrawal) × (find_withdrawal item.id s'.withdrawals ≡ some w)
      × (w.status ≡ WithdrawalStatus.requested)
      × (w.amount ≡ item.amount)
      × (w.asset ≡ item.asset)
  pub new_id : find_withdrawal item.id s.withdrawals ≡ none

pub request_withdrawal-Requested :
    (now : ℕ) (item : Withdrawal) (id : EventId) (s : Store) {x : Withdrawal} {s' : Store}
    → request_withdrawal now item id s ≡ ok (x, s')
    → Requested item s s'
unfolding request_withdrawal
request_withdrawal-Requested now item id s {x} {s'} h =
    let (b, s₁, l, rest) = load_found_ok now item.user_id item.asset _ _ s h in
    let (enough, rest') = guard_ok (ltb b.available item.amount) _ _ s₁ rest in
    let w : Withdrawal = record item {
      status = WithdrawalStatus.requested;
      created_at = now;
      updated_at = now;
    } in
    let (_, s₂, created, rest'') = bind_ok (create_withdrawal w) _ _ rest' in
    let (new, balances, withdrawals) = create_withdrawal-eq w _ created in
    let (s₃, k, fin) = event_ok _ _ _ rest'' in
    let b' : Balance = record b {
      available = b.available - item.amount;
      pending = b.pending + item.amount;
      updated_at = now;
    } in
    let last : s'.withdrawals ≡ put_withdrawal w s₁.withdrawals =
      ground (arith, fin, k.withdrawals_kept) in
    record {
      totals = λ a. ground (arith, Loaded-put a b' l refl refl, k.balances_kept, fin, balances);
      recorded = (
        w,
        rw (last, find_withdrawal-put item.id w s₁.withdrawals, ==_refl item.id),
        refl,
        refl,
        refl,
      );
      new_id = rw (← l.withdrawals_kept) new;
    }

-- What a successful finalization does.
pub record Finalized (id : ℕ) (next : WithdrawalStatus) (s s' : Store) : Type 0 where
  pub withdrawal : Withdrawal
  pub was : find_withdrawal id s.withdrawals ≡ some withdrawal
  pub was_requested : withdrawal.status ≡ WithdrawalStatus.requested
  pub totals :
      (a : ℕ)
      → total a s'.balances + of_asset a withdrawal.asset withdrawal.amount
        ≡ total a s.balances + of_asset a withdrawal.asset (refunded next withdrawal.amount)
  pub is_final : (w : Withdrawal) × (find_withdrawal id s'.withdrawals ≡ some w) × (w.status ≡ next)

pub finalize_withdrawal-Finalized :
    (now id : ℕ) (next : WithdrawalStatus) (type : BalanceEventType) (event_id : EventId)
    (s : Store) {x : Withdrawal} {s' : Store}
    → finalize_withdrawal now id next type event_id s ≡ ok (x, s')
    → Finalized id next s s'
unfolding finalize_withdrawal
finalize_withdrawal-Finalized now id next type event_id s {x} {s'} h =
    let (w, was, rest) = or_fail_ok (λ t. find_withdrawal id t.withdrawals) _ _ s h in
    let (requested, rest₁) = guard_ok (if is_requested w.status then false else true) _ _ s rest in
    let (b, s₁, l, rest₂) = load_ok now w.user_id w.asset false _ s rest₁ in
    let (enough, rest₃) = guard_ok (ltb b.pending w.amount) _ _ s₁ rest₂ in
    let (s₂, k, fin) = event_ok _ _ _ rest₃ in
    let b' : Balance = record b {
      pending = b.pending - w.amount;
      available = b.available + refunded next w.amount;
      updated_at = now;
    } in
    let w' : Withdrawal = record w { status = next; updated_at = now } in
    let last : s'.withdrawals ≡ put_withdrawal w' s₁.withdrawals =
      ground (arith, fin, k.withdrawals_kept) in
    record {
      withdrawal = w;
      was = was;
      was_requested = ground arith;
      totals = λ a. ground (arith, Loaded-put a b' l refl refl, k.balances_kept, fin, l.asset_eq);
      is_final = (
        w',
        rw (
          last,
          find_withdrawal-put id w' s₁.withdrawals,
          find_withdrawal-id id s.withdrawals was,
          ==_refl id,
        ),
        refl,
      );
    }

-- A withdrawal that was completed or canceled can be finalized no second time, with either end.
finalize_once :
    (now later id : ℕ) (next next' : WithdrawalStatus) (type type' : BalanceEventType)
    (event_id event_id' : EventId) (s : Store) {x : Withdrawal} {s' : Store}
    → next ≢ WithdrawalStatus.requested
    → finalize_withdrawal now id next type event_id s ≡ ok (x, s')
    → finalize_withdrawal later id next' type' event_id' s' ≡ err LedgerError.not_requested
finalize_once now later id next next' type type' event_id event_id' s {x} {s'} n h =
    let f = finalize_withdrawal-Finalized now id next type event_id s h in
    let (w, found, status) = f.is_final in
    unfold finalize_withdrawal in ground (arith, found, status)
