-- ===== src/Ledger/Methods.antt =====
-- What the methods of the ledger promise those who call them.
use crosschainswap.Prelude.{ℕ, ◌+◌, ◌≡◌, List, ok, arith, sym, ◌∙◌, some, some-inj}
use crosschainswap.Order.{Order, Trade}
use crosschainswap.Ledger.{Balance, Withdrawal, WithdrawalStatus, BalanceEventType, EventId, Store}
use crosschainswap.Ledger.Balances.{mark_deposit_pending, settle_deposit}
use crosschainswap.Ledger.Withdrawals.{
  find_withdrawal, request_withdrawal, finalize_withdrawal, complete_withdrawal, cancel_withdrawal,
  refunded,
}
use crosschainswap.Ledger.Funds.{reserve_order_funds, release_order_funds}
use crosschainswap.Ledger.Settlement.{settle_trades}
use crosschainswap.Ledger.Totals.{total, of_asset}
use crosschainswap.Ledger.Conserves.{mark_deposit_pending-Changes, settle_deposit-Changes}
use crosschainswap.Ledger.Finalized.{request_withdrawal-Requested, finalize_withdrawal-Finalized}
use crosschainswap.Ledger.Settles.{settle_trades-Changes}
use crosschainswap.Ledger.Backed.{reserve_order_funds-Changes, release_order_funds-Changes}
use crosschainswap.Ledger.Balanced.{AllBalanced}
use crosschainswap.Ledger.Accounts.{
  reserve_order_funds-Keeps, release_order_funds-Keeps, settle_trades-Keeps,
}

-- Settling trades makes and loses no money: whichever trades are settled, the balances hold together
-- what they held of each asset.
pub settle_trades_conserves :
    (now : ℕ) (items : List Trade) (a : ℕ) (s s' : Store)
    → settle_trades now items s ≡ ok (tt, s')
    → total a s'.balances ≡ total a s.balances
settle_trades_conserves now items a s s' h =
    omega (arith, settle_trades-Changes now items a s tt s' h)

-- Settling trades keeps every reservation accounted for: spent, given back and remaining amounts add
-- up to what was held back, and the status says which of them there are.
pub settle_trades_accounts :
    (now : ℕ) (items : List Trade) (s s' : Store)
    → AllBalanced s
    → settle_trades now items s ≡ ok (tt, s')
    → AllBalanced s'
settle_trades_accounts now items s s' v h = settle_trades-Keeps now items s tt s' h v

-- A deposit that is first marked as pending and then settled adds its amount to the total of its
-- asset, once, and changes the total of no other asset.
deposit_adds :
    (now later user asset amount : ℕ) (id id' : EventId) (a : ℕ) (s s₁ s₂ : Store)
    (pending settled : Balance)
    → mark_deposit_pending now user asset amount id s ≡ ok (pending, s₁)
    → settle_deposit later user asset amount id' s₁ ≡ ok (settled, s₂)
    → total a s₂.balances ≡ total a s.balances + of_asset a asset amount
deposit_adds now later user asset amount id id' a s s₁ s₂ pending settled h k = omega (
  arith,
  mark_deposit_pending-Changes now user asset amount id a s pending s₁ h,
  settle_deposit-Changes later user asset amount id' a s₁ settled s₂ k,
)

-- What a withdrawal that was requested and then finalized took from the totals of the balances.
withdrawal_takes :
    (now later : ℕ) (item : Withdrawal) (next : WithdrawalStatus) (type : BalanceEventType)
    (id id' : EventId) (a : ℕ) (s s₁ s₂ : Store) {x y : Withdrawal}
    → request_withdrawal now item id s ≡ ok (x, s₁)
    → finalize_withdrawal later item.id next type id' s₁ ≡ ok (y, s₂)
    → total a s₂.balances + of_asset a item.asset item.amount
      ≡ total a s.balances + of_asset a item.asset (refunded next item.amount)
withdrawal_takes now later item next type id id' a s s₁ s₂ h k =
    let r = request_withdrawal-Requested now item id s h in
    let f = finalize_withdrawal-Finalized later item.id next type id' s₁ k in
    let (w, found, _, amount, asset) = r.recorded in
    let same : w ≡ f.withdrawal = some-inj (sym found ∙ f.was) in
    let t = rw (← same, amount, asset) at (f.totals a) in omega (arith, r.totals a, t)

-- The status of a withdrawal that is on record.
abbrev pub HasStatus : ℕ → WithdrawalStatus → Store → Type 0
HasStatus id status s =
    (w : Withdrawal) × (find_withdrawal id s.withdrawals ≡ some w) × (w.status ≡ status)

of_asset-zero : (a b : ℕ) → of_asset a b 0 ≡ 0
of_asset-zero a b = ground arith

-- A withdrawal that is requested and then completed takes its amount from the total of its asset, and
-- nothing from the total of another asset; and it is on record as completed.
pub complete_withdrawal_takes :
    (now later : ℕ) (item : Withdrawal) (id id' : EventId) (a : ℕ) (s s₁ s₂ : Store)
    (x y : Withdrawal)
    → request_withdrawal now item id s ≡ ok (x, s₁)
    → complete_withdrawal later item.id id' s₁ ≡ ok (y, s₂)
    → (total a s₂.balances + of_asset a item.asset item.amount ≡ total a s.balances)
      × HasStatus item.id WithdrawalStatus.completed s₂
unfolding complete_withdrawal
complete_withdrawal_takes now later item id id' a s s₁ s₂ x y h k =
    let type = BalanceEventType.withdrawal_completed in
    let f = finalize_withdrawal-Finalized later item.id WithdrawalStatus.completed type id' s₁ k in
    (
      omega (
        arith,
        withdrawal_takes now later item WithdrawalStatus.completed type id id' a s s₁ s₂ h k,
        of_asset-zero a item.asset,
      ),
      f.is_final,
    )

-- A withdrawal that is requested and then canceled leaves the total of every asset as it was before
-- the request; and it is on record as canceled.
pub cancel_withdrawal_returns :
    (now later : ℕ) (item : Withdrawal) (id id' : EventId) (a : ℕ) (s s₁ s₂ : Store)
    (x y : Withdrawal)
    → request_withdrawal now item id s ≡ ok (x, s₁)
    → cancel_withdrawal later item.id id' s₁ ≡ ok (y, s₂)
    → (total a s₂.balances ≡ total a s.balances) × HasStatus item.id WithdrawalStatus.canceled s₂
unfolding cancel_withdrawal
cancel_withdrawal_returns now later item id id' a s s₁ s₂ x y h k =
    let type = BalanceEventType.withdrawal_canceled in
    let f = finalize_withdrawal-Finalized later item.id WithdrawalStatus.canceled type id' s₁ k in
    (
      omega (
        arith,
        withdrawal_takes now later item WithdrawalStatus.canceled type id id' a s s₁ s₂ h k,
      ),
      f.is_final,
    )

-- The funds of an order are locked and given back within the totals: an order that is accepted and
-- later released changes the total of no asset.
order_funds_conserve :
    (now later : ℕ) (item item' : Order) (id id' : EventId) (a : ℕ) (s s₁ s₂ : Store)
    → reserve_order_funds now item id s ≡ ok (tt, s₁)
    → release_order_funds later item' id' s₁ ≡ ok (tt, s₂)
    → total a s₂.balances ≡ total a s.balances
order_funds_conserve now later item item' id id' a s s₁ s₂ h k = omega (
  arith,
  reserve_order_funds-Changes now item id a s tt s₁ h,
  release_order_funds-Changes later item' id' a s₁ tt s₂ k,
)

-- Locking and giving back the funds of orders keeps every reservation accounted for.
order_funds_account :
    (now later : ℕ) (item item' : Order) (id id' : EventId) (s s₁ s₂ : Store)
    → AllBalanced s
    → reserve_order_funds now item id s ≡ ok (tt, s₁)
    → release_order_funds later item' id' s₁ ≡ ok (tt, s₂)
    → AllBalanced s₂
order_funds_account now later item item' id id' s s₁ s₂ v h k =
    release_order_funds-Keeps later item' id' s₁ tt s₂ k
      (reserve_order_funds-Keeps now item id s tt s₁ h v)
