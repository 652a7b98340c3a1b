-- ===== src/Orders/Cancel/Twice.antt =====
-- Canceling an order gives its funds back once.
use crosschainswap.Prelude.{
  ℕ, ◌≡◌, inl, inr, refl, true, false, List, [], some, ok, arith, ◌!=◌, ◌&&◌, ==_refl, Bool-cases,
  Option-cases, Result-cases, ap, ◌∙◌, sym, subst,
}
use crosschainswap.Prelude.Dict.{lookup, lookup-insert}
use crosschainswap.Order.{Order, OrderEvent}
use crosschainswap.Ledger.{Store, EventId}
use crosschainswap.Ledger.Funds.{release_order_funds}
use crosschainswap.Ledger.Totals.{total}
use crosschainswap.Ledger.Backed.{release_order_funds-Changes}
use crosschainswap.Ledger.Balanced.{AllBalanced}
use crosschainswap.Ledger.Accounts.{release_order_funds-Keeps}
use crosschainswap.Ledger.OrdersKept.{release_order_funds-KeepsOrders}
use crosschainswap.Orders.Rules.{cancelable, cancel_already_terminal}
use crosschainswap.Orders.Cancel.{save_order, closed_order, close_order, cancel_order}

-- The two ways in which a cancel succeeds.
data Done (now id user : ℕ) (s : Store) (o : Order) (es : List OrderEvent) (s' : Store)
    : Type 0 where
  closed :
      (item : Order)
      → lookup id s.orders ≡ some item
      → user != 0 && item.user_id != user ≡ false
      → cancelable item.status ≡ true
      → o ≡ closed_order now item
      → release_order_funds now item EventId.generated (save_order (closed_order now item) s)
        ≡ ok (tt, s')
      → Done now id user s o es s'
  was_over :
      lookup id s.orders ≡ some o
      → user != 0 && o.user_id != user ≡ false
      → cancelable o.status ≡ false
      → cancel_already_terminal o.status ≡ true
      → s' ≡ s
      → Done now id user s o es s'

close_order-eq :
    (now : ℕ) (item o : Order) (es : List OrderEvent) (s s' : Store)
    → close_order now item s ≡ ok ((o, es), s')
    → (o ≡ closed_order now item)
      × (release_order_funds now item EventId.generated (save_order (closed_order now item) s)
          ≡ ok (tt, s'))
unfolding close_order
close_order-eq now item o es s s' h =
    elim (Result-cases
      (release_order_funds now item EventId.generated (save_order (closed_order now item) s))) [
        | inl ((u, t), e) ↦ let k = rw (close_order, e) at h in (cc k, e ∙ cc k)
        | inr (x, e) ↦ cc (rw (close_order, e) at h)
      ]

cancel_order-Done :
    (now id user : ℕ) (s : Store) (o : Order) (es : List OrderEvent) (s' : Store)
    → cancel_order now id user s ≡ ok ((o, es), s')
    → Done now id user s o es s'
unfolding cancel_order
cancel_order-Done now id user s o es s' h = elim (Option-cases (lookup id s.orders)) [
  | inl e ↦ ground arith
  | inr (item, e) ↦ elim (Bool-cases (cancelable item.status)) [
    | inl c ↦
        let k : close_order now item s ≡ ok ((o, es), s') = ground arith in
        let (a, b) = close_order-eq now item o es s s' k in closed item e (ground arith) c a b
    | inr c ↦ was_over (ground arith) (ground arith) (ground arith) (ground arith) (ground arith)
  ]
]

over_again :
    (now id user : ℕ) (s : Store) (o : Order)
    → lookup id s.orders ≡ some o
    → user != 0 && o.user_id != user ≡ false
    → cancelable o.status ≡ false
    → cancel_already_terminal o.status ≡ true
    → cancel_order now id user s ≡ ok ((o, []), s)
unfolding cancel_order
over_again now id user s o e u c t = ground arith

module _ (now id user : ℕ) (s : Store) {o : Order} {es : List OrderEvent} {s' : Store}
    (canceled : cancel_order now id user s ≡ ok ((o, es), s')) where
  -- A cancel that succeeds changes the total of no asset.
  cancel_order-conserves : (a : ℕ) → total a s'.balances ≡ total a s.balances
  cancel_order-conserves a = elim (cancel_order-Done now id user s o es s' canceled) [
    | closed item e u c q k ↦
        omega (arith, release_order_funds-Changes now item EventId.generated a _ tt s' k)
    | was_over e u c t q ↦ ap (λ x. total a x.balances) q
  ]

  -- A cancel that succeeds keeps every reservation accounted for.
  cancel_order-accounts : AllBalanced s → AllBalanced s'
  cancel_order-accounts v = elim (cancel_order-Done now id user s o es s' canceled) [
    | closed item e u c q k ↦ release_order_funds-Keeps now item EventId.generated _ tt s' k v
    | was_over e u c t q ↦ subst AllBalanced (sym q) v
  ]

  -- A second cancel gives nothing back: it finds the order over, and leaves the state and the log
  -- as they are.
  pub cancel_order-twice :
      (later : ℕ)
      → ((k : ℕ) (q : Order) → lookup k s.orders ≡ some q → q.id ≡ k)
      → cancel_order later id user s' ≡ ok ((o, []), s')
  unfolding cancel_order
  cancel_order-twice later keyed = elim (cancel_order-Done now id user s o es s' canceled) [
    | closed item e u c q k ↦
        let kept = release_order_funds-KeepsOrders now item EventId.generated _ tt s' k in
        let i = keyed id item e in
        let at : lookup item.id s'.orders ≡ some o =
          rw (kept, lookup-insert item.id item.id (closed_order now item) s.orders, ==_refl item.id)
            (ap some (sym q)) in
        let found : lookup id s'.orders ≡ some o = subst (λ j. lookup j s'.orders ≡ some o) i at in
        over_again later id user s' o found (rw q u) (rw q refl) (rw q refl)
    | was_over e u c t q ↦
        subst (λ x. cancel_order later id user x ≡ ok ((o, []), x)) (sym q)
          (over_again later id user s o e u c t)
  ]
