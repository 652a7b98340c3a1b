-- ===== src/Ledger/Parts.antt =====
-- An order that is filled in parts: what its settlements lock against what was held back for it.
use crosschainswap.Prelude.{◌+◌, ◌≤◌, ◌≡◌, true, ok, arith, ap, ◌∙◌}
use crosschainswap.Decimal.{val, mul_units}
use crosschainswap.Decimal.Laws.{mul_units_comm, mul_units_split}
use crosschainswap.Order.{Order, Trade, is_buy}
use crosschainswap.Ledger.Funds.{reserve_amount}
use crosschainswap.Ledger.Plan.{SettlementPlan, settlement_for_trade, settlement_for_trade-Planned}

-- Two trades that fill a buyer's order lock at most one unit more together than was held back for
-- it: each of them is rounded by itself.
pub settlement_for_trade_parts :
    (b : Order) (x y : Trade) (maker maker' taker taker' : Order) (p q : SettlementPlan)
    → is_buy b.side ≡ true
    → val b.remaining_quantity ≡ val x.quantity + val y.quantity
    → settlement_for_trade x maker taker ≡ ok p
    → settlement_for_trade y maker' taker' ≡ ok q
    → (p.buyer).price ≡ b.price
    → (q.buyer).price ≡ b.price
    → p.buyer_locked_quote + q.buyer_locked_quote ≤ reserve_amount b + 1
unfolding reserve_amount
settlement_for_trade_parts b x y maker maker' taker taker' p q buys whole h k e f =
    let l = settlement_for_trade-Planned x maker taker h in
    let m = settlement_for_trade-Planned y maker' taker' k in
    let first = l.locked ∙ ap (mul_units (val x.quantity)) e in
    let second = m.locked ∙ ap (mul_units (val y.quantity)) f in
    let held : reserve_amount b ≡ mul_units (val x.quantity + val y.quantity) b.price =
      rw (reserve_amount, buys, whole) (mul_units_comm b.price (val x.quantity + val y.quantity)) in
    omega
      (arith, first, second, held, (mul_units_split (val x.quantity) (val y.quantity) b.price).1)
