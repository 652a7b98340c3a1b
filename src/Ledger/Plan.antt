-- ===== src/Ledger/Plan.antt =====
-- exchange_repository.go: what a trade is to move, and the checks that refuse it.
use crosschainswap.Prelude.{
  ℕ, ◌-◌, ◌+◌, ◌≡◌, ◌<◌, ◌⊎◌, inl, inr, arith, true, false, Bool-cases, ◌||◌, Result, ok, reject_if,
  ◌>>◌, ltb, leb, ◌==◌, if◌then◌else◌,
}
use crosschainswap.Decimal.{val, mul_units}
use crosschainswap.Order.{Order, Trade, is_buy}
use crosschainswap.Ledger.{LedgerError}

-- `tradeSettlementPlan`
pub record SettlementPlan : Type 0 where
  pub buyer : Order
  pub seller : Order
  pub buyer_locked_quote : ℕ
  pub buyer_quote_release : ℕ

-- The checks of `settlementForTrade`, once it is known who buys.
unfoldable pub plan_between : Trade → Order → Order → Result LedgerError SettlementPlan
plan_between item buyer seller = do
  reject_if (buyer.id == 0 || seller.id == 0) LedgerError.orders_required
  reject_if (leb (val item.quantity) 0) LedgerError.quantity_not_positive
  reject_if (leb (val item.quote_quantity) 0) LedgerError.quote_not_positive
  reject_if (leb buyer.price 0) LedgerError.buyer_price_not_positive
  let locked_quote = mul_units (val item.quantity) buyer.price
  reject_if (leb locked_quote 0) LedgerError.locked_quote_below_precision
  reject_if (ltb locked_quote (val item.quote_quantity)) LedgerError.quote_exceeds_locked
  ok (record {
    buyer = buyer;
    seller = seller;
    buyer_locked_quote = locked_quote;
    buyer_quote_release = locked_quote - val item.quote_quantity;
  })

-- `settlementForTrade`
unfoldable pub settlement_for_trade : Trade → Order → Order → Result LedgerError SettlementPlan
settlement_for_trade item maker taker =
    if is_buy item.taker_side then plan_between item taker maker else plan_between item maker taker

-- What a plan promises: the parties of the trade, and a locked quote that pays the trade and is
-- what the buyer's limit had locked for it.
pub record Planned (item : Trade) (maker taker : Order) (p : SettlementPlan) : Type 0 where
  pub parties :
      ((is_buy item.taker_side ≡ true) × (p.buyer ≡ taker) × (p.seller ≡ maker))
      ⊎ ((is_buy item.taker_side ≡ false) × (p.buyer ≡ maker) × (p.seller ≡ taker))
  pub locked : p.buyer_locked_quote ≡ mul_units (val item.quantity) (p.buyer).price
  pub covers : p.buyer_locked_quote ≡ p.buyer_quote_release + val item.quote_quantity
  pub moves_base : 0 < val item.quantity
  pub moves_quote : 0 < val item.quote_quantity

record PlannedBetween (item : Trade) (buyer seller : Order) (p : SettlementPlan) : Type 0 where
  buys : p.buyer ≡ buyer
  sells : p.seller ≡ seller
  locked : p.buyer_locked_quote ≡ mul_units (val item.quantity) buyer.price
  covers : p.buyer_locked_quote ≡ p.buyer_quote_release + val item.quote_quantity
  moves_base : 0 < val item.quantity
  moves_quote : 0 < val item.quote_quantity

plan_between-PlannedBetween :
    (item : Trade) (buyer seller : Order) {p : SettlementPlan}
    → plan_between item buyer seller ≡ ok p
    → PlannedBetween item buyer seller p
unfolding plan_between
plan_between-PlannedBetween item buyer seller h = record {
  buys = ground arith;
  sells = ground arith;
  locked = ground arith;
  covers = ground arith;
  moves_base = ground arith;
  moves_quote = ground arith;
}

-- What a plan says, where there is one: the buyer is the party on the side of the buy, what the
-- buyer had locked is the quantity at the buyer's own price, it is what is paid and what is given
-- back together, and both quantities of the trade are positive.
pub settlement_for_trade-Planned :
    (item : Trade) (maker taker : Order) {p : SettlementPlan}
    → settlement_for_trade item maker taker ≡ ok p
    → Planned item maker taker p
unfolding settlement_for_trade
settlement_for_trade-Planned item maker taker h = elim (Bool-cases (is_buy item.taker_side)) [
  | inl b ↦
      let k = plan_between-PlannedBetween item taker maker (rw b at h) in
      record {
        parties = inl (b, k.buys, k.sells);
        locked = rw k.buys k.locked;
        covers = k.covers;
        moves_base = k.moves_base;
        moves_quote = k.moves_quote;
      }
  | inr b ↦
      let k = plan_between-PlannedBetween item maker taker (rw b at h) in
      record {
        parties = inr (b, k.buys, k.sells);
        locked = rw k.buys k.locked;
        covers = k.covers;
        moves_base = k.moves_base;
        moves_quote = k.moves_quote;
      }
]
