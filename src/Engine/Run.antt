-- ===== src/Engine/Run.antt =====
-- What matching promises, apart from how it is carried out: a run of trades between a taker and
-- some makers, each at the maker's price. engine.go and book.go both refine it.
use crosschainswap.Prelude.{ℕ, suc, ◌+◌, ◌≤◌, ◌<◌, ◌≡◌, ◌≢◌, true, List, [], ◌∷◌, some, arith}
use crosschainswap.Decimal.{Decimal, val, is_positive, min, mul, mul_units}
use crosschainswap.Order.{Side, Status, Order, Trade, is_active}
use crosschainswap.Engine.{eligible_maker, filled_by, trade_of, status_for_remaining}

-- The sum of the quantities of some trades.
abbrev pub traded : List Trade → ℕ
traded [] = 0
traded (x ∷ xs) = val x.quantity + traded xs

-- The taker as the matching sees it, with the limit `p`.
abbrev pub priced : ℕ → Order → Order
priced p t = record t { price = p }

abbrev pub match_qty : Order → Order → Decimal
match_qty taker maker = min taker.remaining_quantity maker.remaining_quantity

abbrev pub match_quote : Order → Order → Decimal
match_quote taker maker = mul (match_qty taker maker) (some maker.price)

module _ (new_trade_id : ℕ → ℕ) (now : ℕ) (limit : ℕ) where
  -- `Run n t originals makers trades t'`: from the n-th trade on, the taker `t` trades with the
  -- makers `originals`, which become `makers`, and ends as `t'`.
  pub data Run : ℕ → Order → List Order → List Order → List Trade → Order → Type 0 where
    stop : (n : ℕ) (t : Order) → Run n t [] [] [] t
    expire :
        (n : ℕ) (t : Order)
        → is_positive t.remaining_quantity ≡ true
        → Run n t [] [] [] (record t { status = Status.expired; updated_at = now })
    trade :
        {n : ℕ} {t t' : Order} {os ms : List Order} {ts : List Trade} (m : Order)
        → is_positive t.remaining_quantity ≡ true
        → eligible_maker (priced limit t) m ≡ true
        → is_positive (match_quote t m) ≡ true
        → Run (suc n) (filled_by now t (match_qty t m)) os ms ts t'
        → Run n t
            (m ∷ os)
            (filled_by now m (match_qty t m) ∷ ms)
            (trade_of new_trade_id now n t m (match_qty t m) (match_quote t m) ∷ ts)
            t'

-- What a taker with the limit `p` may expect of each of its trades.
pub record IsFair (p : ℕ) (t : Order) (x : Trade) : Type 0 where
  pub positive : 0 < val x.quantity
  pub quoted : val x.quote_quantity ≡ mul_units (val x.quantity) x.price
  pub paid : 0 < val x.quote_quantity
  pub buys_within : t.side ≡ Side.buy → x.price ≤ p
  pub sells_within : t.side ≡ Side.sell → p ≤ x.price
  pub taker_kept : x.taker_order_id ≡ t.id
  pub user_kept : x.taker_user_id ≡ t.user_id
  pub not_self : t.user_id ≢ 0 → x.maker_user_id ≢ t.user_id
  pub other_order : x.maker_order_id ≢ t.id
  pub same_market : x.market ≡ t.market

-- A maker before and after its trade.
pub record IsFilledBy (m m' : Order) (x : Trade) : Type 0 where
  pub same_id : m'.id ≡ m.id
  pub same_price : m'.price ≡ m.price
  pub same_user : m'.user_id ≡ m.user_id
  pub trade_id : x.maker_order_id ≡ m.id
  pub trade_price : x.price ≡ m.price
  pub filled : val m'.filled_quantity ≡ val m.filled_quantity + val x.quantity
  pub left : val m'.remaining_quantity + val x.quantity ≡ val m.remaining_quantity
  pub status : m'.status ≡ status_for_remaining m'.remaining_quantity

abbrev pub Fills : List Order → List Order → List Trade → Type 0
Fills [] [] [] = Unit
Fills (m ∷ os) (m' ∷ ms) (x ∷ ts) = IsFilledBy m m' x × Fills os ms ts
Fills _ _ _ = ⊥

-- What `eligible_maker` promises.
pub record Eligible (t m : Order) : Type 0 where
  pub other_order : m.id ≢ t.id
  pub has_id : m.id ≢ 0
  pub same_market : m.market ≡ t.market
  pub not_self : t.user_id ≢ 0 → m.user_id ≢ t.user_id
  pub active : is_active m.status ≡ true
  pub remains : 0 < val m.remaining_quantity
  pub buys_within : t.side ≡ Side.buy → (m.side ≡ Side.sell) × (m.price ≤ t.price)
  pub sells_within : t.side ≡ Side.sell → (m.side ≡ Side.buy) × (t.price ≤ m.price)

pub eligible_maker-Eligible : (t m : Order) → eligible_maker t m ≡ true → Eligible t m
unfolding eligible_maker
eligible_maker-Eligible t m h = record {
  other_order = λ e. ground arith;
  has_id = λ e. ground arith;
  same_market = ground arith;
  not_self = λ n e. ground arith;
  active = ground arith;
  remains = ground arith;
  buys_within = λ e. (ground arith, ground arith);
  sells_within = λ e. (ground arith, ground arith);
}
