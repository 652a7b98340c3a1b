-- ===== src/Engine/Conservation.antt =====
-- In a run nothing is lost: what the trades add up to is what the taker was filled by, and each
-- maker was filled by its own trade.
use crosschainswap.Prelude.{ℕ, ◌+◌, ◌≡◌, List, arith}
use crosschainswap.Decimal.{Decimal, val}
use crosschainswap.Decimal.Laws.{min-le_left, min-le_right}
use crosschainswap.Order.{Order, Trade}
use crosschainswap.Engine.{filled_by, trade_of}
use crosschainswap.Engine.Run.{Run, stop, expire, trade, traded, Fills, IsFilledBy, match_qty}

filled_by-IsFilledBy :
    (new_trade_id : ℕ → ℕ) (now n : ℕ) (t m : Order) (quote : Decimal)
    → IsFilledBy m
        (filled_by now m (match_qty t m))
        (trade_of new_trade_id now n t m (match_qty t m) quote)
unfolding filled_by trade_of
filled_by-IsFilledBy new_trade_id now n t m quote =
    let le = min-le_right t.remaining_quantity m.remaining_quantity in ground arith

module _ {new_trade_id : ℕ → ℕ} {now limit : ℕ} where
  pub Run-filled :
      {n : ℕ} {t t' : Order} {os ms : List Order} {ts : List Trade}
      → Run new_trade_id now limit n t os ms ts t'
      → val t'.filled_quantity ≡ val t.filled_quantity + traded ts
  unfolding filled_by trade_of
  Run-filled (stop n t) = omega arith
  Run-filled (expire n t h) = omega arith
  Run-filled (trade m a b c r) = omega (arith, Run-filled r)

  pub Run-remaining :
      {n : ℕ} {t t' : Order} {os ms : List Order} {ts : List Trade}
      → Run new_trade_id now limit n t os ms ts t'
      → val t'.remaining_quantity + traded ts ≡ val t.remaining_quantity
  unfolding filled_by trade_of
  Run-remaining (stop n t) = omega arith
  Run-remaining (expire n t h) = omega arith
  Run-remaining (trade {t} m a b c r) =
      omega (arith, Run-remaining r, min-le_left t.remaining_quantity m.remaining_quantity)

  pub Run-Fills :
      {n : ℕ} {t t' : Order} {os ms : List Order} {ts : List Trade}
      → Run new_trade_id now limit n t os ms ts t'
      → Fills os ms ts
  Run-Fills (stop n t) = tt
  Run-Fills (expire n t h) = tt
  Run-Fills (trade {n} {t} m a b c r) = (filled_by-IsFilledBy new_trade_id now n t m _, Run-Fills r)
