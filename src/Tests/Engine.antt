-- ===== src/Tests/Engine.antt =====
-- `MatchLimit` at a buyer of 5 and sellers of 2, 2 and 1, the last one too dear.
use crosschainswap.Prelude.{
  ◌+◌, ◌≡◌, ◌⊎◌, refl, List, [], arith, All, true, false, ok, err, some, ◌∷◌, ◌/◌,
}
use crosschainswap.Decimal.{is_positive, val, mul_units, min, one}
use crosschainswap.Order.{Status, Order}
use crosschainswap.Engine.{
  MatchError, MatchResult, match_limit, visit, fill, trade_of, eligible_maker, crosses_price,
  validate_taker, expire_taker, filled_by,
}
use crosschainswap.Engine.Run.{traded, IsFair, Fills}
use crosschainswap.Engine.Limit.{
  match_limit_conserves, match_limit-IsFair, match_limit-status, match_limit_exhausts, Chosen,
  Executed,
}
use crosschainswap.Engine.Errors.{Dust, match_limit_total, match_limit-err}
use crosschainswap.Tests.Samples.{ids, sellers, seller, outcome, buyer}

match_limit_two : match_limit ids 50 buyer sellers ≡ ok outcome
unfolding match_limit visit fill trade_of expire_taker eligible_maker crosses_price validate_taker
    mul_units min filled_by
match_limit_two = refl

match_limit_conserves_example :
    (val outcome.taker.filled_quantity ≡ val buyer.filled_quantity + traded outcome.trades)
    × (val outcome.taker.remaining_quantity + traded outcome.trades ≡ val buyer.remaining_quantity)
    × Executed sellers outcome.makers outcome.trades
match_limit_conserves_example = match_limit_conserves ids 50 buyer sellers match_limit_two

match_limit-IsFair_example :
    All (IsFair buyer.price buyer) outcome.trades × Executed sellers outcome.makers outcome.trades
match_limit-IsFair_example = match_limit-IsFair ids 50 buyer sellers match_limit_two

match_limit-status_example :
    (is_positive outcome.taker.remaining_quantity ≡ false) × (outcome.taker.status ≡ Status.filled)
    ⊎ (is_positive outcome.taker.remaining_quantity ≡ true)
      × ((outcome.taker.status ≡ Status.expired)
          ⊎ (outcome.taker.status ≡ Status.partially_filled)
          ⊎ (outcome.trades ≡ []) × (outcome.taker.status ≡ Status.opened))
match_limit-status_example = match_limit-status ids 50 buyer sellers match_limit_two

match_limit_exhausts_example :
    (os : List Order) × Chosen buyer os sellers
    × Fills os outcome.makers outcome.trades
    × All (λ m. (val m.remaining_quantity ≡ 0) × (m.status ≡ Status.filled)) outcome.makers
match_limit_exhausts_example =
    match_limit_exhausts ids 50 buyer sellers match_limit_two refl (λ e. cc)

buyer_valid : validate_taker buyer ≡ ok tt
unfolding validate_taker
buyer_valid = refl

match_limit_total_example : (r : MatchResult) × (match_limit ids 50 buyer sellers ≡ ok r)
match_limit_total_example = match_limit_total ids 50 buyer sellers buyer_valid (omega arith)

-- A buyer of one unit and a seller whose unit costs a third of a unit of quote.
abbrev small_buyer : Order
small_buyer = record buyer { remaining_quantity = some 1 }

abbrev cheap_seller : Order
cheap_seller = record seller { price = one / 3 }

match_limit_small :
    match_limit ids 50 small_buyer (cheap_seller ∷ []) ≡ err MatchError.quote_below_precision
unfolding match_limit visit fill trade_of expire_taker eligible_maker crosses_price validate_taker
    mul_units min filled_by
match_limit_small = refl

match_limit-err_example :
    (validate_taker small_buyer ≡ err MatchError.quote_below_precision)
    ⊎ (MatchError.quote_below_precision ≡ MatchError.quote_below_precision)
      × Dust small_buyer (cheap_seller ∷ [])
match_limit-err_example =
    match_limit-err ids 50 small_buyer (cheap_seller ∷ []) MatchError.quote_below_precision
      match_limit_small
