-- ===== src/Orders/Rules/Takers.antt =====
-- The two matchings give a market order a limit in two ways.
use crosschainswap.Prelude.{◌≤◌, ◌≡◌, ◌==◌, ◌&&◌, not, ltb, arith}
use crosschainswap.Order.{Order, is_market, is_sell}
use crosschainswap.Book.Apply.{effective_book_taker}
use crosschainswap.Orders.Rules.{effective_match_taker}

-- The matching on the database and the one on the book take a taker at the same limit exactly if it
-- is not a market order that sells with a price above the least one; and the limit on the database
-- is never above the one on the book.
pub effective_takers-price :
    (item : Order)
    → ((effective_match_taker item).price == (effective_book_taker item).price
        ≡ not (is_market item.type && is_sell item.side && ltb 1 item.price))
      × ((effective_match_taker item).price ≤ (effective_book_taker item).price)
unfolding effective_match_taker effective_book_taker
effective_takers-price item = (ground arith, ground arith)
