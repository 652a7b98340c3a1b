-- ===== src/Tests/Candles.antt =====
-- The candles of two trades, of which one is in the market.
use crosschainswap.Prelude.{◌+◌, ◌≡◌, refl, List, [], ◌∷◌, All}
use crosschainswap.Order.{Trade}
use crosschainswap.Candles.{candle_minute, update_candles}
use crosschainswap.Candles.Shape.{IsShaped, update_candles-IsShaped}
use crosschainswap.Candles.Volumes.{volume_in, traded_in, update_candles-volume}
use crosschainswap.Tests.Samples.{seller, trade_with}

abbrev items : List Trade
items = trade_with 1 seller 2 ∷ record (trade_with 2 seller 1) { market = 9 } ∷ []

update_candles-volume_example :
    volume_in 1 candle_minute (update_candles items [])
    ≡ volume_in 1 candle_minute [] + traded_in 1 items
update_candles-volume_example = update_candles-volume 1 candle_minute items [] refl

update_candles-IsShaped_example : All IsShaped (update_candles items [])
update_candles-IsShaped_example = update_candles-IsShaped items [] tt
