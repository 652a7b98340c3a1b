-- ===== src/Candles/Volumes.antt =====
-- The candles of a supported interval hold together what was traded.
use crosschainswap.Prelude.{
  ℕ, ◌+◌, ◌*◌, ◌≡◌, ap, ◌∙◌, arith, Bool, true, false, ◌&&◌, ◌||◌, List, [], ◌∷◌, ◌==◌,
  if◌then◌else◌, Bool-cases, inl, inr,
}
use crosschainswap.Decimal.{val}
use crosschainswap.Order.{Trade}
use crosschainswap.Candles.{
  Candle, supported_intervals, count_trade, update_candle, update_each, update_candles,
}

-- The base volume of the candles of a market and an interval.
abbrev pub volume_in : ℕ → ℕ → List Candle → ℕ
volume_in m i [] = 0
volume_in m i (c ∷ cs) =
    (if c.market == m && c.interval == i then c.volume_base else 0) + volume_in m i cs

-- What was traded in a market.
abbrev pub traded_in : ℕ → List Trade → ℕ
traded_in m [] = 0
traded_in m (x ∷ xs) = (if x.market == m then val x.quantity else 0) + traded_in m xs

abbrev pub is_supported : ℕ → List ℕ → Bool
is_supported i [] = false
is_supported i (j ∷ js) = j == i || is_supported i js

abbrev occurrences : ℕ → List ℕ → ℕ
occurrences i [] = 0
occurrences i (j ∷ js) = (if j == i then 1 else 0) + occurrences i js

update_candle-volume :
    (m i j : ℕ) (item : Trade) (cs : List Candle)
    → volume_in m i (update_candle item j cs)
      ≡ volume_in m i cs + (if item.market == m && j == i then val item.quantity else 0)
unfolding update_candle count_trade
update_candle-volume m i j item [] = ground arith
update_candle-volume m i j item (c ∷ cs) =
    let ih = update_candle-volume m i j item cs in ground arith

-- What a trade adds at an interval that occurs `n` times.
abbrev added : ℕ → Trade → ℕ → ℕ
added m item n = if item.market == m then n * val item.quantity else 0

added-suc :
    (m i j n : ℕ) (item : Trade)
    → (if item.market == m && j == i then val item.quantity else 0) + added m item n
      ≡ added m item ((if j == i then 1 else 0) + n)
added-suc m i j n item = elim (Bool-cases (item.market == m)) [
  | inr e ↦ rw e (omega arith)
  | inl e ↦ elim (Bool-cases (j == i)) [
    | inl k ↦ rw (e, k) (grind arith)
    | inr k ↦ rw (e, k) (grind arith)
  ]
]

update_each-volume :
    (m i : ℕ) (item : Trade) (is : List ℕ) (cs : List Candle)
    → volume_in m i (update_each item is cs) ≡ volume_in m i cs + added m item (occurrences i is)
unfolding update_each
update_each-volume m i item [] cs = ground arith
update_each-volume m i item (j ∷ is) cs =
    let first = update_candle-volume m i j item cs in
    let rest = update_each-volume m i item is (update_candle item j cs) in
    let sum = added-suc m i j (occurrences i is) item in omega (arith, first, rest, sum)

supported_once :
    (i : ℕ) → is_supported i supported_intervals ≡ true → occurrences i supported_intervals ≡ 1
supported_once i h = ground arith

one_time :
    (m v : ℕ) (item : Trade)
    → v + added m item 1 ≡ v + (if item.market == m then val item.quantity else 0)
one_time m v item = ground arith

trade-volume :
    (m i : ℕ) (item : Trade) (cs : List Candle)
    → is_supported i supported_intervals ≡ true
    → volume_in m i (update_each item supported_intervals cs)
      ≡ volume_in m i cs + (if item.market == m then val item.quantity else 0)
trade-volume m i item cs h =
    let each = update_each-volume m i item supported_intervals cs in
    let once = supported_once i h in
    each ∙ ap (λ n. volume_in m i cs + added m item n) once ∙ one_time m (volume_in m i cs) item

-- At every supported interval the candles of a market hold together the base volume that they held,
-- and that of the trades of the market which UpdateCandles is given.
pub update_candles-volume :
    (m i : ℕ) (items : List Trade) (cs : List Candle)
    → is_supported i supported_intervals ≡ true
    → volume_in m i (update_candles items cs) ≡ volume_in m i cs + traded_in m items
unfolding update_candles
update_candles-volume m i [] cs h = omega arith
update_candles-volume m i (x ∷ xs) cs h =
    let first = trade-volume m i x cs h in
    let rest = update_candles-volume m i xs (update_each x supported_intervals cs) h in
    omega (arith, first, rest)
