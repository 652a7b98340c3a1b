-- ===== src/Exchange/Levels/Shown.antt =====
-- What a price level shows: the total and the number of the orders that rest at its price, and the
-- earliest sequence among them.
use crosschainswap.Prelude.{
  ℕ, ◌+◌, ◌<◌, ◌≡◌, refl, ap, ◌∙◌, Bool, true, false, ◌||◌, List, [], ◌∷◌, Option, none, some, ◌==◌,
  if◌then◌else◌, arith, Bool-cases, inl, inr, ok,
}
use crosschainswap.Decimal.{val}
use crosschainswap.Order.{Side, Order, same_side}
use crosschainswap.Exchange.{PriceLevelRow, Tables, modify}
use crosschainswap.Exchange.Levels.{
  LevelKey, same_key, is_blank_key, has_key, at_key, row_at, delete_level, find_level, count_level,
  sum_level, empty_level, level_at, store_level, refresh_levels, refresh_price_levels,
}

-- The total that rests at a key, and how many orders do.
abbrev pub resting_total : LevelKey → List Order → ℕ
resting_total k [] = 0
resting_total k (o ∷ os) = (if at_key k o then val o.remaining_quantity else 0) + resting_total k os

abbrev pub resting_count : LevelKey → List Order → ℕ
resting_count k [] = 0
resting_count k (o ∷ os) = (if at_key k o then 1 else 0) + resting_count k os

-- A row shows what rests at a key.
pub record IsShown (k : LevelKey) (active : List Order) (r : PriceLevelRow) : Type 0 where
  pub own_key : row_at k r ≡ true
  pub total : r.quantity ≡ resting_total k active
  pub number : r.order_count ≡ resting_count k active

sum_level-quantity :
    (k : LevelKey) (level : PriceLevelRow) (os : List Order)
    → (sum_level k level os).quantity ≡ level.quantity + resting_total k os
unfolding sum_level count_level
sum_level-quantity k level [] = omega arith
sum_level-quantity k level (o ∷ os) = elim (Bool-cases (at_key k o)) [
  | inl e ↦ rw (sum_level, e) (omega (arith, sum_level-quantity k (count_level level o) os))
  | inr e ↦ rw (sum_level, e) (omega (arith, sum_level-quantity k level os))
]

sum_level-count :
    (k : LevelKey) (level : PriceLevelRow) (os : List Order)
    → (sum_level k level os).order_count ≡ level.order_count + resting_count k os
unfolding sum_level count_level
sum_level-count k level [] = omega arith
sum_level-count k level (o ∷ os) = elim (Bool-cases (at_key k o)) [
  | inl e ↦ rw (sum_level, e) (omega (arith, sum_level-count k (count_level level o) os))
  | inr e ↦ rw (sum_level, e) (omega (arith, sum_level-count k level os))
]

sum_level-row_at :
    (k : LevelKey) (level : PriceLevelRow) (os : List Order)
    → row_at k (sum_level k level os) ≡ row_at k level
unfolding sum_level count_level
sum_level-row_at k level [] = refl
sum_level-row_at k level (o ∷ os) = elim (Bool-cases (at_key k o)) [
  | inl e ↦ rw (sum_level, e) (sum_level-row_at k (count_level level o) os)
  | inr e ↦ rw (sum_level, e) (sum_level-row_at k level os)
]

side_of_same : (a b : Side) → same_side a b ≡ true → a ≡ b
side_of_same Side.buy Side.buy h = refl
side_of_same Side.buy Side.sell h = cc
side_of_same Side.buy (Side.other n) h = cc
side_of_same Side.sell Side.buy h = cc
side_of_same Side.sell Side.sell h = refl
side_of_same Side.sell (Side.other n) h = cc
side_of_same (Side.other m) Side.buy h = cc
side_of_same (Side.other m) Side.sell h = cc
side_of_same (Side.other m) (Side.other n) h = ap Side.other (ground arith)

same_side_refl : (a : Side) → same_side a a ≡ true
same_side_refl Side.buy = refl
same_side_refl Side.sell = refl
same_side_refl (Side.other n) = ground arith

abbrev row_key : PriceLevelRow → LevelKey
row_key r = record { market = r.market; side = r.side; price = r.price }

key_of_same : (a b : LevelKey) → same_key a b ≡ true → a ≡ b
key_of_same a b h =
    let market : a.market ≡ b.market = ground arith in
    let price : a.price ≡ b.price = ground arith in
    let side = side_of_same a.side b.side (ground arith) in
    λ i. record { market = market i; side = side i; price = price i }

same_key_refl : (a : LevelKey) → same_key a a ≡ true
same_key_refl a = let side = same_side_refl a.side in ground arith

find_level-deleted :
    (k : LevelKey) (rows : List PriceLevelRow) → find_level k (delete_level k rows) ≡ none
unfolding find_level delete_level
find_level-deleted k [] = refl
find_level-deleted k (r ∷ rows) = elim (Bool-cases (row_at k r)) [
  | inl e ↦ rw (delete_level, e) (find_level-deleted k rows)
  | inr e ↦ rw (delete_level, e) (rw (find_level, e) (find_level-deleted k rows))
]

find_level-kept :
    (k j : LevelKey) (rows : List PriceLevelRow)
    → same_key j k ≡ false
    → find_level k (delete_level j rows) ≡ find_level k rows
unfolding find_level delete_level
find_level-kept k j [] h = refl
find_level-kept k j (r ∷ rows) h = elim (Bool-cases (row_at j r)) [
  | inl e ↦
      let other : row_at k r ≡ false = ap (λ x. same_key x k) (key_of_same (row_key r) j e) ∙ h in
      rw (delete_level, find_level, e, other) (find_level-kept k j rows h)
  | inr e ↦
      rw (delete_level, find_level, e)
        (ap (λ x. if row_at k r then some r else x) (find_level-kept k j rows h))
]

-- A level that is stored at a key, if there is one, is a level of that key.
abbrev HasKey : LevelKey → Option PriceLevelRow → Type 0
HasKey k none = Unit
HasKey k (some r) = row_at k r ≡ true

level_at-HasKey : (now : ℕ) (k : LevelKey) (active : List Order) → HasKey k (level_at now k active)
unfolding level_at
level_at-HasKey now k active =
    let level = sum_level k (empty_level now k) active in
    elim (Bool-cases (level.order_count == 0)) [
      | inl e ↦ rw e tt
      | inr e ↦ rw e (sum_level-row_at k (empty_level now k) active ∙ same_key_refl k)
    ]

store_level-own :
    (k : LevelKey) (o : Option PriceLevelRow) (rows : List PriceLevelRow)
    → HasKey k o
    → find_level k (store_level k o rows) ≡ o
unfolding find_level
store_level-own k none rows h = find_level-deleted k rows
store_level-own k (some r) rows h = rw (find_level, h) refl

store_level-other :
    (k j : LevelKey) (o : Option PriceLevelRow) (rows : List PriceLevelRow)
    → HasKey j o
    → same_key j k ≡ false
    → find_level k (store_level j o rows) ≡ find_level k rows
unfolding find_level
store_level-other k j none rows h d = find_level-kept k j rows d
store_level-other k j (some r) rows h d =
    let other : row_at k r ≡ false = ap (λ x. same_key x k) (key_of_same (row_key r) j h) ∙ d in
    rw (find_level, other) (find_level-kept k j rows d)

-- One key of the loop.
abbrev refreshed : ℕ → List Order → LevelKey → List PriceLevelRow → List PriceLevelRow
refreshed now active j rows =
    if is_blank_key j then rows else store_level j (level_at now j active) rows

refreshed-own :
    (now : ℕ) (active : List Order) (k j : LevelKey) (rows : List PriceLevelRow)
    → is_blank_key k ≡ false
    → same_key j k ≡ true
    → find_level k (refreshed now active j rows) ≡ level_at now k active
refreshed-own now active k j rows h d =
    rw (key_of_same j k d, h)
      (store_level-own k (level_at now k active) rows (level_at-HasKey now k active))

refreshed-other :
    (now : ℕ) (active : List Order) (k j : LevelKey) (rows : List PriceLevelRow)
    → same_key j k ≡ false
    → find_level k (refreshed now active j rows) ≡ find_level k rows
refreshed-other now active k j rows d = elim (Bool-cases (is_blank_key j)) [
  | inl e ↦ rw e refl
  | inr e ↦
      rw e (store_level-other k j (level_at now j active) rows (level_at-HasKey now j active) d)
]

either :
    (b c : Bool) {x y z w : Option PriceLevelRow}
    → x ≡ (if c then y else z)
    → (b ≡ true → z ≡ y)
    → (b ≡ false → z ≡ w)
    → x ≡ (if b || c then y else w)
either true true p f g = p
either true false p f g = p ∙ f refl
either false true p f g = p
either false false p f g = p ∙ g refl

refresh_levels-shows :
    (now : ℕ) (k : LevelKey) (keys : List LevelKey) (active : List Order)
    (rows : List PriceLevelRow)
    → is_blank_key k ≡ false
    → find_level k (refresh_levels now keys active rows)
      ≡ (if has_key k keys then level_at now k active else find_level k rows)
unfolding refresh_levels has_key
refresh_levels-shows now k [] active rows h = refl
refresh_levels-shows now k (j ∷ ks) active rows h =
    either (same_key j k) (has_key k ks)
      (refresh_levels-shows now k ks active (refreshed now active j rows) h)
      (refreshed-own now active k j rows h) (refreshed-other now active k j rows)

-- A row at the key exactly where something rests there, and it shows what does.
abbrev pub Shows : LevelKey → List Order → Option PriceLevelRow → Type 0
Shows k active none = resting_count k active ≡ 0
Shows k active (some r) = IsShown k active r × (0 < resting_count k active)

level_at-Shows :
    (now : ℕ) (k : LevelKey) (active : List Order) → Shows k active (level_at now k active)
unfolding level_at
level_at-Shows now k active =
    let start = empty_level now k in
    let counted = sum_level-count k start active in
    elim (Bool-cases ((sum_level k start active).order_count == 0)) [
      | inl e ↦ rw e (ground arith)
      | inr e ↦ rw e (
        record {
          own_key = sum_level-row_at k start active ∙ same_key_refl k;
          total = omega (arith, sum_level-quantity k start active);
          number = omega (arith, counted);
        },
        ground arith,
      )
    ]

-- After RefreshPriceLevels the row of every touched price shows the total quantity and the number of
-- the orders that rest there, and there is no row where none does; the other rows are left alone.
pub refresh_price_levels-Shows :
    (now : ℕ) (keys : List LevelKey) (k : LevelKey) (t : Tables)
    → is_blank_key k ≡ false
    → (t' : Tables) × (refresh_price_levels now keys t ≡ ok (tt, t'))
      × (has_key k keys ≡ true → Shows k t.active (find_level k t'.levels))
      × (has_key k keys ≡ false → find_level k t'.levels ≡ find_level k t.levels)
unfolding refresh_price_levels modify
refresh_price_levels-Shows now keys k t h =
    let shown = refresh_levels-shows now k keys t.active t.levels h in
    (_, refl, λ e. rw shown (rw e (level_at-Shows now k t.active)), λ e. shown ∙ rw e refl)
