-- ===== src/Exchange/Queries.antt =====
-- The parts of a query, on a table as a list of rows: a condition, an order and a limit.
use crosschainswap.Prelude.{
  ℕ, zero, suc, ◌≡◌, inl, inr, Bool, true, List, [], ◌∷◌, if◌then◌else◌, All, Bool-cases,
}

-- The rows of a list that a test accepts.
unfoldable pub select : {A : Type 0} → (A → Bool) → List A → List A
select test [] = []
select test (o ∷ os) = let rest = select test os in if test o then o ∷ rest else rest

-- `ORDER BY`: `before a b` says that `a` may stand before `b`.
unfoldable pub insert_row : {A : Type 0} → (A → A → Bool) → A → List A → List A
insert_row before item [] = item ∷ []
insert_row before item (o ∷ os) =
    if before item o then item ∷ o ∷ os else o ∷ insert_row before item os

unfoldable pub order_by : {A : Type 0} → (A → A → Bool) → List A → List A
unfolding insert_row
order_by before [] = []
order_by before (o ∷ os) = insert_row before o (order_by before os)

-- `LIMIT`
unfoldable pub take : {A : Type 0} → ℕ → List A → List A
take zero os = []
take (suc n) [] = []
take (suc n) (o ∷ os) = o ∷ take n os

module _ {A : Type 0} (P : A → Type 0) where
  pub All-select : (test : A → Bool) (os : List A) → All P os → All P (select test os)
  unfolding select
  All-select test [] h = tt
  All-select test (o ∷ os) h = elim (Bool-cases (test o)) [
    | inl e ↦ rw e (h.0, All-select test os h.1)
    | inr e ↦ rw e (All-select test os h.1)
  ]

  All-insert_row :
      (before : A → A → Bool) (item : A) (os : List A)
      → P item
      → All P os
      → All P (insert_row before item os)
  unfolding insert_row
  All-insert_row before item [] p h = (p, tt)
  All-insert_row before item (o ∷ os) p h = elim (Bool-cases (before item o)) [
    | inl e ↦ rw e (p, h)
    | inr e ↦ rw e (h.0, All-insert_row before item os p h.1)
  ]

  pub All-order_by : (before : A → A → Bool) (os : List A) → All P os → All P (order_by before os)
  unfolding order_by
  All-order_by before [] h = tt
  All-order_by before (o ∷ os) h =
      All-insert_row before o (order_by before os) h.0 (All-order_by before os h.1)

  pub All-take : (n : ℕ) (os : List A) → All P os → All P (take n os)
  unfolding take
  All-take zero os h = tt
  All-take (suc n) [] h = tt
  All-take (suc n) (o ∷ os) h = (h.0, All-take n os h.1)

module _ {A : Type 0} (test : A → Bool) where
  -- What is selected passes the test.
  pub select-passes : (os : List A) → All (λ o. test o ≡ true) (select test os)
  unfolding select
  select-passes [] = tt
  select-passes (o ∷ os) = elim (Bool-cases (test o)) [
    | inl e ↦ rw e (e, select-passes os)
    | inr e ↦ rw e (select-passes os)
  ]
