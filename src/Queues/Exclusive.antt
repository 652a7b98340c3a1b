-- ===== src/Queues/Exclusive.antt =====
-- While a row is claimed, no one else claims it.
use crosschainswap.Prelude.{
  ℕ, ◌+◌, ◌≤◌, ◌<◌, ◌≡◌, ◌≢◌, sym, ◌∙◌, true, List, [], ◌∷◌, ◌==◌, arith, All, All-map, Bool-cases,
  inl, inr,
}
use crosschainswap.Exchange.Queries.{All-select, All-order_by, All-take, select-passes}
use crosschainswap.Queues.{Queue, save_row, claim_each, claimed_rows, found_rows, claim_rows}

-- What makes claims exclusive: a claimed row keeps its key, and is not claimable again until it is
-- stale.
pub record IsExclusive {A : Type 0} (q : Queue A) : Type 0 where
  pub key_kept : (now worker : ℕ) (a : A) → q.key (q.claim now worker a) ≡ q.key a
  pub held :
      (now worker later ttl : ℕ) (a : A)
      → q.is_claimable later ttl (q.claim now worker a) ≡ true
      → now + ttl ≤ later

module _ {A : Type 0} (q : Queue A) (x : IsExclusive q) (now : ℕ) where
  -- The row of a key is not claimable until the claim at `now` is stale.
  abbrev IsHeld : ℕ → A → Type 0
  IsHeld k row =
      q.key row ≡ k → (later ttl : ℕ) → q.is_claimable later ttl row ≡ true → now + ttl ≤ later

  save_row-All :
      (P : A → Type 0) (row : A) (rows : List A) → P row → All P rows → All P (save_row q row rows)
  unfolding save_row
  save_row-All P row [] p h = tt
  save_row-All P row (r ∷ rs) p h = elim (Bool-cases (q.key r == q.key row)) [
    | inl e ↦ rw e (p, save_row-All P row rs p h.1)
    | inr e ↦ rw e (h.0, save_row-All P row rs p h.1)
  ]

  -- After a row is saved, every row of its key is it.
  save_row-own :
      (row : A) (rows : List A)
      → IsHeld (q.key row) row
      → All (IsHeld (q.key row)) (save_row q row rows)
  unfolding save_row
  save_row-own row [] p = tt
  save_row-own row (r ∷ rs) p = elim (Bool-cases (q.key r == q.key row)) [
    | inl e ↦ rw e (p, save_row-own row rs p)
    | inr e ↦ rw e ((λ k. ground arith), save_row-own row rs p)
  ]

  claim-IsHeld : (worker k : ℕ) (a : A) → IsHeld k (q.claim now worker a)
  claim-IsHeld worker k a same later ttl h = x.held now worker later ttl a h

  claim_each-All :
      (worker k : ℕ) (found rows : List A)
      → All (IsHeld k) rows
      → All (IsHeld k) (claim_each q now worker found rows)
  unfolding claim_each
  claim_each-All worker k [] rows h = h
  claim_each-All worker k (r ∷ rs) rows h =
      claim_each-All worker k rs _
        (save_row-All (IsHeld k) (q.claim now worker r) rows (claim-IsHeld worker k r) h)

  claim_each-IsHeld :
      (worker : ℕ) (found rows : List A)
      → All
          (λ a. All (IsHeld (q.key a)) (claim_each q now worker found rows))
          (claimed_rows q now worker found)
  unfolding claim_each
  claim_each-IsHeld worker [] rows = tt
  claim_each-IsHeld worker (r ∷ rs) rows =
      let row = q.claim now worker r in
      (
        claim_each-All worker (q.key row) rs (save_row q row rows)
            (save_row-own row rows (claim-IsHeld worker (q.key row) r)),
        claim_each-IsHeld worker rs (save_row q row rows),
      )

  found_rows-All :
      (P : A → Type 0) (later limit ttl : ℕ) (rows : List A)
      → All P rows
      → All P (found_rows q later limit ttl rows)
  found_rows-All P later limit ttl rows h =
      All-take P limit _ (All-order_by P _ _ (All-select P _ rows h))

  found_rows-claimable :
      (later limit ttl : ℕ) (rows : List A)
      → All (λ a. q.is_claimable later ttl a ≡ true) (found_rows q later limit ttl rows)
  found_rows-claimable later limit ttl rows =
      All-take _ limit _ (All-order_by _ _ _ (select-passes (q.is_claimable later ttl) rows))

  -- Rows that are held at a key and could be claimed have another key.
  claimed_rows-other :
      (k later worker ttl : ℕ) (found : List A)
      → later < now + ttl
      → All (IsHeld k) found
      → All (λ a. q.is_claimable later ttl a ≡ true) found
      → All (λ b. k ≢ q.key b) (claimed_rows q later worker found)
  claimed_rows-other k later worker ttl [] early h c = tt
  claimed_rows-other k later worker ttl (b ∷ bs) early h c = (
    (λ e. omega (arith, h.0 (sym (x.key_kept later worker b) ∙ sym e) later ttl c.0, early)),
    claimed_rows-other k later worker ttl bs early h.1 c.1,
  )

  -- No row that a worker has claimed is claimed by a second claim, of any worker, before the time
  -- has passed after which the second one takes a claim for stale.
  pub claim_rows-exclusive :
      (worker limit ttl later worker' limit' ttl' : ℕ) (rows : List A)
      → later < now + ttl'
      → All
          (λ a.
            All
              (λ b. q.key a ≢ q.key b)
              (claim_rows q later worker' limit' ttl' (claim_rows q now worker limit ttl rows).1).0)
          (claim_rows q now worker limit ttl rows).0
  unfolding claim_rows
  claim_rows-exclusive worker limit ttl later worker' limit' ttl' rows early =
      let found = found_rows q now limit ttl rows in
      let table = claim_each q now worker found rows in
      All-map _ _
        (λ a h.
          claimed_rows-other (q.key a) later worker' ttl' (found_rows q later limit' ttl' table)
            early (found_rows-All (IsHeld (q.key a)) later limit' ttl' table h)
            (found_rows-claimable later limit' ttl' table))
        (claimed_rows q now worker found) (claim_each-IsHeld worker found rows)
