-- ===== src/Ledger/Totals.antt =====
-- How much of an asset the balances hold together, and how each method changes it.
use crosschainswap.Prelude.{
  true, false, ℕ, ◌+◌, ◌≡◌, inl, inr, refl, Bool, ◌&&◌, List, [], ◌∷◌, Option, none, some, arith,
  Result, ok, err, ◌==◌, if◌then◌else◌, Option-cases,
}
use crosschainswap.Ledger.{
  Balance, BalanceEvent, LedgerError, Store, Action, ◌>>=◌, ◌>>◌, fail_if, or_fail, of_result,
  find_balance, put_balance, create_balance_event, balance_for_update, fresh_balance,
}

abbrev pub held : Balance → ℕ
held b = b.available + b.locked + b.pending

-- The share of a row in the total of the asset `a`.
abbrev pub share : ℕ → Balance → ℕ
share a b = if b.asset == a then held b else 0

abbrev pub total : ℕ → List Balance → ℕ
total a [] = 0
total a (b ∷ bs) = share a b + total a bs

-- An amount of the asset `asset`, seen from the asset `a`.
abbrev pub of_asset : ℕ → ℕ → ℕ → ℕ
of_asset a asset amount = if asset == a then amount else 0

pub find_balance-key :
    (user asset : ℕ) (bs : List Balance) {b : Balance}
    → find_balance user asset bs ≡ some b
    → (b.user_id ≡ user) × (b.asset ≡ asset)
unfolding find_balance
find_balance-key user asset [] h = cc
find_balance-key user asset (c ∷ cs) {b} h = ground (arith, find_balance-key user asset cs {b = b})

pub find_balance-put :
    (user asset : ℕ) (b : Balance) (bs : List Balance)
    → find_balance user asset (put_balance b bs)
      ≡ (if b.user_id == user && b.asset == asset then some b else find_balance user asset bs)
unfolding find_balance put_balance
find_balance-put user asset b [] = refl
find_balance-put user asset b (c ∷ cs) = ground (arith, find_balance-put user asset b cs)

pub total-put :
    (a : ℕ) (b old : Balance) (bs : List Balance)
    → find_balance b.user_id b.asset bs ≡ some old
    → total a (put_balance b bs) + share a old ≡ total a bs + share a b
unfolding find_balance put_balance
total-put a b old [] h = cc
total-put a b old (c ∷ cs) h = grind (arith, total-put a b old cs)

pub total-put_new :
    (a : ℕ) (b : Balance) (bs : List Balance)
    → find_balance b.user_id b.asset bs ≡ none
    → total a (put_balance b bs) ≡ total a bs + share a b
unfolding find_balance put_balance
total-put_new a b [] h = ground arith
total-put_new a b (c ∷ cs) h = ground (arith, total-put_new a b cs)

-- What a successful `balanceForUpdate` leaves: the row, in a store with the same totals.
pub record Loaded (user asset : ℕ) (s : Store) (b : Balance) (s' : Store) : Type 0 where
  pub found : find_balance b.user_id b.asset s'.balances ≡ some b
  pub user_eq : b.user_id ≡ user
  pub asset_eq : b.asset ≡ asset
  pub totals : (a : ℕ) → total a s'.balances ≡ total a s.balances
  pub reservations_kept : s'.reservations ≡ s.reservations
  pub withdrawals_kept : s'.withdrawals ≡ s.withdrawals
  pub orders_kept : s'.orders ≡ s.orders
  pub events_kept : s'.events ≡ s.events

pub balance_for_update-Loaded :
    (now user asset : ℕ) (create : Bool) (s : Store) {b : Balance} {s' : Store}
    → balance_for_update now user asset create s ≡ ok (b, s')
    → Loaded user asset s b s'
unfolding balance_for_update
balance_for_update-Loaded now user asset create s h =
    elim (Option-cases (find_balance user asset s.balances)) [
      | inr (c, e) ↦
          let (u, t) = find_balance-key user asset s.balances e in
          record {
            found = ground arith;
            user_eq = ground arith;
            asset_eq = ground arith;
            totals = λ a. ground arith;
            reservations_kept = ground arith;
            withdrawals_kept = ground arith;
            orders_kept = ground arith;
            events_kept = ground arith;
          }
      | inl e ↦
          let fresh = fresh_balance now user asset in
          record {
            found = ground (arith, find_balance-put user asset fresh s.balances);
            user_eq = ground arith;
            asset_eq = ground arith;
            totals = λ a. ground (arith, total-put_new a fresh s.balances);
            reservations_kept = ground arith;
            withdrawals_kept = ground arith;
            orders_kept = ground arith;
            events_kept = ground arith;
          }
    ]

-- A row that is written back with its key changes a total by its share.
pub Loaded-put :
    {user asset : ℕ} {s : Store} {b : Balance} {s' : Store} (a : ℕ) (b' : Balance)
    → Loaded user asset s b s'
    → b'.user_id ≡ b.user_id
    → b'.asset ≡ b.asset
    → total a (put_balance b' s'.balances) + share a b ≡ total a s.balances + share a b'
Loaded-put {b = b} {s' = s'} a b' l u t =
    rw (← l.totals a) (total-put a b' b s'.balances (rw (u, t) l.found))

bind_ok_at :
    {A B : Type 0} (x : Result LedgerError (A × Store)) (f : A → Action B) {r : B × Store}
    → (elim x [ ok (a, s') ↦ f a s' | err e ↦ err e ]) ≡ ok r
    → (a : A) × (s' : Store) × (x ≡ ok (a, s')) × (f a s' ≡ ok r)
bind_ok_at (ok (a, s')) f h = (a, s', refl, h)
bind_ok_at (err e) f h = cc

-- The two parts of a successful bind.
pub bind_ok :
    {A B : Type 0} (m : Action A) (f : A → Action B) (s : Store) {r : B × Store}
    → (m >>= f) s ≡ ok r
    → (a : A) × (s' : Store) × (m s ≡ ok (a, s')) × (f a s' ≡ ok r)
bind_ok m f s h = bind_ok_at (m s) f h

pub guard_ok :
    {B : Type 0} (t : Bool) (e : LedgerError) (k : Action B) (s : Store) {r : B × Store}
    → (fail_if t e >> k) s ≡ ok r
    → (t ≡ false) × (k s ≡ ok r)
guard_ok true e k s h = cc
guard_ok false e k s h = (refl, h)

pub load_ok :
    {B : Type 0} (now user asset : ℕ) (create : Bool) (f : Balance → Action B) (s : Store)
    {r : B × Store}
    → (balance_for_update now user asset create >>= f) s ≡ ok r
    → (b : Balance) × (s' : Store) × Loaded user asset s b s' × (f b s' ≡ ok r)
load_ok now user asset create f s h =
    let (b, s', load, rest) = bind_ok (balance_for_update now user asset create) f s h in
    (b, s', balance_for_update-Loaded now user asset create s load, rest)

-- What is the same after an event is logged.
pub record Kept (s s' : Store) : Type 0 where
  pub balances_kept : s'.balances ≡ s.balances
  pub reservations_kept : s'.reservations ≡ s.reservations
  pub withdrawals_kept : s'.withdrawals ≡ s.withdrawals
  pub orders_kept : s'.orders ≡ s.orders

pub create_balance_event-Kept :
    (e : BalanceEvent) (s : Store) {u : Unit {0}} {s' : Store}
    → create_balance_event e s ≡ ok (u, s')
    → Kept s s'
unfolding create_balance_event
create_balance_event-Kept e s h = record {
  balances_kept = ground arith;
  reservations_kept = ground arith;
  withdrawals_kept = ground arith;
  orders_kept = ground arith;
}

pub event_ok :
    {B : Type 0} (e : BalanceEvent) (k : Action B) (s : Store) {r : B × Store}
    → (create_balance_event e >> k) s ≡ ok r
    → (s' : Store) × Kept s s' × (k s' ≡ ok r)
event_ok e k s h =
    let (_, s', ev, rest) = bind_ok (create_balance_event e) (λ _. k) s h in
    (s', create_balance_event-Kept e s ev, rest)

or_fail_ok_at :
    {A B : Type 0} (o : Option A) (e : LedgerError) (f : A → Action B) (s : Store) {r : B × Store}
    → (or_fail o e >>= f) s ≡ ok r
    → (a : A) × (o ≡ some a) × (f a s ≡ ok r)
or_fail_ok_at none e f s h = cc
or_fail_ok_at (some a) e f s h = (a, refl, h)

-- A row that was looked up.
pub or_fail_ok :
    {A B : Type 0} (g : Store → Option A) (e : LedgerError) (f : A → Action B) (s : Store)
    {r : B × Store}
    → ((λ t. or_fail (g t) e t) >>= f) s ≡ ok r
    → (a : A) × (g s ≡ some a) × (f a s ≡ ok r)
or_fail_ok g e f s h = or_fail_ok_at (g s) e f s h

-- A call that reads and writes no row.
pub of_result_ok :
    {A B : Type 0} (m : Result LedgerError A) (f : A → Action B) (s : Store) {r : B × Store}
    → (of_result m >>= f) s ≡ ok r
    → (a : A) × (m ≡ ok a) × (f a s ≡ ok r)
of_result_ok (ok a) f s h = (a, refl, h)
of_result_ok (err e) f s h = cc
