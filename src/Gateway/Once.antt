-- ===== src/Gateway/Once.antt =====
-- A deposit is credited once, however often it is announced.
use crosschainswap.Prelude.{
  ℕ, ◌+◌, ◌≡◌, refl, ap, ◌∙◌, Bool, true, false, ◌||◌, List, [], ◌∷◌, ◌++◌, Result, ok, err, arith,
  ltb, if◌then◌else◌, Bool-cases, inl, inr, subst,
}
use crosschainswap.Ledger.{
  Balance, BalanceEvent, EventId, LedgerError, Store, pure, event_exists, same_event_id,
  create_balance_event,
}
use crosschainswap.Ledger.Balances.{mark_deposit_pending, settle_deposit}
use crosschainswap.Ledger.Totals.{total, of_asset, load_ok, guard_ok, bind_ok}
use crosschainswap.Ledger.Conserves.{mark_deposit_pending-Changes, settle_deposit-Changes}
use crosschainswap.Gateway.{
  GatewayStatus, Deposit, mark_deposit_pending_once, mark_unless, settle_gateway_deposit_once,
  apply_deposit_callback, after_callback, apply_deposit_callbacks,
}

event_exists-append :
    (id : EventId) (es : List BalanceEvent) (e : BalanceEvent)
    → event_exists id (es ++ e ∷ []) ≡ event_exists id es || same_event_id e.id id
unfolding event_exists
event_exists-append id [] e = ground arith
event_exists-append id (x ∷ es) e = ground (arith, event_exists-append id es e)

logged :
    (e : BalanceEvent) (s : Store) {u : Unit {0}} {s' : Store}
    → create_balance_event e s ≡ ok (u, s')
    → s'.events ≡ s.events ++ e ∷ []
unfolding create_balance_event
logged e s h = ground arith

ended :
    {A : Type 0} {a x : A} {s s' : Store}
    → ◌≡◌ {A = Result LedgerError (A × Store)} (ok (a, s)) (ok (x, s'))
    → s' ≡ s
ended h = cc

own_event : (b : Bool) (p : ℕ) → b || same_event_id (EventId.given p) (EventId.given p) ≡ true
own_event b p = ground arith

mark_deposit_pending-logs :
    (now user asset amount p : ℕ) (s : Store) {b : Balance} {s' : Store}
    → mark_deposit_pending now user asset amount (EventId.given p) s ≡ ok (b, s')
    → event_exists (EventId.given p) s'.events ≡ true
unfolding mark_deposit_pending
mark_deposit_pending-logs now user asset amount p s h =
    let (b, s₁, l, rest) = load_ok now user asset true _ s h in
    let (_, s₂, ev, fin) = bind_ok (create_balance_event _) (λ _. pure _) _ rest in
    ap (λ z. event_exists (EventId.given p) z.events) (ended fin)
    ∙ ap (event_exists (EventId.given p)) (logged _ _ ev)
    ∙ event_exists-append (EventId.given p) _ _
    ∙ own_event _ p

settle_deposit-logs :
    (now user asset amount : ℕ) (id : EventId) (p : EventId) (s : Store) {b : Balance} {s' : Store}
    → settle_deposit now user asset amount id s ≡ ok (b, s')
    → event_exists p s.events ≡ true
    → event_exists p s'.events ≡ true
unfolding settle_deposit
settle_deposit-logs now user asset amount id p s h k =
    let (b, s₁, l, rest) = load_ok now user asset false _ s h in
    let (enough, rest') = guard_ok (ltb b.pending amount) _ _ s₁ rest in
    let (_, s₂, ev, fin) = bind_ok (create_balance_event _) (λ _. pure _) _ rest' in
    let kept : event_exists p s₁.events ≡ true = ap (event_exists p) l.events_kept ∙ k in
    ap (λ z. event_exists p z.events) (ended fin)
    ∙ ap (event_exists p) (logged _ _ ev)
    ∙ event_exists-append p _ _
    ∙ rw kept refl

abbrev is_credited : Deposit → Store → Bool
is_credited d s = event_exists (EventId.given d.pending_id) s.events

-- The total of an asset is what it was without the deposit, and the deposit's amount once its
-- pending event is logged.
abbrev IsCounted : ℕ → ℕ → Deposit → Store → Type 0
IsCounted base a d s =
    total a s.balances ≡ base + (if is_credited d s then of_asset a d.asset d.amount else 0)

ok_store :
    {A : Type 0} {a x : A} {s s' : Store}
    → ◌≡◌ {A = Result LedgerError (A × Store)} (ok (a, s)) (ok (x, s'))
    → s ≡ s'
ok_store h = cc

module _ (base a : ℕ) (d : Deposit) where
  marked-IsCounted :
      (now : ℕ) (s : Store) {b : Balance} {s' : Store}
      → is_credited d s ≡ false
      → IsCounted base a d s
      → mark_deposit_pending now d.user d.asset d.amount (EventId.given d.pending_id) s ≡ ok (b, s')
      → IsCounted base a d s' × (is_credited d s' ≡ true)
  marked-IsCounted now s new c h =
      let there = mark_deposit_pending-logs now d.user d.asset d.amount d.pending_id s h in
      let moved =
        mark_deposit_pending-Changes now d.user d.asset d.amount (EventId.given d.pending_id) a s _
          _ h in
      let before : total a s.balances ≡ base + 0 = rw new at c in
      (rw there (omega (arith, moved, before)), there)

  settled-IsCounted :
      (now : ℕ) (s : Store) {b : Balance} {s' : Store}
      → is_credited d s ≡ true
      → IsCounted base a d s
      → settle_deposit now d.user d.asset d.amount (EventId.given d.settle_id) s ≡ ok (b, s')
      → IsCounted base a d s'
  settled-IsCounted now s there c h =
      let still =
        settle_deposit-logs now d.user d.asset d.amount (EventId.given d.settle_id)
          (EventId.given d.pending_id) s h there in
      let moved =
        settle_deposit-Changes now d.user d.asset d.amount (EventId.given d.settle_id) a s _ _ h in
      let before : total a s.balances ≡ base + of_asset a d.asset d.amount = rw there at c in
      rw still (omega (arith, moved, before))

  pending-IsCounted :
      (now : ℕ) (s : Store) {x : Bool} {s' : Store}
      → IsCounted base a d s
      → mark_deposit_pending_once now d.user d.asset d.amount (EventId.given d.pending_id) s
        ≡ ok (x, s')
      → IsCounted base a d s'
  unfolding mark_deposit_pending_once
  pending-IsCounted now s c h = elim (Bool-cases (is_credited d s)) [
    | inl e ↦ subst (IsCounted base a d) (ok_store (rw e at h)) c
    | inr e ↦
        let (b, s₁, mark, fin) =
          bind_ok (mark_deposit_pending now d.user d.asset d.amount (EventId.given d.pending_id)) _
            s (rw e at h) in
        subst (IsCounted base a d) (ok_store fin) (marked-IsCounted now s e c mark).0
  ]

  settle-IsCounted :
      (now : ℕ) (s : Store) {x : Bool} {s' : Store}
      → IsCounted base a d s
      → settle_gateway_deposit_once now d.user d.asset d.amount
          (EventId.given d.pending_id)
          (EventId.given d.settle_id)
          s
        ≡ ok (x, s')
      → IsCounted base a d s'
  unfolding settle_gateway_deposit_once
  settle-IsCounted now s c h =
      elim (Bool-cases (event_exists (EventId.given d.settle_id) s.events)) [
        | inl e ↦ subst (IsCounted base a d) (ok_store (rw e at h)) c
        | inr e ↦ elim (Bool-cases (is_credited d s)) [
          | inl there ↦
              let (b, s₁, settle, fin) =
                bind_ok (settle_deposit now d.user d.asset d.amount (EventId.given d.settle_id)) _ s
                  (rw (e, there) at h) in
              subst (IsCounted base a d) (ok_store fin) (settled-IsCounted now s there c settle)
          | inr new ↦
              let (_, s₁, marked, rest) =
                bind_ok (mark_unless false now d.user d.asset d.amount (EventId.given d.pending_id))
                  _ s (rw (e, new) at h) in
              let (b, s₂, mark, end) =
                bind_ok
                  (mark_deposit_pending now d.user d.asset d.amount (EventId.given d.pending_id)) _
                  s marked in
              let (c', there) = marked-IsCounted now s new c mark in
              let (b', s₃, settle, fin) =
                bind_ok (settle_deposit now d.user d.asset d.amount (EventId.given d.settle_id)) _
                  s₁ rest in
              let same = ok_store end in
              subst (IsCounted base a d) (ok_store fin) (
                settled-IsCounted now s₁ (subst (λ z. is_credited d z ≡ true) same there)
                  (subst (IsCounted base a d) same c') settle)
        ]
      ]

  callback-IsCounted :
      (now : ℕ) (status : GatewayStatus) (s : Store) {x : Bool} {s' : Store}
      → IsCounted base a d s
      → apply_deposit_callback now status d s ≡ ok (x, s')
      → IsCounted base a d s'
  unfolding apply_deposit_callback
  callback-IsCounted now GatewayStatus.pending s c h = pending-IsCounted now s c h
  callback-IsCounted now GatewayStatus.settled s c h = settle-IsCounted now s c h
  callback-IsCounted now GatewayStatus.canceled s c h = subst (IsCounted base a d) (ok_store h) c
  callback-IsCounted now GatewayStatus.other s c h = subst (IsCounted base a d) (ok_store h) c

  after-IsCounted :
      (now : ℕ) (status : GatewayStatus) (s : Store) (r : Result LedgerError (Bool × Store))
      → IsCounted base a d s
      → apply_deposit_callback now status d s ≡ r
      → IsCounted base a d (after_callback s r)
  after-IsCounted now status s (ok (x, s')) c h = callback-IsCounted now status s c h
  after-IsCounted now status s (err e) c h = c

  callbacks-IsCounted :
      (calls : List (ℕ × GatewayStatus)) (s : Store)
      → IsCounted base a d s
      → IsCounted base a d (apply_deposit_callbacks calls d s)
  unfolding apply_deposit_callbacks
  callbacks-IsCounted [] s c = c
  callbacks-IsCounted ((now, status) ∷ rest) s c =
      callbacks-IsCounted rest _
        (after-IsCounted now status s (apply_deposit_callback now status d s) c refl)

-- A deposit is credited once: whatever callbacks come for it, pending or settled, in whatever order,
-- how often and whether or not they fail, the total of each asset is in the end what it was, with the
-- amount of the deposit added one time if its pending event is logged by then, and otherwise not.
pub apply_deposit_callbacks_once :
    (a : ℕ) (d : Deposit) (calls : List (ℕ × GatewayStatus)) (s : Store)
    → event_exists (EventId.given d.pending_id) s.events ≡ false
    → total a (apply_deposit_callbacks calls d s).balances
      ≡ total a s.balances
        + (if event_exists (EventId.given d.pending_id) (apply_deposit_callbacks calls d s).events
            then of_asset a d.asset d.amount
            else 0)
apply_deposit_callbacks_once a d calls s new =
    callbacks-IsCounted (total a s.balances) a d calls s (rw new (omega arith))
