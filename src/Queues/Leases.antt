-- ===== src/Queues/Leases.antt =====
-- lease_repository.go: a lease on a name, which one owner holds until it expires.
use crosschainswap.Prelude.{
  ℕ, ◌+◌, ◌*◌, ◌<◌, ◌≡◌, ◌≢◌, inl, inr, refl, sym, ap, ◌∙◌, arith, Bool, true, false, ◌||◌, List,
  [], ◌∷◌, Option, none, some, leb, ◌==◌, if◌then◌else◌, All, Bool-cases,
}
use crosschainswap.Prelude.Dict.{Dict, lookup, insert, erase, lookup-insert, lookup-erase}
use crosschainswap.Queues.{or_default, second}

-- `ServiceLease`, under its name.
pub record Lease : Type 0 where
  pub owner : ℕ
  pub expires_at : ℕ
  pub updated_at : ℕ

abbrev pub minute : ℕ
minute = 60 * second

abbrev new_lease : ℕ → ℕ → ℕ → Lease
new_lease now owner ttl = record {
  owner = owner;
  expires_at = now + or_default minute ttl;
  updated_at = now;
}

-- A lease that has expired, or is the owner's own, is taken over; one of another owner is not, and
-- the row that is then created clashes with it.
abbrev may_take : ℕ → ℕ → Option Lease → Bool
may_take now owner none = true
may_take now owner (some l) = leb l.expires_at now || l.owner == owner

-- `TryAcquire`
unfoldable pub try_acquire : ℕ → ℕ → ℕ → ℕ → Dict Lease → Bool × Dict Lease
try_acquire now name owner ttl d =
    if name == 0 || owner == 0
    then (false, d)
    else if may_take now owner (lookup name d)
    then (true, insert name (new_lease now owner ttl) d)
    else (false, d)

abbrev is_owned : ℕ → Option Lease → Bool
is_owned owner none = false
is_owned owner (some l) = l.owner == owner

-- `Release`
unfoldable pub release_lease : ℕ → ℕ → Dict Lease → Dict Lease
release_lease name owner d =
    if name == 0 || owner == 0
    then d
    else if is_owned owner (lookup name d)
    then erase name d
    else d

-- A call of one of the two, at a time.
pub data LeaseCall : Type 0 where
  acquire : (now name owner ttl : ℕ) → LeaseCall
  release : (now name owner : ℕ) → LeaseCall

unfoldable pub call : LeaseCall → Dict Lease → Dict Lease
call (LeaseCall.acquire now name owner ttl) d = (try_acquire now name owner ttl d).1
call (LeaseCall.release now name owner) d = release_lease name owner d

unfoldable pub call_all : List LeaseCall → Dict Lease → Dict Lease
unfolding call
call_all [] d = d
call_all (c ∷ cs) d = call_all cs (call c d)

abbrev caller : LeaseCall → ℕ
caller (LeaseCall.acquire now name owner ttl) = owner
caller (LeaseCall.release now name owner) = owner

abbrev called_at : LeaseCall → ℕ
called_at (LeaseCall.acquire now name owner ttl) = now
called_at (LeaseCall.release now name owner) = now

-- A call of another owner, before the lease of `owner` expires.
pub record IsForeign (owner until : ℕ) (c : LeaseCall) : Type 0 where
  pub other : caller c ≢ owner
  pub early : called_at c < until

module _ (name : ℕ) (l : Lease) where
  refused :
      (now owner : ℕ) → owner ≢ l.owner → now < l.expires_at → may_take now owner (some l) ≡ false
  refused now owner o e = ground arith

  other_name :
      (other : ℕ) (test : Option Lease → Bool) (d : Dict Lease)
      → lookup name d ≡ some l
      → test (some l) ≡ false
      → test (lookup other d) ≡ true
      → other == name ≡ false
  other_name other test d h refuses takes = elim (Bool-cases (other == name)) [
    | inr e ↦ e
    | inl e ↦
        let same : other ≡ name = ground arith in
        let clash : false ≡ true =
          sym refuses ∙ sym (ap test (ap (λ n. lookup n d) same ∙ h)) ∙ takes in
        absurd (cc)
  ]

  acquire-kept :
      (now other owner ttl : ℕ) (d : Dict Lease)
      → owner ≢ l.owner
      → now < l.expires_at
      → lookup name d ≡ some l
      → lookup name (try_acquire now other owner ttl d).1 ≡ some l
  unfolding try_acquire
  acquire-kept now other owner ttl d o e h = elim (Bool-cases (other == 0 || owner == 0)) [
    | inl z ↦ rw z h
    | inr z ↦ elim (Bool-cases (may_take now owner (lookup other d))) [
      | inr m ↦ rw (z, m) h
      | inl m ↦
          let apart = other_name other (may_take now owner) d h (refused now owner o e) m in
          rw (z, m) (lookup-insert other name _ d ∙ rw apart h)
    ]
  ]

  release-kept :
      (other owner : ℕ) (d : Dict Lease)
      → owner ≢ l.owner
      → lookup name d ≡ some l
      → lookup name (release_lease other owner d) ≡ some l
  unfolding release_lease
  release-kept other owner d o h = elim (Bool-cases (other == 0 || owner == 0)) [
    | inl z ↦ rw z h
    | inr z ↦ elim (Bool-cases (is_owned owner (lookup other d))) [
      | inr m ↦ rw (z, m) h
      | inl m ↦
          let apart = other_name other (is_owned owner) d h (ground arith) m in
          rw (z, m) (lookup-erase other name d ∙ rw apart h)
    ]
  ]

  call-kept :
      (c : LeaseCall) (d : Dict Lease)
      → IsForeign l.owner l.expires_at c
      → lookup name d ≡ some l
      → lookup name (call c d) ≡ some l
  unfolding call
  call-kept (LeaseCall.acquire now other owner ttl) d f h =
      acquire-kept now other owner ttl d f.other f.early h
  call-kept (LeaseCall.release now other owner) d f h = release-kept other owner d f.other h

  call_all-kept :
      (cs : List LeaseCall) (d : Dict Lease)
      → All (IsForeign l.owner l.expires_at) cs
      → lookup name d ≡ some l
      → lookup name (call_all cs d) ≡ some l
  unfolding call_all
  call_all-kept [] d f h = h
  call_all-kept (c ∷ cs) d f h = call_all-kept cs (call c d) f.1 (call-kept c d f.0 h)

no_lease : {d d' : Dict Lease} → ◌≡◌ {A = Bool × Dict Lease} (false, d) (true, d') → ⊥
no_lease h = cc

granted : {d d' : Dict Lease} → ◌≡◌ {A = Bool × Dict Lease} (true, d) (true, d') → d' ≡ d
granted h = cc

acquired :
    (now name owner ttl : ℕ) (d d' : Dict Lease)
    → try_acquire now name owner ttl d ≡ (true, d')
    → lookup name d' ≡ some (new_lease now owner ttl)
unfolding try_acquire
acquired now name owner ttl d d' h = elim (Bool-cases (name == 0 || owner == 0)) [
  | inl z ↦ absurd (no_lease (rw z at h))
  | inr z ↦ elim (Bool-cases (may_take now owner (lookup name d))) [
    | inr m ↦ absurd (no_lease (rw (z, m) at h))
    | inl m ↦
        let given = granted (rw (z, m) at h) in
        rw given (lookup-insert name name (new_lease now owner ttl) d ∙ ground arith)
  ]
]

-- A lease excludes every other owner until it expires: whatever others call before that time, on
-- this name or another, the lease stays as it is, and none of them acquires it.
pub try_acquire-excludes :
    (now name owner ttl : ℕ) (d d' : Dict Lease) (calls : List LeaseCall) (later other ttl' : ℕ)
    → try_acquire now name owner ttl d ≡ (true, d')
    → All (IsForeign owner (now + or_default minute ttl)) calls
    → other ≢ owner
    → later < now + or_default minute ttl
    → try_acquire later name other ttl' (call_all calls d') ≡ (false, call_all calls d')
unfolding try_acquire
try_acquire-excludes now name owner ttl d d' calls later other ttl' h f o e =
    let l = new_lease now owner ttl in
    let kept = call_all-kept name l calls d' f (acquired now name owner ttl d d' h) in
    elim (Bool-cases (name == 0 || other == 0)) [
      | inl z ↦ rw z refl
      | inr z ↦ rw (z, kept) (rw (refused name l later other o e) refl)
    ]
