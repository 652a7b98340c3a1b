-- ===== src/Exchange/Keeps.antt =====
-- What a transaction keeps if it succeeds: a rule for each way to build one.
use crosschainswap.Prelude.{
  ◌≡◌, refl, subst, Bool, true, false, Option, none, some, Result, ok, err, if◌then◌else◌,
}
use crosschainswap.Ledger.{Store, LedgerError, Action}
use crosschainswap.Exchange.{
  Tables, ExchangeError, Tx, pure, throw, reads, from_option, from_result, on_ledger, modify,
  throw_if, continue, with_ledger, ◌>>=◌,
}

pub record Keeps {A : Type 0} (P : Tables → Type 0) (m : Tx A) : Type 0 where
  pub at : (t : Tables) → P t → (a : A) (t' : Tables) → m t ≡ ok (a, t') → P t'

same_tables :
    {A : Type 0} (P : Tables → Type 0) {a x : A} {t t' : Tables}
    → P t
    → ◌≡◌ {A = Result ExchangeError (A × Tables)} (ok (a, t)) (ok (x, t'))
    → P t'
same_tables P p h = subst P (cc) p

-- The result of a step that ends at once.
pub ended_ok :
    {A : Type 0} {a x : A} {t t' : Tables}
    → ◌≡◌ {A = Result ExchangeError (A × Tables)} (ok (a, t)) (ok (x, t'))
    → (x ≡ a) × (t' ≡ t)
ended_ok h = (cc, cc)

pub not_ok :
    {A : Type 0} {problem : ExchangeError} {r : A × Tables}
    → ◌≡◌ {A = Result ExchangeError (A × Tables)} (err problem) (ok r)
    → ⊥
not_ok h = cc

module _ {A : Type 0} {P : Tables → Type 0} where
  pub Keeps-pure : (a : A) → Keeps P (pure a)
  unfolding pure
  Keeps-pure a = record { at = λ t p x t' h. same_tables P p h }

  pub Keeps-throw : (e : ExchangeError) → Keeps P (throw {A = A} e)
  unfolding throw
  Keeps-throw e = record { at = λ t p x t' h. cc }

  pub Keeps-reads : (f : Tables → A) → Keeps P (reads f)
  unfolding reads
  Keeps-reads f = record { at = λ t p x t' h. same_tables P p h }

  pub Keeps-from_option : (e : ExchangeError) (o : Option A) → Keeps P (from_option e o)
  unfolding from_option
  Keeps-from_option e none = record { at = λ t p x t' h. cc }
  Keeps-from_option e (some a) = record { at = λ t p x t' h. same_tables P p h }

  pub Keeps-from_result :
      {E : Type 0} (wrap : E → ExchangeError) (r : Result E A) → Keeps P (from_result wrap r)
  unfolding from_result
  Keeps-from_result wrap (ok a) = record { at = λ t p x t' h. same_tables P p h }
  Keeps-from_result wrap (err e) = record { at = λ t p x t' h. cc }

  pub Keeps-if : (b : Bool) (m n : Tx A) → Keeps P m → Keeps P n → Keeps P (if b then m else n)
  Keeps-if true m n km kn = km
  Keeps-if false m n km kn = kn

module _ {P : Tables → Type 0} where
  pub Keeps-throw_if : (b : Bool) (e : ExchangeError) → Keeps P (throw_if b e)
  unfolding throw_if
  Keeps-throw_if true e = record { at = λ t p x t' h. cc }
  Keeps-throw_if false e = record { at = λ t p x t' h. same_tables P p h }

  pub Keeps-modify : (f : Tables → Tables) → ((t : Tables) → P t → P (f t)) → Keeps P (modify f)
  unfolding modify
  Keeps-modify f keep = record { at = λ t p x t' h. same_tables P (keep t p) h }

bind_ok_at :
    {A B : Type 0} (r₁ : Result ExchangeError (A × Tables)) (f : A → Tx B) {r : B × Tables}
    → continue r₁ f ≡ ok r
    → (a : A) × (t₁ : Tables) × (r₁ ≡ ok (a, t₁)) × (f a t₁ ≡ ok r)
bind_ok_at (ok (a, t₁)) f h = (a, t₁, refl, h)
bind_ok_at (err e) f h = cc

-- The two parts of a successful bind.
pub bind_ok :
    {A B : Type 0} (m : Tx A) (f : A → Tx B) (t : Tables) {r : B × Tables}
    → (m >>= f) t ≡ ok r
    → (a : A) × (t₁ : Tables) × (m t ≡ ok (a, t₁)) × (f a t₁ ≡ ok r)
unfolding ◌>>=◌
bind_ok m f t h = bind_ok_at (m t) f h

on_ledger_ok_at :
    {A : Type 0} (t : Tables) (r₁ : Result LedgerError (A × Store)) {a : A} {t' : Tables}
    → with_ledger t r₁ ≡ ok (a, t')
    → (s : Store) × (r₁ ≡ ok (a, s)) × (t' ≡ record t { ledger = s })
on_ledger_ok_at t (ok (a, s)) h = (s, cc, cc)
on_ledger_ok_at t (err e) h = cc

-- A method of the ledger changed the ledger only.
pub on_ledger_ok :
    {A : Type 0} (m : Action A) (t : Tables) {a : A} {t' : Tables}
    → on_ledger m t ≡ ok (a, t')
    → (s : Store) × (m t.ledger ≡ ok (a, s)) × (t' ≡ record t { ledger = s })
unfolding on_ledger
on_ledger_ok m t h = on_ledger_ok_at t (m t.ledger) h

module _ {A B : Type 0} {P : Tables → Type 0} where
  pub Keeps-bind :
      (m : Tx A) (f : A → Tx B) → Keeps P m → ((a : A) → Keeps P (f a)) → Keeps P (m >>= f)
  Keeps-bind m f km kf = record {
    at = λ t p x t' h.
        let (a, t₁, first, second) = bind_ok m f t h in
        (kf a).at t₁ (km.at t p a t₁ first) x t' second;
  }

pub Keeps-on_ledger :
    {A : Type 0} {P : Tables → Type 0} (m : Action A)
    → ((t : Tables)
        → P t
        → (a : A) (s : Store) → m t.ledger ≡ ok (a, s)
        → P (record t { ledger = s }))
    → Keeps P (on_ledger m)
Keeps-on_ledger {P = P} m keep = record {
  at = λ t p a t' h. let (s, done, e) = on_ledger_ok m t h in rw e (keep t p a s done);
}

pub ruleset keeps_rules = (
  Keeps-pure, Keeps-throw, Keeps-reads, Keeps-from_option, Keeps-from_result, Keeps-if,
  Keeps-throw_if, Keeps-bind,
)
