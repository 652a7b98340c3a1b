-- ===== src/Prelude/Fallible.antt =====
-- Go's `(value, error)` results: a value, or an error of the type `E`.
use mathlib.Core.Path.{◌≡◌, refl}
use mathlib.Core.Bool.{Bool, true, false}
use mathlib.Core.Logic.{◌⊎◌, inl, inr}

pub data Result {ℓ} (E : Type 0) (V : Type ℓ) : Type ℓ where
  err : E → Result E V
  ok : V → Result E V

-- `v, err := first; if err != nil { return err }; rest(v)`
infixl 5 ◌>>=◌ ◌>>◌
abbrev pub ◌>>=◌ {ℓ κ} :
    {E : Type 0} {V : Type ℓ} {W : Type κ} → Result E V → (V → Result E W) → Result E W
err problem >>= rest = err problem
ok v >>= rest = rest v

abbrev pub ◌>>◌ {κ} : {E : Type 0} {W : Type κ} → Result E (Unit {0}) → Result E W → Result E W
first >> next = first >>= λ done. next

module _ {E : Type 0} where
  -- `if test { return problem }`
  abbrev pub reject_if : Bool → E → Result E (Unit {0})
  reject_if false problem = ok tt
  reject_if true problem = err problem

  pub Result-cases {ℓ} :
      {V : Type ℓ} (r : Result E V) → ((v : V) × (r ≡ ok v)) ⊎ ((problem : E) × (r ≡ err problem))
  Result-cases (err problem) = inr (problem, refl)
  Result-cases (ok v) = inl (v, refl)

  -- A check that a successful call went past.
  pub reject_if-ok {κ} :
      {W : Type κ} (test : Bool) (problem : E) (next : Result E W) {w : W}
      → (reject_if test problem >> next) ≡ ok w
      → (test ≡ false) × (next ≡ ok w)
  reject_if-ok false problem next h = (refl, h)
  reject_if-ok true problem next h = cc

  module _ {ℓ κ} {V : Type ℓ} {W : Type κ} where
    -- A successful bind went through both of its parts.
    pub >>=-eq-ok :
        (first : Result E V) (rest : V → Result E W) {w : W}
        → (first >>= rest) ≡ ok w
        → (v : V) × (first ≡ ok v) × (rest v ≡ ok w)
    >>=-eq-ok (err problem) rest h = cc
    >>=-eq-ok (ok v) rest h = (v, refl, h)

    -- A failing one failed in one of them.
    pub >>=-eq-err :
        (first : Result E V) (rest : V → Result E W) {problem : E}
        → (first >>= rest) ≡ err problem
        → (first ≡ err problem) ⊎ ((v : V) × (first ≡ ok v) × (rest v ≡ err problem))
    >>=-eq-err (err p) rest h = inl (cc)
    >>=-eq-err (ok v) rest h = inr (v, refl, h)
