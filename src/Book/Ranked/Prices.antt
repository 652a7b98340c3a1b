-- ===== src/Book/Ranked/Prices.antt =====
-- `insertPrice` and `removePrice` keep the prices of a side in order.
use crosschainswap.Prelude.{
  ℕ, zero, suc, ◌≤◌, ◌<◌, true, false, not, ◌≡◌, ◌||◌, ◌&&◌, List, [], ◌∷◌, ◌==◌, All, length,
  insert_at, All-insert_at, arith, Bool-cases, inl, inr, refl,
}
use crosschainswap.Prelude.Search.{IsMonotone, sort_search_least}
use crosschainswap.Order.{Side}
use crosschainswap.Book.{BookSide}
use crosschainswap.Book.Sides.{worse_at, insert_price, remove_first}
use crosschainswap.Book.Ranked.{better, IsSorted, contains}

pub contains-insert_at :
    (q p : ℕ) (ps : List ℕ) (i : ℕ) → contains q (insert_at ps i p) ≡ (p == q || contains q ps)
contains-insert_at q p ps zero = refl
contains-insert_at q p [] (suc i) = refl
contains-insert_at q p (x ∷ ps) (suc i) = ground (arith, contains-insert_at q p ps i)

All-better-absent :
    (side : Side) (p : ℕ) (ps : List ℕ)
    → All (λ q. better side p q ≡ true) ps
    → contains p ps ≡ false
All-better-absent side p [] h = refl
All-better-absent side p (x ∷ ps) h = ground (arith, All-better-absent side p ps h.1, h.0)

pub contains-remove_first :
    (side : Side) (q p : ℕ) (ps : List ℕ)
    → IsSorted side ps
    → contains q (remove_first p ps) ≡ (contains q ps && not (p == q))
unfolding remove_first
contains-remove_first side q p [] s = refl
contains-remove_first side q p (x ∷ ps) s =
    ground (arith, contains-remove_first side q p ps s.1, All-better-absent side x ps s.0)

All-remove_first : (P : ℕ → Type 0) (p : ℕ) (ps : List ℕ) → All P ps → All P (remove_first p ps)
unfolding remove_first
All-remove_first P p [] h = tt
All-remove_first P p (x ∷ ps) h = elim (Bool-cases (x == p)) [
  | inl e ↦ rw (remove_first, e) h.1
  | inr e ↦ rw (remove_first, e) (h.0, All-remove_first P p ps h.1)
]

pub remove_first-IsSorted :
    (side : Side) (p : ℕ) (ps : List ℕ) → IsSorted side ps → IsSorted side (remove_first p ps)
unfolding remove_first
remove_first-IsSorted side p [] s = tt
remove_first-IsSorted side p (x ∷ ps) s = elim (Bool-cases (x == p)) [
  | inl e ↦ rw (remove_first, e) s.1
  | inr e ↦
      rw (remove_first, e)
        (
          All-remove_first (λ q. better side x q ≡ true) p ps s.0,
          remove_first-IsSorted side p ps s.1,
        )
]

All-worse :
    (side : Side) (p x : ℕ) (ps : List ℕ)
    → better side p x ≡ true
    → All (λ q. better side x q ≡ true) ps
    → All (λ q. better side p q ≡ true) ps
All-worse side p x [] h a = tt
All-worse side p x (y ∷ ps) h a = (ground (arith, h, a.0), All-worse side p x ps h a.1)

insert_at-IsSorted :
    (side : Side) (p : ℕ) (ps : List ℕ) (i : ℕ)
    → IsSorted side ps
    → contains p ps ≡ false
    → ((k : ℕ) → k < i → worse_at side ps p k ≡ false)
    → ((k : ℕ) → i ≤ k → k < length ps → worse_at side ps p k ≡ true)
    → i ≤ length ps
    → IsSorted side (insert_at ps i p)
insert_at-IsSorted side p [] zero s c below above le = (tt, tt)
insert_at-IsSorted side p [] (suc i) s c below above le = absurd (omega (arith, le))
insert_at-IsSorted side p (x ∷ ps) zero s c below above le =
    let w = above 0 (omega arith) (omega arith) in ((w, All-worse side p x ps w s.0), s)
insert_at-IsSorted side p (x ∷ ps) (suc i) s c below above le =
    let w = below 0 (omega arith) in
    (
      All-insert_at (λ q. better side x q ≡ true) p ps i (ground (arith, w, c)) s.0,
      insert_at-IsSorted side p ps i s.1 (ground (arith, c))
          (λ k h. below (suc k) (omega (arith, h)))
          (λ k h n. above (suc k) (omega (arith, h)) (omega (arith, n))) (omega (arith, le)),
    )

All-worse_at :
    (side : Side) (p : ℕ) (ps : List ℕ) (j : ℕ)
    → j < length ps
    → All (λ q. better side p q ≡ true) ps
    → worse_at side ps p j ≡ true
All-worse_at side p [] j lt a = absurd (omega (arith, lt))
All-worse_at side p (x ∷ ps) zero lt a = a.0
All-worse_at side p (x ∷ ps) (suc j) lt a = All-worse_at side p ps j (omega (arith, lt)) a.1

worse_at-IsMonotone :
    (side : Side) (p : ℕ) (ps : List ℕ)
    → IsSorted side ps
    → IsMonotone (length ps) (worse_at side ps p)
worse_at-IsMonotone side p [] s i j le lt h = absurd (omega (arith, lt))
worse_at-IsMonotone side p (x ∷ ps) s zero zero le lt h = h
worse_at-IsMonotone side p (x ∷ ps) s zero (suc j) le lt h =
    All-worse_at side p ps j (omega (arith, lt)) (All-worse side p x ps h s.0)
worse_at-IsMonotone side p (x ∷ ps) s (suc i) zero le lt h = absurd (omega (arith, le))
worse_at-IsMonotone side p (x ∷ ps) s (suc i) (suc j) le lt h =
    worse_at-IsMonotone side p ps s.1 i j (omega (arith, le)) (omega (arith, lt)) h

-- A new price goes where the order of the prices wants it.
pub insert_price-IsSorted :
    (side : Side) (s : BookSide) (p : ℕ)
    → s.side ≡ side
    → IsSorted side s.prices
    → contains p s.prices ≡ false
    → IsSorted side ((insert_price s p).prices)
unfolding insert_price
insert_price-IsSorted side s p e o c =
    let (le, below, above) =
      sort_search_least (length s.prices) (worse_at side s.prices p)
        (worse_at-IsMonotone side p s.prices o) in
    rw e (insert_at-IsSorted side p s.prices _ o c below above le)
