-- ===== src/Prelude/Search.antt =====
-- Go's `sort.Search`: the binary search that it runs, and what it finds.
use Prim.Native.Nat.{ℕ, zero, suc, ◌+◌, ◌/◌, ◌≤◌, ◌<◌}
use mathlib.Core.Path.{◌≡◌}
use mathlib.Core.Logic.{inl, inr}
use mathlib.Core.Bool.{Bool, true, false}
use native.Mathlib.Omega.{arith}
use crosschainswap.Prelude.Tests.{ltb, if◌then◌else◌, Bool-cases}

-- `for i < j`, with fuel; `j - i` rounds are enough.
search_between : ℕ → ℕ → ℕ → (ℕ → Bool) → ℕ
search_between zero i j f = i
search_between (suc fuel) i j f =
    let h = (i + j) / 2 in
    let left = search_between fuel i h f in
    let right = search_between fuel (h + 1) j f in
    if ltb i j then (if f h then left else right) else i

unfoldable pub sort_search : ℕ → (ℕ → Bool) → ℕ
unfolding search_between
sort_search n f = search_between n 0 n f

-- Once true, a monotone test stays true.
abbrev pub IsMonotone : ℕ → (ℕ → Bool) → Type 0
IsMonotone n f = (i j : ℕ) → i ≤ j → j < n → f i ≡ true → f j ≡ true

search_between_lem :
    (fuel i j n : ℕ) (f : ℕ → Bool)
    → IsMonotone n f
    → i ≤ j
    → j ≤ n
    → j ≤ i + fuel
    → ((k : ℕ) → k < i → f k ≡ false)
    → ((k : ℕ) → j ≤ k → k < n → f k ≡ true)
    → let r = search_between fuel i j f in
      (r ≤ j) × ((k : ℕ) → k < r → f k ≡ false) × ((k : ℕ) → r ≤ k → k < n → f k ≡ true)
unfolding search_between
search_between_lem zero i j n f m ij jn fu below above =
    (ij, below, λ k h hn. above k (omega arith) hn)
search_between_lem (suc fuel) i j n f m ij jn fu below above = elim (Bool-cases (ltb i j)) [
  | inr done ↦ rw done (ij, below, λ k h hn. above k (ground arith) hn)
  | inl more ↦
      let h = (i + j) / 2 in
      let lt : h < j = ground arith in
      elim (Bool-cases (f ((i + j) / 2))) [
        | inl hit ↦
            let (le, b, a) =
              search_between_lem fuel i h n f m (ground arith) (omega arith) (omega arith) below
                (λ k hk kn. m h k hk kn hit) in
            rw (more, hit) (omega arith, b, a)
        | inr miss ↦
            let (le, b, a) =
              search_between_lem fuel (h + 1) j n f m (ground arith) jn (omega arith)
                (λ k hk. not_hit k lt hk miss) above in
            rw (more, miss) (le, b, a)
      ]
]
  where
    not_hit :
        (k : ℕ) → (i + j) / 2 < j → k < (i + j) / 2 + 1 → f ((i + j) / 2) ≡ false → f k ≡ false
    not_hit k lt hk miss = elim (Bool-cases (f k)) [
      | inr e ↦ e
      | inl e ↦ cc (m k ((i + j) / 2) (omega arith) (omega arith) e)
    ]

-- The least index at which a monotone test holds, or `n`.
pub sort_search_least :
    (n : ℕ) (f : ℕ → Bool)
    → IsMonotone n f
    → (sort_search n f ≤ n)
      × ((k : ℕ) → k < sort_search n f → f k ≡ false)
      × ((k : ℕ) → sort_search n f ≤ k → k < n → f k ≡ true)
unfolding sort_search
sort_search_least n f m =
    search_between_lem n 0 n n f m (omega arith) (omega arith) (omega arith)
      (λ k h. absurd (omega arith)) (λ k h hn. absurd (omega arith))
