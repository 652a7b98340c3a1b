-- ===== src/Book/Snapshot/Restored.antt =====
-- A state that is captured is accepted again, and what is restored from it is a book in order.
use crosschainswap.Prelude.{ℕ, ◌≡◌, ◌≢◌, ok, err, Result, arith, >>=-eq-ok, ap, refl}
use crosschainswap.Engine.{MatchError}
use crosschainswap.Book.{MarketBook}
use crosschainswap.Book.Ranked.{IsRankedBook}
use crosschainswap.Book.Ranked.Book.{ok-inj}
use crosschainswap.Book.Ranked.Operations.{load-IsRanked}
use crosschainswap.Book.Snapshot.{
  BookState, capture_state, compute_checksum, validate_snapshot, restore_market_book, lift_load,
}

module _ (digest : BookState → ℕ) where
  accepted_state :
      (s : BookState)
      → s.schema_version ≡ 1
      → s.market ≢ 0
      → s.checksum ≢ 0
      → s.checksum ≡ compute_checksum digest s
      → validate_snapshot digest s ≡ ok tt
  unfolding validate_snapshot
  accepted_state s v m c e = ground arith

  -- What `CaptureState` returns passes `Validate`, if the book has a market and a hash is not empty.
  pub capture_state-valid :
      (b : MarketBook) (sequence now : ℕ)
      → b.market ≢ 0
      → ((s : BookState) → digest s ≢ 0)
      → validate_snapshot digest (capture_state digest b sequence now) ≡ ok tt
  unfolding capture_state
  capture_state-valid b sequence now m d =
      accepted_state (capture_state digest b sequence now) refl m (d _) refl

  lift_load-ok : (m : Result MatchError MarketBook) {b : MarketBook} → lift_load m ≡ ok b → m ≡ ok b
  lift_load-ok (ok b) h = ap ok (ok-inj h)
  lift_load-ok (err e) h = cc

  -- What is restored is a book in order, whatever the state lists.
  restore_market_book-IsRanked :
      (s : BookState) {b : MarketBook} → restore_market_book digest s ≡ ok b → IsRankedBook b
  unfolding restore_market_book
  restore_market_book-IsRanked s h =
      let (_, v, k) = >>=-eq-ok (validate_snapshot digest s) _ h in
      load-IsRanked s.market s.base_asset s.quote_asset s.active_orders (lift_load-ok _ k)
