-- ===== src/Trading/Kept/Served.antt =====
-- Whole requests, and any sequence of them.
use crosschainswap.Prelude.{ℕ, ◌≡◌, List, [], ◌∷◌, Result, ok, err, refl}
use crosschainswap.Orders.{PlaceRequest}
use crosschainswap.Exchange.{CommandOutcome, Tables, ExchangeError, Tx}
use crosschainswap.Exchange.Commands.{complete_order_command}
use crosschainswap.Exchange.Keeps.{Keeps, keeps_rules}
use crosschainswap.Trading.{Env}
use crosschainswap.Trading.Place.{place}
use crosschainswap.Trading.Service.{Request, handle, committed, serve}
use crosschainswap.Trading.Kept.{IsSteady}
use crosschainswap.Trading.Kept.Placed.{place_order-Keeps}
use crosschainswap.Trading.Kept.Requests.{
  match_order-Keeps, match_order_with_book-Keeps, persist_book_match_result-Keeps,
  trigger_stops-Keeps, cancel_request-Keeps,
}

committed-Keeps :
    {P : Tables → Type 0} (m : Tx (Unit {0})) (t : Tables)
    → Keeps P m
    → P t
    → (r : Result ExchangeError (Unit {0} × Tables)) → m t ≡ r
    → P (committed t r)
committed-Keeps m t keep p (ok (u, t')) h = keep.at t p u t' h
committed-Keeps m t keep p (err e) h = p

module _ {P : Tables → Type 0} (w : IsSteady P) where
  pub place-Keeps :
      (env : Env) (id command : ℕ) (req : PlaceRequest)
      → ((command now order_id : ℕ) (word : CommandOutcome)
          → Keeps P (complete_order_command now command order_id word))
      → Keeps P (place env id command req)
  unfolding place
  place-Keeps env id command req completed = search (keeps_rules, place_order-Keeps)

  module _
      (placed : (env : Env) (id command : ℕ) (req : PlaceRequest)
        → Keeps P (place env id command req)) where
    handle-Keeps : (env : Env) (r : Request) → Keeps P (handle env r)
    unfolding handle
    handle-Keeps env (Request.place_one id command req) = search (keeps_rules, placed)
    handle-Keeps env (Request.match_one id) = search (keeps_rules, match_order-Keeps)
    handle-Keeps env (Request.match_in_book id sequence save) =
        search (keeps_rules, match_order_with_book-Keeps)
    handle-Keeps env (Request.persist r sequence save) =
        search (keeps_rules, persist_book_match_result-Keeps)
    handle-Keeps env (Request.trigger market price) = search (keeps_rules, trigger_stops-Keeps)
    handle-Keeps env (Request.cancel_one id user) = search (keeps_rules, cancel_request-Keeps)

    -- Whatever requests are served, in whatever order and whether or not they succeed.
    pub serve-Keeps : (rs : List (Env × Request)) (t : Tables) → P t → P (serve rs t)
    unfolding serve
    serve-Keeps [] t p = p
    serve-Keeps ((env, r) ∷ rs) t p =
        serve-Keeps rs _
          (committed-Keeps (handle env r) t (handle-Keeps env r) p (handle env r t) refl)
