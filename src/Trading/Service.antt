-- ===== src/Trading/Service.antt =====
-- service.go: the requests of the exchange that trade, as the service serves them one transaction
-- after the other. A request that fails leaves the tables as they were.
use crosschainswap.Prelude.{ℕ, Bool, List, [], ◌∷◌, Result, ok, err}
use crosschainswap.Engine.{MatchResult}
use crosschainswap.Orders.{NumberText, PlaceRequest}
use crosschainswap.Exchange.{Tables, ExchangeError, Tx, pure, ◌>>=◌}
use crosschainswap.Trading.{Env}
use crosschainswap.Trading.Requests.{
  match_order, match_order_with_book, persist_book_match_result, trigger_stops, cancel_request,
}
use crosschainswap.Trading.Place.{place}

pub data Request : Type 0 where
  place_one : (id command : ℕ) (request : PlaceRequest) → Request
  match_one : (id : ℕ) → Request
  match_in_book : (id sequence : ℕ) (snapshot : Bool) → Request
  persist : (result : MatchResult) (sequence : ℕ) (snapshot : Bool) → Request
  trigger : (market : ℕ) (price : NumberText) → Request
  cancel_one : (id user : ℕ) → Request

abbrev pub quiet : {A : Type 0} → Tx A → Tx (Unit {0})
quiet m = m >>= λ a. pure tt

unfoldable pub handle : Env → Request → Tx (Unit {0})
handle env (Request.place_one id command request) = quiet (place env id command request)
handle env (Request.match_one id) = quiet (match_order env id)
handle env (Request.match_in_book id sequence snapshot) =
    quiet (match_order_with_book env id sequence snapshot)
handle env (Request.persist result sequence snapshot) =
    quiet (persist_book_match_result env result sequence snapshot)
handle env (Request.trigger market price) = quiet (trigger_stops env market price)
handle env (Request.cancel_one id user) = quiet (cancel_request env id user)

-- `Transaction`: the tables after a request.
abbrev pub committed : Tables → Result ExchangeError (Unit {0} × Tables) → Tables
committed t (ok (u, t')) = t'
committed t (err e) = t

-- Requests one after the other, each with the settings and the time of its own.
unfoldable pub serve : List (Env × Request) → Tables → Tables
serve [] t = t
serve ((env, r) ∷ rs) t = serve rs (committed t (handle env r t))
