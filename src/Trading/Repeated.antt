-- ===== src/Trading/Repeated.antt =====
-- `Place` of a command that has led to an order: the same order again, and nothing else, whatever
-- was served in between.
use crosschainswap.Prelude.{
  ℕ, ◌≡◌, ◌≢◌, refl, sym, subst, ◌∙◌, true, false, List, [], ◌∷◌, ◌++◌, some, ok, err, arith, ◌==◌,
  ◌!=◌, if◌then◌else◌, Bool-cases, inl, inr,
}
use crosschainswap.Prelude.Dict.{Dict, lookup, insert, lookup-insert}
use crosschainswap.Order.{Order}
use crosschainswap.Ledger.{Action}
use crosschainswap.Ledger.OrdersKept.{KeepsOrders, release_order_funds-KeepsOrders}
use crosschainswap.Ledger.OrdersKept.Settled.{
  reserve_order_funds-KeepsOrders, settle_trades-KeepsOrders,
}
use crosschainswap.Orders.{PlaceRequest}
use crosschainswap.Orders.Build.{build_order}
use crosschainswap.Exchange.{
  CommandOutcome, OrderCommand, ExchangeError, Tables, pure, reads, throw_if, from_result,
  on_ledger, modify, ◌>>=◌,
}
use crosschainswap.Exchange.ActiveOrders.{write_order, load_order}
use crosschainswap.Exchange.Commands.{
  find_command, get_order_command, create_order_command, update_commands, completed_command,
  complete_order_command,
}
use crosschainswap.Exchange.Keeps.{
  ended_ok, not_ok, Keeps, Keeps-modify, Keeps-on_ledger, keeps_rules,
}
use crosschainswap.Trading.{Env}
use crosschainswap.Trading.Requests.{unchanged}
use crosschainswap.Trading.Place.{
  order_command_id, order_command_payload, order_of_command, place_known, place_order, place,
}
use crosschainswap.Trading.Service.{Request, serve}
use crosschainswap.Trading.Kept.{IsSteady}
use crosschainswap.Trading.Kept.Placed.{place_order-Keeps}
use crosschainswap.Trading.Kept.Served.{serve-Keeps}

abbrev HasOrder : ℕ → Dict Order → Type 0
HasOrder id orders = (o : Order) × (lookup id orders ≡ some o)

-- The command with the id `id` is kept as `c`, and the order that it led to is stored.
pub record IsRecorded (id : ℕ) (c : OrderCommand) (t : Tables) : Type 0 where
  pub command : find_command id t.commands ≡ some c
  pub order : HasOrder c.order_id (t.ledger).orders

find_command-append :
    (id : ℕ) (c : OrderCommand) (cs ds : List OrderCommand)
    → find_command id cs ≡ some c
    → find_command id (cs ++ ds) ≡ some c
unfolding find_command
find_command-append id c [] ds h = cc
find_command-append id c (d ∷ cs) ds h = ground (arith, find_command-append id c cs ds)

find_command-update :
    (now order_id : ℕ) (word : CommandOutcome) (id other : ℕ) (cs : List OrderCommand)
    → id ≢ other
    → find_command id (update_commands (completed_command now order_id word) other cs)
      ≡ find_command id cs
unfolding find_command update_commands
find_command-update now order_id word id other [] d = refl
find_command-update now order_id word id other (c ∷ cs) d =
    let ih = find_command-update now order_id word id other cs d in ground arith

HasOrder-insert :
    (id : ℕ) (item : Order) (orders : Dict Order)
    → HasOrder id orders
    → HasOrder id (insert item.id item orders)
HasOrder-insert id item orders (o, h) = elim (Bool-cases (item.id == id)) [
  | inl e ↦ (item, lookup-insert item.id id item orders ∙ rw e refl)
  | inr e ↦ (o, lookup-insert item.id id item orders ∙ rw e h)
]

module _ {id : ℕ} {c : OrderCommand} where
  ledger-IsRecorded :
      {A : Type 0} (m : Action A) → KeepsOrders m → Keeps (IsRecorded id c) (on_ledger m)
  ledger-IsRecorded m keeps =
      Keeps-on_ledger m
        λ t p x s h. record { command = p.command; order = rw (keeps t.ledger x s h) p.order }

  elsewhere-IsRecorded :
      (f : Tables → Tables)
      → ((t : Tables) → (f t).ledger ≡ t.ledger)
      → ((t : Tables) → (f t).commands ≡ t.commands)
      → Keeps (IsRecorded id c) (modify f)
  elsewhere-IsRecorded f same_ledger same_commands =
      Keeps-modify f λ t p. record {
        command = rw (same_commands t) p.command;
        order = rw (same_ledger t) p.order;
      }

  write_order-IsRecorded :
      (item : Order) (t : Tables) → IsRecorded id c t → IsRecorded id c (write_order item t)
  write_order-IsRecorded item t p = record {
    command = p.command;
    order = HasOrder-insert c.order_id item (t.ledger).orders p.order;
  }

  append-IsRecorded :
      (d : OrderCommand)
      → Keeps (IsRecorded id c) (modify (λ t. record t { commands = t.commands ++ d ∷ [] }))
  append-IsRecorded d = Keeps-modify _ λ t p. record {
    command = find_command-append id c t.commands (d ∷ []) p.command;
    order = p.order;
  }

  create_order_command-IsRecorded :
      (d : OrderCommand) → Keeps (IsRecorded id c) (create_order_command d)
  unfolding create_order_command
  create_order_command-IsRecorded d = search (keeps_rules, append-IsRecorded)

  complete_order_command-IsRecorded :
      (now other order_id : ℕ) (word : CommandOutcome)
      → id ≢ other
      → Keeps (IsRecorded id c) (complete_order_command now other order_id word)
  unfolding complete_order_command
  complete_order_command-IsRecorded now other order_id word d = Keeps-modify _ λ t p.
      elim (Bool-cases (other == 0)) [
        | inl e ↦ rw e p
        | inr e ↦ rw e (record {
          command = find_command-update now order_id word id other t.commands d ∙ p.command;
          order = p.order;
        })
      ]

  IsRecorded-IsSteady : IsSteady (IsRecorded id c)
  IsRecorded-IsSteady = record {
    written = write_order-IsRecorded;
    settled = λ now items. ledger-IsRecorded _ (settle_trades-KeepsOrders now items);
    released = λ now item e. ledger-IsRecorded _ (release_order_funds-KeepsOrders now item e);
    reserved = λ now item e. ledger-IsRecorded _ (reserve_order_funds-KeepsOrders now item e);
    commanded = create_order_command-IsRecorded;
    elsewhere = λ f l a s. elsewhere-IsRecorded f l s;
  }

-- A command that is kept, of the same payload or not.
module _ (env : Env) (id : ℕ) (c : OrderCommand) (item : Order) (t : Tables)
    (named : id == 0 ≡ false) (led : c.order_id == 0 ≡ false) (recorded : IsRecorded id c t) where
  place_order-known :
      c.payload_hash != env.payload_hash (order_command_payload item) ≡ false
      → place_order env id item t ≡ ok (unchanged ((recorded.order).0), t)
  unfolding place_order get_order_command order_of_command place_known load_order reads throw_if
      pure ◌>>=◌
  place_order-known h = rw (named, recorded.command) (rw (h, led, (recorded.order).1) refl)

  place_order-conflict :
      c.payload_hash != env.payload_hash (order_command_payload item) ≡ true
      → place_order env id item t ≡ err ExchangeError.payload_conflict
  unfolding place_order get_order_command order_of_command place_known load_order reads throw_if
      pure ◌>>=◌
  place_order-conflict h = rw (named, recorded.command) (rw h refl)

module _ {id : ℕ} {c : OrderCommand} (named : id == 0 ≡ false) (led : c.order_id == 0 ≡ false) where
  same_place-IsRecorded :
      (env : Env) (item : Order) → Keeps (IsRecorded id c) (place_order env id item)
  same_place-IsRecorded env item = record {
    at = λ t p a t' h.
        elim (Bool-cases (c.payload_hash != env.payload_hash (order_command_payload item))) [
          | inl e ↦ absurd (not_ok (sym (place_order-conflict env id c item t named led p e) ∙ h))
          | inr e ↦
              let (_, same_tables) =
                ended_ok (sym (place_order-known env id c item t named led p e) ∙ h) in
              rw same_tables p
        ];
  }

  place_order-IsRecorded :
      (env : Env) (command : ℕ) (item : Order)
      → Keeps (IsRecorded id c) (place_order env command item)
  place_order-IsRecorded env command item = elim (Bool-cases (id == command)) [
    | inl e ↦
        subst (λ x. Keeps (IsRecorded id c) (place_order env x item)) (ground arith)
          (same_place-IsRecorded env item)
    | inr e ↦
        place_order-Keeps IsRecorded-IsSteady env command
          (λ now order_id word.
            complete_order_command-IsRecorded now command order_id word (λ k. ground arith))
          item
  ]

  place-IsRecorded :
      (env : Env) (new command : ℕ) (req : PlaceRequest)
      → Keeps (IsRecorded id c) (place env new command req)
  unfolding place
  place-IsRecorded env new command req = search (keeps_rules, place_order-IsRecorded)

  -- A command that has led to an order keeps its row and its order, whatever is served.
  pub serve-IsRecorded :
      (rs : List (Env × Request)) (t : Tables) → IsRecorded id c t → IsRecorded id c (serve rs t)
  serve-IsRecorded rs t p = serve-Keeps IsRecorded-IsSteady place-IsRecorded rs t p

-- If a command has led to an order, then placing it again, after any requests that succeeded or
-- not, answers with the order as it is stored by then and changes no table; if the payload is
-- another one, it fails with a conflict.
pub place-repeated :
    (id : ℕ) (c : OrderCommand) (t : Tables) (rs : List (Env × Request)) (env : Env)
    (new command : ℕ) (req : PlaceRequest) (item : Order)
    → id == 0 ≡ false
    → c.order_id == 0 ≡ false
    → IsRecorded id c t
    → build_order env.default_reservation env.markets new env.now req ≡ ok item
    → order_command_id command item ≡ id
    → (o : Order) × (lookup c.order_id ((serve rs t).ledger).orders ≡ some o)
      × (place env new command req (serve rs t) ≡ (
          if c.payload_hash != env.payload_hash (order_command_payload item)
          then err ExchangeError.payload_conflict
          else ok (unchanged o, serve rs t)))
unfolding place from_result ◌>>=◌
place-repeated id c t rs env new command req item named led recorded built same_id =
    let kept = serve-IsRecorded named led rs t recorded in
    (
      (kept.order).0,
      (kept.order).1,
      rw (built, same_id)
          (elim (Bool-cases (c.payload_hash != env.payload_hash (order_command_payload item))) [
            | inl e ↦ rw e (place_order-conflict env id c item (serve rs t) named led kept e)
            | inr e ↦ rw e (place_order-known env id c item (serve rs t) named led kept e)
          ]),
    )
