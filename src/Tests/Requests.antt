-- ===== src/Tests/Requests.antt =====
-- A command that has led to the buyer of `Samples`, and what it shows again; a market's next
-- sequences, and the level at which the seller rests.
use crosschainswap.Prelude.{
  ◌+◌, ◌≡◌, ◌<◌, ◌^◌, arith, refl, true, false, [], ◌∷◌, ok, err, some, All, ◌!=◌, if◌then◌else◌,
}
use crosschainswap.Prelude.Dict.{lookup, insert}
use crosschainswap.Decimal.{mul_units}
use crosschainswap.Order.{Order}
use crosschainswap.Orders.Build.{
  round_units, parse_positive_decimal, enabled_market, validate_time_in_force, stop_of,
  order_reservation_id, new_order, build_order,
}
use crosschainswap.Exchange.{
  CommandStatus, CommandOutcome, OrderCommand, ExchangeError, Tables, pure, reads, modify, throw_if,
  ◌>>=◌,
}
use crosschainswap.Exchange.ActiveOrders.{or_blank, rows_of}
use crosschainswap.Exchange.Sequences.{
  first_sequence, next_sequence, max_order_sequence, next_order_sequence,
}
use crosschainswap.Exchange.Sequences.Rising.{next_order_sequence-fresh, next_order_sequence-rises}
use crosschainswap.Exchange.Levels.{key_of, has_key, find_level, refresh_price_levels}
use crosschainswap.Exchange.Levels.Shown.{Shows, refresh_price_levels-Shows}
use crosschainswap.Exchange.Commands.{find_command}
use crosschainswap.Trading.{Env}
use crosschainswap.Trading.Requests.{unchanged}
use crosschainswap.Trading.Place.{order_command_id, order_command_payload, place}
use crosschainswap.Trading.Service.{serve}
use crosschainswap.Trading.Repeated.{IsRecorded, place-repeated}
use crosschainswap.Tests.Samples.{seller}
use crosschainswap.Tests.Orders.{markets, request, reservations}
use crosschainswap.Tests.Trading.{env, crossed, requests}

abbrev market_env : Env
market_env = record env { markets = markets; default_reservation = reservations; now = 100 }

built :
    (o : Order) × (build_order reservations markets 41 100 request ≡ ok o)
    × (order_command_id 0 o ≡ 40)
unfolding build_order new_order order_reservation_id enabled_market lookup validate_time_in_force
    stop_of parse_positive_decimal round_units mul_units
built = (_, refl, refl)

abbrev command : OrderCommand
command = record {
  id = 40;
  client_order_id = 40;
  user_id = 7;
  market = 1;
  payload_hash = 1;
  payload = order_command_payload built.0;
  status = CommandStatus.completed;
  outcome = CommandOutcome.duplicate;
  order_id = 10;
  updated_at = 50;
}

abbrev commanded : Tables
commanded = record crossed { commands = command ∷ [] }

command-IsRecorded : IsRecorded 40 command commanded
unfolding find_command lookup
command-IsRecorded = record { command = refl; order = (_, refl) }

place-repeated_example :
    (o : Order) × (lookup 10 ((serve requests commanded).ledger).orders ≡ some o)
    × (place market_env 41 0 request (serve requests commanded) ≡ (
        if 1 != 1
        then err ExchangeError.payload_conflict
        else ok (unchanged o, serve requests commanded)))
place-repeated_example =
    place-repeated 40 command commanded requests market_env 41 0 request built.0 refl refl
      command-IsRecorded built.1 built.2

first_given : (t : Tables) × (next_order_sequence 1 crossed ≡ ok (5, t))
unfolding next_order_sequence next_sequence first_sequence max_order_sequence lookup insert reads
    modify throw_if pure ◌>>=◌
first_given = (_, refl)

second_given : (t : Tables) × (next_order_sequence 1 first_given.0 ≡ ok (6, t))
unfolding first_given next_order_sequence next_sequence first_sequence max_order_sequence lookup
    insert reads modify throw_if pure ◌>>=◌
second_given = (_, refl)

in_range : max_order_sequence 1 (rows_of (crossed.ledger).orders) + 1 < 2 ^ 64
unfolding max_order_sequence
in_range = omega arith

next_order_sequence-fresh_example :
    All (λ o. or_blank 1 o.market ≡ true → o.sequence_id < 5) (rows_of (crossed.ledger).orders)
next_order_sequence-fresh_example =
    next_order_sequence-fresh 1 5 crossed first_given.0 first_given.1 in_range

still_in_range : max_order_sequence 1 (rows_of (first_given.0.ledger).orders) + 1 < 2 ^ 64
unfolding max_order_sequence first_given
still_in_range = omega arith

next_order_sequence-rises_example : 5 < 6
next_order_sequence-rises_example =
    next_order_sequence-rises 1 5 6 crossed first_given.0 first_given.0 second_given.0 first_given.1
      second_given.1 refl still_in_range (omega arith)

refresh_price_levels-Shows_example :
    (t' : Tables) × (refresh_price_levels 60 (key_of seller ∷ []) crossed ≡ ok (tt, t'))
    × (has_key (key_of seller) (key_of seller ∷ []) ≡ true
        → Shows (key_of seller) crossed.active (find_level (key_of seller) t'.levels))
    × (has_key (key_of seller) (key_of seller ∷ []) ≡ false
        → find_level (key_of seller) t'.levels ≡ find_level (key_of seller) crossed.levels)
refresh_price_levels-Shows_example =
    refresh_price_levels-Shows 60 (key_of seller ∷ []) (key_of seller) crossed refl
