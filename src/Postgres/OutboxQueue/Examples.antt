-- ===== src/Postgres/OutboxQueue/Examples.antt =====
-- Two events of a room and one of a ticket in the outbox, and the theorems on the queue at them.
use solitaire_matchmaking.Base.{
  ℕ, All, In, ◌≡◌, ◌*◌, ◌^◌, refl, Bool, true, false, some, List, [], ◌∷◌, String, ok, err, str_eq,
}
use solitaire_matchmaking.Base.Int.{pos}
use solitaire_matchmaking.Base.Sort.{sort, insert}
use solitaire_matchmaking.Base.Time.{Time}
use solitaire_matchmaking.Worker.Outbox.{
  claim_lost, OutboxEvent, OutboxClaimRequest, OutboxClaim, OutboxRunnerOptions, validate_request,
  validate_event, validate_claim, validate_options, retry_delay, min_ℤ,
}
use solitaire_matchmaking.Worker.Outbox.Delays.{retry_delay_capped}
use solitaire_matchmaking.Worker.Outbox.Runner.{
  Published, published, transient, OutboxRunResult, after_publish, handle_claims, run_claimed,
  run_once, run_once_counts, AddsUp,
}
use solitaire_matchmaking.Postgres.Tables.{update, exists}
use solitaire_matchmaking.Postgres.Tables.Keys.{AreKeyed}
use solitaire_matchmaking.Postgres.OutboxQueue.{
  OutboxRow, key_of, new_row, precedes, holds, is_claimable, due_events, served_before,
  write_claims, scan_claims, claim_valid, claim_outbox_events, change_one, mark_outbox_delivered,
}
use solitaire_matchmaking.Postgres.OutboxQueue.Ordering.{AreInTurn}
use solitaire_matchmaking.Postgres.OutboxQueue.Delivery.{
  Operation, claiming, delivering, enqueuing, operate, operate_all, EntersInTurn, outbox_in_turn,
}
use solitaire_matchmaking.Postgres.OutboxQueue.Fencing.{
  IsLeased, acknowledged, mark_outbox_delivered_once,
}
use solitaire_matchmaking.Postgres.OutboxQueue.Cycle.{outbox_queue, Settled, run_once_in_turn}

abbrev is_object : String → Bool
is_object text = str_eq text "{}"

abbrev none_locked : String → Bool
none_locked id = false

abbrev event_of : String → String → ℕ → OutboxEvent
event_of id aggregate version = record {
  event_id = id;
  aggregate_type = "room";
  aggregate_id = aggregate;
  aggregate_version = pos version;
  event_type = "room.filled";
  payload = "{}";
  occurred_at = 10;
}

abbrev held_row : OutboxRow
held_row = record (new_row (event_of "e1" "r" 2)) {
  claimed_by = some "w";
  claimed_until = some 60;
  attempt_count = 1;
}

abbrev rows : List OutboxRow
rows = held_row ∷ new_row (event_of "e2" "r" 3) ∷ new_row (event_of "e3" "q" 1) ∷ []

rows-AreKeyed : AreKeyed key_of rows
unfolding exists
rows-AreKeyed = (refl, (refl, (refl, tt)))

rows-AreInTurn : AreInTurn rows
unfolding precedes
rows-AreInTurn =
    ((refl, (refl, (refl, tt))), ((refl, (refl, (refl, tt))), ((refl, (refl, (refl, tt))), tt)))

abbrev request : OutboxClaimRequest
request = record { token = "v"; limit = pos 5; claimed_at = 20; lease_until = 50 }

abbrev operations : List Operation
operations =
    claiming none_locked request
    ∷ delivering "e1" "w" 22 23
    ∷ enqueuing (event_of "e4" "q" 2)
    ∷ claiming none_locked (record request { claimed_at = 30 })
    ∷ []

operations_in_turn : EntersInTurn is_object rows operations
unfolding EntersInTurn operate claim_outbox_events claim_valid validate_request write_claims
    due_events is_claimable exists precedes served_before sort insert update mark_outbox_delivered
    change_one holds
operations_in_turn = (tt, (tt, ((refl, (refl, (refl, tt))), (tt, tt))))

outbox_in_turn_example : AreInTurn (operate_all is_object rows operations)
outbox_in_turn_example =
    outbox_in_turn is_object rows operations rows-AreKeyed rows-AreInTurn operations_in_turn

abbrev after_delivery : List OutboxRow
after_delivery = (mark_outbox_delivered rows "e1" "w" 22 23).1

first_delivery : mark_outbox_delivered rows "e1" "w" 22 23 ≡ (ok tt, after_delivery)
unfolding mark_outbox_delivered change_one holds exists update
first_delivery = refl

-- What follows the delivery: the second event is claimed and an event is entered.
abbrev later_operations : List Operation
later_operations = claiming none_locked request ∷ enqueuing (event_of "e4" "q" 2) ∷ []

mark_outbox_delivered_once_example :
    ((r : OutboxRow) × In r rows × (key_of r ≡ "e1") × IsLeased r "w" 23)
    × (after_delivery ≡ acknowledged "e1" 22 rows)
    × (mark_outbox_delivered (operate_all is_object after_delivery later_operations) "e1" "v" 24 25
        ≡ (err claim_lost, operate_all is_object after_delivery later_operations))
mark_outbox_delivered_once_example =
    mark_outbox_delivered_once is_object rows "e1" "w" 22 23 later_operations "v" 24 25
      rows-AreKeyed first_delivery refl

abbrev options : OutboxRunnerOptions
options = record {
  batch_size = pos 10;
  concurrency = pos 2;
  lease_duration = pos 30;
  poll_interval = pos 5;
  retry_base_delay = pos 3;
  retry_max_delay = pos 20;
}

options_valid : validate_options options ≡ ok tt
unfolding validate_options
options_valid = refl

retry_delay_capped_example : retry_delay options 4 ≡ min_ℤ (pos (3 * 2 ^ 3)) (pos 20)
retry_delay_capped_example = retry_delay_capped options 4 options_valid

abbrev if_delivered : Bool → Published
if_delivered true = published
if_delivered false = transient "busy"

abbrev publish : OutboxEvent → Published
publish e = if_delivered (str_eq e.event_id "e3")

abbrev clock : OutboxClaim → Time
clock c = 21

abbrev db_clock : String → Time
db_clock id = 22

-- The context is not done during the cycle.
abbrev never : OutboxClaim → Bool
never c = false

abbrev after_cycle : List OutboxRow
after_cycle =
    (run_once (outbox_queue is_object none_locked db_clock) publish clock never options rows "v"
      20).1

abbrev cycle_result : OutboxRunResult
cycle_result = record { claimed = 1; delivered = 1; dead_lettered = 0; failed = 0 }

first_cycle :
    run_once (outbox_queue is_object none_locked db_clock) publish clock never options rows "v" 20
    ≡ (ok cycle_result, after_cycle)
unfolding run_once claim_outbox_events claim_valid validate_request write_claims due_events
    is_claimable exists precedes served_before sort insert update scan_claims validate_claim
    validate_event run_claimed handle_claims after_publish mark_outbox_delivered change_one holds
first_cycle = refl

run_once_counts_example :
    AddsUp (outbox_queue is_object none_locked db_clock) publish clock never options cycle_result
run_once_counts_example =
    run_once_counts (outbox_queue is_object none_locked db_clock) publish clock never options rows
      "v" 20 first_cycle

abbrev rows_after : List OutboxRow
rows_after =
    (run_once (outbox_queue is_object none_locked db_clock) publish clock never options rows "v"
      20).1

run_once_in_turn_example :
    AreKeyed key_of rows_after × AreInTurn rows_after × All (Settled publish rows) rows_after
run_once_in_turn_example =
    run_once_in_turn is_object none_locked db_clock publish clock never options rows "v" 20
      rows-AreKeyed rows-AreInTurn
