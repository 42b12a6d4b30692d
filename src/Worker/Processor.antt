-- ===== src/Worker/Processor.antt =====
-- internal/worker/processor.go: `MatchProcessor.Handle` over the three stores that it is given. The rating
-- model that it builds and the SHA-256 in the identity of its work are parameters; what it reports to its
-- observer is not modelled.
use solitaire_matchmaking.Base.{
  ℕ, not, ◌||◌, Option, none, some, String, Result, ok, err, ◌>>=◌, ◌>>◌, fail_if, wrap,
}
use solitaire_matchmaking.Base.Time.{Time, Duration, is_zero, before, add}
use solitaire_matchmaking.Base.Float.{Float}
use solitaire_matchmaking.Matchmaking.Fairness.{Evaluator}
use solitaire_matchmaking.Matchmaking.Selector.{RoomSelection}
use solitaire_matchmaking.Matchmaking.Orchestration
use solitaire_matchmaking.Matchmaking.Orchestration.{
  AttemptOutcome, MatchAttempt, MatchAttemptResult, attempt_match,
}
use solitaire_matchmaking.Tournament.Tickets
use solitaire_matchmaking.Tournament.Tickets.{AssignTicketCommand, ExpireTicketCommand}
use solitaire_matchmaking.Worker.Queue
use solitaire_matchmaking.Worker.Queue.{
  Error, TicketClaim, QueueRepository, AttemptRepository, TicketLifecycle, validate_ticket_claim,
}
use Prim.Native.String.{◌++◌ as ◌++ₛ◌}

-- The hexadecimal text of the first half of the SHA-256 of a kind, a ticket and an attempt.
abbrev pub WorkHash : Type 0
WorkHash = String → String → ℕ → String

-- `NewBaseline` of pkg/rating with its default configuration for a model version.
abbrev pub ModelBuilder : Type 0 → Type 0
ModelBuilder F = String → Option (Evaluator F)

module _ (hashed : WorkHash) {F : Type 0} where
  unfoldable pub work_identity : String → TicketClaim F → String
  work_identity kind c = (kind ++ₛ "-") ++ₛ hashed kind c.ticket.id c.attempt

  unfoldable pub assign_command : TicketClaim F → RoomSelection F → Time → AssignTicketCommand
  assign_command c selection at =
      let identity = work_identity "assignment" c in
      record {
        assignment_id = identity;
        ticket_id = c.ticket.id;
        room_id = selection.room_id;
        expected_room_version = selection.room_version;
        session_id = identity ++ₛ "-session";
        ticket_event_id = identity ++ₛ "-ticket-event";
        room_filled_event_id = identity ++ₛ "-room-event";
        assigned_at = at;
        claim_token = c.token;
      }

  unfoldable pub expire_command : TicketClaim F → Time → Time → ExpireTicketCommand
  expire_command c deadline at =
      let identity = work_identity "expiry" c in
      record {
        ticket_id = c.ticket.id;
        command_id = identity ++ₛ "-command";
        event_id = identity ++ₛ "-event";
        claim_token = c.token;
        deadline = deadline;
        expired_at = at;
      }

-- What becomes of the error of an expiry.
abbrev pub ignore_lost : {A : Type 0} → Result Tickets.Error A → Result Error (Unit {0})
ignore_lost (ok _) = ok tt
ignore_lost (err Tickets.ticket_claim_lost) = ok tt
ignore_lost (err e) = err (Queue.at_ticket e)

module _ {S F : Type 0} ⦃fl : Float F⦄ (hashed : WorkHash) (model : ModelBuilder F)
    (attempts : AttemptRepository S F) (queue : QueueRepository S F) (tickets : TicketLifecycle S F)
    (stale_retry_delay : Duration) where
  -- The end of `assign`, from the error of the assignment.
  unfoldable pub after_assign :
      {A : Type 0} → S → TicketClaim F → Time → Result Tickets.Error A → Result Error (Unit {0}) × S
  after_assign s c at (ok _) = (ok tt, s)
  after_assign s c at (err Tickets.room_not_available) =
      queue.schedule_ticket_retry s c.ticket.id c.token (add at stale_retry_delay)
  after_assign s c at (err Tickets.ticket_claim_lost) = (ok tt, s)
  after_assign s c at (err e) = (err (Queue.at_ticket e), s)

  unfoldable pub assign :
      S → TicketClaim F → Option (RoomSelection F) → Time → Result Error (Unit {0}) × S
  assign s c none at = (err Queue.selection_missing, s)
  assign s c (some selection) at =
      let (done, s') = tickets.assign s (assign_command hashed c selection at) in
      after_assign s' c at done

  unfoldable pub retry : S → TicketClaim F → Option Time → Result Error (Unit {0}) × S
  retry s c none = (err Queue.selection_missing, s)
  retry s c (some retry_at) = queue.schedule_ticket_retry s c.ticket.id c.token retry_at

  unfoldable pub carry_out :
      S → TicketClaim F → Time → AttemptOutcome → MatchAttemptResult F → Result Error (Unit {0}) × S
  carry_out s c at Orchestration.matched r = assign s c r.selection at
  carry_out s c at Orchestration.retry_scheduled r = retry s c r.retry_at
  carry_out s c at Orchestration.timed_out r =
      let (done, s') = tickets.expire s (expire_command hashed c r.deadline at) in
      (ignore_lost done, s')

  abbrev pub or_predictor : Option (Evaluator F) → Result Error (Evaluator F)
  or_predictor none = err Queue.predictor
  or_predictor (some e) = ok e

  -- The part that only reads.
  unfoldable pub evaluate_claim : S → TicketClaim F → Time → Result Error (MatchAttemptResult F)
  evaluate_claim s c at = do
    validate_ticket_claim c
    fail_if (is_zero at || not (before at c.lease_until)) Queue.outside_lease
    attempt ← attempts.load_match_attempt s c at
    evaluator ← or_predictor (model attempt.policy.rating_model_version)
    wrap Queue.at_attempt (attempt_match evaluator attempt)

  unfoldable pub handle_evaluated :
      S → TicketClaim F → Time → Result Error (MatchAttemptResult F) → Result Error (Unit {0}) × S
  handle_evaluated s c at (err e) = (err e, s)
  handle_evaluated s c at (ok r) = carry_out s c at r.outcome r

  unfoldable pub handle : S → TicketClaim F → Time → Result Error (Unit {0}) × S
  handle s c at = handle_evaluated s c at (evaluate_claim s c at)
