-- ===== src/Postgres/Matching.antt =====
-- The worker of internal/worker/processor.go on the stores of internal/postgres.
pub mod Writes
pub mod Fenced
use solitaire_matchmaking.Base.{
  inl, inr, refl, Bool, ◌||◌, Bool-cases, Option, none, some, String, Result, ok, err, is_empty,
}
use solitaire_matchmaking.Base.Time.{Time, Duration, is_zero}
use solitaire_matchmaking.Base.Float.{Float}
use solitaire_matchmaking.Matchmaking.Orchestration
use solitaire_matchmaking.Matchmaking.Orchestration.{AttemptOutcome, MatchAttemptResult}
use solitaire_matchmaking.Matchmaking.Selector.{RoomSelection}
use solitaire_matchmaking.Tournament.Tickets
use solitaire_matchmaking.Tournament.Tickets.{Digest}
use solitaire_matchmaking.Worker.Queue.{
  Error, TicketClaim, QueueRepository, AttemptRepository, TicketLifecycle,
}
use solitaire_matchmaking.Worker.Processor.{
  WorkHash, ModelBuilder, assign_command, expire_command, after_assign, assign, retry, carry_out,
  evaluate_claim, handle_evaluated, handle,
}
use solitaire_matchmaking.Postgres.Tables.{Store}
use solitaire_matchmaking.Tournament.Service.{service_assign, service_expire}
use solitaire_matchmaking.Postgres.Service.{ticket_repository}
use solitaire_matchmaking.Postgres.Tickets.{expire_ticket}
use solitaire_matchmaking.Postgres.Assign.{assign_ticket}
use solitaire_matchmaking.Postgres.Commands.{step, assigning, expiring}
use solitaire_matchmaking.Postgres.Rooms.{AreSeated}
use solitaire_matchmaking.Postgres.Rooms.History.{kept_lem, step-AreSeated}
use solitaire_matchmaking.Postgres.MatchmakingQueue.{
  PolicyDefinition, leases, claim_matchmaking_tickets, schedule_ticket_retry,
}
use solitaire_matchmaking.Postgres.MatchmakingQueue.Attempts.{load_match_attempt}

-- `clock` is the time of the database when a statement or a transaction on a ticket runs.
module _ {F : Type 0} ⦃fl : Float F⦄ (sha256 : Digest F)
    (decode : String → Option (PolicyDefinition F)) (locked : String → Bool)
    (clock : String → Time) where
  abbrev pub queue_repository : QueueRepository (Store F) F
  queue_repository = record {
    claim_matchmaking_tickets = λ s r. claim_matchmaking_tickets locked s r;
    schedule_ticket_retry = λ s id token t. schedule_ticket_retry s id token t (clock id);
  }

  abbrev pub attempt_repository : AttemptRepository (Store F) F
  attempt_repository = record { load_match_attempt = λ s c at. load_match_attempt decode s c at }

  abbrev pub ticket_lifecycle : TicketLifecycle (Store F) F
  ticket_lifecycle = record {
    assign = λ s c. service_assign (ticket_repository sha256 clock) s c;
    expire = λ s c. service_expire (ticket_repository sha256 clock) s c;
  }

  module _ (hashed : WorkHash) (model : ModelBuilder F) (stale_retry_delay : Duration) where
    -- `Handle` of the worker on the database.
    abbrev pub handle_stored : Store F → TicketClaim F → Time → Result Error (Unit {0}) × Store F
    handle_stored s c at =
        handle hashed model attempt_repository queue_repository ticket_lifecycle stale_retry_delay s
          c at
