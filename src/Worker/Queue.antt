-- ===== src/Worker/Queue.antt =====
-- internal/worker/queue.go: claims on tickets, and what the matchmaking worker asks of its stores.
use solitaire_matchmaking.Base.{
  ℕ, not, ◌||◌, ◌==◌, List, String, is_empty, Result, ok, ◌>>◌, fail_if,
}
use solitaire_matchmaking.Base.Int.{ℤ, pos, ltb_ℤ, leb_ℤ}
use solitaire_matchmaking.Base.Time.{Time, is_zero, after, since}
use solitaire_matchmaking.Matchmaking.Policy
use solitaire_matchmaking.Matchmaking.Orchestration.{MatchAttempt}
use solitaire_matchmaking.Tournament.Model.{Ticket}
use solitaire_matchmaking.Tournament.Tickets
use solitaire_matchmaking.Tournament.Tickets.{
  AssignTicketCommand, ExpireTicketCommand, Assignment, TicketMutation, is_queued,
}

pub data Error : Type 0 where
  claim_token claim_limit claim_interval claim_too_long : Error
  claim_incomplete claim_not_queued : Error
  retry_arguments : Error
  evaluation_time config_unavailable rating_model_mismatch : Error
  policy_encoding duration_not_positive duration_range : Error
  at_expansion at_fill_timeout at_age_priority : Error → Error
  at_policy : Policy.Error → Error
  outside_lease predictor selection_missing : Error
  at_attempt : Policy.Error → Error
  at_ticket : Tickets.Error → Error

abbrev pub max_batch_size : ℕ
max_batch_size = 256

pub record ClaimRequest : Type 0 where
  pub token : String
  pub limit : ℤ
  pub claimed_at : Time
  pub lease_until : Time

unfoldable pub validate_claim_request : ClaimRequest → Result Error (Unit {0})
validate_claim_request r = do
  fail_if (is_empty r.token) claim_token
  fail_if (leb_ℤ r.limit (pos 0) || ltb_ℤ (pos max_batch_size) r.limit) claim_limit
  fail_if (is_zero r.claimed_at || is_zero r.lease_until || not (after r.lease_until r.claimed_at))
      claim_interval
  fail_if (ltb_ℤ (pos 300000000000) (since r.lease_until r.claimed_at)) claim_too_long
  ok tt

pub record TicketClaim (F : Type 0) : Type 0 where
  pub ticket : Ticket F
  pub token : String
  pub attempt : ℕ
  pub lease_until : Time

unfoldable pub validate_ticket_claim : {F : Type 0} → TicketClaim F → Result Error (Unit {0})
validate_ticket_claim c = do
  fail_if (is_empty c.token || (c.attempt == 0) || is_zero c.lease_until) claim_incomplete
  fail_if (is_empty c.ticket.id || not (is_queued c.ticket.status)) claim_not_queued
  ok tt

pub record QueueRepository (S F : Type 0) : Type 0 where
  pub claim_matchmaking_tickets : S → ClaimRequest → Result Error (List (TicketClaim F)) × S
  pub schedule_ticket_retry :
      S → (ticket_id claim_token : String) → Time → Result Error (Unit {0}) × S

pub record AttemptRepository (S F : Type 0) : Type 0 where
  pub load_match_attempt : S → TicketClaim F → Time → Result Error (MatchAttempt F)

pub record TicketLifecycle (S F : Type 0) : Type 0 where
  pub assign : S → AssignTicketCommand → Result Tickets.Error Assignment × S
  pub expire : S → ExpireTicketCommand → Result Tickets.Error (TicketMutation F) × S
