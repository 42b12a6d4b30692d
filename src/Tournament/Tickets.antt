-- ===== src/Tournament/Tickets.antt =====
-- internal/tournament/tickets.go: the ticket commands, what they must be, and the identity of a
-- request, from which its digest is made.
use solitaire_matchmaking.Base.{
  ℕ, Bool, true, false, not, ◌&&◌, ◌||◌, ltb, Option, none, some, String, is_empty, Result, ok, err,
  ◌>>◌, fail_if, wrap,
}
use solitaire_matchmaking.Base.Int.{ℤ, pos, leb_ℤ, eq_ℤ}
use solitaire_matchmaking.Base.Time.{Time, is_zero, before, after}
use solitaire_matchmaking.Base.Float.{Float}
use solitaire_matchmaking.Rating.Types.{Estimate, validate_estimate}
use solitaire_matchmaking.Rating.Types
use solitaire_matchmaking.Tournament.Model.{Ticket, TicketStatus, queued}

-- The errors of the commands, of the lifecycle, and of the store that carries it out.
pub data Error : Type 0 where
  idempotency_conflict : Error
  tournament_not_found : Error
  ticket_not_found : Error
  ticket_not_queued : Error
  room_not_available : Error
  assignment_conflict : Error
  ticket_claim_lost : Error
  identities_required : Error
  not_newly_queued : Error
  snapshot_times : Error
  at_rating_snapshot : Types.Error → Error
  rating_after_snapshot : Error
  games_exceed_bigint : Error
  new_ticket_version : Error
  cancellation_time : Error
  expiry_deadline : Error
  room_version_required : Error
  assignment_time : Error
  encoding : Error
  unknown_status : Error
  assignment_before_request : Error
  room_not_filled : Error
  assignment_missing : Error

pub record AcceptTicketCommand (F : Type 0) : Type 0 where
  pub ticket : Ticket F
  pub event_id : String

pub record CancelTicketCommand : Type 0 where
  pub ticket_id : String
  pub command_id : String
  pub event_id : String
  pub cancelled_at : Time

pub record AssignTicketCommand : Type 0 where
  pub assignment_id : String
  pub ticket_id : String
  pub room_id : String
  pub expected_room_version : ℤ
  pub session_id : String
  pub ticket_event_id : String
  pub room_filled_event_id : String
  pub assigned_at : Time
  pub claim_token : String

pub record ExpireTicketCommand : Type 0 where
  pub ticket_id : String
  pub command_id : String
  pub event_id : String
  pub claim_token : String
  pub deadline : Time
  pub expired_at : Time

abbrev pub is_queued : TicketStatus → Bool
is_queued queued = true
is_queued _ = false

abbrev pub is_some : {A : Type 0} → Option A → Bool
is_some none = false
is_some (some _) = true

module _ {F : Type 0} ⦃fl : Float F⦄ where
  unfoldable pub validate_accept : AcceptTicketCommand F → Result Error (Unit {0})
  validate_accept c = do
    let t = c.ticket
    fail_if
        (is_empty t.id
          || is_empty t.entry_id
          || is_empty t.player_id
          || is_empty t.tournament_id
          || is_empty t.tournament_version
          || is_empty c.event_id)
        identities_required
    fail_if
        (not (is_queued t.status)
          || is_some t.assigned_at
          || is_some t.cancelled_at
          || is_some t.expired_at)
        not_newly_queued
    fail_if (is_zero t.requested_at || is_zero t.snapshot_at || after t.snapshot_at t.requested_at)
        snapshot_times
    wrap at_rating_snapshot (validate_estimate t.rating_snapshot)
    fail_if (after t.rating_snapshot.updated_at t.snapshot_at) rating_after_snapshot
    fail_if (ltb 9223372036854775807 t.rating_snapshot.games) games_exceed_bigint
    fail_if (not (eq_ℤ t.aggregate_version (pos 0)) && not (eq_ℤ t.aggregate_version (pos 1)))
        new_ticket_version
    ok tt

unfoldable pub validate_cancel : CancelTicketCommand → Result Error (Unit {0})
validate_cancel c = do
  fail_if (is_empty c.ticket_id || is_empty c.command_id || is_empty c.event_id) identities_required
  fail_if (is_zero c.cancelled_at) cancellation_time
  ok tt

unfoldable pub validate_expire : ExpireTicketCommand → Result Error (Unit {0})
validate_expire c = do
  fail_if
      (is_empty c.ticket_id
        || is_empty c.command_id
        || is_empty c.event_id
        || is_empty c.claim_token)
      identities_required
  fail_if (is_zero c.deadline || is_zero c.expired_at || before c.expired_at c.deadline)
      expiry_deadline
  ok tt

unfoldable pub validate_assign : AssignTicketCommand → Result Error (Unit {0})
validate_assign c = do
  fail_if
      (is_empty c.assignment_id
        || is_empty c.ticket_id
        || is_empty c.room_id
        || is_empty c.session_id
        || is_empty c.ticket_event_id
        || is_empty c.room_filled_event_id)
      identities_required
  fail_if (leb_ℤ c.expected_room_version (pos 0)) room_version_required
  fail_if (is_zero c.assigned_at) assignment_time
  ok tt

-- The structs that `RequestDigest` encodes, a constructor for each.
pub data Identity (F : Type 0) : Type 0 where
  accepting :
      (entry_id player_id tournament_id tournament_version : String)
      (requested_at snapshot_at : Time) (rating_snapshot : Estimate F)
      → Identity F
  cancelling : (ticket_id command_id : String) → Identity F
  expiring : (ticket_id command_id : String) (deadline : Time) → Identity F
  assigning :
      (assignment_id ticket_id room_id : String) (room_version : ℤ) (session_id : String)
      → Identity F

-- SHA-256 over JSON is a parameter; `none` is a value that JSON cannot encode.
abbrev pub Digest : Type 0 → Type 0
Digest F = Identity F → Option String

abbrev pub or_encoding : Option String → Result Error String
or_encoding none = err encoding
or_encoding (some d) = ok d

module _ {F : Type 0} (sha256 : Digest F) where
  unfoldable pub accept_digest : ⦃fl : Float F⦄ → AcceptTicketCommand F → Result Error String
  accept_digest c = do
    validate_accept c
    or_encoding (
        sha256 (
          accepting c.ticket.entry_id c.ticket.player_id c.ticket.tournament_id
            c.ticket.tournament_version c.ticket.requested_at c.ticket.snapshot_at
            c.ticket.rating_snapshot))

  unfoldable pub cancel_digest : CancelTicketCommand → Result Error String
  cancel_digest c = do validate_cancel c; or_encoding (sha256 (cancelling c.ticket_id c.command_id))

  unfoldable pub expire_digest : ExpireTicketCommand → Result Error String
  expire_digest c = do
    validate_expire c
    or_encoding (sha256 (expiring c.ticket_id c.command_id c.deadline))

  unfoldable pub assign_digest : AssignTicketCommand → Result Error String
  assign_digest c = do
    validate_assign c
    or_encoding (
        sha256
          (assigning c.assignment_id c.ticket_id c.room_id c.expected_room_version c.session_id))

pub record TicketMutation (F : Type 0) : Type 0 where
  pub ticket : Ticket F
  pub changed : Bool
  pub replay : Bool

pub record Assignment : Type 0 where
  pub assignment_id : String
  pub ticket_id : String
  pub room_id : String
  pub session_id : String
  pub player_id : String
  pub seat : ℕ
  pub assigned_at : Time
  pub ticket_version : ℤ
  pub room_version : ℤ
  pub room_filled : Bool
  pub result_deadline : Option Time
  pub replay : Bool

pub record TicketState (F : Type 0) : Type 0 where
  pub ticket : Ticket F
  pub assignment : Option Assignment
