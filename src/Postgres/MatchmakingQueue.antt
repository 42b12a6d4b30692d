-- ===== src/Postgres/MatchmakingQueue.antt =====
-- internal/postgres/matchmaking_queue.go: the queued tickets as leased work. A claim is one statement,
-- which stays when a later check on its rows fails. The decoding of a policy's JSON is a parameter.
pub mod Attempts
pub mod Leases
mod Examples
use solitaire_matchmaking.Base.{
  ℕ, ◌+◌, ◌*◌, Bool, true, false, not, ◌&&◌, ◌||◌, ltb, leb, Option, none, some, List, [], ◌∷◌,
  String, is_empty, str_eq, str_lt, contains, if◌then◌else◌, Result, ok, err, ◌>>=◌, ◌>>◌, fail_if,
  wrap, keep, take, map,
}
use solitaire_matchmaking.Base.Sort.{sort}
use solitaire_matchmaking.Base.Int.{ℤ, pos, ltb_ℤ, leb_ℤ, pos_part}
use solitaire_matchmaking.Base.Time.{Time, Duration, is_zero, after}
use solitaire_matchmaking.Base.Float.{Float}
use solitaire_matchmaking.Matchmaking.Policy
use solitaire_matchmaking.Matchmaking.Policy.{Policy, Candidate, RoomView}
use solitaire_matchmaking.Matchmaking.Orchestration
use solitaire_matchmaking.Matchmaking.Orchestration.{MatchAttempt}
use solitaire_matchmaking.Tournament.Model.{Ticket}
use solitaire_matchmaking.Tournament.Tickets
use solitaire_matchmaking.Tournament.Tickets.{is_queued}
use solitaire_matchmaking.Worker.Queue
use solitaire_matchmaking.Worker.Queue.{
  Error, ClaimRequest, TicketClaim, validate_claim_request, validate_ticket_claim,
}
use solitaire_matchmaking.Postgres.Tables.{
  StoredTicket, Store, RoomRow, ConfigRow, PolicyRow, MembershipRow, find, update, exists,
}
use solitaire_matchmaking.Postgres.Assignment.{is_forming}

abbrev pub due_by : Time → Option Time → Bool
due_by now none = false
due_by now (some t) = leb t now

abbrev pub unleased : Time → Option Time → Bool
unleased now none = true
unleased now (some t) = leb t now

abbrev pub time_less : Option Time → Option Time → Bool
time_less (some a) (some b) = ltb a b
time_less (some a) none = true
time_less none b = false

abbrev pub token_is : String → Option String → Bool
token_is token none = false
token_is token (some held) = str_eq held token

module _ {F : Type 0} where
  abbrev pub ticket_key : StoredTicket F → String
  ticket_key t = t.ticket.id

  unfoldable pub is_due_ticket : Time → StoredTicket F → Bool
  is_due_ticket now t =
      is_queued t.ticket.status && due_by now t.next_attempt_at && unleased now t.claimed_until

  -- `ORDER BY next_attempt_at, requested_at, ticket_id`.
  unfoldable pub tried_before : StoredTicket F → StoredTicket F → Bool
  tried_before a b =
      time_less a.next_attempt_at b.next_attempt_at
      || not (time_less b.next_attempt_at a.next_attempt_at)
        && (ltb a.ticket.requested_at b.ticket.requested_at
            || not (ltb b.ticket.requested_at a.ticket.requested_at)
              && str_lt a.ticket.id b.ticket.id)

  -- `locked` names the rows that another transaction holds.
  unfoldable pub due_tickets :
      (locked : String → Bool) → ClaimRequest → Store F → List (StoredTicket F)
  due_tickets locked r s = take (pos_part r.limit) (
      sort tried_before
        (keep (λ t. is_due_ticket r.claimed_at t && not (locked (ticket_key t))) s.tickets))

  abbrev pub claimed_ticket : ClaimRequest → StoredTicket F → StoredTicket F
  claimed_ticket r t = record t {
    claim_token = some r.token;
    claimed_until = some r.lease_until;
    attempt_count = t.attempt_count + 1;
  }

  abbrev pub is_taken : List (StoredTicket F) → StoredTicket F → Bool
  is_taken due t = contains (ticket_key t) (map ticket_key due)

  unfoldable pub lease_tickets : ClaimRequest → List (StoredTicket F) → Store F → Store F
  lease_tickets r due s = record s { tickets = update (is_taken due) (claimed_ticket r) s.tickets }

  abbrev pub ticket_claim : ClaimRequest → StoredTicket F → TicketClaim F
  ticket_claim r t = record {
    ticket = t.ticket;
    token = r.token;
    attempt = t.attempt_count + 1;
    lease_until = r.lease_until;
  }

  unfoldable pub scan_tickets :
      ClaimRequest → List (StoredTicket F) → Result Error (List (TicketClaim F))
  scan_tickets r [] = ok []
  scan_tickets r (t ∷ ts) = do
    validate_ticket_claim (ticket_claim r t)
    claims ← scan_tickets r ts
    ok (ticket_claim r t ∷ claims)

  unfoldable pub claim_checked :
      (locked : String → Bool)
      → Store F
      → ClaimRequest
      → Result Error (Unit {0})
      → Result Error (List (TicketClaim F)) × Store F
  claim_checked locked s r (err e) = (err e, s)
  claim_checked locked s r (ok _) =
      (scan_tickets r (due_tickets locked r s), lease_tickets r (due_tickets locked r s) s)

  unfoldable pub claim_matchmaking_tickets :
      (locked : String → Bool)
      → Store F
      → ClaimRequest
      → Result Error (List (TicketClaim F)) × Store F
  claim_matchmaking_tickets locked s r = claim_checked locked s r (validate_claim_request r)

  -- `WHERE ticket_id = $1 AND status = 'queued' AND claim_token = $2 AND claimed_until > clock_timestamp()`.
  unfoldable pub leases : String → String → Time → StoredTicket F → Bool
  leases ticket_id token clock t =
      str_eq (ticket_key t) ticket_id
      && is_queued t.ticket.status
      && token_is token t.claim_token
      && not (unleased clock t.claimed_until)

  abbrev pub rescheduled : Time → StoredTicket F → StoredTicket F
  rescheduled t row = record row {
    next_attempt_at = some t;
    claim_token = none;
    claimed_until = none;
  }

  unfoldable pub schedule_ticket_retry :
      Store F
      → (ticket_id claim_token : String) → (retry_at clock : Time)
      → Result Error (Unit {0}) × Store F
  schedule_ticket_retry s ticket_id token retry_at clock =
      if is_empty ticket_id || is_empty token || is_zero retry_at
      then (err Queue.retry_arguments, s)
      else if not (exists (leases ticket_id token clock) s.tickets)
      then (err (Queue.at_ticket Tickets.ticket_claim_lost), s)
      else (
        ok tt,
        record s {
          tickets = update (leases ticket_id token clock) (rescheduled retry_at) s.tickets;
        },
      )

-- The JSON of a policy.
pub record PolicyDefinition (F : Type 0) : Type 0 where
  pub initial_skill_gap : F
  pub max_skill_gap : F
  pub max_win_probability_spread : F
  pub expansion_interval_ms : ℤ
  pub fill_timeout_ms : ℤ
  pub age_priority_after_ms : ℤ
  pub candidate_limit : ℤ
  pub room_limit : ℤ
  pub prefer_nearly_full : Bool

abbrev pub max_milliseconds : ℕ
max_milliseconds = 9223372036854

unfoldable pub milliseconds_allow_zero : ℤ → Result Error Duration
milliseconds_allow_zero v =
    fail_if (ltb_ℤ v (pos 0) || ltb_ℤ (pos max_milliseconds) v) Queue.duration_range
    >> ok (pos (pos_part v * 1000000))

unfoldable pub milliseconds : ℤ → Result Error Duration
milliseconds v = fail_if (leb_ℤ v (pos 0)) Queue.duration_not_positive >> milliseconds_allow_zero v

abbrev pub or_policy_encoding : {A : Type 0} → Option A → Result Error A
or_policy_encoding none = err Queue.policy_encoding
or_policy_encoding (some d) = ok d

module _ {F : Type 0} ⦃fl : Float F⦄ where
  unfoldable pub policy_of : (version model : String) → PolicyDefinition F → Result Error (Policy F)
  policy_of version model d = do
    expansion ← wrap Queue.at_expansion (milliseconds d.expansion_interval_ms)
    fill_timeout ← wrap Queue.at_fill_timeout (milliseconds d.fill_timeout_ms)
    age_priority ← wrap Queue.at_age_priority (milliseconds_allow_zero d.age_priority_after_ms)
    let policy : Policy F = record {
      version = version;
      rating_model_version = model;
      initial_skill_gap = d.initial_skill_gap;
      max_skill_gap = d.max_skill_gap;
      max_win_probability_spread = d.max_win_probability_spread;
      expansion_interval = expansion;
      fill_timeout = fill_timeout;
      age_priority_after = age_priority;
      candidate_limit = d.candidate_limit;
      room_limit = d.room_limit;
      prefer_nearly_full = d.prefer_nearly_full;
    }
    wrap Queue.at_policy (Policy.validate policy)
    ok policy

abbrev pub candidate_from_ticket : {F : Type 0} → Ticket F → Candidate F
candidate_from_ticket t = record {
  ticket_id = t.id;
  player_id = t.player_id;
  joined_at = t.requested_at;
  snapshot_at = t.snapshot_at;
  rating = t.rating_snapshot;
}
