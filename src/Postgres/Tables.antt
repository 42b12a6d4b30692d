-- ===== src/Postgres/Tables.antt =====
-- The tables of migrations/ that the ticket lifecycle reads and writes, as lists of rows, and the
-- uniqueness constraints that a write can meet. A row carries the columns that the code uses.
pub mod Rows
pub mod Keys
use solitaire_matchmaking.Base.{
  ℕ, zero, suc, ◌+◌, ◌-◌, ◌*◌, ◌≤◌, ◌<◌, ◌≡◌, ◌≢◌, ◌⊎◌, inl, inr, refl, sym, ap, ◌∙◌, Bool, true,
  false, not, ◌&&◌, ◌||◌, ◌==◌, ltb, leb, Option, none, some, List, [], ◌∷◌, ◌++◌, String, is_empty,
  str_eq, contains, length, if◌then◌else◌, Result, ok, err, ◌>>=◌, ◌>>◌, fail_if, wrap, arith,
  Bool-cases, Option-cases, In, All, keep, str_eq_refl, eq_iff, >>=-ok, fail_if-ok, wrap-ok,
  ok_injective, length-append, All-append, All-map, All-In, subst,
}
use solitaire_matchmaking.Base.Int.{
  ℤ, pos, negsuc, ltb_ℤ, leb_ℤ, eq_ℤ, ◌≤ℤ◌, ◌<ℤ◌, pos_part, neg_part,
}
use solitaire_matchmaking.Base.Time.{Time, Duration, is_zero, before, after, add}
use solitaire_matchmaking.Base.Float.{Float}
use solitaire_matchmaking.Rating.Types.{Features, ParticipantResult}
use solitaire_matchmaking.Tournament.Model.{Ticket, TicketStatus, RoomStatus, SessionStatus}
use solitaire_matchmaking.Tournament.Tickets.{Error, TicketMutation}

-- matchmaking_tickets
pub record StoredTicket (F : Type 0) : Type 0 where
  pub ticket : Ticket F
  pub request_digest : String
  pub claim_token : Option String
  pub claimed_until : Option Time
  pub attempt_count : ℕ
  pub next_attempt_at : Option Time

pub data CommandType : Type 0 where
  cancel expire : CommandType

-- ticket_commands
pub record CommandRow : Type 0 where
  pub ticket_id : String
  pub command_id : String
  pub command_type : CommandType
  pub request_digest : String
  pub resulting_status : TicketStatus
  pub occurred_at : Time

-- rooms
pub record RoomRow : Type 0 where
  pub id : String
  pub tournament_id : String
  pub tournament_version : String
  pub mode_id : String
  pub policy_version : String
  pub rating_model_version : String
  pub scoring_rules_version : String
  pub deck_id : String
  pub status : RoomStatus
  pub capacity : ℕ
  pub version : ℤ
  pub created_at : Time
  pub fill_deadline : Time
  pub filled_at : Option Time
  pub result_deadline : Option Time
  pub completed_at : Option Time
  pub expired_at : Option Time

-- room_memberships
pub record MembershipRow : Type 0 where
  pub room_id : String
  pub room_capacity : ℕ
  pub ticket_id : String
  pub player_id : String
  pub seat : ℕ
  pub assigned_at : Time
  pub assignment_id : String
  pub request_digest : String
  pub ticket_version : ℤ
  pub room_version : ℤ
  pub room_filled : Bool
  pub result_deadline : Option Time

-- sessions
pub record SessionRow : Type 0 where
  pub session_id : String
  pub ticket_id : String
  pub room_id : String
  pub player_id : String
  pub seat : ℕ
  pub status : SessionStatus
  pub allocated_at : Time
  pub started_at : Option Time
  pub submitted_at : Option Time
  pub forfeited_at : Option Time

-- verified_results
pub record ResultRow : Type 0 where
  pub event_id : String
  pub request_digest : String
  pub room_id : String
  pub room_capacity : ℕ
  pub mode_id : String
  pub deck_id : String
  pub scoring_rules_version : String
  pub finished_at : Time
  pub available_at : Time
  pub accepted_at : Time
  pub processed_at : Option Time
  pub next_attempt_at : Option Time

-- verified_result_participants
pub record ResultParticipantRow : Type 0 where
  pub event_id : String
  pub room_id : String
  pub room_capacity : ℕ
  pub session_id : String
  pub player_id : String
  pub place : ℤ
  pub features : Features

pub data AggregateType : Type 0 where
  ticket_aggregate room_aggregate : AggregateType

pub data EventType : Type 0 where
  ticket_accepted ticket_cancelled ticket_assigned ticket_expired room_filled : EventType
  room_completed room_expired : EventType

-- The JSON payloads, a constructor for each struct that is encoded.
pub data Payload : Type 0 where
  accepted :
      (ticket_id entry_id player_id tournament_id tournament_version : String)
      (status : TicketStatus) (requested_at : Time)
      → Payload
  cancelled : (ticket_id : String) (status : TicketStatus) (cancelled_at : Time) → Payload
  expired : (ticket_id : String) (status : TicketStatus) (deadline expired_at : Time) → Payload
  assigned :
      (ticket_id room_id session_id player_id : String) (seat : ℕ) (assigned_at : Time) → Payload
  completed :
      (result_event_id room_id : String) (completed_at : Time) (rating_pending : Bool)
      (standings : List ParticipantResult)
      → Payload
  room_expiry : (room_id : String) (room_version : ℤ) (result_deadline expired_at : Time) → Payload
  filled : (room_id : String) (filled_at : Time) (result_deadline : Option Time) → Payload

-- outbox_events
pub record OutboxEvent : Type 0 where
  pub id : String
  pub aggregate_type : AggregateType
  pub aggregate_id : String
  pub aggregate_version : ℤ
  pub event_type : EventType
  pub payload : Payload
  pub occurred_at : Time

-- rating_shadow_work
pub record ShadowWork : Type 0 where
  pub kind : String
  pub source_id : String
  pub timeline_position : Time
  pub ordering_priority : ℕ

-- tournament_configs
pub record ConfigRow : Type 0 where
  pub tournament_id : String
  pub version : String
  pub rating_model_version : String
  pub mode_id : String
  pub capacity : ℕ
  pub policy_version : String
  pub result_timeout : ℕ

-- matching_policies; the definition is JSON.
pub record PolicyRow : Type 0 where
  pub policy_version : String
  pub rating_model_version : String
  pub definition : String

pub record Store (F : Type 0) : Type 0 where
  pub configs : List ConfigRow
  pub policies : List PolicyRow
  pub tickets : List (StoredTicket F)
  pub commands : List CommandRow
  pub rooms : List RoomRow
  pub memberships : List MembershipRow
  pub sessions : List SessionRow
  pub results : List ResultRow
  pub participants : List ResultParticipantRow
  pub outbox : List OutboxEvent
  pub shadow_work : List ShadowWork

-- The first row that passes a test, as a query with a unique key reads it.
unfoldable pub find {ℓ} : {A : Type ℓ} → (A → Bool) → List A → Option A
find p [] = none
find p (x ∷ xs) = if p x then some x else find p xs

-- An update of the rows that pass a test.
unfoldable pub update {ℓ} : {A : Type ℓ} → (A → Bool) → (A → A) → List A → List A
update p f [] = []
update p f (x ∷ xs) = (if p x then f x else x) ∷ update p f xs

unfoldable pub exists {ℓ} : {A : Type ℓ} → (A → Bool) → List A → Bool
exists p [] = false
exists p (x ∷ xs) = p x || exists p xs

abbrev pub eq_aggregate : AggregateType → AggregateType → Bool
eq_aggregate ticket_aggregate ticket_aggregate = true
eq_aggregate room_aggregate room_aggregate = true
eq_aggregate _ _ = false

abbrev pub event_code : EventType → ℕ
event_code ticket_accepted = 0
event_code ticket_cancelled = 1
event_code ticket_assigned = 2
event_code ticket_expired = 3
event_code room_filled = 4
event_code room_completed = 5
event_code room_expired = 6

-- The primary key of outbox_events, and its key over aggregate, version and event type.
unfoldable pub clashes : OutboxEvent → OutboxEvent → Bool
clashes e o =
    str_eq o.id e.id
    || eq_aggregate o.aggregate_type e.aggregate_type
      && str_eq o.aggregate_id e.aggregate_id
      && eq_ℤ o.aggregate_version e.aggregate_version
      && (event_code o.event_type == event_code e.event_type)

abbrev pub is_command : String → String → CommandRow → Bool
is_command ticket_id command_id c = str_eq c.ticket_id ticket_id && str_eq c.command_id command_id

module _ {F : Type 0} where
  abbrev pub has_ticket_id : String → StoredTicket F → Bool
  has_ticket_id id t = str_eq t.ticket.id id

  abbrev pub has_entry_id : String → StoredTicket F → Bool
  has_entry_id id t = str_eq t.ticket.entry_id id

  unfoldable pub load_ticket_by_id : String → Store F → Option (StoredTicket F)
  load_ticket_by_id id s = find (has_ticket_id id) s.tickets

  unfoldable pub load_ticket_by_entry : String → Store F → Option (StoredTicket F)
  load_ticket_by_entry id s = find (has_entry_id id) s.tickets

  unfoldable pub load_command : String → String → Store F → Option CommandRow
  load_command ticket_id command_id s = find (is_command ticket_id command_id) s.commands

  -- `insertOutbox`; a clash is mapped to the operation's conflict.
  unfoldable pub insert_outbox : {E : Type 0} → OutboxEvent → E → Store F → Result E (Store F)
  insert_outbox e conflict s =
      if exists (clashes e) s.outbox
      then err conflict
      else ok (record s { outbox = s.outbox ++ e ∷ [] })

  -- The insert into ticket_commands, under its primary key.
  unfoldable pub insert_command : CommandRow → Error → Store F → Result Error (Store F)
  insert_command c conflict s =
      if exists (is_command c.ticket_id c.command_id) s.commands
      then err conflict
      else ok (record s { commands = s.commands ++ c ∷ [] })

  -- `UPDATE matchmaking_tickets SET …, next_attempt_at = NULL, claim_token = NULL,
  -- claimed_until = NULL WHERE ticket_id = …`.
  unfoldable pub close_ticket : Ticket F → Store F → Store F
  close_ticket t s = record s {
    tickets =
        update (has_ticket_id t.id)
          (λ row. record row {
            ticket = t;
            claim_token = none;
            claimed_until = none;
            next_attempt_at = none;
          })
          s.tickets;
  }
