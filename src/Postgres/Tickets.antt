-- ===== src/Postgres/Tickets.antt =====
-- internal/postgres/tickets.go: the ticket lifecycle in one transaction each. A transaction that
-- fails is rolled back; a connection that fails is not modelled.
pub mod Life
pub mod Claims
pub mod Acceptance
pub mod Fencing
use solitaire_matchmaking.Base.{
  ℕ, zero, suc, ◌+◌, ◌-◌, ◌*◌, ◌≤◌, ◌<◌, ◌≡◌, ◌≢◌, ◌⊎◌, inl, inr, refl, sym, ap, ◌∙◌, Bool, true,
  false, not, ◌&&◌, ◌||◌, ◌==◌, ltb, leb, Option, none, some, List, [], ◌∷◌, ◌++◌, String, is_empty,
  str_eq, contains, length, if◌then◌else◌, Result, ok, err, ◌>>=◌, ◌>>◌, fail_if, wrap, arith,
  Bool-cases, Option-cases, In, All, keep, str_eq_refl, eq_iff, >>=-ok, fail_if-ok, wrap-ok,
  ok_injective, length-append, All-append, All-map, All-In, subst,
}
use solitaire_matchmaking.Base.Int.{
  ℤ, pos, negsuc, ltb_ℤ, leb_ℤ, eq_ℤ, ◌≤ℤ◌, ◌<ℤ◌, pos_part, neg_part,
}
use solitaire_matchmaking.Base.Time.{Time, Duration, is_zero, before, after, add}
use solitaire_matchmaking.Base.Float.{Float}
use solitaire_matchmaking.Base.Int.{wrap_int64, ◌+ℤ◌}
use solitaire_matchmaking.Tournament.Model.{
  Ticket, TicketStatus, queued, assigned, cancelled, expired, other,
}
use solitaire_matchmaking.Tournament.Tickets.{
  Error, idempotency_conflict, tournament_not_found, ticket_not_found, ticket_not_queued,
  ticket_claim_lost, unknown_status, AcceptTicketCommand, CancelTicketCommand, ExpireTicketCommand,
  TicketMutation, is_queued, Digest, accept_digest, cancel_digest, expire_digest,
}
use solitaire_matchmaking.Postgres.Tables
use solitaire_matchmaking.Postgres.Tables.{
  StoredTicket, CommandRow, ConfigRow, OutboxEvent, Store, find, exists, has_ticket_id,
  has_entry_id, load_ticket_by_id, load_ticket_by_entry, load_command, insert_outbox,
  insert_command, close_ticket, ticket_aggregate, ticket_accepted, ticket_cancelled, ticket_expired,
  CommandType,
}

-- `Begin … Commit` with the deferred rollback: an error leaves the store as it was.
abbrev pub transact : {F E A : Type 0} → Store F → Result E (A × Store F) → Result E A × Store F
transact s (ok (a, s')) = (ok a, s')
transact s (err e) = (err e, s)

-- `aggregate_version++` on an `int64`.
unfoldable pub next_version : ℤ → ℤ
next_version v = wrap_int64 (v +ℤ pos 1)

module _ {F : Type 0} where
  -- The foreign key of a ticket.
  abbrev pub is_config : Ticket F → ConfigRow → Bool
  is_config t c =
      str_eq c.tournament_id t.tournament_id
      && str_eq c.version t.tournament_version
      && str_eq c.rating_model_version t.rating_snapshot.model_version

  -- `ownsActiveClaim` at the database's time.
  unfoldable pub owns_active_claim : StoredTicket F → String → Time → Bool
  owns_active_claim stored token clock = elim stored.claim_token [
    | none ↦ false
    | some held ↦ elim stored.claimed_until [
      | none ↦ false
      | some until ↦ str_eq held token && after until clock
    ]
  ]

  abbrev pub replayed : Ticket F → TicketMutation F
  replayed t = record { ticket = t; changed = false; replay = true }

  -- A command that was recorded before.
  unfoldable pub replay_command :
      Store F → Ticket F → String → CommandRow → Result Error (TicketMutation F × Store F)
  replay_command s t digest c =
      if str_eq c.request_digest digest then ok (replayed t, s) else err idempotency_conflict

module _ {F : Type 0} ⦃fl : Float F⦄ (sha256 : Digest F) where
  abbrev pub accepted_row : Ticket F → String → StoredTicket F
  accepted_row t digest = record {
    ticket = t;
    request_digest = digest;
    claim_token = none;
    claimed_until = none;
    attempt_count = 0;
    next_attempt_at = some t.requested_at;
  }

  abbrev pub acceptance_event : String → Ticket F → OutboxEvent
  acceptance_event event_id t = record {
    id = event_id;
    aggregate_type = ticket_aggregate;
    aggregate_id = t.id;
    aggregate_version = t.aggregate_version;
    event_type = ticket_accepted;
    payload =
        Tables.accepted t.id t.entry_id t.player_id t.tournament_id t.tournament_version t.status
          t.requested_at;
    occurred_at = t.requested_at;
  }

  -- No row was inserted: the entry was accepted before, or an identity is taken.
  unfoldable pub replay_acceptance :
      Store F → String → Option (StoredTicket F) → Result Error (TicketMutation F × Store F)
  replay_acceptance s digest none = err idempotency_conflict
  replay_acceptance s digest (some stored) =
      if str_eq stored.request_digest digest
      then ok (replayed stored.ticket, s)
      else err idempotency_conflict

  unfoldable pub insert_ticket :
      Store F → AcceptTicketCommand F → String → Result Error (TicketMutation F × Store F)
  insert_ticket s c digest = do
    let t = record (c.ticket) { aggregate_version = pos 1 }
    fail_if (not (exists (is_config t) s.configs)) tournament_not_found
    s' ←
        insert_outbox (acceptance_event c.event_id t) idempotency_conflict
          (record s { tickets = s.tickets ++ accepted_row t digest ∷ [] })
    ok (record { ticket = t; changed = true; replay = false }, s')

  unfoldable pub accept_in_transaction :
      Store F → AcceptTicketCommand F → Result Error (TicketMutation F × Store F)
  accept_in_transaction s c = do
    digest ← accept_digest sha256 c
    let inserted = insert_ticket s c digest
    let stored = replay_acceptance s digest (load_ticket_by_entry c.ticket.entry_id s)
    if exists (has_ticket_id c.ticket.id) s.tickets
          || exists (has_entry_id c.ticket.entry_id) s.tickets
        then stored
        else inserted

  unfoldable pub accept_ticket :
      Store F → AcceptTicketCommand F → Result Error (TicketMutation F) × Store F
  accept_ticket s c = transact s (accept_in_transaction s c)

  abbrev pub cancellation : CancelTicketCommand → String → CommandRow
  cancellation c digest = record {
    ticket_id = c.ticket_id;
    command_id = c.command_id;
    command_type = Tables.cancel;
    request_digest = digest;
    resulting_status = cancelled;
    occurred_at = c.cancelled_at;
  }

  abbrev pub cancellation_event : CancelTicketCommand → Ticket F → OutboxEvent
  cancellation_event c t = record {
    id = c.event_id;
    aggregate_type = ticket_aggregate;
    aggregate_id = t.id;
    aggregate_version = t.aggregate_version;
    event_type = ticket_cancelled;
    payload = Tables.cancelled t.id t.status c.cancelled_at;
    occurred_at = c.cancelled_at;
  }

  abbrev pub cancelled_ticket : CancelTicketCommand → Ticket F → Ticket F
  cancelled_ticket c t = record t {
    status = cancelled;
    cancelled_at = some c.cancelled_at;
    aggregate_version = next_version t.aggregate_version;
  }

  -- The `switch` over the stored status.
  unfoldable pub cancel_by_status :
      Store F
      → CancelTicketCommand
      → String
      → Ticket F
      → TicketStatus
      → Result Error (TicketMutation F × Store F)
  cancel_by_status s c digest t queued = do
    let t' = cancelled_ticket c t
    s₁ ← insert_command (cancellation c digest) idempotency_conflict (close_ticket t' s)
    s₂ ← insert_outbox (cancellation_event c t') idempotency_conflict s₁
    ok (record { ticket = t'; changed = true; replay = false }, s₂)
  cancel_by_status s c digest t cancelled = do
    s₁ ← insert_command (cancellation c digest) idempotency_conflict s
    ok (record { ticket = t; changed = false; replay = false }, s₁)
  cancel_by_status s c digest t assigned = err ticket_not_queued
  cancel_by_status s c digest t expired = err ticket_not_queued
  cancel_by_status s c digest t (other _) = err unknown_status

  unfoldable pub cancel_stored :
      Store F
      → CancelTicketCommand
      → String
      → Option (StoredTicket F)
      → Option CommandRow
      → Result Error (TicketMutation F × Store F)
  cancel_stored s c digest none recorded = err ticket_not_found
  cancel_stored s c digest (some stored) (some recorded) =
      replay_command s stored.ticket digest recorded
  cancel_stored s c digest (some stored) none =
      cancel_by_status s c digest stored.ticket stored.ticket.status

  unfoldable pub cancel_in_transaction :
      Store F → CancelTicketCommand → Result Error (TicketMutation F × Store F)
  cancel_in_transaction s c = do
    digest ← cancel_digest sha256 c
    cancel_stored s c digest (load_ticket_by_id c.ticket_id s)
        (load_command c.ticket_id c.command_id s)

  unfoldable pub cancel_ticket :
      Store F → CancelTicketCommand → Result Error (TicketMutation F) × Store F
  cancel_ticket s c = transact s (cancel_in_transaction s c)

  abbrev pub expiry : ExpireTicketCommand → String → CommandRow
  expiry c digest = record {
    ticket_id = c.ticket_id;
    command_id = c.command_id;
    command_type = Tables.expire;
    request_digest = digest;
    resulting_status = expired;
    occurred_at = c.expired_at;
  }

  abbrev pub expiry_event : ExpireTicketCommand → Ticket F → OutboxEvent
  expiry_event c t = record {
    id = c.event_id;
    aggregate_type = ticket_aggregate;
    aggregate_id = t.id;
    aggregate_version = t.aggregate_version;
    event_type = ticket_expired;
    payload = Tables.expired t.id t.status c.deadline c.expired_at;
    occurred_at = c.expired_at;
  }

  abbrev pub expired_ticket : ExpireTicketCommand → Ticket F → Ticket F
  expired_ticket c t = record t {
    status = expired;
    expired_at = some c.expired_at;
    aggregate_version = next_version t.aggregate_version;
  }

  unfoldable pub expire_claimed :
      Store F
      → ExpireTicketCommand
      → String
      → Time
      → StoredTicket F
      → Result Error (TicketMutation F × Store F)
  expire_claimed s c digest clock stored = do
    fail_if (not (is_queued stored.ticket.status)) ticket_not_queued
    fail_if (not (owns_active_claim stored c.claim_token clock)) ticket_claim_lost
    let t' = expired_ticket c stored.ticket
    s₁ ← insert_command (expiry c digest) idempotency_conflict (close_ticket t' s)
    s₂ ← insert_outbox (expiry_event c t') idempotency_conflict s₁
    ok (record { ticket = t'; changed = true; replay = false }, s₂)

  unfoldable pub expire_stored :
      Store F
      → ExpireTicketCommand
      → String
      → Time
      → Option (StoredTicket F)
      → Option CommandRow
      → Result Error (TicketMutation F × Store F)
  expire_stored s c digest clock none recorded = err ticket_not_found
  expire_stored s c digest clock (some stored) (some recorded) =
      replay_command s stored.ticket digest recorded
  expire_stored s c digest clock (some stored) none = expire_claimed s c digest clock stored

  unfoldable pub expire_in_transaction :
      Store F → ExpireTicketCommand → Time → Result Error (TicketMutation F × Store F)
  expire_in_transaction s c clock = do
    digest ← expire_digest sha256 c
    expire_stored s c digest clock (load_ticket_by_id c.ticket_id s)
        (load_command c.ticket_id c.command_id s)

  unfoldable pub expire_ticket :
      Store F → ExpireTicketCommand → Time → Result Error (TicketMutation F) × Store F
  expire_ticket s c clock = transact s (expire_in_transaction s c clock)
