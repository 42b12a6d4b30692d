-- ===== src/Postgres/Matching/Fenced.antt =====
-- What `Handle` of internal/worker/processor.go may write to the tickets and the rooms of the database.
use solitaire_matchmaking.Base.{
  ◌==◌, ◌≡◌, ◌⊎◌, inl, inr, refl, sym, subst, Bool, false, ◌||◌, Option, none, some, String,
  is_empty, Result, ok, err, arith, >>=-ok, fail_if-ok,
}
use solitaire_matchmaking.Base.Time.{Time, Duration, is_zero}
use solitaire_matchmaking.Base.Float.{Float}
use solitaire_matchmaking.Matchmaking.Orchestration
use solitaire_matchmaking.Matchmaking.Orchestration.{AttemptOutcome, MatchAttemptResult}
use solitaire_matchmaking.Matchmaking.Selector.{RoomSelection}
use solitaire_matchmaking.Tournament.Tickets
use solitaire_matchmaking.Tournament.Tickets.{
  Digest, AssignTicketCommand, ExpireTicketCommand, Assignment, TicketMutation, is_queued,
  expire_digest, assign_digest,
}
use solitaire_matchmaking.Worker.Queue
use solitaire_matchmaking.Worker.Queue.{Error, TicketClaim, validate_ticket_claim}
use solitaire_matchmaking.Worker.Processor.{
  WorkHash, ModelBuilder, assign_command, expire_command, after_assign, assign, retry, carry_out,
  evaluate_claim, handle_evaluated, handle,
}
use solitaire_matchmaking.Postgres.Tables.{Store}
use solitaire_matchmaking.Postgres.Tickets.{expire_ticket, transact}
use solitaire_matchmaking.Postgres.Assign.{assign_ticket, assign_in_transaction}
use solitaire_matchmaking.Postgres.Rooms.History.{Keeps}
use solitaire_matchmaking.Postgres.Service.{service_assign_lem, service_expire_lem}
use solitaire_matchmaking.Postgres.MatchmakingQueue.{PolicyDefinition, schedule_ticket_retry}
use solitaire_matchmaking.Postgres.Matching.{
  queue_repository, attempt_repository, ticket_lifecycle, handle_stored,
}
use solitaire_matchmaking.Postgres.Matching.Writes.{
  HasHeld, Same, Joins, schedule_lem, assign_lem, expire_lem,
}

module _ {F : Type 0} ⦃fl : Float F⦄ (sha256 : Digest F)
    (decode : String → Option (PolicyDefinition F)) (locked : String → Bool) (clock : String → Time)
    (hashed : WorkHash) (model : ModelBuilder F) (stale_retry_delay : Duration) where
  -- What the worker has decided for a claim.
  abbrev pub decided : Store F → TicketClaim F → Time → Result Error (MatchAttemptResult F)
  decided s c at =
      evaluate_claim hashed model (attempt_repository sha256 decode locked clock)
        (queue_repository sha256 decode locked clock) (ticket_lifecycle sha256 decode locked clock)
        stale_retry_delay s c at

  -- What it may do, when it has decided `r`: nothing, or only to the ticket of the claim while its lease is
  -- held, and it gives the ticket a place in the selected room only if the outcome is a match.
  abbrev pub Carries : Store F → TicketClaim F → MatchAttemptResult F → Store F → Type 0
  Carries s c r s' =
      Same s s'
      ⊎ (HasHeld s c.ticket.id c.token (clock c.ticket.id)
          × (Keeps s s'
              ⊎ ((selection : RoomSelection F) × (r.outcome ≡ Orchestration.matched)
                  × (r.selection ≡ some selection)
                  × Joins s s' c.ticket.id selection.room_id)))

  kept-Carries :
      (s s' : Store F) (c : TicketClaim F) (r : MatchAttemptResult F)
      → Same s s' ⊎ (HasHeld s c.ticket.id c.token (clock c.ticket.id) × Keeps s s')
      → Carries s c r s'
  kept-Carries s s' c r (inl same) = inl same
  kept-Carries s s' c r (inr (held, kept)) = inr (held, inl kept)

  after_assign-err :
      {A : Type 0} (s : Store F) (c : TicketClaim F) (at : Time) (e : Result Tickets.Error A)
      → let s' =
          (after_assign hashed model
            (attempt_repository sha256 decode locked clock)
            (queue_repository sha256 decode locked clock)
            (ticket_lifecycle sha256 decode locked clock)
            stale_retry_delay
            s
            c
            at
            e).1 in
        Same s s' ⊎ (HasHeld s c.ticket.id c.token (clock c.ticket.id) × Keeps s s')
  unfolding after_assign
  after_assign-err s c at (ok x) = inl (refl, (refl, refl))
  after_assign-err s c at (err Tickets.room_not_available) = schedule_lem s c.ticket.id c.token _ _
  after_assign-err s c at (err e) = inl (refl, (refl, refl))

  joined-Carries :
      (s s' : Store F) (c : TicketClaim F) (r : MatchAttemptResult F) (selection : RoomSelection F)
      → r.outcome ≡ Orchestration.matched
      → r.selection ≡ some selection
      → Same s s'
        ⊎ (HasHeld s c.ticket.id c.token (clock c.ticket.id)
            × Joins s s' c.ticket.id selection.room_id)
      → Carries s c r s'
  joined-Carries s s' c r selection o e (inl same) = inl same
  joined-Carries s s' c r selection o e (inr (held, joins)) =
      inr (held, inr (selection, o, e, joins))

  transacted-Carries :
      (s : Store F) (c : TicketClaim F) (at : Time) (r : MatchAttemptResult F)
      (selection : RoomSelection F) (result : Result Tickets.Error (Assignment × Store F))
      → r.outcome ≡ Orchestration.matched
      → r.selection ≡ some selection
      → Same s (transact s result).1
        ⊎ (HasHeld s c.ticket.id c.token (clock c.ticket.id)
            × Joins s (transact s result).1 c.ticket.id selection.room_id)
      → Carries s c r
          (after_assign hashed model
            (attempt_repository sha256 decode locked clock)
            (queue_repository sha256 decode locked clock)
            (ticket_lifecycle sha256 decode locked clock)
            stale_retry_delay
            (transact s result).1
            c
            at
            (transact s result).0).1
  unfolding after_assign
  transacted-Carries s c at r selection (ok (a, s')) o e h = joined-Carries s s' c r selection o e h
  transacted-Carries s c at r selection (err x) o e h =
      kept-Carries s
        (after_assign hashed model (attempt_repository sha256 decode locked clock)
          (queue_repository sha256 decode locked clock)
          (ticket_lifecycle sha256 decode locked clock) stale_retry_delay {A = Assignment} s c at
          (err x)).1
        c r (after_assign-err {A = Assignment} s c at (err x))

  assign-Carries :
      (s : Store F) (c : TicketClaim F) (at : Time) (r : MatchAttemptResult F)
      (selection : Option (RoomSelection F))
      → is_empty c.token ≡ false
      → r.outcome ≡ Orchestration.matched
      → r.selection ≡ selection
      → Carries s c r
          (assign hashed model
            (attempt_repository sha256 decode locked clock)
            (queue_repository sha256 decode locked clock)
            (ticket_lifecycle sha256 decode locked clock)
            stale_retry_delay
            s
            c
            selection
            at).1
  unfolding assign assign_command assign_ticket
  assign-Carries s c at r none given o e = inl (refl, (refl, refl))
  assign-Carries s c at r (some selection) given o e =
      let command = assign_command hashed c selection at in
      subst
        (λ x.
          Carries s c r
            (after_assign hashed model (attempt_repository sha256 decode locked clock)
              (queue_repository sha256 decode locked clock)
              (ticket_lifecycle sha256 decode locked clock) stale_retry_delay x.1 c at x.0).1)
        (sym (service_assign_lem sha256 clock s command))
        (transacted-Carries s c at r selection
          (assign_in_transaction sha256 s command (clock command.ticket_id)) o e
          (assign_lem sha256 s command (clock command.ticket_id) given))

  retry-Carries :
      (s : Store F) (c : TicketClaim F) (r : MatchAttemptResult F) (t : Option Time)
      → Carries s c r
          (retry hashed model
            (attempt_repository sha256 decode locked clock)
            (queue_repository sha256 decode locked clock)
            (ticket_lifecycle sha256 decode locked clock)
            stale_retry_delay
            s
            c
            t).1
  unfolding retry
  retry-Carries s c r none = inl (refl, (refl, refl))
  retry-Carries s c r (some t) =
      kept-Carries s (schedule_ticket_retry s c.ticket.id c.token t (clock c.ticket.id)).1 c r
        (schedule_lem s c.ticket.id c.token t (clock c.ticket.id))

  carry_out-Carries :
      (s : Store F) (c : TicketClaim F) (at : Time) (r : MatchAttemptResult F)
      (outcome : AttemptOutcome)
      → is_empty c.token ≡ false
      → r.outcome ≡ outcome
      → Carries s c r
          (carry_out hashed model
            (attempt_repository sha256 decode locked clock)
            (queue_repository sha256 decode locked clock)
            (ticket_lifecycle sha256 decode locked clock)
            stale_retry_delay
            s
            c
            at
            outcome
            r).1
  unfolding carry_out expire_command
  carry_out-Carries s c at r Orchestration.matched given o =
      assign-Carries s c at r r.selection given o refl
  carry_out-Carries s c at r Orchestration.retry_scheduled given o = retry-Carries s c r r.retry_at
  carry_out-Carries s c at r Orchestration.timed_out given o =
      let command = expire_command hashed c r.deadline at in
      subst (λ x. Carries s c r x.1) (sym (service_expire_lem sha256 clock s command))
        (kept-Carries s (expire_ticket sha256 s command (clock command.ticket_id)).1 c r
          (expire_lem sha256 s command (clock command.ticket_id)))

  -- The claim has been checked before a decision.
  decided_token :
      (s : Store F) (c : TicketClaim F) (at : Time) (r : MatchAttemptResult F)
      → decided s c at ≡ ok r
      → is_empty c.token ≡ false
  unfolding evaluate_claim validate_ticket_claim
  decided_token s c at r h =
      let (_, first, _) = >>=-ok (validate_ticket_claim c) _ h in
      let (complete, _) =
        fail_if-ok (is_empty c.token || (c.attempt == 0) || is_zero c.lease_until)
          Queue.claim_incomplete _ first in
      ground (arith, complete)

  handled-Carries :
      (s : Store F) (c : TicketClaim F) (at : Time) (x : Result Error (MatchAttemptResult F))
      → decided s c at ≡ x
      → let s' =
          (handle_evaluated hashed model
            (attempt_repository sha256 decode locked clock)
            (queue_repository sha256 decode locked clock)
            (ticket_lifecycle sha256 decode locked clock)
            stale_retry_delay
            s
            c
            at
            x).1 in
        (s' ≡ s) ⊎ ((r : MatchAttemptResult F) × (decided s c at ≡ ok r) × Carries s c r s')
  unfolding handle_evaluated
  handled-Carries s c at (err e) h = inl refl
  handled-Carries s c at (ok r) h =
      inr (r, h, carry_out-Carries s c at r r.outcome (decided_token s c at r h) refl)

  -- Handling a claim on the database, whatever the rating model predicts: the store is as before, or the
  -- worker has decided a result for the claim. Then the tickets, the rooms and the memberships are as
  -- before, or the ticket of the claim was stored in the queue under the token of the claim with a
  -- lease that ends after the time of the database; and then the rooms and the memberships are as before,
  -- or the outcome is a match and one membership is added, of that ticket in the selected room.
  pub handle_fenced :
      (s : Store F) (c : TicketClaim F) (at : Time)
      → let s' =
          (handle_stored sha256 decode locked clock hashed model stale_retry_delay s c at).1 in
        (s' ≡ s) ⊎ ((r : MatchAttemptResult F) × (decided s c at ≡ ok r) × Carries s c r s')
  unfolding handle
  handle_fenced s c at = handled-Carries s c at (decided s c at) refl
