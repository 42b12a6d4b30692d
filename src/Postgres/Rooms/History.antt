-- ===== src/Postgres/Rooms/History.antt =====
-- Every history of commands keeps the rooms seated.
use solitaire_matchmaking.Base.{
  ◌⊎◌, ◌≡◌, refl, inl, inr, ap, ◌∙◌, not, ◌||◌, Option, none, some, List, [], ◌∷◌, ◌++◌, String, ok,
  Bool-cases, >>=-ok, fail_if-ok, ok_injective, subst,
}
use solitaire_matchmaking.Base.Int.{pos}
use solitaire_matchmaking.Base.Time.{Time}
use solitaire_matchmaking.Base.Float.{Float}
use solitaire_matchmaking.Tournament.Model.{Ticket, TicketStatus}
use solitaire_matchmaking.Tournament.Tickets.{
  Error, AssignTicketCommand, Assignment, Digest, assign_digest,
}
use solitaire_matchmaking.Postgres.Tables.{
  StoredTicket, OutboxEvent, Store, exists, load_ticket_by_id, close_ticket, insert_outbox,
}
use solitaire_matchmaking.Postgres.Tables.Rows.{insert_outbox-ok}
use solitaire_matchmaking.Postgres.Assignment.{StoredAssignment, load_assignment_by_identity}
use solitaire_matchmaking.Postgres.Assign.{assign_stored, assign_in_transaction}
use solitaire_matchmaking.Postgres.Assign.Writes.{Seats, seats_lem}
use solitaire_matchmaking.Postgres.Tickets.{
  cancel_in_transaction, accept_in_transaction, expire_in_transaction, cancel_ticket, accept_ticket,
  expire_ticket,
}
use solitaire_matchmaking.Postgres.Assign.{assign_ticket}
use solitaire_matchmaking.Tournament.Tickets.{
  CancelTicketCommand, ExpireTicketCommand, AcceptTicketCommand, is_queued, ticket_not_queued,
}
use solitaire_matchmaking.Postgres.Tables.Rows.{insert_command-ok}
use solitaire_matchmaking.Postgres.Tickets.Life.{replayed_lem, replay-same}
use solitaire_matchmaking.Postgres.Commands.{
  Command, accepting, cancelling, expiring, assigning, step, run, run_lem, transact_lem, same_lem,
}
use solitaire_matchmaking.Postgres.Rooms.{AreSeated, Seats-AreSeated}
use solitaire_matchmaking.Postgres.Tables.{CommandRow, insert_command}
use solitaire_matchmaking.Postgres.Tickets.{
  cancel_by_status, cancel_stored, expire_stored, expire_claimed, insert_ticket, cancellation,
  cancellation_event, cancelled_ticket, expiry, expiry_event, expired_ticket, accepted_row,
  acceptance_event, is_config, owns_active_claim,
}
use solitaire_matchmaking.Tournament.Tickets.{
  TicketMutation, idempotency_conflict, ticket_claim_lost, tournament_not_found, cancel_digest,
  expire_digest, accept_digest,
}
use solitaire_matchmaking.Tournament.Model.{queued, assigned, cancelled, expired, other}
use solitaire_matchmaking.Postgres.Tables.{
  has_ticket_id, has_entry_id, load_ticket_by_entry, load_command,
}

module _ {F : Type 0} where
  -- The rooms and their memberships are as before.
  abbrev pub Keeps : (s s' : Store F) → Type 0
  Keeps s s' = (s'.memberships ≡ s.memberships) × (s'.rooms ≡ s.rooms)

  pub kept_lem : (s s' : Store F) → Keeps s s' → AreSeated s → AreSeated s'
  kept_lem s s' (m, r) h = record {
    distinct = rw m h.distinct;
    in_range = rw m h.in_range;
    counted = rw (m, r) h.counted;
  }

  written_lem :
      (c : CommandRow) (e : OutboxEvent) (x y : Error) (s : Store F) {s₁ s₂ : Store F}
      → insert_command c x s ≡ ok s₁
      → insert_outbox e y s₁ ≡ ok s₂
      → Keeps s s₂
  written_lem c e x y s {s₁} {s₂} h k =
      let one = (insert_command-ok c x s h).1 in
      let two = insert_outbox-ok e y s₁ k in
      (
        ap (λ r. r.memberships) two ∙ ap (λ r. r.memberships) one,
        ap (λ r. r.rooms) two ∙ ap (λ r. r.rooms) one,
      )

  pub all_same : (s : Store F) {s' : Store F} → s' ≡ s → Keeps s s'
  all_same s e = (ap (λ r. r.memberships) e, ap (λ r. r.rooms) e)

  -- What a ticket command does to the rooms: nothing, or a new assignment.
  abbrev pub Effect : (s s' : Store F) → Type 0
  Effect s s' =
      Keeps s s'
      ⊎ ((c : AssignTicketCommand) × (digest : String) × (clock : Time) × (a : Assignment) × Seats s
            c digest clock a s')

module _ {F : Type 0} ⦃fl : Float F⦄ (sha256 : Digest F) where
  cancel_by_status-Keeps :
      (s : Store F) (c : CancelTicketCommand) (digest : String) (t : Ticket F)
      (status : TicketStatus) {m : TicketMutation F} {s' : Store F}
      → cancel_by_status sha256 s c digest t status ≡ ok (m, s')
      → Keeps s s'
  unfolding cancel_by_status close_ticket
  cancel_by_status-Keeps s c digest t queued r =
      let t' = cancelled_ticket sha256 c t in
      let row = cancellation sha256 c digest in
      let event = cancellation_event sha256 c t' in
      let (s₁, first, rest) =
        >>=-ok (insert_command row idempotency_conflict (close_ticket t' s)) _ r in
      let (s₂, second, last) = >>=-ok (insert_outbox event idempotency_conflict s₁) _ rest in
      subst (Keeps s) (ap (λ x. x.1) (ok_injective last)) (
        written_lem row event idempotency_conflict idempotency_conflict (close_ticket t' s) first
          second)
  cancel_by_status-Keeps s c digest t cancelled r =
      let row = cancellation sha256 c digest in
      let (s₁, first, last) = >>=-ok (insert_command row idempotency_conflict s) _ r in
      let one = (insert_command-ok row idempotency_conflict s first).1 in
      subst (Keeps s) (ap (λ x. x.1) (ok_injective last))
        (ap (λ r. r.memberships) one, ap (λ r. r.rooms) one)
  cancel_by_status-Keeps s c digest t assigned r = cc
  cancel_by_status-Keeps s c digest t expired r = cc
  cancel_by_status-Keeps s c digest t (other x) r = cc

  cancel_stored-Keeps :
      (s : Store F) (c : CancelTicketCommand) (digest : String) (stored : Option (StoredTicket F))
      (recorded : Option CommandRow) {m : TicketMutation F} {s' : Store F}
      → cancel_stored sha256 s c digest stored recorded ≡ ok (m, s')
      → Keeps s s'
  unfolding cancel_stored
  cancel_stored-Keeps s c digest none recorded r = cc
  cancel_stored-Keeps s c digest (some stored) (some row) r =
      all_same s (replay-same sha256 s stored.ticket digest row r).0
  cancel_stored-Keeps s c digest (some stored) none r =
      cancel_by_status-Keeps s c digest stored.ticket stored.ticket.status r

  pub expire_stored-Keeps :
      (s : Store F) (c : ExpireTicketCommand) (digest : String) (clock : Time)
      (stored : Option (StoredTicket F)) (recorded : Option CommandRow) {m : TicketMutation F}
      {s' : Store F}
      → expire_stored sha256 s c digest clock stored recorded ≡ ok (m, s')
      → Keeps s s'
  unfolding expire_stored expire_claimed close_ticket
  expire_stored-Keeps s c digest clock none recorded r = cc
  expire_stored-Keeps s c digest clock (some stored) (some row) r =
      all_same s (replay-same sha256 s stored.ticket digest row r).0
  expire_stored-Keeps s c digest clock (some stored) none r =
      let t = expired_ticket sha256 c stored.ticket in
      let row = expiry sha256 c digest in
      let event = expiry_event sha256 c t in
      let (_, rest) = fail_if-ok (not (is_queued stored.ticket.status)) ticket_not_queued _ r in
      let (_, rest₂) =
        fail_if-ok (not (owns_active_claim stored c.claim_token clock)) ticket_claim_lost _ rest in
      let (s₁, first, rest₃) =
        >>=-ok (insert_command row idempotency_conflict (close_ticket t s)) _ rest₂ in
      let (s₂, second, last) = >>=-ok (insert_outbox event idempotency_conflict s₁) _ rest₃ in
      subst (Keeps s) (ap (λ x. x.1) (ok_injective last)) (
        written_lem row event idempotency_conflict idempotency_conflict (close_ticket t s) first
          second)

  insert_ticket-Keeps :
      (s : Store F) (c : AcceptTicketCommand F) (digest : String) {m : TicketMutation F}
      {s' : Store F}
      → insert_ticket sha256 s c digest ≡ ok (m, s')
      → Keeps s s'
  unfolding insert_ticket
  insert_ticket-Keeps s c digest r =
      let t = record (c.ticket) { aggregate_version = pos 1 } in
      let (_, rest) = fail_if-ok (not (exists (is_config t) s.configs)) tournament_not_found _ r in
      let s₀ = record s { tickets = s.tickets ++ accepted_row sha256 t digest ∷ [] } in
      let event = acceptance_event sha256 c.event_id t in
      let (s₁, first, last) = >>=-ok (insert_outbox event idempotency_conflict s₀) _ rest in
      let one = insert_outbox-ok event idempotency_conflict s₀ first in
      subst (Keeps s) (ap (λ x. x.1) (ok_injective last))
        (ap (λ r. r.memberships) one, ap (λ r. r.rooms) one)

  accept-Keeps :
      (s : Store F) (c : AcceptTicketCommand F) {m : TicketMutation F} {s' : Store F}
      → accept_in_transaction sha256 s c ≡ ok (m, s')
      → Keeps s s'
  unfolding accept_in_transaction
  accept-Keeps s c r =
      let (digest, _, rest) = >>=-ok (accept_digest sha256 c) _ r in
      let taken =
        exists (has_ticket_id c.ticket.id) s.tickets
        || exists (has_entry_id c.ticket.entry_id) s.tickets in
      elim (Bool-cases taken) [
        | inl y ↦
            all_same s
              (replayed_lem sha256 s digest (load_ticket_by_entry c.ticket.entry_id s)
                (rw y at rest)).0
        | inr n ↦ insert_ticket-Keeps s c digest (rw n at rest)
      ]

  assign-Effect :
      (s : Store F) (c : AssignTicketCommand) (digest : String) (clock : Time)
      (found : Option StoredAssignment) {a : Assignment} {s' : Store F}
      → assign_stored s c digest clock found ≡ ok (a, s')
      → Effect s s'
  unfolding assign_stored
  assign-Effect s c digest clock (some stored) r = inl (all_same s (same_lem s c digest stored r))
  assign-Effect s c digest clock none {a} r =
      inr (c, digest, clock, a, seats_lem s c digest clock r)

  pub step-Effect : (s : Store F) (c : Command F) → Effect s (step sha256 s c)
  unfolding step accept_ticket cancel_ticket expire_ticket assign_ticket cancel_in_transaction
      expire_in_transaction assign_in_transaction
  step-Effect s (accepting c) =
      transact_lem (Effect s) s (accept_in_transaction sha256 s c) (inl (refl, refl))
        (λ a s' r. inl (accept-Keeps s c r))
  step-Effect s (cancelling c) =
      transact_lem (Effect s) s (cancel_in_transaction sha256 s c) (inl (refl, refl)) (λ a s' r.
        let (digest, _, rest) =
          >>=-ok (cancel_digest sha256 c)
            (λ d.
              cancel_stored sha256 s c d (load_ticket_by_id c.ticket_id s)
                (load_command c.ticket_id c.command_id s))
            r in
        inl (
          cancel_stored-Keeps s c digest (load_ticket_by_id c.ticket_id s)
            (load_command c.ticket_id c.command_id s) rest))
  step-Effect s (expiring c clock) =
      transact_lem (Effect s) s (expire_in_transaction sha256 s c clock) (inl (refl, refl))
        (λ a s' r.
          let (digest, _, rest) =
            >>=-ok (expire_digest sha256 c)
              (λ d.
                expire_stored sha256 s c d clock (load_ticket_by_id c.ticket_id s)
                  (load_command c.ticket_id c.command_id s))
              r in
          inl (
            expire_stored-Keeps s c digest clock (load_ticket_by_id c.ticket_id s)
              (load_command c.ticket_id c.command_id s) rest))
  step-Effect s (assigning c clock) =
      transact_lem (Effect s) s (assign_in_transaction sha256 s c clock) (inl (refl, refl))
        (λ a s' r.
          let (digest, _, rest) =
            >>=-ok (assign_digest sha256 c)
              (λ d. assign_stored s c d clock (load_assignment_by_identity c.assignment_id s)) r in
          assign-Effect s c digest clock (load_assignment_by_identity c.assignment_id s) rest)

  pub step-AreSeated : (s : Store F) (c : Command F) → AreSeated s → AreSeated (step sha256 s c)
  step-AreSeated s c h = elim (step-Effect s c) [
    | inl k ↦ kept_lem s (step sha256 s c) k h
    | inr (c', digest, clock, a, e) ↦ Seats-AreSeated s (step sha256 s c) c' digest clock a e h
  ]

  -- If no two memberships share a ticket, an assignment, or a seat or a player of one room, every seat
  -- is between 1 and the capacity, and each room has fewer members than its capacity while it is
  -- forming, exactly its capacity while it is collecting, and at most its capacity otherwise, then all
  -- of this still holds after every sequence of accept, cancel, expire and assign commands.
  pub rooms_stay_seated :
      (s : Store F) (cs : List (Command F)) → AreSeated s → AreSeated (run sha256 s cs)
  rooms_stay_seated s cs h = run_lem sha256 AreSeated s cs (λ x c k. step-AreSeated x c k) h
