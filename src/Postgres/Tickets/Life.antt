-- ===== src/Postgres/Tickets/Life.antt =====
-- The life of a ticket: what each command does to any ticket of the store.
use solitaire_matchmaking.Base.{
  ◌≡◌, ◌⊎◌, inl, inr, refl, sym, ap, ◌∙◌, Bool, true, false, not, ◌||◌, Option, none, some, [], ◌∷◌,
  ◌++◌, String, str_eq, ok, arith, Bool-cases, eq_iff, >>=-ok, fail_if-ok, ok_injective,
}
use solitaire_matchmaking.Base.Int.{pos}
use solitaire_matchmaking.Base.Time.{Time}
use solitaire_matchmaking.Base.Float.{Float}
use solitaire_matchmaking.Tournament.Model.{
  Ticket, TicketStatus, queued, assigned, cancelled, expired, other,
}
use solitaire_matchmaking.Tournament.Tickets.{
  Error, AcceptTicketCommand, CancelTicketCommand, ExpireTicketCommand, TicketMutation, Digest,
  accept_digest, cancel_digest, expire_digest, is_queued, idempotency_conflict, ticket_not_queued,
  ticket_claim_lost, tournament_not_found,
}
use solitaire_matchmaking.Postgres.Tables.{
  StoredTicket, CommandRow, Store, OutboxEvent, find, load_ticket_by_id, load_ticket_by_entry,
  load_command, close_ticket, insert_command, insert_outbox, exists, has_ticket_id, has_entry_id,
}
use solitaire_matchmaking.Postgres.Tables.Rows.{
  find_old, find_passes, load_ticket-close, insert_outbox-ok, insert_command-ok,
}
use solitaire_matchmaking.Postgres.Tickets.{
  next_version, accept_in_transaction, insert_ticket, replay_acceptance, cancel_in_transaction,
  cancel_stored, cancel_by_status, replay_command, cancelled_ticket, expire_in_transaction,
  expire_stored, expire_claimed, expired_ticket, owns_active_claim, cancellation,
  cancellation_event, expiry, expiry_event, accepted_row, acceptance_event, is_config,
}

abbrev pub is_terminal : TicketStatus → Bool
is_terminal assigned = true
is_terminal cancelled = true
is_terminal expired = true
is_terminal _ = false

some_injective : {A : Type 0} {a b : A} → some a ≡ some b → a ≡ b
some_injective h = cc

module _ {F : Type 0} where
  -- A ticket leaves the queue for good: it was queued, its status is final, its version is the next
  -- one, its identity is kept, and no claim or retry is left.
  pub record Leaves (old new : StoredTicket F) : Type 0 where
    pub was_queued : is_queued old.ticket.status ≡ true
    pub final : is_terminal new.ticket.status ≡ true
    pub next : new.ticket.aggregate_version ≡ next_version old.ticket.aggregate_version
    pub same_id : new.ticket.id ≡ old.ticket.id
    pub same_entry : new.ticket.entry_id ≡ old.ticket.entry_id
    pub same_player : new.ticket.player_id ≡ old.ticket.player_id
    pub same_digest : new.request_digest ≡ old.request_digest
    pub unclaimed : new.claim_token ≡ none
    pub unscheduled : new.next_attempt_at ≡ none

  -- What a command may do to the ticket with an identity that is in the store.
  abbrev pub Follows : String → StoredTicket F → Store F → Type 0
  Follows id old s =
      (new : StoredTicket F) × (load_ticket_by_id id s ≡ some new) × ((new ≡ old) ⊎ Leaves old new)

  -- Closing the stored ticket `k` with the values of a queued ticket of that identity.
  pub close-Follows :
      (id k : String) (s s' : Store F) (t : Ticket F) {old stored : StoredTicket F}
      → load_ticket_by_id id s ≡ some old
      → load_ticket_by_id k s ≡ some stored
      → s'.tickets ≡ (close_ticket t s).tickets
      → is_queued stored.ticket.status ≡ true
      → is_terminal t.status ≡ true
      → t.aggregate_version ≡ next_version stored.ticket.aggregate_version
      → t.id ≡ stored.ticket.id
      → t.entry_id ≡ stored.ticket.entry_id
      → t.player_id ≡ stored.ticket.player_id
      → Follows id old s'
  unfolding load_ticket_by_id
  close-Follows id k s s' t {old} {stored} h g same q f v v₀ e p =
      let old_id : old.ticket.id ≡ id =
        (eq_iff _ _).0 (find_passes (has_ticket_id id) s.tickets h) in
      let stored_id : stored.ticket.id ≡ k =
        (eq_iff _ _).0 (find_passes (has_ticket_id k) s.tickets g) in
      let read = ap (λ rows. find (has_ticket_id id) rows) same ∙ load_ticket-close id t s h in
      elim (Bool-cases (str_eq old.ticket.id t.id)) [
        | inr n ↦ (old, rw n at read, inl refl)
        | inl y ↦
            let same_id : old.ticket.id ≡ t.id = (eq_iff _ _).0 y in
            let one : some old ≡ some stored =
              sym h ∙ ap (λ x. load_ticket_by_id x s) (sym old_id ∙ same_id ∙ v₀ ∙ stored_id) ∙ g in
            let row : old ≡ stored = some_injective one in
            (
              _,
              rw y at read,
              inr (record {
                was_queued = ap (λ r. is_queued r.ticket.status) row ∙ q;
                final = f;
                next = v ∙ ap (λ r. next_version r.ticket.aggregate_version) (sym row);
                same_id = v₀ ∙ ap (λ r. r.ticket.id) (sym row);
                same_entry = e ∙ ap (λ r. r.ticket.entry_id) (sym row);
                same_player = p ∙ ap (λ r. r.ticket.player_id) (sym row);
                same_digest = refl;
                unclaimed = refl;
                unscheduled = refl;
              }),
            )
      ]

  -- The rows of the tickets are those of the store with the ticket closed.
  writes_tickets :
      (c : CommandRow) (e : OutboxEvent) (x y : Error) (s : Store F) {s₁ s₂ : Store F}
      → insert_command c x s ≡ ok s₁
      → insert_outbox e y s₁ ≡ ok s₂
      → s₂.tickets ≡ s.tickets
  writes_tickets c e x y s {s₁} h k =
      ap (λ r. r.tickets) (insert_outbox-ok e y s₁ k)
      ∙ ap (λ r. r.tickets) (insert_command-ok c x s h).1

module _ {F : Type 0} ⦃fl : Float F⦄ (sha256 : Digest F) where
  cancel_by_status-Follows :
      (s : Store F) (c : CancelTicketCommand) (digest id : String) (stored : StoredTicket F)
      (status : TicketStatus) {old : StoredTicket F} {m : TicketMutation F} {s' : Store F}
      → load_ticket_by_id id s ≡ some old
      → load_ticket_by_id c.ticket_id s ≡ some stored
      → stored.ticket.status ≡ status
      → cancel_by_status sha256 s c digest stored.ticket status ≡ ok (m, s')
      → Follows id old s'
  unfolding cancel_by_status load_ticket_by_id
  cancel_by_status-Follows s c digest id stored queued {s' = s'} h g e r =
      let t = cancelled_ticket sha256 c stored.ticket in
      let row = cancellation sha256 c digest in
      let event = cancellation_event sha256 c t in
      let (s₁, first, rest) =
        >>=-ok (insert_command row idempotency_conflict (close_ticket t s)) _ r in
      let (s₂, second, last) = >>=-ok (insert_outbox event idempotency_conflict s₁) _ rest in
      let same : s₂ ≡ s' = ap (λ x. x.1) (ok_injective last) in
      close-Follows id c.ticket_id s s' t h g
        (ap (λ x. x.tickets) (sym same)
          ∙ writes_tickets row event idempotency_conflict idempotency_conflict (close_ticket t s)
              first second)
        (rw e refl) refl refl refl refl refl
  cancel_by_status-Follows s c digest id stored cancelled {old = old} {s' = s'} h g e r =
      let row = cancellation sha256 c digest in
      let (s₁, first, last) = >>=-ok (insert_command row idempotency_conflict s) _ r in
      let same : s₁ ≡ s' = ap (λ x. x.1) (ok_injective last) in
      let rows : s'.tickets ≡ s.tickets =
        ap (λ x. x.tickets) (sym same)
        ∙ ap (λ x. x.tickets) (insert_command-ok row idempotency_conflict s first).1 in
      (old, ap (find (has_ticket_id id)) rows ∙ h, inl refl)
  cancel_by_status-Follows s c digest id stored assigned h g e r = cc
  cancel_by_status-Follows s c digest id stored expired h g e r = cc
  cancel_by_status-Follows s c digest id stored (other x) h g e r = cc

  pub replay-same :
      (s : Store F) (t : Ticket F) (digest : String) (recorded : CommandRow) {m : TicketMutation F}
      {s' : Store F}
      → replay_command s t digest recorded ≡ ok (m, s')
      → (s' ≡ s)
        × (m.ticket ≡ t)
        × (m.replay ≡ true)
        × (m.changed ≡ false)
        × (str_eq recorded.request_digest digest ≡ true)
  unfolding replay_command
  replay-same s t digest recorded h = ground arith

  cancel_stored-Follows :
      (s : Store F) (c : CancelTicketCommand) (digest id : String)
      (stored : Option (StoredTicket F)) (recorded : Option CommandRow) {old : StoredTicket F}
      {m : TicketMutation F} {s' : Store F}
      → load_ticket_by_id id s ≡ some old
      → load_ticket_by_id c.ticket_id s ≡ stored
      → cancel_stored sha256 s c digest stored recorded ≡ ok (m, s')
      → Follows id old s'
  unfolding cancel_stored
  cancel_stored-Follows s c digest id none recorded h g r = cc
  cancel_stored-Follows s c digest id (some stored) (some row) {old = old} h g r =
      (old, ap (load_ticket_by_id id) (replay-same s stored.ticket digest row r).0 ∙ h, inl refl)
  cancel_stored-Follows s c digest id (some stored) none h g r =
      cancel_by_status-Follows s c digest id stored stored.ticket.status h g refl r

  pub cancel-Follows :
      (s : Store F) (c : CancelTicketCommand) (id : String) {old : StoredTicket F}
      {m : TicketMutation F} {s' : Store F}
      → load_ticket_by_id id s ≡ some old
      → cancel_in_transaction sha256 s c ≡ ok (m, s')
      → Follows id old s'
  unfolding cancel_in_transaction
  cancel-Follows s c id h r =
      let (digest, _, rest) = >>=-ok (cancel_digest sha256 c) _ r in
      cancel_stored-Follows s c digest id (load_ticket_by_id c.ticket_id s)
        (load_command c.ticket_id c.command_id s) h refl rest

  -- An expiry goes through only with the active claim that it names.
  pub claimed_lem :
      (s : Store F) (c : ExpireTicketCommand) (digest : String) (clock : Time)
      (stored : StoredTicket F) {m : TicketMutation F} {s' : Store F}
      → expire_claimed sha256 s c digest clock stored ≡ ok (m, s')
      → (is_queued stored.ticket.status ≡ true)
        × (owns_active_claim stored c.claim_token clock ≡ true)
        × (m.ticket ≡ expired_ticket sha256 c stored.ticket)
        × (m.changed ≡ true)
        × (s'.tickets ≡ (close_ticket (expired_ticket sha256 c stored.ticket) s).tickets)
  unfolding expire_claimed
  claimed_lem s c digest clock stored {m} {s'} r =
      let t = expired_ticket sha256 c stored.ticket in
      let row = expiry sha256 c digest in
      let event = expiry_event sha256 c t in
      let (q, rest) = fail_if-ok (not (is_queued stored.ticket.status)) ticket_not_queued _ r in
      let (o, rest₂) =
        fail_if-ok (not (owns_active_claim stored c.claim_token clock)) ticket_claim_lost _ rest in
      let (s₁, first, rest₃) =
        >>=-ok (insert_command row idempotency_conflict (close_ticket t s)) _ rest₂ in
      let (s₂, second, last) = >>=-ok (insert_outbox event idempotency_conflict s₁) _ rest₃ in
      let same = ok_injective last in
      (
        ground (arith, q),
        ground (arith, o),
        ap (λ x. x.0.ticket) (sym same),
        ap (λ x. x.0.changed) (sym same),
        ap (λ x. x.1.tickets) (sym same)
            ∙ writes_tickets row event idempotency_conflict idempotency_conflict (close_ticket t s)
                first second,
      )

  expire_stored-Follows :
      (s : Store F) (c : ExpireTicketCommand) (digest id : String) (clock : Time)
      (stored : Option (StoredTicket F)) (recorded : Option CommandRow) {old : StoredTicket F}
      {m : TicketMutation F} {s' : Store F}
      → load_ticket_by_id id s ≡ some old
      → load_ticket_by_id c.ticket_id s ≡ stored
      → expire_stored sha256 s c digest clock stored recorded ≡ ok (m, s')
      → Follows id old s'
  unfolding expire_stored
  expire_stored-Follows s c digest id clock none recorded h g r = cc
  expire_stored-Follows s c digest id clock (some stored) (some row) {old = old} h g r =
      (old, ap (load_ticket_by_id id) (replay-same s stored.ticket digest row r).0 ∙ h, inl refl)
  expire_stored-Follows s c digest id clock (some stored) none {s' = s'} h g r =
      let (q, _, _, _, rows) = claimed_lem s c digest clock stored r in
      close-Follows id c.ticket_id s s' (expired_ticket sha256 c stored.ticket) h g rows q refl refl
        refl refl refl

  pub expire-Follows :
      (s : Store F) (c : ExpireTicketCommand) (clock : Time) (id : String) {old : StoredTicket F}
      {m : TicketMutation F} {s' : Store F}
      → load_ticket_by_id id s ≡ some old
      → expire_in_transaction sha256 s c clock ≡ ok (m, s')
      → Follows id old s'
  unfolding expire_in_transaction
  expire-Follows s c clock id h r =
      let (digest, _, rest) = >>=-ok (expire_digest sha256 c) _ r in
      expire_stored-Follows s c digest id clock (load_ticket_by_id c.ticket_id s)
        (load_command c.ticket_id c.command_id s) h refl rest

  pub inserted_lem :
      (s : Store F) (c : AcceptTicketCommand F) (digest : String) {m : TicketMutation F}
      {s' : Store F}
      → insert_ticket sha256 s c digest ≡ ok (m, s')
      → (m.changed ≡ true)
        × (m.ticket ≡ record (c.ticket) { aggregate_version = pos 1 })
        × (s'.tickets ≡ s.tickets ++ accepted_row sha256 m.ticket digest ∷ [])
  unfolding insert_ticket
  inserted_lem s c digest {m} {s'} r =
      let t = record (c.ticket) { aggregate_version = pos 1 } in
      let (_, rest) = fail_if-ok (not (exists (is_config t) s.configs)) tournament_not_found _ r in
      let s₀ = record s { tickets = s.tickets ++ accepted_row sha256 t digest ∷ [] } in
      let event = acceptance_event sha256 c.event_id t in
      let (s₁, first, last) = >>=-ok (insert_outbox event idempotency_conflict s₀) _ rest in
      let same = ok_injective last in
      let ticket : m.ticket ≡ t = ap (λ x. x.0.ticket) (sym same) in
      (
        ap (λ x. x.0.changed) (sym same),
        ticket,
        rw ticket (
            ap (λ x. x.1.tickets) (sym same)
            ∙ ap (λ x. x.tickets) (insert_outbox-ok event idempotency_conflict s₀ first)),
      )

  pub replayed_lem :
      (s : Store F) (digest : String) (stored : Option (StoredTicket F)) {m : TicketMutation F}
      {s' : Store F}
      → replay_acceptance sha256 s digest stored ≡ ok (m, s')
      → (s' ≡ s) × (m.replay ≡ true) × (m.changed ≡ false)
  unfolding replay_acceptance
  replayed_lem s digest none h = cc
  replayed_lem s digest (some stored) h = ground arith

  pub accept-Follows :
      (s : Store F) (c : AcceptTicketCommand F) (id : String) {old : StoredTicket F}
      {m : TicketMutation F} {s' : Store F}
      → load_ticket_by_id id s ≡ some old
      → accept_in_transaction sha256 s c ≡ ok (m, s')
      → Follows id old s'
  unfolding accept_in_transaction load_ticket_by_id
  accept-Follows s c id {old} {m} {s'} h r =
      let (digest, _, rest) = >>=-ok (accept_digest sha256 c) _ r in
      let taken =
        exists (has_ticket_id c.ticket.id) s.tickets
        || exists (has_entry_id c.ticket.entry_id) s.tickets in
      elim (Bool-cases taken) [
        | inl y ↦
            let replay =
              replayed_lem s digest (load_ticket_by_entry c.ticket.entry_id s) (rw y at rest) in
            (old, ap (λ x. find (has_ticket_id id) x.tickets) replay.0 ∙ h, inl refl)
        | inr n ↦
            let (_, _, rows) = inserted_lem s c digest (rw n at rest) in
            (
              old,
              ap (find (has_ticket_id id)) rows ∙ find_old (has_ticket_id id) s.tickets _ h,
              inl refl,
            )
      ]
