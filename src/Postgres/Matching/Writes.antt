-- ===== src/Postgres/Matching/Writes.antt =====
-- What each command of the worker may write to the tickets and the rooms of the database.
use solitaire_matchmaking.Base.{
  ◌≡◌, ◌<◌, ◌⊎◌, inl, inr, refl, ap, ◌∙◌, true, false, not, ◌&&◌, ◌||◌, Option, none, some, [], ◌∷◌,
  ◌++◌, String, str_eq, is_empty, Result, ok, err, arith, Bool-cases, In, eq_iff, >>=-ok,
  fail_if-ok,
}
use solitaire_matchmaking.Base.Time.{Time, is_zero}
use solitaire_matchmaking.Base.Float.{Float}
use solitaire_matchmaking.Tournament.Tickets.{
  Digest, AssignTicketCommand, ExpireTicketCommand, Assignment, TicketMutation, is_queued,
  expire_digest, assign_digest,
}
use solitaire_matchmaking.Postgres.Tables.{
  StoredTicket, MembershipRow, CommandRow, Store, exists, load_ticket_by_id, load_command,
}
use solitaire_matchmaking.Postgres.Tables.Keys.{exists_row}
use solitaire_matchmaking.Postgres.Assignment.{
  StoredAssignment, load_assignment_by_identity, check_ticket, lock_assignment_room,
}
use solitaire_matchmaking.Postgres.Tickets.{
  expire_ticket, owns_active_claim, transact, expire_in_transaction, expire_stored,
}
use solitaire_matchmaking.Postgres.Tickets.Claims.{IsHeld, queued_lem, owned_lem, load_ticket-In}
use solitaire_matchmaking.Postgres.Tickets.Life.{replay-same, claimed_lem}
use solitaire_matchmaking.Postgres.Assign.{assign_ticket, assign_in_transaction, assign_stored}
use solitaire_matchmaking.Postgres.Assign.Writes.{Seats, seats_lem}
use solitaire_matchmaking.Postgres.Commands.{same_lem}
use solitaire_matchmaking.Postgres.Tables.Rows.{find_passes}
use solitaire_matchmaking.Postgres.Rooms.{advance_lem}
use solitaire_matchmaking.Postgres.Rooms.History.{Keeps, all_same, expire_stored-Keeps}
use solitaire_matchmaking.Postgres.MatchmakingQueue.{
  leases, token_is, unleased, schedule_ticket_retry,
}

token_lem : (token : String) (x : Option String) → token_is token x ≡ true → x ≡ some token
token_lem token none h = cc
token_lem token (some held) h = ap some ((eq_iff _ _).0 h)

lease_lem :
    (clock : Time) (x : Option Time)
    → not (unleased clock x) ≡ true
    → (until : Time) × (x ≡ some until) × (clock < until)
lease_lem clock none h = cc
lease_lem clock (some until) h = (until, refl, ground (arith, h))

-- A transaction leaves the store that it returns, or the one that it started from.
transact_cases :
    {F E A : Type 0} (s : Store F) (r : Result E (A × Store F))
    → ((transact s r).1 ≡ s) ⊎ ((a : A) × (r ≡ ok (a, (transact s r).1)))
transact_cases s (ok (a, s')) = inr (a, refl)
transact_cases s (err e) = inl refl

module _ {F : Type 0} where
  -- A ticket with the identity is stored and held.
  abbrev pub HasHeld : Store F → (id token : String) → (clock : Time) → Type 0
  HasHeld s id token clock =
      (t : StoredTicket F) × In t s.tickets × (t.ticket.id ≡ id) × IsHeld t token clock

  -- Tickets and rooms are as before.
  abbrev pub Same : (s s' : Store F) → Type 0
  Same s s' = (s'.tickets ≡ s.tickets) × Keeps s s'

  all_same_lem : (s : Store F) {s' : Store F} → s' ≡ s → Same s s'
  all_same_lem s e = (ap (λ r. r.tickets) e, all_same s e)

  leases_lem :
      (id token : String) (clock : Time) (t : StoredTicket F)
      → leases id token clock t ≡ true
      → (t.ticket.id ≡ id) × IsHeld t token clock
  unfolding leases
  leases_lem id token clock t h = (
    (eq_iff t.ticket.id id).0 (ground (arith, h)),
    (
      queued_lem t.ticket.status (ground (arith, h)),
      token_lem token t.claim_token (ground (arith, h)),
      lease_lem clock t.claimed_until (ground (arith, h)),
    ),
  )

  -- A retry.
  pub schedule_lem :
      (s : Store F) (id token : String) (t clock : Time)
      → let s' = (schedule_ticket_retry s id token t clock).1 in
        Same s s' ⊎ (HasHeld s id token clock × Keeps s s')
  unfolding schedule_ticket_retry
  schedule_lem s id token t clock = elim (Bool-cases (is_empty id || is_empty token || is_zero t)) [
    | inl y ↦ rw y (inl (refl, (refl, refl)))
    | inr n ↦ elim (Bool-cases (exists (leases id token clock) s.tickets)) [
      | inr m ↦ rw n (rw m (inl (refl, (refl, refl))))
      | inl y ↦
          let (row, i, held) = exists_row (leases id token clock) s.tickets y in
          let (same, waits) = leases_lem id token clock row held in
          rw n (rw y (inr ((row, i, same, waits), (refl, refl))))
    ]
  ]

  ticket_checked :
      (t : StoredTicket F) (c : AssignTicketCommand) (clock : Time)
      → is_empty c.claim_token ≡ false
      → check_ticket t c clock ≡ ok tt
      → IsHeld t c.claim_token clock
  unfolding check_ticket
  ticket_checked t c clock given h =
      let (q, h₁) = fail_if-ok (not (is_queued t.ticket.status)) _ _ h in
      let (_, h₂) = fail_if-ok _ _ _ h₁ in
      let (o, _) =
        fail_if-ok (not (is_empty c.claim_token) && not (owns_active_claim t c.claim_token clock)) _
          _ h₂ in
      owned_lem t c.claim_token clock (ground (arith, q)) (ground (arith, given, o))

  -- A membership of the ticket in the room.
  abbrev pub Joins : (s s' : Store F) → (ticket_id room_id : String) → Type 0
  Joins s s' ticket_id room_id =
      (m : MembershipRow) × (s'.memberships ≡ s.memberships ++ m ∷ [])
      × (m.ticket_id ≡ ticket_id)
      × (m.room_id ≡ room_id)

  assigned_lem :
      (s s' : Store F) (c : AssignTicketCommand) (digest : String) (clock : Time) (a : Assignment)
      → is_empty c.claim_token ≡ false
      → Seats s c digest clock a s'
      → HasHeld s c.ticket_id c.claim_token clock × Joins s s' c.ticket_id c.room_id
  unfolding lock_assignment_room
  assigned_lem s s' c digest clock a given e =
      let (i, same) = load_ticket-In c.ticket_id s e.ticket_found in
      let (same_id, _, _) = advance_lem s e.room c.assigned_at _ e.room_advanced in
      (
        (e.stored, i, same, ticket_checked e.stored c clock given e.ticket_checked),
        (
          e.member,
          e.memberships,
          ap (λ x. x.ticket_id) e.member_is ∙ same,
          ap (λ x. x.room_id) e.member_is
              ∙ same_id
              ∙ (eq_iff _ _).0 (find_passes (λ r. str_eq r.id c.room_id) s.rooms e.room_found),
        ),
      )

  assign_stored_lem :
      (s s' : Store F) (c : AssignTicketCommand) (digest : String) (clock : Time) (a : Assignment)
      (found : Option StoredAssignment)
      → is_empty c.claim_token ≡ false
      → assign_stored s c digest clock found ≡ ok (a, s')
      → Same s s' ⊎ (HasHeld s c.ticket_id c.claim_token clock × Joins s s' c.ticket_id c.room_id)
  unfolding assign_stored
  assign_stored_lem s s' c digest clock a (some stored) given h =
      inl (all_same_lem s (same_lem s c digest stored h))
  assign_stored_lem s s' c digest clock a none given h =
      inr (assigned_lem s s' c digest clock a given (seats_lem s c digest clock h))

module _ {F : Type 0} ⦃fl : Float F⦄ (sha256 : Digest F) where
  pub assign_lem :
      (s : Store F) (c : AssignTicketCommand) (clock : Time)
      → is_empty c.claim_token ≡ false
      → let s' = (assign_ticket sha256 s c clock).1 in
        Same s s' ⊎ (HasHeld s c.ticket_id c.claim_token clock × Joins s s' c.ticket_id c.room_id)
  unfolding assign_ticket assign_in_transaction
  assign_lem s c clock given = elim (transact_cases s (assign_in_transaction sha256 s c clock)) [
    | inl same ↦ inl (all_same_lem s same)
    | inr (a, h) ↦
        let (digest, _, rest) =
          >>=-ok (assign_digest sha256 c)
            (λ d. assign_stored s c d clock (load_assignment_by_identity c.assignment_id s)) h in
        assign_stored_lem s _ c digest clock a (load_assignment_by_identity c.assignment_id s) given
          rest
  ]

  expire_stored_lem :
      (s s' : Store F) (c : ExpireTicketCommand) (digest : String) (clock : Time)
      (m : TicketMutation F) (found : Option (StoredTicket F)) (recorded : Option CommandRow)
      → load_ticket_by_id c.ticket_id s ≡ found
      → expire_stored sha256 s c digest clock found recorded ≡ ok (m, s')
      → Same s s' ⊎ (HasHeld s c.ticket_id c.claim_token clock × Keeps s s')
  unfolding expire_stored
  expire_stored_lem s s' c digest clock m none recorded g h = cc
  expire_stored_lem s s' c digest clock m (some stored) (some row) g h =
      inl (all_same_lem s (replay-same sha256 s stored.ticket digest row h).0)
  expire_stored_lem s s' c digest clock m (some stored) none g h =
      let (q, o, _, _, _) = claimed_lem sha256 s c digest clock stored h in
      let (i, same) = load_ticket-In c.ticket_id s g in
      inr (
        (stored, i, same, owned_lem stored c.claim_token clock q o),
        expire_stored-Keeps sha256 s c digest clock (some stored) none h,
      )

  pub expire_lem :
      (s : Store F) (c : ExpireTicketCommand) (clock : Time)
      → let s' = (expire_ticket sha256 s c clock).1 in
        Same s s' ⊎ (HasHeld s c.ticket_id c.claim_token clock × Keeps s s')
  unfolding expire_ticket expire_in_transaction
  expire_lem s c clock = elim (transact_cases s (expire_in_transaction sha256 s c clock)) [
    | inl same ↦ inl (all_same_lem s same)
    | inr (m, h) ↦
        let (digest, _, rest) =
          >>=-ok (expire_digest sha256 c)
            (λ d.
              expire_stored sha256 s c d clock (load_ticket_by_id c.ticket_id s)
                (load_command c.ticket_id c.command_id s))
            h in
        expire_stored_lem s _ c digest clock m (load_ticket_by_id c.ticket_id s)
          (load_command c.ticket_id c.command_id s) refl rest
  ]
