-- ===== src/Postgres/Commands.antt =====
-- The commands as the transactions of one history, and the life of a ticket in it.
use solitaire_matchmaking.Base.{
  ◌≡◌, inl, inr, refl, sym, ap, ◌∙◌, true, false, Option, none, some, List, [], ◌∷◌, String, Result,
  ok, err, arith, Bool-cases, >>=-ok, subst,
}
use solitaire_matchmaking.Base.Time.{Time, before, after}
use solitaire_matchmaking.Base.Float.{Float}
use solitaire_matchmaking.Tournament.Model.{
  TicketStatus, queued, assigned, cancelled, expired, other,
}
use solitaire_matchmaking.Tournament.Tickets.{
  AssignTicketCommand, Assignment, Digest, assign_digest,
}
use solitaire_matchmaking.Postgres.Tables.{StoredTicket, Store, load_ticket_by_id}
use solitaire_matchmaking.Postgres.Assignment.{
  StoredAssignment, load_assignment_by_identity, replay_assignment, check_ticket, assigned_ticket,
}
use solitaire_matchmaking.Postgres.Assign.{assign_stored, assign_in_transaction}
use solitaire_matchmaking.Postgres.Assign.Writes.{seats_lem}
use solitaire_matchmaking.Postgres.Tickets.Life.{
  Follows, Leaves, close-Follows, is_terminal, cancel-Follows, accept-Follows, expire-Follows,
}
use solitaire_matchmaking.Postgres.Tickets.{transact, cancel_ticket, accept_ticket, expire_ticket}
use solitaire_matchmaking.Postgres.Assign.{assign_ticket}
use solitaire_matchmaking.Tournament.Tickets.{
  CancelTicketCommand, ExpireTicketCommand, AcceptTicketCommand, is_queued,
}

module _ {F : Type 0} where
  queued_lem :
      (stored : StoredTicket F) (c : AssignTicketCommand) (clock : Time)
      → check_ticket stored c clock ≡ ok tt
      → is_queued stored.ticket.status ≡ true
  unfolding check_ticket
  queued_lem stored c clock h = ground (arith, Bool-cases (is_queued stored.ticket.status))

  pub same_lem :
      (s : Store F) (c : AssignTicketCommand) (digest : String) (stored : StoredAssignment)
      {a : Assignment} {s' : Store F}
      → replay_assignment s c digest stored ≡ ok (a, s')
      → s' ≡ s
  unfolding replay_assignment
  same_lem s c digest stored h = ground arith

  assign_stored-Follows :
      (s : Store F) (c : AssignTicketCommand) (digest id : String) (clock : Time)
      (found : Option StoredAssignment) {old : StoredTicket F} {a : Assignment} {s' : Store F}
      → load_ticket_by_id id s ≡ some old
      → assign_stored s c digest clock found ≡ ok (a, s')
      → Follows id old s'
  unfolding assign_stored
  assign_stored-Follows s c digest id clock (some stored) {old = old} h r =
      (old, ap (load_ticket_by_id id) (same_lem s c digest stored r) ∙ h, inl refl)
  assign_stored-Follows s c digest id clock none {s' = s'} h r =
      let e = seats_lem s c digest clock r in
      close-Follows id c.ticket_id s s' (assigned_ticket c e.stored.ticket) h e.ticket_found
        e.tickets (queued_lem e.stored c clock e.ticket_checked) refl refl refl refl refl

  pub assign-Follows :
      (sha256 : Digest F) (s : Store F) (c : AssignTicketCommand) (clock : Time) (id : String)
      {old : StoredTicket F} {a : Assignment} {s' : Store F}
      → load_ticket_by_id id s ≡ some old
      → assign_in_transaction sha256 s c clock ≡ ok (a, s')
      → Follows id old s'
  unfolding assign_in_transaction
  assign-Follows sha256 s c clock id h r =
      let (digest, _, rest) = >>=-ok (assign_digest sha256 c) _ r in
      assign_stored-Follows s c digest id clock (load_assignment_by_identity c.assignment_id s) h
        rest

  -- What holds of the store before and after each committed transaction.
  pub transact_lem :
      {E A : Type 0} (P : Store F → Type 0) (s : Store F) (r : Result E (A × Store F))
      → P s
      → ((a : A) (s' : Store F) → r ≡ ok (a, s') → P s')
      → P ((transact s r).1)
  transact_lem P s (err e) before after = before
  transact_lem P s (ok (a, s')) before after = after a s' refl

pub data Command (F : Type 0) : Type 0 where
  accepting : AcceptTicketCommand F → Command F
  cancelling : CancelTicketCommand → Command F
  expiring : ExpireTicketCommand → (clock : Time) → Command F
  assigning : AssignTicketCommand → (clock : Time) → Command F

module _ {F : Type 0} ⦃fl : Float F⦄ (sha256 : Digest F) where
  -- The store after a command, with the time of the database clock where the command reads it.
  unfoldable pub step : Store F → Command F → Store F
  step s (accepting c) = (accept_ticket sha256 s c).1
  step s (cancelling c) = (cancel_ticket sha256 s c).1
  step s (expiring c clock) = (expire_ticket sha256 s c clock).1
  step s (assigning c clock) = (assign_ticket sha256 s c clock).1

  unfoldable pub run : Store F → List (Command F) → Store F
  run s [] = s
  run s (c ∷ cs) = run (step s c) cs

  -- A property that every command keeps holds after any sequence of commands.
  pub run_lem :
      (P : Store F → Type 0) (s : Store F) (cs : List (Command F))
      → ((x : Store F) (c : Command F) → P x → P (step x c))
      → P s
      → P (run s cs)
  unfolding run
  run_lem P s [] keeps h = h
  run_lem P s (c ∷ cs) keeps h = run_lem P (step s c) cs keeps (keeps s c h)

  step-Follows :
      (s : Store F) (c : Command F) (id : String) {old : StoredTicket F}
      → load_ticket_by_id id s ≡ some old
      → Follows id old (step s c)
  unfolding step accept_ticket cancel_ticket expire_ticket assign_ticket
  step-Follows s (accepting c) id {old} h =
      transact_lem (Follows id old) s _ (old, h, inl refl)
        (λ a s' r. accept-Follows sha256 s c id h r)
  step-Follows s (cancelling c) id {old} h =
      transact_lem (Follows id old) s _ (old, h, inl refl)
        (λ a s' r. cancel-Follows sha256 s c id h r)
  step-Follows s (expiring c clock) id {old} h =
      transact_lem (Follows id old) s _ (old, h, inl refl)
        (λ a s' r. expire-Follows sha256 s c clock id h r)
  step-Follows s (assigning c clock) id {old} h =
      transact_lem (Follows id old) s _ (old, h, inl refl)
        (λ a s' r. assign-Follows sha256 s c clock id h r)

  terminal_lem : (t : TicketStatus) → is_terminal t ≡ true → is_queued t ≡ false
  terminal_lem queued h = cc
  terminal_lem assigned h = refl
  terminal_lem cancelled h = refl
  terminal_lem expired h = refl
  terminal_lem (other x) h = refl

  further_lem :
      (id : String) (s s' : Store F) {old : StoredTicket F}
      → Follows id old s
      → ((x : StoredTicket F) → load_ticket_by_id id s ≡ some x → Follows id x s')
      → Follows id old s'
  further_lem id s s' (mid, g, inl same) on =
      let (new, h, k) = on mid g in
      (new, h, elim k [ inl e ↦ inl (e ∙ same) | inr l ↦ inr (subst (λ x. Leaves x new) same l) ])
  further_lem id s s' {old} (mid, g, inr left) on =
      let (new, h, k) = on mid g in
      (
        new,
        h,
        elim k [
          | inl e ↦ inr (subst (λ x. Leaves old x) (sym e) left)
          | inr l ↦ absurd (ground (arith, l.was_queued, terminal_lem mid.ticket.status left.final))
        ],
      )

  -- For every sequence of accept, cancel, expire and assign commands, a ticket of the store is found
  -- under its id at the end, and either its row is unchanged, or it was queued and has left the queue
  -- once: its status is assigned, cancelled or expired, its version is the next one, its id, entry,
  -- player and request digest are kept, and it has neither a claim nor a next attempt.
  pub ticket_life :
      (s : Store F) (cs : List (Command F)) (id : String) {old : StoredTicket F}
      → load_ticket_by_id id s ≡ some old
      → Follows id old (run s cs)
  ticket_life s cs id {old} h =
      run_lem (Follows id old) s cs
        (λ x c f. further_lem id x (step x c) f (λ y g. step-Follows x c id g)) (old, h, inl refl)
