-- ===== src/Postgres/Tickets/Fencing.antt =====
-- A transaction that has succeeded, and an expiry that has changed a ticket.
use solitaire_matchmaking.Base.{
  ◌≡◌, refl, sym, ap, ◌∙◌, true, Option, none, some, String, str_eq, Result, ok, err, str_eq_refl,
  >>=-ok, ok_injective,
}
use solitaire_matchmaking.Base.Time.{Time}
use solitaire_matchmaking.Base.Float.{Float}
use solitaire_matchmaking.Tournament.Model.{Ticket, expired}
use solitaire_matchmaking.Tournament.Tickets.{
  ExpireTicketCommand, TicketMutation, Digest, expire_digest,
}
use solitaire_matchmaking.Postgres.Tables.{
  StoredTicket, CommandRow, Store, find, load_ticket_by_id, load_command, close_ticket,
  has_ticket_id,
}
use solitaire_matchmaking.Postgres.Tables.Rows.{load_ticket-close}
use solitaire_matchmaking.Postgres.Tickets.{
  transact, expire_in_transaction, expire_ticket, expire_stored, expired_ticket,
}
use solitaire_matchmaking.Postgres.Tickets.{next_version}
use solitaire_matchmaking.Postgres.Tickets.Claims.{IsHeld, owned_lem}
use solitaire_matchmaking.Postgres.Tickets.Life.{claimed_lem, replay-same}

module _ {F : Type 0} where
  pub transact-ok :
      {E A : Type 0} (s : Store F) (r : Result E (A × Store F)) {a : A} {s' : Store F}
      → transact s r ≡ (ok a, s')
      → r ≡ ok (a, s')
  transact-ok s (ok (b, s'')) h = rw (ok_injective (ap (λ x. x.0) h), ap (λ x. x.1) h) refl
  transact-ok s (err e) h = let e = ap (λ x. x.0) h in cc

  -- What an expiry that changes a ticket has found and written.
  pub record Expires (s : Store F) (c : ExpireTicketCommand) (clock : Time) (m : TicketMutation F)
      (s' : Store F) : Type 0 where
    pub stored : StoredTicket F
    pub found : load_ticket_by_id c.ticket_id s ≡ some stored
    pub held : IsHeld stored c.claim_token clock
    pub same_id : m.ticket.id ≡ stored.ticket.id
    pub expired : m.ticket.status ≡ expired
    pub at : m.ticket.expired_at ≡ some c.expired_at
    pub next : m.ticket.aggregate_version ≡ next_version stored.ticket.aggregate_version
    pub after : StoredTicket F
    pub written : load_ticket_by_id c.ticket_id s' ≡ some after
    pub ticket_after : after.ticket ≡ m.ticket
    pub unclaimed :
        (after.claim_token ≡ none) × (after.claimed_until ≡ none) × (after.next_attempt_at ≡ none)

  written_lem :
      (id : String) (s s' : Store F) (t : Ticket F) (stored : StoredTicket F)
      → load_ticket_by_id id s ≡ some stored
      → t.id ≡ stored.ticket.id
      → s'.tickets ≡ (close_ticket t s).tickets
      → load_ticket_by_id id s'
        ≡ some (record stored {
          ticket = t;
          claim_token = none;
          claimed_until = none;
          next_attempt_at = none;
        })
  unfolding load_ticket_by_id
  written_lem id s s' t stored g v rows =
      let same : str_eq stored.ticket.id t.id ≡ true = rw v (str_eq_refl stored.ticket.id) in
      let read = ap (find (has_ticket_id id)) rows ∙ load_ticket-close id t s g in rw same at read

module _ {F : Type 0} ⦃fl : Float F⦄ (sha256 : Digest F) where
  expires_lem :
      (s s' : Store F) (c : ExpireTicketCommand) (digest : String) (clock : Time)
      (found : Option (StoredTicket F)) (recorded : Option CommandRow) (m : TicketMutation F)
      → load_ticket_by_id c.ticket_id s ≡ found
      → expire_stored sha256 s c digest clock found recorded ≡ ok (m, s')
      → m.changed ≡ true
      → Expires s c clock m s'
  unfolding expire_stored
  expires_lem s s' c digest clock none recorded m g r k = cc
  expires_lem s s' c digest clock (some stored) (some row) m g r k =
      let (_, _, _, same, _) = replay-same sha256 s stored.ticket digest row r in cc
  expires_lem s s' c digest clock (some stored) none m g r k =
      let (q, o, t, _, rows) = claimed_lem sha256 s c digest clock stored r in
      record {
        stored = stored;
        found = g;
        held = owned_lem stored c.claim_token clock q o;
        same_id = ap (λ x. x.id) t;
        expired = ap (λ x. x.status) t;
        at = ap (λ x. x.expired_at) t;
        next = ap (λ x. x.aggregate_version) t;
        after = record stored {
          ticket = expired_ticket sha256 c stored.ticket;
          claim_token = none;
          claimed_until = none;
          next_attempt_at = none;
        };
        written =
            written_lem c.ticket_id s s' (expired_ticket sha256 c stored.ticket) stored g refl rows;
        ticket_after = sym t;
        unclaimed = (refl, refl, refl);
      }

  -- An expiry that changes a ticket found it stored in the queue, under the token of the command with a
  -- lease that ends after the time of the database. The result is that ticket, expired at the time of the
  -- command under its next version, and it is what is stored after it, without a claim or a retry.
  pub expire_ticket_fenced :
      (s : Store F) (c : ExpireTicketCommand) (clock : Time) {m : TicketMutation F} {s' : Store F}
      → expire_ticket sha256 s c clock ≡ (ok m, s')
      → m.changed ≡ true
      → Expires s c clock m s'
  unfolding expire_ticket expire_in_transaction
  expire_ticket_fenced s c clock {m} {s'} h changed =
      let (digest, _, rest) =
        >>=-ok (expire_digest sha256 c)
          (λ d.
            expire_stored sha256 s c d clock (load_ticket_by_id c.ticket_id s)
              (load_command c.ticket_id c.command_id s))
          (transact-ok s (expire_in_transaction sha256 s c clock) h) in
      expires_lem s s' c digest clock (load_ticket_by_id c.ticket_id s)
        (load_command c.ticket_id c.command_id s) m refl rest changed
