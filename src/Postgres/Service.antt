-- ===== src/Postgres/Service.antt =====
-- The ticket service of internal/tournament over the ticket store of internal/postgres.
use solitaire_matchmaking.Base.{◌≡◌, refl, String, Result, ok, err, ◌>>=◌, ◌>>◌}
use solitaire_matchmaking.Base.Time.{Time}
use solitaire_matchmaking.Base.Float.{Float}
use solitaire_matchmaking.Tournament.Tickets.{
  Error, Digest, AssignTicketCommand, ExpireTicketCommand, validate_assign, validate_expire,
  assign_digest, expire_digest,
}
use solitaire_matchmaking.Tournament.Service.{
  TicketLifecycleRepository, forward, service_assign, service_expire,
}
use solitaire_matchmaking.Postgres.Tables.{Store}
use solitaire_matchmaking.Postgres.Tickets.{
  transact, accept_ticket, cancel_ticket, expire_ticket, expire_in_transaction,
}
use solitaire_matchmaking.Postgres.Assign.{assign_ticket, assign_in_transaction}
use solitaire_matchmaking.Postgres.Assignment.{get_ticket}

module _ {F : Type 0} where
  -- A transaction whose digest starts with the same check.
  forward_lem :
      {A : Type 0} (checks : Result Error (Unit {0})) (digest : Result Error String)
      (rest : String → Result Error (A × Store F)) (s : Store F)
      → forward checks s (transact s ((checks >> digest) >>= rest))
        ≡ transact s ((checks >> digest) >>= rest)
  forward_lem (ok x) digest rest s = refl
  forward_lem (err e) digest rest s = refl

module _ {F : Type 0} ⦃fl : Float F⦄ (sha256 : Digest F) (clock : String → Time) where
  -- The store as the repository of the service; `clock` is the time of the database for a ticket.
  abbrev pub ticket_repository : TicketLifecycleRepository (Store F) F
  ticket_repository = record {
    accept_ticket = λ s c. accept_ticket sha256 s c;
    cancel_ticket = λ s c. cancel_ticket sha256 s c;
    get_ticket = λ s id. get_ticket s id;
    assign_ticket = λ s c. assign_ticket sha256 s c (clock c.ticket_id);
    expire_ticket = λ s c. expire_ticket sha256 s c (clock c.ticket_id);
  }

  -- The store checks a command as the service does before it forwards it.
  pub service_assign_lem :
      (s : Store F) (c : AssignTicketCommand)
      → service_assign ticket_repository s c ≡ assign_ticket sha256 s c (clock c.ticket_id)
  unfolding service_assign assign_ticket assign_in_transaction assign_digest
  service_assign_lem s c = forward_lem (validate_assign c) _ _ s

  pub service_expire_lem :
      (s : Store F) (c : ExpireTicketCommand)
      → service_expire ticket_repository s c ≡ expire_ticket sha256 s c (clock c.ticket_id)
  unfolding service_expire expire_ticket expire_in_transaction expire_digest
  service_expire_lem s c = forward_lem (validate_expire c) _ _ s
