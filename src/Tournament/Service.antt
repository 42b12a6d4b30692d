-- ===== src/Tournament/Service.antt =====
-- internal/tournament/tickets.go: `TicketService`, which checks a command and forwards it.
use solitaire_matchmaking.Base.{String, true, false, is_empty, Result, ok, err}
use solitaire_matchmaking.Base.Float.{Float}
use solitaire_matchmaking.Tournament.Tickets
use solitaire_matchmaking.Tournament.Tickets.{
  Error, AcceptTicketCommand, CancelTicketCommand, AssignTicketCommand, ExpireTicketCommand,
  TicketMutation, Assignment, TicketState, validate_accept, validate_cancel, validate_assign,
  validate_expire,
}

pub record TicketLifecycleRepository (S F : Type 0) : Type 0 where
  pub accept_ticket : S → AcceptTicketCommand F → Result Error (TicketMutation F) × S
  pub cancel_ticket : S → CancelTicketCommand → Result Error (TicketMutation F) × S
  pub get_ticket : S → String → Result Error (TicketState F)
  pub assign_ticket : S → AssignTicketCommand → Result Error Assignment × S
  pub expire_ticket : S → ExpireTicketCommand → Result Error (TicketMutation F) × S

-- The forwarded operation, once the check has passed.
abbrev pub forward :
    {S A : Type 0} → Result Error (Unit {0}) → S → Result Error A × S → Result Error A × S
forward (ok _) s r = r
forward (err e) s r = (err e, s)

module _ {S F : Type 0} ⦃fl : Float F⦄ (repository : TicketLifecycleRepository S F) where
  unfoldable pub service_accept : S → AcceptTicketCommand F → Result Error (TicketMutation F) × S
  service_accept s c = forward (validate_accept c) s (repository.accept_ticket s c)

  unfoldable pub service_cancel : S → CancelTicketCommand → Result Error (TicketMutation F) × S
  service_cancel s c = forward (validate_cancel c) s (repository.cancel_ticket s c)

  unfoldable pub service_assign : S → AssignTicketCommand → Result Error Assignment × S
  service_assign s c = forward (validate_assign c) s (repository.assign_ticket s c)

  unfoldable pub service_expire : S → ExpireTicketCommand → Result Error (TicketMutation F) × S
  service_expire s c = forward (validate_expire c) s (repository.expire_ticket s c)

  unfoldable pub service_get : S → String → Result Error (TicketState F)
  service_get s id = elim (is_empty id) [
    | true ↦ err Tickets.identities_required
    | false ↦ repository.get_ticket s id
  ]
