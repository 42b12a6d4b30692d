-- ===== src/Postgres/MatchmakingQueue/Attempts.antt =====
-- internal/postgres/matchmaking_queue.go: `LoadMatchAttempt`, the view of the matcher on the tables.
use solitaire_matchmaking.Base.{
  Bool, not, ◌&&◌, ◌||◌, ltb, leb, ◌==◌, Option, none, some, List, [], ◌∷◌, String, str_eq, str_lt,
  Result, ok, err, ◌>>=◌, ◌>>◌, fail_if, keep, take, map,
}
use solitaire_matchmaking.Base.Sort.{sort}
use solitaire_matchmaking.Base.Int.{pos, pos_part}
use solitaire_matchmaking.Base.Time.{Time, is_zero}
use solitaire_matchmaking.Base.Float.{Float}
use solitaire_matchmaking.Matchmaking.Policy.{Policy, Candidate, RoomView}
use solitaire_matchmaking.Matchmaking.Orchestration
use solitaire_matchmaking.Matchmaking.Orchestration.{MatchAttempt}
use solitaire_matchmaking.Tournament.Model.{Ticket}
use solitaire_matchmaking.Worker.Queue
use solitaire_matchmaking.Worker.Queue.{Error, TicketClaim, validate_ticket_claim}
use solitaire_matchmaking.Postgres.Tables.{
  Store, RoomRow, ConfigRow, PolicyRow, MembershipRow, find, load_ticket_by_id,
}
use solitaire_matchmaking.Postgres.Assignment.{is_forming}
use solitaire_matchmaking.Postgres.MatchmakingQueue.{
  PolicyDefinition, or_policy_encoding, policy_of, candidate_from_ticket,
}

abbrev pub is_config : String → String → ConfigRow → Bool
is_config id version c = str_eq c.tournament_id id && str_eq c.version version

abbrev pub is_policy : ConfigRow → PolicyRow → Bool
is_policy c p =
    str_eq p.policy_version c.policy_version && str_eq p.rating_model_version c.rating_model_version

-- `ORDER BY created_at, room_id`.
unfoldable pub created_before : RoomRow → RoomRow → Bool
created_before a b =
    ltb a.created_at b.created_at || not (ltb b.created_at a.created_at) && str_lt a.id b.id

unfoldable pub seated_before : MembershipRow → MembershipRow → Bool
seated_before a b = ltb a.seat b.seat

module _ {F : Type 0} where
  -- The WHERE clause of the rooms that suit a ticket.
  unfoldable pub is_compatible : Ticket F → ConfigRow → Policy F → Time → RoomRow → Bool
  is_compatible t c p now r =
      str_eq r.tournament_id t.tournament_id
      && str_eq r.tournament_version t.tournament_version
      && str_eq r.mode_id c.mode_id
      && (r.capacity == c.capacity)
      && str_eq r.policy_version p.version
      && str_eq r.rating_model_version p.rating_model_version
      && is_forming r.status
      && leb now r.fill_deadline

  -- The join of the memberships with their tickets.
  unfoldable pub join_members : Store F → List MembershipRow → List (Candidate F)
  join_members s [] = []
  join_members s (m ∷ ms) =
      let rest = join_members s ms in
      elim (load_ticket_by_id m.ticket_id s) [
        | none ↦ rest
        | some t ↦ candidate_from_ticket t.ticket ∷ rest
      ]

  abbrev pub room_members : Store F → String → List (Candidate F)
  room_members s room_id =
      join_members s (sort seated_before (keep (λ m. str_eq m.room_id room_id) s.memberships))

  abbrev pub room_view : Store F → ConfigRow → Policy F → RoomRow → RoomView F
  room_view s c p r = record {
    room_id = r.id;
    mode_id = c.mode_id;
    aggregate_version = r.version;
    capacity = pos c.capacity;
    created_at = r.created_at;
    deadline = r.fill_deadline;
    policy = p;
    members = room_members s r.id;
  }

  unfoldable pub load_compatible_rooms :
      Store F → Ticket F → ConfigRow → Policy F → Time → List (RoomView F)
  load_compatible_rooms s t c p now =
      map (room_view s c p) (
        take (pos_part p.room_limit) (sort created_before (keep (is_compatible t c p now) s.rooms)))

module _ {F : Type 0} ⦃fl : Float F⦄ (decode : String → Option (PolicyDefinition F)) where
  unfoldable pub attempt_with :
      Store F → TicketClaim F → Time → ConfigRow → Option PolicyRow → Result Error (MatchAttempt F)
  attempt_with s claim now c none = err Queue.config_unavailable
  attempt_with s claim now c (some p) = do
    fail_if (not (str_eq p.rating_model_version claim.ticket.rating_snapshot.model_version))
        Queue.rating_model_mismatch
    definition ← or_policy_encoding (decode p.definition)
    policy ← policy_of p.policy_version p.rating_model_version definition
    ok (record {
      trigger = Orchestration.periodic_retry;
      evaluated_at = now;
      candidate = candidate_from_ticket claim.ticket;
      policy = policy;
      rooms = load_compatible_rooms s claim.ticket c policy now;
    })

  unfoldable pub attempt_for :
      Store F → TicketClaim F → Time → Option ConfigRow → Result Error (MatchAttempt F)
  attempt_for s claim now none = err Queue.config_unavailable
  attempt_for s claim now (some c) = attempt_with s claim now c (find (is_policy c) s.policies)

  unfoldable pub load_match_attempt : Store F → TicketClaim F → Time → Result Error (MatchAttempt F)
  load_match_attempt s claim now = do
    validate_ticket_claim claim
    fail_if (is_zero now) Queue.evaluation_time
    attempt_for s claim now
        (find (is_config claim.ticket.tournament_id claim.ticket.tournament_version) s.configs)
