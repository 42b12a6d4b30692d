-- ===== src/Postgres/Assignment.antt =====
-- internal/postgres/tickets.go: `AssignTicket`, which seats a queued ticket in a forming room.
use solitaire_matchmaking.Base.{
  ℕ, zero, suc, ◌+◌, Bool, true, false, not, ◌&&◌, ◌||◌, ◌==◌, leb, Option, none, some, List, [],
  ◌∷◌, ◌++◌, String, is_empty, str_eq, if◌then◌else◌, Result, ok, err, ◌>>=◌, ◌>>◌, fail_if,
}
use solitaire_matchmaking.Base.Int.{eq_ℤ}
use solitaire_matchmaking.Base.Time.{Time, before, after}
use solitaire_matchmaking.Tournament.Model.{
  Ticket, TicketStatus, queued, RoomStatus, forming, collecting, allocated,
}
use solitaire_matchmaking.Tournament.Model
use solitaire_matchmaking.Tournament.Tickets.{
  Error, ticket_not_found, ticket_not_queued, ticket_claim_lost, room_not_available,
  assignment_conflict, assignment_before_request, room_not_filled, assignment_missing,
  AssignTicketCommand, Assignment, is_queued, TicketState,
}
use solitaire_matchmaking.Postgres.Tables
use solitaire_matchmaking.Postgres.Tables.{
  StoredTicket, RoomRow, MembershipRow, SessionRow, ConfigRow, OutboxEvent, Store, find, exists,
  update, load_ticket_by_id, insert_outbox, close_ticket, ticket_aggregate, room_aggregate,
  ticket_assigned, room_filled,
}
use solitaire_matchmaking.Postgres.Tickets.{next_version, owns_active_claim}

-- One row of the join of room_memberships and sessions, with the stored digest.
pub record StoredAssignment : Type 0 where
  pub assignment : Assignment
  pub request_digest : String

abbrev pub in_room : String → MembershipRow → Bool
in_room room_id m = str_eq m.room_id room_id

-- `count(*)` and `count(*) FILTER (WHERE player_id = …) > 0` over the memberships of a room.
unfoldable pub count_members : String → List MembershipRow → ℕ
count_members room_id [] = 0
count_members room_id (m ∷ ms) =
    if in_room room_id m then suc (count_members room_id ms) else count_members room_id ms

unfoldable pub has_player : String → String → List MembershipRow → Bool
has_player room_id player_id ms = exists (λ m. in_room room_id m && str_eq m.player_id player_id) ms

unfoldable pub seat_taken : String → ℕ → List MembershipRow → Bool
seat_taken room_id seat ms = exists (λ m. in_room room_id m && (m.seat == seat)) ms

-- The first of `left` seats from `candidate` on that is free.
unfoldable pub free_seat : String → List MembershipRow → ℕ → ℕ → Option ℕ
free_seat room_id ms zero candidate = none
free_seat room_id ms (suc left) candidate = elim (seat_taken room_id candidate ms) [
  | true ↦ free_seat room_id ms left (candidate + 1)
  | false ↦ some candidate
]

unfoldable pub join_session : MembershipRow → Option SessionRow → Option StoredAssignment
join_session m none = none
join_session m (some session) = some (record {
  assignment = record {
    assignment_id = m.assignment_id;
    ticket_id = m.ticket_id;
    room_id = m.room_id;
    session_id = session.session_id;
    player_id = m.player_id;
    seat = m.seat;
    assigned_at = m.assigned_at;
    ticket_version = m.ticket_version;
    room_version = m.room_version;
    room_filled = m.room_filled;
    result_deadline = m.result_deadline;
    replay = false;
  };
  request_digest = m.request_digest;
})

abbrev pub is_forming : RoomStatus → Bool
is_forming forming = true
is_forming _ = false

abbrev pub status_assigned : TicketStatus → Bool
status_assigned Model.assigned = true
status_assigned _ = false

abbrev pub config_of_room : RoomRow → ConfigRow → Bool
config_of_room room c =
    str_eq c.tournament_id room.tournament_id && str_eq c.version room.tournament_version

-- The keys of room_memberships and of sessions.
unfoldable pub membership_clashes : MembershipRow → MembershipRow → Bool
membership_clashes m n =
    str_eq n.ticket_id m.ticket_id
    || str_eq n.assignment_id m.assignment_id
    || in_room m.room_id n && ((n.seat == m.seat) || str_eq n.player_id m.player_id)

unfoldable pub session_clashes : SessionRow → SessionRow → Bool
session_clashes r q = str_eq q.session_id r.session_id || str_eq q.ticket_id r.ticket_id

module _ {F : Type 0} where
  abbrev pub session_of : String → Store F → Option SessionRow
  session_of ticket_id s = find (λ r. str_eq r.ticket_id ticket_id) s.sessions

  abbrev pub join_row : Store F → Option MembershipRow → Option StoredAssignment
  join_row s none = none
  join_row s (some m) = join_session m (session_of m.ticket_id s)

  unfoldable pub load_assignment_by_identity : String → Store F → Option StoredAssignment
  load_assignment_by_identity id s =
      join_row s (find (λ m. str_eq m.assignment_id id) s.memberships)

  unfoldable pub load_assignment_by_ticket : String → Store F → Option StoredAssignment
  load_assignment_by_ticket id s = join_row s (find (λ m. str_eq m.ticket_id id) s.memberships)

  unfoldable pub lock_assignment_room : String → Store F → Option RoomRow
  lock_assignment_room id s = find (λ r. str_eq r.id id) s.rooms

  -- `GetTicket`.
  unfoldable pub get_ticket : Store F → String → Result Error (TicketState F)
  get_ticket s id = elim (load_ticket_by_id id s) [
    | none ↦ err ticket_not_found
    | some stored ↦ elim stored.ticket.status [
      | Model.assigned ↦ elim (load_assignment_by_ticket id s) [
        | none ↦ err assignment_missing
        | some a ↦ ok (record { ticket = stored.ticket; assignment = some a.assignment })
      ]
      | _ ↦ ok (record { ticket = stored.ticket; assignment = none })
    ]
  ]

  -- A repeated command: the stored assignment, if it is the same request.
  unfoldable pub replay_assignment :
      Store F
      → AssignTicketCommand
      → String
      → StoredAssignment
      → Result Error (Assignment × Store F)
  replay_assignment s c digest stored =
      if not (str_eq stored.request_digest digest)
        || not (str_eq stored.assignment.ticket_id c.ticket_id)
        || not (str_eq stored.assignment.room_id c.room_id)
        || not (str_eq stored.assignment.session_id c.session_id)
      then err assignment_conflict
      else ok (record (stored.assignment) { replay = true }, s)

  -- The guards on the ticket.
  unfoldable pub check_ticket :
      StoredTicket F → AssignTicketCommand → Time → Result Error (Unit {0})
  check_ticket stored c clock = do
    fail_if (not (is_queued stored.ticket.status))
        (if status_assigned stored.ticket.status then assignment_conflict else ticket_not_queued)
    fail_if (before c.assigned_at stored.ticket.requested_at) assignment_before_request
    fail_if (not (is_empty c.claim_token) && not (owns_active_claim stored c.claim_token clock))
        ticket_claim_lost
    ok tt

  -- The guards on the room, and its memberships.
  unfoldable pub check_room :
      Ticket F → AssignTicketCommand → RoomRow → List MembershipRow → Result Error (Unit {0})
  check_room t c room ms = do
    fail_if
        (not (is_forming room.status)
          || not (eq_ℤ room.version c.expected_room_version)
          || after c.assigned_at room.fill_deadline
          || not (str_eq room.tournament_id t.tournament_id)
          || not (str_eq room.tournament_version t.tournament_version)
          || not (str_eq room.rating_model_version t.rating_snapshot.model_version))
        room_not_available
    fail_if (leb room.capacity (count_members room.id ms) || has_player room.id t.player_id ms)
        room_not_available
    ok tt

  -- The update that fills a room, with the checks rooms_filled_order and rooms_result_deadline_order.
  unfoldable pub fill_room : Store F → RoomRow → Time → Option ConfigRow → Result Error RoomRow
  fill_room s room now none = err room_not_filled
  fill_room s room now (some config) = do
    fail_if
        (before now room.created_at
          || after now room.fill_deadline
          || not (after (now + config.result_timeout) now))
        room_not_filled
    ok (record room {
      status = collecting;
      version = next_version room.version;
      filled_at = some now;
      result_deadline = some (now + config.result_timeout);
    })

  -- The room after the assignment; the last seat fills it.
  unfoldable pub advance_room : Store F → RoomRow → Time → Bool → Result Error RoomRow
  advance_room s room now last =
      if last
      then fill_room s room now (find (config_of_room room) s.configs)
      else ok (record room { version = next_version room.version })

  unfoldable pub insert_membership : MembershipRow → Store F → Result Error (Store F)
  insert_membership m s =
      if exists (membership_clashes m) s.memberships
      then err assignment_conflict
      else ok (record s { memberships = s.memberships ++ m ∷ [] })

  unfoldable pub insert_session : SessionRow → Store F → Result Error (Store F)
  insert_session r s =
      if exists (session_clashes r) s.sessions
      then err assignment_conflict
      else ok (record s { sessions = s.sessions ++ r ∷ [] })

  unfoldable pub store_room : RoomRow → Store F → Store F
  store_room room s = record s { rooms = update (λ r. str_eq r.id room.id) (λ _. room) s.rooms }

  -- `insertAssignmentEvents`.
  unfoldable pub insert_assignment_events :
      AssignTicketCommand → Assignment → Store F → Result Error (Store F)
  insert_assignment_events c a s = do
    s' ←
        insert_outbox
          (record {
            id = c.ticket_event_id;
            aggregate_type = ticket_aggregate;
            aggregate_id = a.ticket_id;
            aggregate_version = a.ticket_version;
            event_type = ticket_assigned;
            payload =
                Tables.assigned a.ticket_id a.room_id a.session_id a.player_id a.seat a.assigned_at;
            occurred_at = a.assigned_at;
          })
          assignment_conflict s
    let filled_too =
        insert_outbox
          (record {
            id = c.room_filled_event_id;
            aggregate_type = room_aggregate;
            aggregate_id = a.room_id;
            aggregate_version = a.room_version;
            event_type = room_filled;
            payload = Tables.filled a.room_id a.assigned_at a.result_deadline;
            occurred_at = a.assigned_at;
          })
          assignment_conflict s'
    if a.room_filled then filled_too else ok s'

  -- `insertShadowWork`, which keeps a row that is there.
  unfoldable pub insert_shadow_work : String → String → Time → ℕ → Store F → Store F
  insert_shadow_work kind source position priority s =
      if exists (λ w. str_eq w.kind kind && str_eq w.source_id source) s.shadow_work
      then s
      else record s {
        shadow_work =
            s.shadow_work
            ++ record {
              kind = kind;
              source_id = source;
              timeline_position = position;
              ordering_priority = priority;
            }
              ∷ [];
      }

  abbrev pub assigned_ticket : AssignTicketCommand → Ticket F → Ticket F
  assigned_ticket c t = record t {
    status = Model.assigned;
    assigned_at = some c.assigned_at;
    aggregate_version = next_version t.aggregate_version;
  }
