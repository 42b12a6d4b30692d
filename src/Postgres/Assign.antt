-- ===== src/Postgres/Assign.antt =====
-- internal/postgres/tickets.go: the transaction of `AssignTicket`, from its parts.
pub mod Writes
pub mod Reading
pub mod Seat
use solitaire_matchmaking.Base.{
  ℕ, zero, suc, ◌+◌, ◌-◌, ◌*◌, ◌≤◌, ◌<◌, ◌≡◌, ◌≢◌, ◌⊎◌, inl, inr, refl, sym, ap, ◌∙◌, Bool, true,
  false, not, ◌&&◌, ◌||◌, ◌==◌, ltb, leb, Option, none, some, List, [], ◌∷◌, ◌++◌, String, is_empty,
  str_eq, contains, length, if◌then◌else◌, Result, ok, err, ◌>>=◌, ◌>>◌, fail_if, wrap, arith,
  Bool-cases, Option-cases, In, All, keep, str_eq_refl, eq_iff, >>=-ok, fail_if-ok, wrap-ok,
  ok_injective, length-append, All-append, All-map, All-In, subst,
}
use solitaire_matchmaking.Base.Int.{
  ℤ, pos, negsuc, ltb_ℤ, leb_ℤ, eq_ℤ, ◌≤ℤ◌, ◌<ℤ◌, pos_part, neg_part,
}
use solitaire_matchmaking.Base.Time.{Time, Duration, is_zero, before, after, add}
use solitaire_matchmaking.Base.Float.{Float}
use solitaire_matchmaking.Tournament.Model.{Ticket}
use solitaire_matchmaking.Tournament.Model
use solitaire_matchmaking.Tournament.Tickets.{
  Error, ticket_not_found, room_not_available, AssignTicketCommand, Assignment, Digest,
  assign_digest,
}
use solitaire_matchmaking.Postgres.Tables.{
  StoredTicket, RoomRow, MembershipRow, SessionRow, Store, load_ticket_by_id, close_ticket,
}
use solitaire_matchmaking.Postgres.Tickets.{transact, next_version}
use solitaire_matchmaking.Postgres.Assignment.{
  StoredAssignment, count_members, free_seat, load_assignment_by_identity, lock_assignment_room,
  replay_assignment, check_ticket, check_room, advance_room, insert_membership, insert_session,
  store_room, insert_assignment_events, insert_shadow_work, assigned_ticket,
}

abbrev pub or_unavailable : Option ℕ → Result Error ℕ
or_unavailable none = err room_not_available
or_unavailable (some seat) = ok seat

abbrev pub session_row : AssignTicketCommand → MembershipRow → SessionRow
session_row c m = record {
  session_id = c.session_id;
  ticket_id = m.ticket_id;
  room_id = m.room_id;
  player_id = m.player_id;
  seat = m.seat;
  status = Model.allocated;
  allocated_at = c.assigned_at;
  started_at = none;
  submitted_at = none;
  forfeited_at = none;
}

abbrev pub assignment_of : AssignTicketCommand → MembershipRow → Assignment
assignment_of c m = record {
  assignment_id = m.assignment_id;
  ticket_id = m.ticket_id;
  room_id = m.room_id;
  session_id = c.session_id;
  player_id = m.player_id;
  seat = m.seat;
  assigned_at = m.assigned_at;
  ticket_version = m.ticket_version;
  room_version = m.room_version;
  room_filled = m.room_filled;
  result_deadline = m.result_deadline;
  replay = false;
}

abbrev pub or_no_room : Option RoomRow → Result Error RoomRow
or_no_room none = err room_not_available
or_no_room (some room) = ok room

module _ {F : Type 0} where
  abbrev pub membership_of :
      AssignTicketCommand → String → Ticket F → RoomRow → ℕ → Bool → MembershipRow
  membership_of c digest t room seat last = record {
    room_id = room.id;
    room_capacity = room.capacity;
    ticket_id = t.id;
    player_id = t.player_id;
    seat = seat;
    assigned_at = c.assigned_at;
    assignment_id = c.assignment_id;
    request_digest = digest;
    ticket_version = t.aggregate_version;
    room_version = room.version;
    room_filled = last;
    result_deadline = if last then room.result_deadline else none;
  }

  -- The writes, once the seat is known and the room has advanced.
  unfoldable pub write_assignment :
      Store F
      → AssignTicketCommand
      → Ticket F
      → RoomRow
      → MembershipRow
      → Result Error (Assignment × Store F)
  write_assignment s c t room m = do
    s₁ ← insert_membership m (store_room room (close_ticket t s))
    s₂ ← insert_session (session_row c m) s₁
    s₃ ← insert_assignment_events c (assignment_of c m) s₂
    ok (
      assignment_of c m,
      (if m.room_filled then insert_shadow_work "room" m.room_id c.assigned_at 0 s₃ else s₃),
    )

  -- The room has been locked.
  unfoldable pub seat_in_room :
      Store F
      → AssignTicketCommand
      → String
      → Ticket F
      → RoomRow
      → Result Error (Assignment × Store F)
  seat_in_room s c digest t room = do
    check_room t c room s.memberships
    seat ← or_unavailable (free_seat room.id s.memberships room.capacity 1)
    let last = count_members room.id s.memberships + 1 == room.capacity
    room' ← advance_room s room c.assigned_at last
    let t' = assigned_ticket c t
    write_assignment s c t' room' (membership_of c digest t' room' seat last)

  abbrev pub or_no_ticket : Option (StoredTicket F) → Result Error (StoredTicket F)
  or_no_ticket none = err ticket_not_found
  or_no_ticket (some stored) = ok stored

  unfoldable pub assign_new :
      Store F → AssignTicketCommand → String → Time → Result Error (Assignment × Store F)
  assign_new s c digest clock = do
    stored ← or_no_ticket (load_ticket_by_id c.ticket_id s)
    check_ticket stored c clock
    room ← or_no_room (lock_assignment_room c.room_id s)
    seat_in_room s c digest stored.ticket room

  unfoldable pub assign_stored :
      Store F
      → AssignTicketCommand
      → String
      → Time
      → Option StoredAssignment
      → Result Error (Assignment × Store F)
  assign_stored s c digest clock (some stored) = replay_assignment s c digest stored
  assign_stored s c digest clock none = assign_new s c digest clock

  unfoldable pub assign_in_transaction :
      Digest F → Store F → AssignTicketCommand → Time → Result Error (Assignment × Store F)
  assign_in_transaction sha256 s c clock = do
    digest ← assign_digest sha256 c
    assign_stored s c digest clock (load_assignment_by_identity c.assignment_id s)

  unfoldable pub assign_ticket :
      Digest F → Store F → AssignTicketCommand → Time → Result Error Assignment × Store F
  assign_ticket sha256 s c clock = transact s (assign_in_transaction sha256 s c clock)
