-- ===== src/Postgres/Examples.antt =====
-- Concrete stores and commands, and each theorem about the ticket store at such an input.
use solitaire_matchmaking.Base.{
  ℕ, ◌≡◌, refl, true, false, Option, none, some, List, [], ◌∷◌, String, ok, Result, arith,
}
use solitaire_matchmaking.Base.Int.{pos, wrap_int64, ◌+ℤ◌}
use solitaire_matchmaking.Base.Float.Fixed.{Fixed, milli, fixed}
use solitaire_matchmaking.Tournament.Model.{Ticket, queued, cancelled, forming}
use solitaire_matchmaking.Tournament.Model
use solitaire_matchmaking.Tournament.Tickets
use solitaire_matchmaking.Tournament.Tickets.{
  Error, Identity, Digest, AssignTicketCommand, CancelTicketCommand, ExpireTicketCommand,
  AcceptTicketCommand, TicketMutation, Assignment, validate_cancel, cancel_digest, validate_expire,
  expire_digest, validate_assign, assign_digest,
}
use solitaire_matchmaking.Postgres.Tables.{
  StoredTicket, RoomRow, MembershipRow, Store, find, update, exists, load_ticket_by_id,
  load_command, insert_outbox, insert_command, close_ticket,
}
use solitaire_matchmaking.Postgres.Tickets.{
  expire_ticket, next_version, expire_in_transaction, expire_stored, expire_claimed,
  owns_active_claim,
}
use solitaire_matchmaking.Postgres.Tickets.Life.{Follows}
use solitaire_matchmaking.Postgres.Tickets.Acceptance.{accept_ticket_twice}
use solitaire_matchmaking.Postgres.Tickets.{accept_ticket, accept_in_transaction, insert_ticket}
use solitaire_matchmaking.Tournament.Tickets.{validate_accept, accept_digest}
use solitaire_matchmaking.Rating.Types.{validate_estimate}
use solitaire_matchmaking.Postgres.Assignment.{
  count_members, free_seat, seat_taken, has_player, load_assignment_by_identity,
  lock_assignment_room, check_ticket, check_room, advance_room, insert_membership, insert_session,
  store_room, insert_assignment_events, membership_clashes, session_clashes,
}
use solitaire_matchmaking.Postgres.Assign.{
  assign_ticket, assign_in_transaction, assign_stored, assign_new, seat_in_room, write_assignment,
}
use solitaire_matchmaking.Postgres.Commands.{
  Command, cancelling, assigning, expiring, run, ticket_life,
}
use solitaire_matchmaking.Postgres.Tickets.Fencing.{Expires, expire_ticket_fenced}
use solitaire_matchmaking.Postgres.Rooms.{AreSeated}
use solitaire_matchmaking.Postgres.Rooms.History.{rooms_stay_seated}
use solitaire_matchmaking.Postgres.Rooms.Seating.{
  TakesSeat, assign_ticket_seat, assign_ticket_lowest,
}

abbrev pub digest_of : Digest Fixed
digest_of (Tickets.accepting entry player tournament version requested snapshot rating) = some entry
digest_of (Tickets.cancelling ticket command) = some command
digest_of (Tickets.expiring ticket command deadline) = some command
digest_of (Tickets.assigning assignment ticket room version session) = some assignment

abbrev pub ticket_of : String → String → Ticket Fixed
ticket_of id player = record {
  id = id;
  entry_id = id;
  player_id = player;
  tournament_id = "cup";
  tournament_version = "1";
  status = queued;
  requested_at = 10;
  assigned_at = none;
  cancelled_at = none;
  expired_at = none;
  snapshot_at = 9;
  rating_snapshot = record {
    mean = milli 1500;
    uncertainty = milli 50;
    performance_deviation = none;
    games = 3;
    model_version = "model-1";
    updated_at = 2;
  };
  aggregate_version = pos 1;
}

-- A claimed ticket in the queue.
abbrev row_of : String → String → StoredTicket Fixed
row_of id player = record {
  ticket = ticket_of id player;
  request_digest = id;
  claim_token = some "worker";
  claimed_until = some 100;
  attempt_count = 1;
  next_attempt_at = some 20;
}

abbrev member_of : String → String → ℕ → MembershipRow
member_of id player seat = record {
  room_id = "r";
  room_capacity = 5;
  ticket_id = id;
  player_id = player;
  seat = seat;
  assigned_at = 15;
  assignment_id = id;
  request_digest = id;
  ticket_version = pos 2;
  room_version = pos 2;
  room_filled = false;
  result_deadline = none;
}

abbrev room : RoomRow
room = record {
  id = "r";
  tournament_id = "cup";
  tournament_version = "1";
  mode_id = "klondike";
  policy_version = "policy-1";
  rating_model_version = "model-1";
  scoring_rules_version = "rules-1";
  deck_id = "deck-1";
  status = forming;
  capacity = 5;
  version = pos 3;
  created_at = 5;
  fill_deadline = 90;
  filled_at = none;
  result_deadline = none;
  completed_at = none;
  expired_at = none;
}

-- A room with the seats 1 and 3 taken, and two tickets in the queue.
abbrev pub store : Store Fixed
store = record {
  configs =
      record {
        tournament_id = "cup";
        version = "1";
        rating_model_version = "model-1";
        mode_id = "klondike";
        capacity = 5;
        policy_version = "policy-1";
        result_timeout = 50;
      }
      ∷ [];
  tickets = row_of "t1" "ann" ∷ row_of "t2" "bob" ∷ [];
  commands = [];
  rooms = room ∷ [];
  memberships = member_of "t8" "eve" 1 ∷ member_of "t9" "dan" 3 ∷ [];
  sessions = [];
  policies = [];
  results = [];
  participants = [];
  outbox = [];
  shadow_work = [];
}

abbrev cancel_t1 : CancelTicketCommand
cancel_t1 = record { ticket_id = "t1"; command_id = "c1"; event_id = "e1"; cancelled_at = 30 }

abbrev expire_t1 : ExpireTicketCommand
expire_t1 = record {
  ticket_id = "t1";
  command_id = "x1";
  event_id = "e2";
  claim_token = "worker";
  deadline = 40;
  expired_at = 41;
}

abbrev assign_t2 : AssignTicketCommand
assign_t2 = record {
  assignment_id = "a2";
  ticket_id = "t2";
  room_id = "r";
  expected_room_version = pos 3;
  session_id = "s2";
  ticket_event_id = "e3";
  room_filled_event_id = "e4";
  assigned_at = 35;
  claim_token = "worker";
}

abbrev history : List (Command Fixed)
history = cancelling cancel_t1 ∷ assigning assign_t2 36 ∷ expiring expire_t1 42 ∷ []

found_t1 : load_ticket_by_id "t1" store ≡ some (row_of "t1" "ann")
unfolding load_ticket_by_id find
found_t1 = refl

ticket_life_example : Follows "t1" (row_of "t1" "ann") (run digest_of store history)
ticket_life_example = ticket_life digest_of store history "t1" found_t1

abbrev result : {A : Type 0} → Result Error A × Store Fixed → Option A
result (ok a, s) = some a
result (_, s) = none

pub store-AreSeated : AreSeated store
unfolding membership_clashes count_members
store-AreSeated = record {
  distinct = ((refl, tt), (tt, tt));
  in_range = (refl, (refl, tt));
  counted = (refl, tt);
}

rooms_stay_seated_example : AreSeated (run digest_of store history)
rooms_stay_seated_example = rooms_stay_seated digest_of store history store-AreSeated

abbrev after_expiry : Store Fixed
after_expiry = (expire_ticket digest_of store expire_t1 42).1

abbrev expired_t1 : TicketMutation Fixed
expired_t1 = record {
  ticket = record (ticket_of "t1" "ann") {
    status = Model.expired;
    expired_at = some 41;
    aggregate_version = pos 2;
  };
  changed = true;
  replay = false;
}

first_expiry : expire_ticket digest_of store expire_t1 42 ≡ (ok expired_t1, after_expiry)
unfolding expire_ticket expire_in_transaction expire_digest validate_expire expire_stored
    load_ticket_by_id load_command find expire_claimed owns_active_claim insert_command
    insert_outbox close_ticket update exists next_version wrap_int64 ◌+ℤ◌
first_expiry = refl

expire_ticket_fenced_example : Expires store expire_t1 42 expired_t1 after_expiry
expire_ticket_fenced_example = expire_ticket_fenced digest_of store expire_t1 42 first_expiry refl

abbrev after_assign : Store Fixed
after_assign = (assign_ticket digest_of store assign_t2 36).1

abbrev seat_of_t2 : Assignment
seat_of_t2 = record {
  assignment_id = "a2";
  ticket_id = "t2";
  room_id = "r";
  session_id = "s2";
  player_id = "bob";
  seat = 2;
  assigned_at = 35;
  ticket_version = pos 2;
  room_version = pos 4;
  room_filled = false;
  result_deadline = none;
  replay = false;
}

first_assignment : assign_ticket digest_of store assign_t2 36 ≡ (ok seat_of_t2, after_assign)
unfolding assign_ticket assign_in_transaction assign_digest validate_assign
    load_assignment_by_identity find assign_stored assign_new load_ticket_by_id check_ticket
    owns_active_claim lock_assignment_room seat_in_room check_room count_members has_player exists
    free_seat seat_taken advance_room next_version write_assignment insert_membership
    membership_clashes insert_session session_clashes insert_assignment_events insert_outbox
    store_room close_ticket update wrap_int64 ◌+ℤ◌
first_assignment = refl

assign_ticket_seat_example : TakesSeat store assign_t2 seat_of_t2 after_assign
assign_ticket_seat_example = assign_ticket_seat digest_of store assign_t2 36 first_assignment refl

assign_ticket_lowest_example : seat_taken "r" 1 store.memberships ≡ true
assign_ticket_lowest_example =
    assign_ticket_lowest digest_of store assign_t2 36 1 first_assignment refl (omega arith)
      (omega arith)

abbrev accept_t3 : AcceptTicketCommand Fixed
accept_t3 = record { ticket = ticket_of "t3" "cat"; event_id = "e5" }

abbrev after_acceptance : Store Fixed
after_acceptance = (accept_ticket digest_of store accept_t3).1

first_acceptance : accept_ticket digest_of store accept_t3 ≡ (
  ok (record { ticket = ticket_of "t3" "cat"; changed = true; replay = false }),
  after_acceptance,
)
unfolding accept_ticket accept_in_transaction accept_digest validate_accept validate_estimate
    insert_ticket insert_outbox exists
first_acceptance = refl

accept_ticket_twice_example : accept_ticket digest_of after_acceptance accept_t3 ≡ (
  ok (record { ticket = ticket_of "t3" "cat"; changed = false; replay = true }),
  after_acceptance,
)
accept_ticket_twice_example = accept_ticket_twice digest_of store accept_t3 first_acceptance
