-- ===== src/Postgres/Endings.antt =====
-- A room whose five players send a result, a room past its deadline, and each theorem about results
-- and deadlines at such an input.
use solitaire_matchmaking.Base.{
  ℕ, ◌≡◌, ◌≤◌, refl, true, false, Bool, none, some, List, [], ◌∷◌, String, ok, All, length,
}
use solitaire_matchmaking.Base.Sort.{sort, insert}
use solitaire_matchmaking.Base.Int.{pos, wrap_int64, ◌+ℤ◌}
use solitaire_matchmaking.Base.Float.Fixed.{Fixed, fixed}
use solitaire_matchmaking.Rating.Types.{
  Features, validate_features, validate_participant, validate_participants, validate_match_result,
}
use solitaire_matchmaking.Tournament.Model
use solitaire_matchmaking.Tournament.Tickets.{Digest}
use solitaire_matchmaking.Tournament.Results.{
  VerifiedParticipant, FinalizeResultCommand, FinalizedResult, ResultDigest, ResultDeadlineBatch,
  ExpiredRoom, match_result, validate_present, validate_sessions, validate_finalize, result_digest,
  validate_batch,
}
use solitaire_matchmaking.Postgres.Tables.{
  RoomRow, SessionRow, Store, find, update, exists, insert_outbox, clashes,
}
use solitaire_matchmaking.Postgres.Tickets.{next_version}
use solitaire_matchmaking.Postgres.Assignment.{lock_assignment_room, store_room, insert_shadow_work}
use solitaire_matchmaking.Postgres.Results.{
  EventHash, result_clashes, participant_clashes, check_result_room, session_of_player,
  verify_participant, verify_each, verify_participants, finalized_session, complete_room,
  derived_event_id,
}
use solitaire_matchmaking.Postgres.Finalize.{
  load_result_by_event, room_sessions, insert_result, insert_participant, finalize_session,
  insert_participants, write_result, finalize_collecting, finalize_by_status, finalize_room,
  finalize_stored, finalize_in_transaction, finalize_result,
}
use solitaire_matchmaking.Postgres.Finalize.Accepted.{Accepted, finalize_result_accepts}
use solitaire_matchmaking.Postgres.Deadlines.{
  is_due, due_before, row_with_deadline, returned_rows, due_rooms, expire_rooms, forfeit_sessions,
  announce_rooms, expire_rooms_in_transaction, expire_result_rooms,
}
use solitaire_matchmaking.Postgres.Deadlines.Overdue.{Overdue, expire_result_rooms-Overdue}
use solitaire_matchmaking.Postgres.Lifecycle.{
  Event, finalizing, expiring_rooms, RoomFollows, play, room_life,
}

abbrev ticket_digest : Digest Fixed
ticket_digest i = none

abbrev result_sha256 : ResultDigest
result_sha256 i = some i.event_id

abbrev hashed : EventHash
hashed kind identity version = identity

abbrev room_of : String → RoomRow
room_of id = record {
  id = id;
  tournament_id = "cup";
  tournament_version = "1";
  mode_id = "klondike";
  policy_version = "policy-1";
  rating_model_version = "model-1";
  scoring_rules_version = "rules-1";
  deck_id = "deck-1";
  status = Model.collecting;
  capacity = 5;
  version = pos 6;
  created_at = 5;
  fill_deadline = 90;
  filled_at = some 40;
  result_deadline = some 90;
  completed_at = none;
  expired_at = none;
}

abbrev session_of : String → ℕ → SessionRow
session_of player seat = record {
  session_id = player;
  ticket_id = player;
  room_id = "r";
  player_id = player;
  seat = seat;
  status = Model.playing;
  allocated_at = 20;
  started_at = some 21;
  submitted_at = none;
  forfeited_at = none;
}

abbrev features : Features
features = record {
  score = some (pos 700);
  elapsed_millis = some (pos 9000);
  completed = some true;
  moves = none;
  undo_moves = none;
  revealed_cards = none;
}

abbrev participant_of : String → ℕ → VerifiedParticipant
participant_of player place = record {
  session_id = player;
  player_id = player;
  place = pos place;
  features = features;
}

abbrev store : Store Fixed
store = record {
  configs = [];
  policies = [];
  tickets = [];
  commands = [];
  rooms = room_of "q" ∷ room_of "r" ∷ [];
  memberships = [];
  sessions =
      session_of "ann" 1
      ∷ session_of "bob" 2
      ∷ session_of "cat" 3
      ∷ session_of "dan" 4
      ∷ session_of "eve" 5
      ∷ [];
  results = [];
  participants = [];
  outbox = [];
  shadow_work = [];
}

abbrev result_of_r : FinalizeResultCommand
result_of_r = record {
  event_id = "e1";
  room_id = "r";
  mode_id = "klondike";
  deck_id = "deck-1";
  scoring_rules_version = "rules-1";
  finished_at = 70;
  available_at = 71;
  accepted_at = 72;
  participants =
      participant_of "eve" 1
      ∷ participant_of "bob" 2
      ∷ participant_of "cat" 3
      ∷ participant_of "dan" 4
      ∷ participant_of "ann" 5
      ∷ [];
}

abbrev after_result : Store Fixed
after_result = (finalize_result hashed result_sha256 store result_of_r).1

abbrev finalized_r : FinalizedResult
finalized_r = record {
  result = match_result result_of_r;
  room_version = pos 7;
  completed_at = 72;
  rating_pending = true;
  replay = false;
}

first_result :
    finalize_result hashed result_sha256 store result_of_r ≡ (ok finalized_r, after_result)
unfolding finalize_result finalize_in_transaction result_digest validate_finalize
    validate_match_result validate_participants validate_participant validate_features
    validate_sessions validate_present match_result load_result_by_event find finalize_stored
    lock_assignment_room finalize_room finalize_by_status finalize_collecting check_result_room
    verify_participants room_sessions verify_each session_of_player verify_participant write_result
    next_version wrap_int64 ◌+ℤ◌ insert_result result_clashes exists insert_participants
    insert_participant participant_clashes finalize_session finalized_session update complete_room
    insert_outbox clashes store_room insert_shadow_work derived_event_id sort insert
first_result = refl

finalize_result_accepts_example : Accepted store result_of_r finalized_r after_result
finalize_result_accepts_example =
    finalize_result_accepts hashed result_sha256 store result_of_r first_result refl

abbrev batch : ResultDeadlineBatch
batch = record { limit = pos 1; expired_at = 95 }

abbrev none_locked : String → Bool
none_locked id = false

abbrev after_deadline : Store Fixed
after_deadline = (expire_result_rooms hashed none_locked store batch).1

abbrev expired_q : ExpiredRoom
expired_q = record { room_id = "q"; room_version = pos 7; result_deadline = 90; expired_at = 95 }

first_expiry :
    expire_result_rooms hashed none_locked store batch ≡ (ok (expired_q ∷ []), after_deadline)
unfolding expire_result_rooms expire_rooms_in_transaction validate_batch due_rooms is_due due_before
    expire_rooms returned_rows row_with_deadline ◌+ℤ◌ announce_rooms forfeit_sessions insert_outbox
    clashes exists update derived_event_id sort insert
first_expiry = refl

expire_result_rooms-Overdue_example :
    All (Overdue store.rooms 95) (expired_q ∷ [])
    × (length (expired_q ∷ []) ≤ 1)
    × (after_deadline.tickets ≡ [])
    × (after_deadline.memberships ≡ [])
expire_result_rooms-Overdue_example =
    expire_result_rooms-Overdue hashed none_locked store batch first_expiry

abbrev endings : List (Event Fixed)
endings = finalizing result_of_r ∷ expiring_rooms none_locked batch ∷ []

found_r : lock_assignment_room "r" store ≡ some (room_of "r")
unfolding lock_assignment_room find
found_r = refl

room_life_example :
    RoomFollows "r" (room_of "r") (play ticket_digest result_sha256 hashed store endings)
unfolding exists
room_life_example =
    room_life ticket_digest result_sha256 hashed store endings "r" (refl, (refl, tt)) found_r
