-- ===== src/Postgres/Results.antt =====
-- internal/postgres/results.go: `FinalizeResult`, which completes a collecting room.
use solitaire_matchmaking.Base.{
  ℕ, ◌≡◌, refl, Bool, true, false, not, ◌&&◌, ◌||◌, ◌==◌, Option, none, some, List, [], ◌∷◌, String,
  str_eq, length, if◌then◌else◌, Result, ok, err, ◌>>◌, fail_if,
}
use solitaire_matchmaking.Base.Int.{ℤ}
use solitaire_matchmaking.Base.Time.{Time, before, after}
use solitaire_matchmaking.Base.{map}
use Prim.Native.String.{◌++◌ as concat}
use solitaire_matchmaking.Rating.Types.{MatchResult}
use solitaire_matchmaking.Tournament.Model.{RoomStatus, collecting}
use solitaire_matchmaking.Tournament.Model
use solitaire_matchmaking.Tournament.Results
use solitaire_matchmaking.Tournament.Results.{
  Error, conflict, room_not_found, room_not_collecting, deadline_passed, participants_mismatch,
  scan, room_not_completed, VerifiedParticipant, FinalizeResultCommand, FinalizedResult,
  ResultDigest, match_result, result_digest, by_player,
}
use solitaire_matchmaking.Postgres.Tables
use solitaire_matchmaking.Postgres.Tables.{
  RoomRow, SessionRow, ResultRow, ResultParticipantRow, OutboxEvent, Store, find, exists, update,
  insert_outbox, room_aggregate, room_completed,
}
use solitaire_matchmaking.Postgres.Tickets.{next_version}

abbrev pub is_collecting : RoomStatus → Bool
is_collecting collecting = true
is_collecting _ = false

pub is_collecting_lem : (s : RoomStatus) → is_collecting s ≡ true → s ≡ collecting
is_collecting_lem collecting h = refl
is_collecting_lem Model.forming h = cc
is_collecting_lem Model.completed h = cc
is_collecting_lem Model.expired h = cc
is_collecting_lem Model.cancelled h = cc

-- The hexadecimal text of the first half of the SHA-256 of a kind, an identity and a version.
abbrev pub EventHash : Type 0
EventHash = String → String → ℤ → String

-- The keys of verified_results.
unfoldable pub result_clashes : ResultRow → ResultRow → Bool
result_clashes r q = str_eq q.event_id r.event_id || str_eq q.room_id r.room_id

-- The keys of verified_result_participants.
unfoldable pub participant_clashes : ResultParticipantRow → ResultParticipantRow → Bool
participant_clashes p q =
    str_eq q.session_id p.session_id
    || str_eq q.event_id p.event_id && str_eq q.player_id p.player_id

abbrev pub session_key : ResultParticipantRow → SessionRow → Bool
session_key p x =
    str_eq x.session_id p.session_id && str_eq x.room_id p.room_id && str_eq x.player_id p.player_id

abbrev pub later : Time → Option Time → Bool
later t none = true
later t (some deadline) = after t deadline

-- The guards on a room that collects results.
unfoldable pub check_result_room : FinalizeResultCommand → RoomRow → Result Error (Unit {0})
check_result_room c room = do
  fail_if
      (not (str_eq room.mode_id c.mode_id)
        || not (str_eq room.deck_id c.deck_id)
        || not (str_eq room.scoring_rules_version c.scoring_rules_version))
      conflict
  fail_if (later c.accepted_at room.result_deadline || later c.finished_at room.result_deadline)
      deadline_passed
  ok tt

-- The last session of a player, as the map of the source keeps it.
unfoldable pub session_of_player : String → List SessionRow → Option SessionRow
session_of_player id [] = none
session_of_player id (x ∷ xs) =
    let here : Option SessionRow = if str_eq x.player_id id then some x else none in
    let rest = session_of_player id xs in elim rest [ none ↦ here | some y ↦ some y ]

unfoldable pub verify_participant :
    Time → VerifiedParticipant → Option SessionRow → Result Error (Unit {0})
verify_participant finished_at p none = err participants_mismatch
verify_participant finished_at p (some x) =
    fail_if (not (str_eq x.session_id p.session_id) || before finished_at x.allocated_at)
      participants_mismatch

unfoldable pub verify_each :
    List SessionRow → Time → List VerifiedParticipant → Result Error (Unit {0})
verify_each sessions finished_at [] = ok tt
verify_each sessions finished_at (p ∷ ps) =
    verify_participant finished_at p (session_of_player p.player_id sessions)
    >> verify_each sessions finished_at ps

unfoldable pub verify_participants :
    List VerifiedParticipant → List SessionRow → ℕ → Time → Result Error (Unit {0})
verify_participants participants sessions capacity finished_at = do
  fail_if (not (length participants == capacity) || not (length sessions == capacity))
      participants_mismatch
  verify_each sessions finished_at participants

abbrev pub is_completed : Option Bool → Bool
is_completed none = true
is_completed (some b) = b

abbrev pub started : SessionRow → Option Time
started x = elim x.started_at [ none ↦ some x.allocated_at | some t ↦ some t ]

-- The session after its result.
unfoldable pub finalized_session : Bool → Time → SessionRow → SessionRow
finalized_session true finished_at x = record x {
  status = Model.submitted;
  started_at = started x;
  submitted_at = some finished_at;
  forfeited_at = none;
}
finalized_session false finished_at x = record x {
  status = Model.forfeited;
  submitted_at = none;
  forfeited_at = some finished_at;
}

abbrev pub result_row : FinalizeResultCommand → String → RoomRow → ResultRow
result_row c digest room = record {
  event_id = c.event_id;
  request_digest = digest;
  room_id = c.room_id;
  room_capacity = room.capacity;
  mode_id = c.mode_id;
  deck_id = c.deck_id;
  scoring_rules_version = c.scoring_rules_version;
  finished_at = c.finished_at;
  available_at = c.available_at;
  accepted_at = c.accepted_at;
  processed_at = none;
  next_attempt_at = some c.available_at;
}

abbrev pub participant_row :
    FinalizeResultCommand → RoomRow → VerifiedParticipant → ResultParticipantRow
participant_row c room p = record {
  event_id = c.event_id;
  room_id = c.room_id;
  room_capacity = room.capacity;
  session_id = p.session_id;
  player_id = p.player_id;
  place = p.place;
  features = p.features;
}

abbrev pub completed_room : FinalizeResultCommand → RoomRow → RoomRow
completed_room c room = record room {
  status = Model.completed;
  version = next_version room.version;
  completed_at = some c.accepted_at;
}

abbrev pub not_filled_by : Time → Option Time → Bool
not_filled_by t none = true
not_filled_by t (some filled_at) = before t filled_at

-- The update of the room, with the check rooms_completed_order.
unfoldable pub complete_room : FinalizeResultCommand → RoomRow → Result Error RoomRow
complete_room c room = do
  fail_if (not_filled_by c.accepted_at room.filled_at) room_not_completed
  ok (completed_room c room)

abbrev pub finalized : FinalizeResultCommand → ℤ → FinalizedResult
finalized c version = record {
  result = match_result c;
  room_version = version;
  completed_at = c.accepted_at;
  rating_pending = true;
  replay = false;
}

abbrev pub verified_of : ResultParticipantRow → VerifiedParticipant
verified_of p = record {
  session_id = p.session_id;
  player_id = p.player_id;
  place = p.place;
  features = p.features;
}

abbrev pub result_of : ResultRow → List VerifiedParticipant → MatchResult
result_of r ps = record {
  event_id = r.event_id;
  room_id = r.room_id;
  mode_id = r.mode_id;
  deck_id = r.deck_id;
  scoring_rules_version = r.scoring_rules_version;
  finished_at = r.finished_at;
  available_at = r.available_at;
  participants = map Results.participant_result ps;
}

abbrev pub is_pending : Option Time → Bool
is_pending none = true
is_pending (some t) = false

module _ (hashed : EventHash) where
  unfoldable pub derived_event_id : String → String → ℤ → String
  derived_event_id kind identity version = concat (concat kind "-") (hashed kind identity version)

  abbrev pub completion_event : FinalizedResult → OutboxEvent
  completion_event r = record {
    id = derived_event_id "room-completed" r.result.event_id r.room_version;
    aggregate_type = room_aggregate;
    aggregate_id = r.result.room_id;
    aggregate_version = r.room_version;
    event_type = room_completed;
    payload =
        Tables.completed r.result.event_id r.result.room_id r.completed_at r.rating_pending
          r.result.participants;
    occurred_at = r.completed_at;
  }
