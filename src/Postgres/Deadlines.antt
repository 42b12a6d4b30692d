-- ===== src/Postgres/Deadlines.antt =====
-- internal/postgres/results.go: `ExpireResultRooms`, which expires the rooms whose results are overdue.
pub mod Due
pub mod Overdue
use solitaire_matchmaking.Base.{
  ℕ, zero, suc, ◌+◌, ◌-◌, ◌*◌, ◌≤◌, ◌<◌, ◌≡◌, ◌≢◌, ◌⊎◌, inl, inr, refl, sym, ap, ◌∙◌, Bool, true,
  false, not, ◌&&◌, ◌||◌, ◌==◌, ltb, leb, Option, none, some, List, [], ◌∷◌, ◌++◌, String, is_empty,
  str_eq, contains, length, if◌then◌else◌, Result, ok, err, ◌>>=◌, ◌>>◌, fail_if, wrap, arith,
  Bool-cases, Option-cases, In, All, keep, str_eq_refl, eq_iff, >>=-ok, fail_if-ok, wrap-ok,
  ok_injective, length-append, All-append, All-map, All-In, subst,
}
use solitaire_matchmaking.Base.Int.{
  ℤ, pos, negsuc, ltb_ℤ, leb_ℤ, eq_ℤ, ◌≤ℤ◌, ◌<ℤ◌, pos_part, neg_part,
}
use solitaire_matchmaking.Base.Time.{Time, Duration, is_zero, before, after, add}
use solitaire_matchmaking.Base.Float.{Float}
use solitaire_matchmaking.Base.{map, str_lt}
use Prim.Native.String.{◌++◌ as concat}
use solitaire_matchmaking.Base.Sort.{sort}
use solitaire_matchmaking.Rating.Types.{MatchResult, ParticipantResult}
use solitaire_matchmaking.Tournament.Model.{RoomStatus, collecting}
use solitaire_matchmaking.Tournament.Model
use solitaire_matchmaking.Tournament.Results
use solitaire_matchmaking.Tournament.Results.{
  Error, conflict, room_not_found, room_not_collecting, deadline_passed, participants_mismatch,
  scan, VerifiedParticipant, FinalizeResultCommand, FinalizedResult, ResultDigest, match_result,
  result_digest, by_player,
}
use solitaire_matchmaking.Postgres.Tables
use solitaire_matchmaking.Postgres.Tables.{
  RoomRow, SessionRow, ResultRow, ResultParticipantRow, OutboxEvent, Store, find, exists, update,
  insert_outbox, room_aggregate, room_completed,
}
use solitaire_matchmaking.Postgres.Tickets.{transact, next_version}
use solitaire_matchmaking.Postgres.Assignment.{lock_assignment_room, insert_shadow_work, store_room}
use solitaire_matchmaking.Base.{take, map}
use solitaire_matchmaking.Base.Int.{max_int64, ◌+ℤ◌}
use solitaire_matchmaking.Tournament.Model.{SessionStatus, allocated, playing}
use solitaire_matchmaking.Tournament.Results.{
  version_range, ResultDeadlineBatch, validate_batch, ExpiredRoom,
}
use solitaire_matchmaking.Postgres.Tables.{room_expired}
use solitaire_matchmaking.Postgres.Results.{is_collecting, EventHash, derived_event_id}

abbrev pub is_overdue : Time → Option Time → Bool
is_overdue now none = false
is_overdue now (some deadline) = leb deadline now

-- `WHERE status = 'collecting' AND result_deadline <= now`.
unfoldable pub is_due : Time → RoomRow → Bool
is_due now r = is_collecting r.status && is_overdue now r.result_deadline

abbrev pub deadline_less : Option Time → Option Time → Bool
deadline_less (some a) (some b) = ltb a b
deadline_less (some a) none = true
deadline_less none b = false

-- `ORDER BY result_deadline, room_id`, where NULL is the last.
unfoldable pub due_before : RoomRow → RoomRow → Bool
due_before r q =
    deadline_less r.result_deadline q.result_deadline
    || not (deadline_less q.result_deadline r.result_deadline) && str_lt r.id q.id

abbrev pub is_open : SessionStatus → Bool
is_open allocated = true
is_open playing = true
is_open _ = false

abbrev pub expired_room : Time → RoomRow → RoomRow
expired_room now r = record r {
  status = Model.expired;
  version = r.version +ℤ pos 1;
  expired_at = some now;
}

abbrev pub expiry_of : Time → RoomRow → Time → ExpiredRoom
expiry_of now r deadline = record {
  room_id = r.id;
  room_version = r.version +ℤ pos 1;
  result_deadline = deadline;
  expired_at = now;
}

-- The row that the update returns; its version has to fit a bigint.
unfoldable pub row_with_deadline : Time → RoomRow → Option Time → Result Error ExpiredRoom
row_with_deadline now r none = err scan
row_with_deadline now r (some deadline) =
    fail_if (leb_ℤ (pos max_int64) r.version) version_range >> ok (expiry_of now r deadline)

abbrev pub returned_row : Time → RoomRow → Result Error ExpiredRoom
returned_row now r = row_with_deadline now r r.result_deadline

unfoldable pub returned_rows : Time → List RoomRow → Result Error (List ExpiredRoom)
returned_rows now [] = ok []
returned_rows now (r ∷ rs) = do e ← returned_row now r; es ← returned_rows now rs; ok (e ∷ es)

abbrev pub forfeited_session : Time → SessionRow → SessionRow
forfeited_session now x = record x { status = Model.forfeited; forfeited_at = some now }

module _ {F : Type 0} where
  -- `locked` names the rooms that another transaction holds, which the query skips.
  unfoldable pub due_rooms : (locked : String → Bool) → Time → ℕ → Store F → List RoomRow
  due_rooms locked now limit s =
      take limit (sort due_before (keep (λ r. is_due now r && not (locked r.id)) s.rooms))

  -- `UPDATE rooms … FROM due`, and the rows that it returns.
  unfoldable pub expire_rooms :
      Time → List RoomRow → Store F → Result Error (List ExpiredRoom × Store F)
  expire_rooms now due s = do
    es ← returned_rows now due
    ok (
      es,
      record s {
        rooms = update (λ r. contains r.id (map (λ q. q.id) due)) (expired_room now) s.rooms;
      },
    )

  unfoldable pub forfeit_sessions : String → Time → Store F → Store F
  forfeit_sessions room_id now s = record s {
    sessions =
        update (λ x. str_eq x.room_id room_id && is_open x.status) (forfeited_session now)
          s.sessions;
  }

module _ (hashed : EventHash) where
  abbrev pub room_expiry_event : ExpiredRoom → OutboxEvent
  room_expiry_event e = record {
    id = derived_event_id hashed "room-expired" e.room_id e.room_version;
    aggregate_type = room_aggregate;
    aggregate_id = e.room_id;
    aggregate_version = e.room_version;
    event_type = room_expired;
    payload = Tables.room_expiry e.room_id e.room_version e.result_deadline e.expired_at;
    occurred_at = e.expired_at;
  }

module _ {F : Type 0} (hashed : EventHash) where
  -- The loop over the expired rooms.
  unfoldable pub announce_rooms : Time → List ExpiredRoom → Store F → Result Error (Store F)
  announce_rooms now [] s = ok s
  announce_rooms now (e ∷ es) s =
      insert_outbox (room_expiry_event hashed e) conflict (forfeit_sessions e.room_id now s)
      >>= announce_rooms now es

  unfoldable pub expire_rooms_in_transaction :
      (locked : String → Bool)
      → Store F
      → ResultDeadlineBatch
      → Result Error (List ExpiredRoom × Store F)
  expire_rooms_in_transaction locked s b = do
    validate_batch b
    (es, s₁) ← expire_rooms b.expired_at (due_rooms locked b.expired_at (pos_part b.limit) s) s
    s₂ ← announce_rooms b.expired_at es s₁
    ok (es, s₂)

  unfoldable pub expire_result_rooms :
      (locked : String → Bool)
      → Store F
      → ResultDeadlineBatch
      → Result Error (List ExpiredRoom) × Store F
  expire_result_rooms locked s b = transact s (expire_rooms_in_transaction locked s b)
