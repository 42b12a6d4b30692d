-- ===== src/Postgres/Finalize.antt =====
-- internal/postgres/results.go: the transaction of `FinalizeResult`, from its parts.
pub mod Writes
pub mod Accepted
use solitaire_matchmaking.Base.{
  ℕ, zero, suc, ◌+◌, ◌-◌, ◌*◌, ◌≤◌, ◌<◌, ◌≡◌, ◌≢◌, ◌⊎◌, inl, inr, refl, sym, ap, ◌∙◌, Bool, true,
  false, not, ◌&&◌, ◌||◌, ◌==◌, ltb, leb, Option, none, some, List, [], ◌∷◌, ◌++◌, String, is_empty,
  str_eq, contains, length, if◌then◌else◌, Result, ok, err, ◌>>=◌, ◌>>◌, fail_if, wrap, arith,
  Bool-cases, Option-cases, In, All, keep, str_eq_refl, eq_iff, >>=-ok, fail_if-ok, wrap-ok,
  ok_injective, length-append, All-append, All-map, All-In, subst,
}
use solitaire_matchmaking.Base.Int.{
  ℤ, pos, negsuc, ltb_ℤ, leb_ℤ, eq_ℤ, ◌≤ℤ◌, ◌<ℤ◌, pos_part, neg_part,
}
use solitaire_matchmaking.Base.Time.{Time, Duration, is_zero, before, after, add}
use solitaire_matchmaking.Base.Float.{Float}
use solitaire_matchmaking.Base.{map, str_lt}
use Prim.Native.String.{◌++◌ as concat}
use solitaire_matchmaking.Base.Sort.{sort}
use solitaire_matchmaking.Rating.Types.{MatchResult, ParticipantResult}
use solitaire_matchmaking.Tournament.Model.{RoomStatus, collecting}
use solitaire_matchmaking.Tournament.Model
use solitaire_matchmaking.Tournament.Results
use solitaire_matchmaking.Tournament.Results.{
  Error, conflict, room_not_found, room_not_collecting, deadline_passed, participants_mismatch,
  scan, VerifiedParticipant, FinalizeResultCommand, FinalizedResult, ResultDigest, match_result,
  result_digest, by_player,
}
use solitaire_matchmaking.Postgres.Tables
use solitaire_matchmaking.Postgres.Tables.{
  RoomRow, SessionRow, ResultRow, ResultParticipantRow, OutboxEvent, Store, find, exists, update,
  insert_outbox, room_aggregate, room_completed,
}
use solitaire_matchmaking.Postgres.Tickets.{transact, next_version}
use solitaire_matchmaking.Postgres.Assignment.{lock_assignment_room, insert_shadow_work, store_room}
use solitaire_matchmaking.Postgres.Results.{
  is_collecting, EventHash, result_clashes, participant_clashes, session_key, later,
  check_result_room, session_of_player, verify_participant, verify_each, verify_participants,
  is_completed, started, finalized_session, result_row, participant_row, completed_room,
  complete_room, finalized, verified_of, result_of, is_pending, derived_event_id, completion_event,
}

module _ {F : Type 0} where
  unfoldable pub participants_of : String → Store F → List VerifiedParticipant
  participants_of event_id s =
      sort by_player (map verified_of (keep (λ p. str_eq p.event_id event_id) s.participants))

  -- The join with the room; a completion time that is not there cannot be read.
  unfoldable pub join_room :
      Store F → ResultRow → Option RoomRow → Result Error (Option (FinalizedResult × String))
  join_room s r none = ok none
  join_room s r (some room) = elim room.completed_at [
    | none ↦ err scan
    | some completed_at ↦ ok (
        some (
          record {
            result = result_of r (participants_of r.event_id s);
            room_version = room.version;
            completed_at = completed_at;
            rating_pending = is_pending r.processed_at;
            replay = false;
          },
          r.request_digest,
        ))
  ]

  abbrev pub join_result :
      Store F → Option ResultRow → Result Error (Option (FinalizedResult × String))
  join_result s none = ok none
  join_result s (some r) = join_room s r (lock_assignment_room r.room_id s)

  -- `loadFinalizedResult` by event and by room.
  unfoldable pub load_result_by_event :
      String → Store F → Result Error (Option (FinalizedResult × String))
  load_result_by_event id s = join_result s (find (λ r. str_eq r.event_id id) s.results)

  unfoldable pub load_result_by_room :
      String → Store F → Result Error (Option (FinalizedResult × String))
  load_result_by_room id s = join_result s (find (λ r. str_eq r.room_id id) s.results)

  unfoldable pub room_sessions : String → Store F → List SessionRow
  room_sessions id s =
      sort (λ x y. str_lt x.player_id y.player_id) (keep (λ x. str_eq x.room_id id) s.sessions)

  unfoldable pub replay_result :
      Store F → String → FinalizedResult × String → Result Error (FinalizedResult × Store F)
  replay_result s digest (r, stored) =
      if str_eq stored digest then ok (record r { replay = true }, s) else err conflict

  unfoldable pub insert_result : ResultRow → Store F → Result Error (Store F)
  insert_result r s =
      if exists (result_clashes r) s.results
      then err conflict
      else ok (record s { results = s.results ++ r ∷ [] })

  -- The row of a participant, under its keys and the key of its session.
  unfoldable pub insert_participant : ResultParticipantRow → Store F → Result Error (Store F)
  insert_participant p s =
      if exists (participant_clashes p) s.participants || not (exists (session_key p) s.sessions)
      then err participants_mismatch
      else ok (record s { participants = s.participants ++ p ∷ [] })

  unfoldable pub finalize_session : VerifiedParticipant → Time → Store F → Store F
  finalize_session p finished_at s = record s {
    sessions =
        update (λ x. str_eq x.session_id p.session_id)
          (finalized_session (is_completed p.features.completed) finished_at) s.sessions;
  }

  -- The loop over the participants.
  unfoldable pub insert_participants :
      FinalizeResultCommand → RoomRow → List VerifiedParticipant → Store F → Result Error (Store F)
  insert_participants c room [] s = ok s
  insert_participants c room (p ∷ ps) s = insert_participant (participant_row c room p) s >>= λ s'.
      insert_participants c room ps (finalize_session p c.finished_at s')

  unfoldable pub finalize_other :
      Store F
      → String
      → Option (FinalizedResult × String)
      → Result Error (FinalizedResult × Store F)
  finalize_other s digest none = err room_not_collecting
  finalize_other s digest (some stored) = replay_result s digest stored

module _ {F : Type 0} (hashed : EventHash) where
  -- The writes, once the room and its participants have been checked.
  unfoldable pub write_result :
      Store F → FinalizeResultCommand → String → RoomRow → Result Error (FinalizedResult × Store F)
  write_result s c digest room = do
    let r = finalized c (next_version room.version)
    s₁ ← insert_result (result_row c digest room) s
    s₂ ← insert_participants c room c.participants s₁
    room' ← complete_room c room
    s₃ ← insert_outbox (completion_event hashed r) conflict (store_room room' s₂)
    ok (r, insert_shadow_work "result" c.event_id c.available_at 1 s₃)

  unfoldable pub finalize_collecting :
      Store F → FinalizeResultCommand → String → RoomRow → Result Error (FinalizedResult × Store F)
  finalize_collecting s c digest room = do
    check_result_room c room
    verify_participants c.participants (room_sessions room.id s) room.capacity c.finished_at
    write_result s c digest room

  unfoldable pub finalize_by_status :
      Store F
      → FinalizeResultCommand
      → String
      → RoomRow
      → Bool
      → Result Error (FinalizedResult × Store F)
  finalize_by_status s c digest room true = finalize_collecting s c digest room
  finalize_by_status s c digest room false =
      load_result_by_room c.room_id s >>= finalize_other s digest

  unfoldable pub finalize_room :
      Store F
      → FinalizeResultCommand
      → String
      → Option RoomRow
      → Result Error (FinalizedResult × Store F)
  finalize_room s c digest none = err room_not_found
  finalize_room s c digest (some room) =
      finalize_by_status s c digest room (is_collecting room.status)

  unfoldable pub finalize_stored :
      Store F
      → FinalizeResultCommand
      → String
      → Option (FinalizedResult × String)
      → Result Error (FinalizedResult × Store F)
  finalize_stored s c digest (some stored) = replay_result s digest stored
  finalize_stored s c digest none = finalize_room s c digest (lock_assignment_room c.room_id s)

  unfoldable pub finalize_in_transaction :
      ResultDigest → Store F → FinalizeResultCommand → Result Error (FinalizedResult × Store F)
  finalize_in_transaction sha256 s c = do
    digest ← result_digest sha256 c
    stored ← load_result_by_event c.event_id s
    finalize_stored s c digest stored

  unfoldable pub finalize_result :
      ResultDigest → Store F → FinalizeResultCommand → Result Error FinalizedResult × Store F
  finalize_result sha256 s c = transact s (finalize_in_transaction sha256 s c)
