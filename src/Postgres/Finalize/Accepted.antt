-- ===== src/Postgres/Finalize/Accepted.antt =====
-- What a new result says of the room that it completes (internal/postgres/results.go).
use solitaire_matchmaking.Base.{
  ℕ, ◌≤◌, ◌≡◌, inl, inr, refl, ap, Bool, false, not, ◌||◌, ◌==◌, Option, none, some, List, [], ◌∷◌,
  str_eq, length, ok, arith, All, eq_iff, >>=-ok, fail_if-ok,
}
use solitaire_matchmaking.Base.Time.{Time, before}
use solitaire_matchmaking.Tournament.Model.{collecting}
use solitaire_matchmaking.Tournament.Results.{
  participants_mismatch, VerifiedParticipant, FinalizeResultCommand, FinalizedResult, ResultDigest,
}
use solitaire_matchmaking.Postgres.Tables.{RoomRow, SessionRow, Store}
use solitaire_matchmaking.Postgres.Tickets.{next_version}
use solitaire_matchmaking.Postgres.Assignment.{lock_assignment_room}
use solitaire_matchmaking.Postgres.Results.{
  is_collecting_lem, EventHash, later, check_result_room, session_of_player, verify_participant,
  verify_each, verify_participants, completed_room,
}
use solitaire_matchmaking.Postgres.Finalize.{room_sessions, finalize_in_transaction}
use solitaire_matchmaking.Tournament.Model.{collecting}
use solitaire_matchmaking.Postgres.Finalize.{finalize_result}
use solitaire_matchmaking.Postgres.Tickets.Fencing.{transact-ok}
use solitaire_matchmaking.Postgres.Finalize.Writes.{Finalizes, finalize_lem}
use solitaire_matchmaking.Postgres.Assign.Reading.{room_stored}

-- In time for the deadline of the room.
abbrev pub InTime : Time → Option Time → Type 0
InTime t none = ⊥
InTime t (some deadline) = t ≤ deadline

in_time : (t : Time) (deadline : Option Time) → later t deadline ≡ false → InTime t deadline
in_time t none h = cc
in_time t (some deadline) h = ground (arith, h)

either_false : (a b : Bool) → (a || b) ≡ false → (a ≡ false) × (b ≡ false)
either_false a b h = ground arith

room_guards :
    (c : FinalizeResultCommand) (room : RoomRow)
    → check_result_room c room ≡ ok tt
    → InTime c.accepted_at room.result_deadline × InTime c.finished_at room.result_deadline
unfolding check_result_room
room_guards c room h =
    let (_, h₁) = fail_if-ok _ _ _ h in
    let (in_order, _) = fail_if-ok _ _ _ h₁ in
    let (a, b) = either_false _ _ in_order in
    (in_time c.accepted_at room.result_deadline a, in_time c.finished_at room.result_deadline b)

-- Each participant is a player of the room, in the session of the room.
abbrev pub HasSession : List SessionRow → Time → VerifiedParticipant → Type 0
HasSession xs t p =
    (x : SessionRow) × (session_of_player p.player_id xs ≡ some x)
    × (x.session_id ≡ p.session_id)
    × (x.allocated_at ≤ t)

verified :
    (xs : List SessionRow) (t : Time) (p : VerifiedParticipant) (x : Option SessionRow)
    → session_of_player p.player_id xs ≡ x
    → verify_participant t p x ≡ ok tt
    → HasSession xs t p
unfolding verify_participant
verified xs t p none e h = cc
verified xs t p (some x) e h =
    let clear : (not (str_eq x.session_id p.session_id) || before t x.allocated_at) ≡ false =
      ground (arith, h) in
    let (same, in_order) =
      either_false (not (str_eq x.session_id p.session_id)) (before t x.allocated_at) clear in
    (x, e, (eq_iff x.session_id p.session_id).0 (ground (arith, same)), ground (arith, in_order))

each_verified :
    (xs : List SessionRow) (t : Time) (ps : List VerifiedParticipant)
    → verify_each xs t ps ≡ ok tt
    → All (HasSession xs t) ps
unfolding verify_each
each_verified xs t [] h = tt
each_verified xs t (p ∷ ps) h =
    let (_, first, rest) =
      >>=-ok (verify_participant t p (session_of_player p.player_id xs)) (λ _. verify_each xs t ps)
        h in
    (verified xs t p _ refl first, each_verified xs t ps rest)

participants_guards :
    (c : FinalizeResultCommand) (xs : List SessionRow) (capacity : ℕ)
    → verify_participants c.participants xs capacity c.finished_at ≡ ok tt
    → (length c.participants ≡ capacity) × All (HasSession xs c.finished_at) c.participants
unfolding verify_participants
participants_guards c xs capacity h =
    let (count, h₁) =
      fail_if-ok (not (length c.participants == capacity) || not (length xs == capacity))
        participants_mismatch _ h in
    (ground (arith, count), each_verified xs c.finished_at c.participants h₁)

module _ {F : Type 0} where
  -- What holds of the room and the command of a new result.
  pub record Accepted (s : Store F) (c : FinalizeResultCommand) (r : FinalizedResult) (s' : Store F)
      : Type 0 where
    pub room : RoomRow
    pub found : lock_assignment_room c.room_id s ≡ some room
    pub was_collecting : room.status ≡ collecting
    pub accepted_in_time : InTime c.accepted_at room.result_deadline
    pub finished_in_time : InTime c.finished_at room.result_deadline
    pub complete : length c.participants ≡ room.capacity
    pub in_sessions : All (HasSession (room_sessions room.id s) c.finished_at) c.participants
    pub stored : lock_assignment_room c.room_id s' ≡ some (completed_room c room)
    pub answer : r.room_version ≡ next_version room.version

  accepted_lem :
      (s : Store F) (c : FinalizeResultCommand) {r : FinalizedResult} {s' : Store F}
      → Finalizes s c r s'
      → Accepted s c r s'
  accepted_lem s c {r} {s'} f =
      let (a, b) = room_guards c f.room f.room_checked in
      let (n, each) =
        participants_guards c (room_sessions f.room.id s) f.room.capacity f.participants_checked in
      record {
        room = f.room;
        found = f.room_found;
        was_collecting = is_collecting_lem f.room.status f.was_collecting;
        accepted_in_time = a;
        finished_in_time = b;
        complete = n;
        in_sessions = each;
        stored =
            room_stored c.room_id s s' f.room (completed_room c f.room) f.room_found refl f.rooms;
        answer = ap (λ x. x.room_version) f.result;
      }

module _ {F : Type 0} (hashed : EventHash) (sha256 : ResultDigest) where
  -- When a finalization of a result succeeds and is not a replay, its room was collecting with a
  -- result deadline, the result was accepted and the match finished by that deadline, the result has
  -- as many participants as the room has seats, each with the session that the player was given in
  -- this room before the match finished, and the room is stored as completed under its next version.
  pub finalize_result_accepts :
      (s : Store F) (c : FinalizeResultCommand) {r : FinalizedResult} {s' : Store F}
      → finalize_result hashed sha256 s c ≡ (ok r, s')
      → r.replay ≡ false
      → Accepted s c r s'
  unfolding finalize_result
  finalize_result_accepts s c h new =
      let e = transact-ok s (finalize_in_transaction hashed sha256 s c) h in
      elim (finalize_lem hashed sha256 s c e) [
        | inl (_, replayed) ↦ cc
        | inr f ↦ accepted_lem s c f
      ]
