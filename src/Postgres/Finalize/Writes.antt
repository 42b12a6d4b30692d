-- ===== src/Postgres/Finalize/Writes.antt =====
-- What a new result has found and written.
use solitaire_matchmaking.Base.{
  ℕ, ◌≡◌, ◌⊎◌, inl, inr, refl, sym, ap, ◌∙◌, Bool, true, false, Option, none, some, List, [], ◌∷◌,
  String, str_eq, ok, arith, >>=-ok, ok_injective,
}
use solitaire_matchmaking.Base.Time.{Time}
use solitaire_matchmaking.Tournament.Results.{
  conflict, VerifiedParticipant, FinalizeResultCommand, FinalizedResult, ResultDigest,
  result_digest,
}
use solitaire_matchmaking.Postgres.Tables.{
  RoomRow, ResultRow, ResultParticipantRow, Store, update, insert_outbox,
}
use solitaire_matchmaking.Postgres.Tickets.{next_version}
use solitaire_matchmaking.Postgres.Assignment.{lock_assignment_room, insert_shadow_work, store_room}
use solitaire_matchmaking.Postgres.Results.{
  is_collecting, EventHash, check_result_room, verify_participants, result_row, participant_row,
  completed_room, complete_room, finalized, completion_event,
}
use solitaire_matchmaking.Postgres.Finalize.{
  load_result_by_event, load_result_by_room, room_sessions, replay_result, insert_result,
  insert_participant, finalize_session, insert_participants, write_result, finalize_collecting,
  finalize_by_status, finalize_other, finalize_room, finalize_stored, finalize_in_transaction,
}
use solitaire_matchmaking.Postgres.Tables.Rows.{insert_outbox-ok}

completed_lem :
    (c : FinalizeResultCommand) (room : RoomRow) {room' : RoomRow}
    → complete_room c room ≡ ok room'
    → room' ≡ completed_room c room
unfolding complete_room
completed_lem c room h = ground arith

module _ {F : Type 0} where
  -- What a step on the results leaves alone.
  pub record Spares (s s' : Store F) : Type 0 where
    pub tickets : s'.tickets ≡ s.tickets
    pub memberships : s'.memberships ≡ s.memberships
    pub rooms : s'.rooms ≡ s.rooms

  Spares-trans : {x y z : Store F} → Spares x y → Spares y z → Spares x z
  Spares-trans a b = record {
    tickets = b.tickets ∙ a.tickets;
    memberships = b.memberships ∙ a.memberships;
    rooms = b.rooms ∙ a.rooms;
  }

  insert_result-Spares :
      (r : ResultRow) (s : Store F) {s' : Store F} → insert_result r s ≡ ok s' → Spares s s'
  unfolding insert_result
  insert_result-Spares r s h = ground arith

  participant-Spares :
      (p : ResultParticipantRow) (v : VerifiedParticipant) (t : Time) (s : Store F) {s' : Store F}
      → insert_participant p s ≡ ok s'
      → Spares s (finalize_session v t s')
  unfolding insert_participant finalize_session
  participant-Spares p v t s h = ground arith

  participants-Spares :
      (c : FinalizeResultCommand) (room : RoomRow) (ps : List VerifiedParticipant) (s : Store F)
      {s' : Store F}
      → insert_participants c room ps s ≡ ok s'
      → Spares s s'
  unfolding insert_participants
  participants-Spares c room [] s {s'} h =
      let e = ok_injective h in
      record {
        tickets = ap (λ x. x.tickets) (sym e);
        memberships = ap (λ x. x.memberships) (sym e);
        rooms = ap (λ x. x.rooms) (sym e);
      }
  participants-Spares c room (p ∷ ps) s h =
      let (s₁, first, rest) = >>=-ok (insert_participant (participant_row c room p) s) _ h in
      Spares-trans (participant-Spares (participant_row c room p) p c.finished_at s first)
        (participants-Spares c room ps (finalize_session p c.finished_at s₁) rest)

  shadow-Spares :
      (kind source : String) (position : Time) (priority : ℕ) (s : Store F)
      → Spares s (insert_shadow_work kind source position priority s)
  unfolding insert_shadow_work
  shadow-Spares kind source position priority s = ground arith

  -- The evidence of a new result.
  pub record Finalizes (s : Store F) (c : FinalizeResultCommand) (r : FinalizedResult)
      (s' : Store F) : Type 0 where
    pub room : RoomRow
    pub room_found : lock_assignment_room c.room_id s ≡ some room
    pub was_collecting : is_collecting room.status ≡ true
    pub room_checked : check_result_room c room ≡ ok tt
    pub participants_checked :
        verify_participants c.participants (room_sessions room.id s) room.capacity c.finished_at
        ≡ ok tt
    pub filled : complete_room c room ≡ ok (completed_room c room)
    pub result : r ≡ finalized c (next_version room.version)
    pub tickets : s'.tickets ≡ s.tickets
    pub memberships : s'.memberships ≡ s.memberships
    pub rooms : s'.rooms ≡ (store_room (completed_room c room) s).rooms

module _ {F : Type 0} (hashed : EventHash) where
  collecting_lem :
      (s : Store F) (c : FinalizeResultCommand) (digest : String) (room : RoomRow)
      {r : FinalizedResult} {s' : Store F}
      → lock_assignment_room c.room_id s ≡ some room
      → is_collecting room.status ≡ true
      → finalize_collecting hashed s c digest room ≡ ok (r, s')
      → Finalizes s c r s'
  unfolding finalize_collecting write_result store_room
  collecting_lem s c digest room found open_room h =
      let (_, checked, h₁) = >>=-ok (check_result_room c room) _ h in
      let (_, verified, h₂) =
        >>=-ok
          (verify_participants c.participants (room_sessions room.id s) room.capacity c.finished_at)
          _ h₁ in
      let (s₁, first, h₃) = >>=-ok (insert_result (result_row c digest room) s) _ h₂ in
      let (s₂, second, h₄) = >>=-ok (insert_participants c room c.participants s₁) _ h₃ in
      let (room', completed, h₅) = >>=-ok (complete_room c room) _ h₄ in
      let (s₃, third, last) =
        >>=-ok
          (insert_outbox (completion_event hashed (finalized c (next_version room.version)))
            conflict (store_room room' s₂))
          _ h₅ in
      let spared =
        Spares-trans (insert_result-Spares (result_row c digest room) s first)
          (participants-Spares c room c.participants s₁ second) in
      let written =
        insert_outbox-ok (completion_event hashed (finalized c (next_version room.version)))
          conflict (store_room room' s₂) third in
      let shadow = shadow-Spares "result" c.event_id c.available_at 1 s₃ in
      let end = ap (λ x. x.1) (sym (ok_injective last)) in
      let is_room = completed_lem c room completed in
      record {
        room = room;
        room_found = found;
        was_collecting = open_room;
        room_checked = checked;
        participants_checked = verified;
        filled = completed ∙ ap ok is_room;
        result = ap (λ x. x.0) (sym (ok_injective last));
        tickets =
            ap (λ x. x.tickets) end ∙ shadow.tickets ∙ ap (λ x. x.tickets) written ∙ spared.tickets;
        memberships =
            ap (λ x. x.memberships) end
            ∙ shadow.memberships
            ∙ ap (λ x. x.memberships) written
            ∙ spared.memberships;
        rooms =
            ap (λ x. x.rooms) end
            ∙ shadow.rooms
            ∙ ap (λ x. x.rooms) written
            ∙ ap (λ x. update (λ q. str_eq q.id x.id) (λ _. x) s₂.rooms) is_room
            ∙ ap (update (λ q. str_eq q.id room.id) (λ _. completed_room c room)) spared.rooms;
      }

  replayed_lem :
      (s : Store F) (digest : String) (stored : FinalizedResult × String) {r : FinalizedResult}
      {s' : Store F}
      → replay_result s digest stored ≡ ok (r, s')
      → (s' ≡ s) × (r ≡ record (stored.0) { replay = true }) × (str_eq stored.1 digest ≡ true)
  unfolding replay_result
  replayed_lem s digest (x, d) h = ground arith

  other_lem :
      (s : Store F) (digest : String) (stored : Option (FinalizedResult × String))
      {r : FinalizedResult} {s' : Store F}
      → finalize_other s digest stored ≡ ok (r, s')
      → (s' ≡ s) × (r.replay ≡ true)
  unfolding finalize_other
  other_lem s digest none h = cc
  other_lem s digest (some x) h =
      let (same, result, _) = replayed_lem s digest x h in (same, ap (λ y. y.replay) result)

  room_lem :
      (s : Store F) (c : FinalizeResultCommand) (digest : String) (room : RoomRow)
      (open_room : Bool) {r : FinalizedResult} {s' : Store F}
      → lock_assignment_room c.room_id s ≡ some room
      → is_collecting room.status ≡ open_room
      → finalize_by_status hashed s c digest room open_room ≡ ok (r, s')
      → ((s' ≡ s) × (r.replay ≡ true)) ⊎ Finalizes s c r s'
  unfolding finalize_by_status
  room_lem s c digest room true found o h = inr (collecting_lem s c digest room found o h)
  room_lem s c digest room false found o h =
      let (stored, _, rest) =
        >>=-ok (load_result_by_room c.room_id s) (finalize_other s digest) h in
      inl (other_lem s digest stored rest)

  finalize_room_lem :
      (s : Store F) (c : FinalizeResultCommand) (digest : String) (room : Option RoomRow)
      {r : FinalizedResult} {s' : Store F}
      → lock_assignment_room c.room_id s ≡ room
      → finalize_room hashed s c digest room ≡ ok (r, s')
      → ((s' ≡ s) × (r.replay ≡ true)) ⊎ Finalizes s c r s'
  unfolding finalize_room
  finalize_room_lem s c digest none found h = cc
  finalize_room_lem s c digest (some room) found h =
      room_lem s c digest room (is_collecting room.status) found refl h

  finalize_stored_lem :
      (s : Store F) (c : FinalizeResultCommand) (digest : String)
      (stored : Option (FinalizedResult × String)) {r : FinalizedResult} {s' : Store F}
      → finalize_stored hashed s c digest stored ≡ ok (r, s')
      → ((s' ≡ s) × (r.replay ≡ true)) ⊎ Finalizes s c r s'
  unfolding finalize_stored
  finalize_stored_lem s c digest none h =
      finalize_room_lem s c digest (lock_assignment_room c.room_id s) refl h
  finalize_stored_lem s c digest (some x) h =
      let (same, result, _) = replayed_lem s digest x h in inl (same, ap (λ y. y.replay) result)

  -- A finalization that succeeds is a replay that changes nothing, or a new result.
  pub finalize_lem :
      (sha256 : ResultDigest) (s : Store F) (c : FinalizeResultCommand) {r : FinalizedResult}
      {s' : Store F}
      → finalize_in_transaction hashed sha256 s c ≡ ok (r, s')
      → ((s' ≡ s) × (r.replay ≡ true)) ⊎ Finalizes s c r s'
  unfolding finalize_in_transaction
  finalize_lem sha256 s c h =
      let (digest, _, h₁) = >>=-ok (result_digest sha256 c) _ h in
      let (stored, _, h₂) =
        >>=-ok (load_result_by_event c.event_id s) (finalize_stored hashed s c digest) h₁ in
      finalize_stored_lem s c digest stored h₂
