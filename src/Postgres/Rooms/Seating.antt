-- ===== src/Postgres/Rooms/Seating.antt =====
-- The seat that an assignment gives.
use solitaire_matchmaking.Base.{
  ℕ, ◌+◌, ◌≤◌, ◌<◌, ◌≡◌, sym, ap, ◌∙◌, true, false, ◌==◌, Option, none, some, String, str_eq,
  if◌then◌else◌, ok, arith, >>=-ok, subst,
}
use solitaire_matchmaking.Base.Time.{Time}
use solitaire_matchmaking.Tournament.Model.{collecting}
use solitaire_matchmaking.Tournament.Tickets.{
  AssignTicketCommand, Assignment, Digest, assign_digest,
}
use solitaire_matchmaking.Postgres.Tables.{RoomRow, Store}
use solitaire_matchmaking.Postgres.Assignment.{
  StoredAssignment, count_members, load_assignment_by_identity, lock_assignment_room,
  replay_assignment, store_room, seat_taken, is_forming,
}
use solitaire_matchmaking.Postgres.Assign.{assign_stored, assign_in_transaction}
use solitaire_matchmaking.Postgres.Assign.Writes.{Seats, seats_lem}
use solitaire_matchmaking.Postgres.Assign.{assign_ticket}
use solitaire_matchmaking.Postgres.Assign.Reading.{room_stored}
use solitaire_matchmaking.Postgres.Assign.Seat.{free_seat_lem, lower_taken}
use solitaire_matchmaking.Postgres.Tables.{update}
use solitaire_matchmaking.Postgres.Tickets.Fencing.{transact-ok}
use solitaire_matchmaking.Postgres.Rooms.{free_lem, advance_lem}

module _ {F : Type 0} where
  -- The seat is the lowest free one of a forming room with a place left, and the room is collecting
  -- after it just if it was the last.
  abbrev pub TakesSeat : (s : Store F) → AssignTicketCommand → Assignment → Store F → Type 0
  TakesSeat s c a s' =
      (room advanced : RoomRow) × (lock_assignment_room c.room_id s ≡ some room)
      × (is_forming room.status ≡ true)
      × (count_members room.id s.memberships < room.capacity)
      × (1 ≤ a.seat)
      × (a.seat ≤ room.capacity)
      × (seat_taken room.id a.seat s.memberships ≡ false)
      × (a.room_filled ≡ (count_members room.id s.memberships + 1 == room.capacity))
      × (advanced.status ≡ (if a.room_filled then collecting else room.status))
      × (advanced.id ≡ room.id)
      × (advanced.capacity ≡ room.capacity)
      × (lock_assignment_room c.room_id s' ≡ some advanced)
      × (s'.rooms ≡ update (λ r. str_eq r.id room.id) (λ _. advanced) s.rooms)

  taken_lem :
      (s s' : Store F) (c : AssignTicketCommand) (digest : String) (clock : Time) (a : Assignment)
      → Seats s c digest clock a s'
      → TakesSeat s c a s'
  unfolding store_room
  taken_lem s s' c digest clock a e =
      let (open_room, has_room) = free_lem e.stored.ticket c e.room s.memberships e.room_checked in
      let (same_id, same_capacity, status) = advance_lem s e.room c.assigned_at _ e.room_advanced in
      let (low, high, free) =
        free_seat_lem e.room.id s.memberships e.room.capacity 1 e.seat_found in
      let seat : a.seat ≡ e.seat = ap (λ x. x.seat) e.assignment ∙ ap (λ x. x.seat) e.member_is in
      let filled : a.room_filled ≡ (count_members e.room.id s.memberships + 1 == e.room.capacity) =
        ap (λ x. x.room_filled) e.assignment ∙ ap (λ x. x.room_filled) e.member_is in
      (
        e.room,
        e.advanced,
        e.room_found,
        open_room,
        ground (arith, has_room),
        rw seat low,
        rw seat (omega (arith, high)),
        rw seat free,
        filled,
        rw filled status,
        same_id,
        same_capacity,
        room_stored c.room_id s s' e.room e.advanced e.room_found same_id e.rooms,
        e.rooms ∙ ap (λ id. update (λ r. str_eq r.id id) (λ _. e.advanced) s.rooms) same_id,
      )

  pub replay_lem :
      (s : Store F) (c : AssignTicketCommand) (digest : String) (stored : StoredAssignment)
      {a : Assignment} {s' : Store F}
      → replay_assignment s c digest stored ≡ ok (a, s')
      → a.replay ≡ true
  unfolding replay_assignment
  replay_lem s c digest stored h = ground arith

  stored_lem :
      (s : Store F) (c : AssignTicketCommand) (digest : String) (clock : Time)
      (found : Option StoredAssignment) {a : Assignment} {s' : Store F}
      → assign_stored s c digest clock found ≡ ok (a, s')
      → a.replay ≡ false
      → Seats s c digest clock a s'
  unfolding assign_stored
  stored_lem s c digest clock none r k = seats_lem s c digest clock r
  stored_lem s c digest clock (some stored) r k = let e = replay_lem s c digest stored r in cc

  pub new_lem :
      (sha256 : Digest F) (s : Store F) (c : AssignTicketCommand) (clock : Time) {a : Assignment}
      {s' : Store F}
      → assign_ticket sha256 s c clock ≡ (ok a, s')
      → a.replay ≡ false
      → (digest : String) × Seats s c digest clock a s'
  unfolding assign_ticket assign_in_transaction
  new_lem sha256 s c clock h k =
      let (digest, _, rest) =
        >>=-ok (assign_digest sha256 c)
          (λ d. assign_stored s c d clock (load_assignment_by_identity c.assignment_id s))
          (transact-ok s (assign_in_transaction sha256 s c clock) h) in
      (digest, stored_lem s c digest clock (load_assignment_by_identity c.assignment_id s) rest k)

  -- A new assignment takes a seat of the room of the command, which was forming with fewer members
  -- than its capacity: the seat is between 1 and the capacity and no membership of the room had it.
  -- It reports the room filled just if one place was left, and then that room is stored as collecting,
  -- otherwise with the status that it had.
  pub assign_ticket_seat :
      (sha256 : Digest F) (s : Store F) (c : AssignTicketCommand) (clock : Time) {a : Assignment}
      {s' : Store F}
      → assign_ticket sha256 s c clock ≡ (ok a, s')
      → a.replay ≡ false
      → TakesSeat s c a s'
  assign_ticket_seat sha256 s c clock {a} {s'} h k =
      let (digest, e) = new_lem sha256 s c clock h k in taken_lem s s' c digest clock a e

  -- Every seat of the room below the one that a new assignment takes was taken before.
  pub assign_ticket_lowest :
      (sha256 : Digest F) (s : Store F) (c : AssignTicketCommand) (clock : Time) {a : Assignment}
      {s' : Store F} (k : ℕ)
      → assign_ticket sha256 s c clock ≡ (ok a, s')
      → a.replay ≡ false
      → 1 ≤ k
      → k < a.seat
      → seat_taken a.room_id k s.memberships ≡ true
  assign_ticket_lowest sha256 s c clock {a} {s'} k h n low high =
      let (digest, e) = new_lem sha256 s c clock h n in
      let (same_id, _, _) = advance_lem s e.room c.assigned_at _ e.room_advanced in
      let seat : a.seat ≡ e.seat = ap (λ x. x.seat) e.assignment ∙ ap (λ x. x.seat) e.member_is in
      let room : a.room_id ≡ e.room.id =
        ap (λ x. x.room_id) e.assignment ∙ ap (λ x. x.room_id) e.member_is ∙ same_id in
      subst (λ id. seat_taken id k s.memberships ≡ true) (sym room)
        (lower_taken e.room.id s.memberships e.room.capacity 1 k e.seat_found low
          (subst (λ x. k < x) seat high))
