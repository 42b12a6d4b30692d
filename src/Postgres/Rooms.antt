-- ===== src/Postgres/Rooms.antt =====
-- The rooms over every history of commands: seats, players and capacities.
pub mod History
pub mod Seating
use solitaire_matchmaking.Base.{
  ℕ, zero, suc, ◌+◌, ◌-◌, ◌*◌, ◌≤◌, ◌<◌, ◌≡◌, ◌≢◌, ◌⊎◌, inl, inr, refl, sym, ap, ◌∙◌, Bool, true,
  false, not, ◌&&◌, ◌||◌, ◌==◌, ltb, leb, Option, none, some, List, [], ◌∷◌, ◌++◌, String, is_empty,
  str_eq, contains, length, if◌then◌else◌, Result, ok, err, ◌>>=◌, ◌>>◌, fail_if, wrap, arith,
  Bool-cases, Option-cases, In, All, keep, str_eq_refl, str_eq_sym, eq_iff, >>=-ok, fail_if-ok,
  wrap-ok, ok_injective, length-append, All-append, All-map, All-In, subst,
}
use solitaire_matchmaking.Base.Int.{
  ℤ, pos, negsuc, ltb_ℤ, leb_ℤ, eq_ℤ, ◌≤ℤ◌, ◌<ℤ◌, pos_part, neg_part,
}
use solitaire_matchmaking.Base.Time.{Time, Duration, is_zero, before, after, add}
use solitaire_matchmaking.Base.Float.{Float}
use solitaire_matchmaking.Tournament.Model.{
  Ticket, TicketStatus, RoomStatus, forming, collecting, allocated,
}
use solitaire_matchmaking.Tournament.Tickets.{
  Error, AssignTicketCommand, Assignment, Digest, assign_digest, assignment_conflict,
}
use solitaire_matchmaking.Postgres.Tables.{
  StoredTicket, OutboxEvent, RoomRow, MembershipRow, SessionRow, Store, exists, load_ticket_by_id,
  close_ticket, insert_outbox,
}
use solitaire_matchmaking.Postgres.Tables.Rows.{insert_outbox-ok}
use solitaire_matchmaking.Postgres.Assignment.{
  StoredAssignment, count_members, free_seat, load_assignment_by_identity, lock_assignment_room,
  replay_assignment, check_ticket, check_room, advance_room, insert_membership, insert_session,
  store_room, insert_assignment_events, insert_shadow_work, assigned_ticket, membership_clashes,
  seat_taken, in_room, is_forming, has_player, fill_room,
}
use solitaire_matchmaking.Postgres.Assign.{
  or_unavailable, or_no_room, or_no_ticket, membership_of, session_row, assignment_of,
  write_assignment, seat_in_room, assign_new, assign_stored, assign_in_transaction,
}
use solitaire_matchmaking.Postgres.Assign.Writes.{Seats, seats_lem}
use solitaire_matchmaking.Postgres.Tickets.Life.{
  Follows, Leaves, close-Follows, is_terminal, cancel-Follows, accept-Follows, expire-Follows,
}
use solitaire_matchmaking.Postgres.Tickets.{
  cancel_in_transaction, accept_in_transaction, expire_in_transaction, transact, cancel_ticket,
  accept_ticket, expire_ticket,
}
use solitaire_matchmaking.Postgres.Assign.{assign_ticket}
use solitaire_matchmaking.Tournament.Tickets.{
  room_not_available, CancelTicketCommand, ExpireTicketCommand, AcceptTicketCommand, is_queued,
  ticket_not_queued,
}
use solitaire_matchmaking.Postgres.Assign.Seat.{free_seat_lem, lower_taken}
use solitaire_matchmaking.Postgres.Tables.{update, ConfigRow}
use solitaire_matchmaking.Postgres.Tables.Rows.{exists-All, insert_command-ok}
use solitaire_matchmaking.Postgres.Tickets.Life.{inserted_lem, replayed_lem, replay-same}
use solitaire_matchmaking.Postgres.Commands.{
  Command, accepting, cancelling, expiring, assigning, step, run, run_lem, transact_lem, same_lem,
}

-- No two memberships clash in one of the keys of the table.
abbrev pub AreDistinct : List MembershipRow → Type 0
AreDistinct [] = Unit {0}
AreDistinct (m ∷ ms) = (All (λ n. membership_clashes n m ≡ false) ms) × AreDistinct ms

-- A forming room has a seat left, a collecting room has none.
abbrev pub has_seats : RoomStatus → (count capacity : ℕ) → Bool
has_seats forming count capacity = ltb count capacity
has_seats collecting count capacity = count == capacity
has_seats _ count capacity = leb count capacity

abbrev pub has_range : MembershipRow → Bool
has_range m = leb 1 m.seat && leb m.seat m.room_capacity

pub record AreSeated {F : Type 0} (s : Store F) : Type 0 where
  pub distinct : AreDistinct s.memberships
  pub in_range : All (λ m. has_range m ≡ true) s.memberships
  pub counted :
      All (λ r. has_seats r.status (count_members r.id s.memberships) r.capacity ≡ true) s.rooms

distinct-append :
    (ms : List MembershipRow) (m : MembershipRow)
    → AreDistinct ms
    → All (λ n. membership_clashes m n ≡ false) ms
    → AreDistinct (ms ++ m ∷ [])
distinct-append [] m h k = (tt, tt)
distinct-append (n ∷ ms) m (h, hs) (k, ks) = (
  All-append (λ x. membership_clashes x n ≡ false) ms (m ∷ []) h (k, tt),
  distinct-append ms m hs ks,
)

count-append :
    (room_id : String) (ms : List MembershipRow) (m : MembershipRow)
    → count_members room_id (ms ++ m ∷ [])
      ≡ count_members room_id ms + (if in_room room_id m then 1 else 0)
unfolding count_members
count-append room_id [] m = ground arith
count-append room_id (n ∷ ms) m = ground (arith, count-append room_id ms m)

count_same :
    (room_id : String) (ms : List MembershipRow) (m : MembershipRow)
    → m.room_id ≡ room_id
    → count_members room_id (ms ++ m ∷ []) ≡ count_members room_id ms + 1
count_same room_id ms m e =
    count-append room_id ms m
    ∙ ap (λ b. count_members room_id ms + (if b then 1 else 0))
        (ap (λ x. str_eq x room_id) e ∙ str_eq_refl room_id)

count_other :
    (room_id : String) (ms : List MembershipRow) (m : MembershipRow)
    → in_room room_id m ≡ false
    → count_members room_id (ms ++ m ∷ []) ≡ count_members room_id ms
count_other room_id ms m e =
    count-append room_id ms m
    ∙ ap (λ b. count_members room_id ms + (if b then 1 else 0)) e
    ∙ omega arith

-- The rooms after the update of one of them, by the count that its status asks for.
counted-update :
    (ms : List MembershipRow) (m : MembershipRow) (room : RoomRow) (rooms : List RoomRow)
    → m.room_id ≡ room.id
    → All (λ r. has_seats r.status (count_members r.id ms) r.capacity ≡ true) rooms
    → has_seats room.status (count_members room.id ms + 1) room.capacity ≡ true
    → All
        (λ r. has_seats r.status (count_members r.id (ms ++ m ∷ [])) r.capacity ≡ true)
        (update (λ r. str_eq r.id room.id) (λ _. room) rooms)
unfolding update
counted-update ms m room [] e h k = tt
counted-update ms m room (r ∷ rooms) e (h, hs) k = (
  elim (Bool-cases (str_eq r.id room.id)) [
    | inl y ↦ rw y (
        subst (λ n. has_seats room.status n room.capacity ≡ true) (sym (count_same room.id ms m e))
          k)
    | inr n ↦
        let apart : str_eq m.room_id r.id ≡ false = simp (e, str_eq_sym room.id r.id, n) in
        rw n (
          subst (λ x. has_seats r.status x r.capacity ≡ true) (sym (count_other r.id ms m apart)) h)
  ],
  counted-update ms m room rooms e hs k,
)

-- A forming room with one member more is full and collecting, or forming with a seat left.
seats_left :
    (status status' : RoomStatus) (n capacity : ℕ)
    → is_forming status ≡ true
    → ltb n capacity ≡ true
    → status' ≡ (if n + 1 == capacity then collecting else status)
    → has_seats status' (n + 1) capacity ≡ true
seats_left forming status' n capacity f l e = elim (Bool-cases (n + 1 == capacity)) [
  | inl y ↦ rw (e, y) y
  | inr h ↦ rw (e, h) (ground (arith, h, l))
]
seats_left collecting status' n capacity f l e = cc
seats_left _ status' n capacity f l e = cc

module _ {F : Type 0} where
  pub free_lem :
      (t : Ticket F) (c : AssignTicketCommand) (room : RoomRow) (ms : List MembershipRow)
      → check_room t c room ms ≡ ok tt
      → (is_forming room.status ≡ true) × (ltb (count_members room.id ms) room.capacity ≡ true)
  unfolding check_room
  free_lem t c room ms h =
      let (a, rest) =
        fail_if-ok
          (not (is_forming room.status)
            || not (eq_ℤ room.version c.expected_room_version)
            || after c.assigned_at room.fill_deadline
            || not (str_eq room.tournament_id t.tournament_id)
            || not (str_eq room.tournament_version t.tournament_version)
            || not (str_eq room.rating_model_version t.rating_snapshot.model_version))
          room_not_available _ h in
      let (b, _) =
        fail_if-ok
          (leb room.capacity (count_members room.id ms) || has_player room.id t.player_id ms)
          room_not_available _ rest in
      (ground (arith, a, Bool-cases (is_forming room.status)), ground (arith, b))

  fill_lem :
      (s : Store F) (room : RoomRow) (now : Time) (config : Option ConfigRow) {room' : RoomRow}
      → fill_room s room now config ≡ ok room'
      → (room'.id ≡ room.id) × (room'.capacity ≡ room.capacity) × (room'.status ≡ collecting)
  unfolding fill_room
  fill_lem s room now none h = cc
  fill_lem s room now (some config) h = ground arith

  pub advance_lem :
      (s : Store F) (room : RoomRow) (now : Time) (last : Bool) {room' : RoomRow}
      → advance_room s room now last ≡ ok room'
      → (room'.id ≡ room.id)
        × (room'.capacity ≡ room.capacity)
        × (room'.status ≡ (if last then collecting else room.status))
  unfolding advance_room
  advance_lem s room now true h = fill_lem s room now _ h
  advance_lem s room now false h = ground arith

  range_lem :
      (c : AssignTicketCommand) (digest : String) (t : Ticket F) (room : RoomRow) (seat : ℕ)
      (last : Bool)
      → 1 ≤ seat
      → seat < 1 + room.capacity
      → has_range (membership_of c digest t room seat last) ≡ true
  range_lem c digest t room seat last low high = ground arith

  -- A new assignment keeps the rooms in order.
  pub Seats-AreSeated :
      (s s' : Store F) (c : AssignTicketCommand) (digest : String) (clock : Time) (a : Assignment)
      → Seats s c digest clock a s'
      → AreSeated s
      → AreSeated s'
  unfolding store_room
  Seats-AreSeated s s' c digest clock a e old =
      let (open_room, has_room) = free_lem e.stored.ticket c e.room s.memberships e.room_checked in
      let (same_id, same_capacity, status) = advance_lem s e.room c.assigned_at _ e.room_advanced in
      let (low, high, _) = free_seat_lem e.room.id s.memberships e.room.capacity 1 e.seat_found in
      record {
        distinct = subst AreDistinct (sym e.memberships) (
            distinct-append s.memberships e.member old.distinct
              (exists-All _ s.memberships e.no_clash));
        in_range = subst (All (λ m. has_range m ≡ true)) (sym e.memberships) (
            All-append (λ m. has_range m ≡ true) s.memberships (e.member ∷ []) old.in_range
              (
                subst (λ m. has_range m ≡ true) (sym e.member_is)
                    (range_lem c digest (assigned_ticket c e.stored.ticket) e.advanced e.seat
                      (count_members e.room.id s.memberships + 1 == e.room.capacity) low
                      (subst (λ n. e.seat < 1 + n) (sym same_capacity) high)),
                tt,
              ));
        counted =
            subst
              (λ ms.
                All (λ r. has_seats r.status (count_members r.id ms) r.capacity ≡ true) s'.rooms)
              (sym e.memberships)
              (subst
                (All (λ r.
                  has_seats r.status (count_members r.id (s.memberships ++ e.member ∷ []))
                    r.capacity
                  ≡ true))
                (sym e.rooms)
                (counted-update s.memberships e.member e.advanced s.rooms
                  (ap (λ m. m.room_id) e.member_is) old.counted
                  (subst
                    (λ id.
                      has_seats e.advanced.status (count_members id s.memberships + 1)
                        e.advanced.capacity
                      ≡ true)
                    (sym same_id)
                    (subst
                      (λ n.
                        has_seats e.advanced.status (count_members e.room.id s.memberships + 1) n
                        ≡ true)
                      (sym same_capacity)
                      (seats_left e.room.status e.advanced.status
                        (count_members e.room.id s.memberships) e.room.capacity open_room has_room
                        status)))));
      }
