-- ===== src/Postgres/Assign/Writes.antt =====
-- What a new assignment has found and written.
use solitaire_matchmaking.Base.{
  ℕ, ◌+◌, ◌≡◌, refl, sym, ap, ◌∙◌, Bool, true, false, ◌==◌, Option, none, some, [], ◌∷◌, ◌++◌,
  String, if◌then◌else◌, ok, arith, >>=-ok, ok_injective,
}
use solitaire_matchmaking.Base.Time.{Time}
use solitaire_matchmaking.Tournament.Model.{Ticket}
use solitaire_matchmaking.Tournament.Tickets.{AssignTicketCommand, Assignment}
use solitaire_matchmaking.Postgres.Tables.{
  StoredTicket, RoomRow, MembershipRow, SessionRow, Store, exists, load_ticket_by_id, close_ticket,
  insert_outbox,
}
use solitaire_matchmaking.Postgres.Assignment.{
  count_members, free_seat, lock_assignment_room, check_ticket, check_room, advance_room,
  insert_membership, insert_session, store_room, insert_assignment_events, insert_shadow_work,
  assigned_ticket, membership_clashes, session_clashes,
}
use solitaire_matchmaking.Postgres.Assign.{
  or_unavailable, or_no_room, or_no_ticket, membership_of, session_row, assignment_of,
  write_assignment, seat_in_room, assign_new,
}

seat_lem : (found : Option ℕ) {seat : ℕ} → or_unavailable found ≡ ok seat → found ≡ some seat
seat_lem none h = cc
seat_lem (some x) h = ap some (ok_injective h)

room_lem :
    (found : Option RoomRow) {room : RoomRow} → or_no_room found ≡ ok room → found ≡ some room
room_lem none h = cc
room_lem (some x) h = ap some (ok_injective h)

module _ {F : Type 0} where
  pub record Seats (s : Store F) (c : AssignTicketCommand) (digest : String) (clock : Time)
      (a : Assignment) (s' : Store F) : Type 0 where
    pub stored : StoredTicket F
    pub room : RoomRow
    pub seat : ℕ
    pub advanced : RoomRow
    pub ticket_found : load_ticket_by_id c.ticket_id s ≡ some stored
    pub ticket_checked : check_ticket stored c clock ≡ ok tt
    pub room_found : lock_assignment_room c.room_id s ≡ some room
    pub room_checked : check_room stored.ticket c room s.memberships ≡ ok tt
    pub seat_found : free_seat room.id s.memberships room.capacity 1 ≡ some seat
    pub room_advanced :
        advance_room s room c.assigned_at (count_members room.id s.memberships + 1 == room.capacity)
        ≡ ok advanced
    pub member : MembershipRow
    pub member_is :
        member
        ≡ membership_of c digest
            (assigned_ticket c stored.ticket)
            advanced
            seat
            (count_members room.id s.memberships + 1 == room.capacity)
    pub no_clash : exists (membership_clashes member) s.memberships ≡ false
    pub tickets : s'.tickets ≡ (close_ticket (assigned_ticket c stored.ticket) s).tickets
    pub memberships : s'.memberships ≡ s.memberships ++ member ∷ []
    pub rooms : s'.rooms ≡ (store_room advanced s).rooms
    pub sessions : s'.sessions ≡ s.sessions ++ session_row c member ∷ []
    pub no_session : exists (session_clashes (session_row c member)) s.sessions ≡ false
    pub assignment : a ≡ assignment_of c member

  shadow_lem :
      (kind source : String) (position : Time) (priority : ℕ) (s : Store F)
      → let s' = insert_shadow_work kind source position priority s in
        (s'.tickets ≡ s.tickets)
        × (s'.memberships ≡ s.memberships)
        × (s'.rooms ≡ s.rooms)
        × (s'.sessions ≡ s.sessions)
  unfolding insert_shadow_work
  shadow_lem kind source position priority s = ground arith

  events_lem :
      (c : AssignTicketCommand) (a : Assignment) (s : Store F) {s' : Store F}
      → insert_assignment_events c a s ≡ ok s'
      → (s'.tickets ≡ s.tickets)
        × (s'.memberships ≡ s.memberships)
        × (s'.rooms ≡ s.rooms)
        × (s'.sessions ≡ s.sessions)
  unfolding insert_assignment_events insert_outbox
  events_lem c a s h = ground arith

  membership_lem :
      (m : MembershipRow) (s : Store F) {s' : Store F}
      → insert_membership m s ≡ ok s'
      → (exists (membership_clashes m) s.memberships ≡ false)
        × (s' ≡ record s { memberships = s.memberships ++ m ∷ [] })
  unfolding insert_membership
  membership_lem m s h = ground arith

  session_lem :
      (r : SessionRow) (s : Store F) {s' : Store F}
      → insert_session r s ≡ ok s'
      → (exists (session_clashes r) s.sessions ≡ false)
        × (s' ≡ record s { sessions = s.sessions ++ r ∷ [] })
  unfolding insert_session
  session_lem r s h = ground arith

  abbrev pub if_filled : Bool → String → Time → Store F → Store F
  if_filled last room_id now s = if last then insert_shadow_work "room" room_id now 0 s else s

  filled_lem :
      (last : Bool) (room_id : String) (now : Time) (s : Store F)
      → let s' = if_filled last room_id now s in
        (s'.tickets ≡ s.tickets)
        × (s'.memberships ≡ s.memberships)
        × (s'.rooms ≡ s.rooms)
        × (s'.sessions ≡ s.sessions)
  filled_lem true room_id now s = shadow_lem "room" room_id now 0 s
  filled_lem false room_id now s = (refl, refl, refl, refl)

  pub write_lem :
      (s : Store F) (c : AssignTicketCommand) (t : Ticket F) (room : RoomRow) (m : MembershipRow)
      {a : Assignment} {s' : Store F}
      → write_assignment s c t room m ≡ ok (a, s')
      → (exists (membership_clashes m) s.memberships ≡ false)
        × (s'.tickets ≡ (close_ticket t s).tickets)
        × (s'.memberships ≡ s.memberships ++ m ∷ [])
        × (s'.rooms ≡ (store_room room s).rooms)
        × (s'.sessions ≡ s.sessions ++ session_row c m ∷ [])
        × (exists (session_clashes (session_row c m)) s.sessions ≡ false)
        × (a ≡ assignment_of c m)
  unfolding write_assignment close_ticket store_room
  write_lem s c t room m {a} {s'} h =
      let s₀ = store_room room (close_ticket t s) in
      let (s₁, first, h₁) = >>=-ok (insert_membership m s₀) _ h in
      let (s₂, second, h₂) = >>=-ok (insert_session (session_row c m) s₁) _ h₁ in
      let (s₃, third, last) = >>=-ok (insert_assignment_events c (assignment_of c m) s₂) _ h₂ in
      let (clear, same₁) = membership_lem m s₀ first in
      let (clear₂, same₂) = session_lem (session_row c m) s₁ second in
      let (t₃, m₃, r₃, c₃) = events_lem c (assignment_of c m) s₂ third in
      let (t₄, m₄, r₄, c₄) = filled_lem m.room_filled m.room_id c.assigned_at s₃ in
      let end = ap (λ x. x.1) (sym (ok_injective last)) in
      (
        clear,
        ap (λ x. x.tickets) end ∙ t₄ ∙ t₃ ∙ ap (λ x. x.tickets) same₂ ∙ ap (λ x. x.tickets) same₁,
        ap (λ x. x.memberships) end
            ∙ m₄
            ∙ m₃
            ∙ ap (λ x. x.memberships) same₂
            ∙ ap (λ x. x.memberships) same₁,
        ap (λ x. x.rooms) end ∙ r₄ ∙ r₃ ∙ ap (λ x. x.rooms) same₂ ∙ ap (λ x. x.rooms) same₁,
        ap (λ x. x.sessions) end
            ∙ c₄
            ∙ c₃
            ∙ ap (λ x. x.sessions) same₂
            ∙ ap (λ x. x.sessions ++ session_row c m ∷ []) same₁,
        sym (ap (λ x. exists (session_clashes (session_row c m)) x.sessions) same₁) ∙ clear₂,
        ap (λ x. x.0) (sym (ok_injective last)),
      )

  ticket_lem :
      (found : Option (StoredTicket F)) {stored : StoredTicket F}
      → or_no_ticket found ≡ ok stored
      → found ≡ some stored
  ticket_lem none h = cc
  ticket_lem (some x) h = ap some (ok_injective h)

  pub seats_lem :
      (s : Store F) (c : AssignTicketCommand) (digest : String) (clock : Time) {a : Assignment}
      {s' : Store F}
      → assign_new s c digest clock ≡ ok (a, s')
      → Seats s c digest clock a s'
  unfolding assign_new seat_in_room
  seats_lem s c digest clock {a} {s'} h =
      let (stored, ticket_found, h₁) =
        >>=-ok (or_no_ticket (load_ticket_by_id c.ticket_id s)) _ h in
      let (_, ticket_checked, h₂) = >>=-ok (check_ticket stored c clock) _ h₁ in
      let (room, room_found, h₃) = >>=-ok (or_no_room (lock_assignment_room c.room_id s)) _ h₂ in
      let (_, room_checked, h₄) = >>=-ok (check_room stored.ticket c room s.memberships) _ h₃ in
      let (seat, seat_found, h₅) =
        >>=-ok (or_unavailable (free_seat room.id s.memberships room.capacity 1)) _ h₄ in
      let full = count_members room.id s.memberships + 1 == room.capacity in
      let (advanced, room_advanced, h₆) = >>=-ok (advance_room s room c.assigned_at full) _ h₅ in
      let t = assigned_ticket c stored.ticket in
      let member = membership_of c digest t advanced seat full in
      let (clear, tickets, memberships, rooms, sessions, fresh, assignment) =
        write_lem s c t advanced member h₆ in
      record {
        stored = stored;
        room = room;
        seat = seat;
        advanced = advanced;
        ticket_found = ticket_lem _ ticket_found;
        ticket_checked = ticket_checked;
        room_found = room_lem _ room_found;
        room_checked = room_checked;
        seat_found = seat_lem _ seat_found;
        room_advanced = room_advanced;
        member = member;
        member_is = refl;
        no_clash = clear;
        tickets = tickets;
        memberships = memberships;
        rooms = rooms;
        sessions = sessions;
        no_session = fresh;
        assignment = assignment;
      }
