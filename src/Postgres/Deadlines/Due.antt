-- ===== src/Postgres/Deadlines/Due.antt =====
-- Which rooms an expiry takes, and what it writes.
use solitaire_matchmaking.Base.{
  ℕ, ◌≡◌, inl, inr, refl, sym, ap, ◌∙◌, Bool, true, not, ◌&&◌, some, List, [], ◌∷◌, String, str_eq,
  contains, ok, arith, Bool-cases, In, All, >>=-ok, ok_injective, subst,
}
use solitaire_matchmaking.Base.Int.{pos_part}
use solitaire_matchmaking.Base.Time.{Time}
use solitaire_matchmaking.Base.{map}
use solitaire_matchmaking.Tournament.Results.{conflict}
use solitaire_matchmaking.Postgres.Tables.{RoomRow, Store, find, update, insert_outbox}
use solitaire_matchmaking.Base.{map}
use solitaire_matchmaking.Tournament.Results.{ResultDeadlineBatch, validate_batch, ExpiredRoom}
use solitaire_matchmaking.Postgres.Results.{EventHash}
use solitaire_matchmaking.Base.Sort.{sort-All}
use solitaire_matchmaking.Postgres.Deadlines.{
  is_due, due_before, expired_room, returned_rows, due_rooms, expire_rooms, forfeit_sessions,
  room_expiry_event, announce_rooms, expire_rooms_in_transaction,
}
use solitaire_matchmaking.Postgres.Finalize.Writes.{Spares}
use solitaire_matchmaking.Postgres.Tables.Rows.{insert_outbox-ok}
use solitaire_matchmaking.Base.{All-In, take-All, keep-All}
use solitaire_matchmaking.Postgres.Tables.Keys.{AreKeyed, same_row, contains-key}

-- The keys of rooms are distinct.
abbrev pub AreUnique : List RoomRow → Type 0
AreUnique = AreKeyed (λ r. r.id)

find-In :
    (id : String) (rs : List RoomRow) {r : RoomRow}
    → find (λ q. str_eq q.id id) rs ≡ some r
    → In r rs
unfolding find
find-In id [] h = cc
find-In id (x ∷ rs) {r} h = elim (Bool-cases (str_eq x.id id)) [
  | inl y ↦ inl (ground (arith, y))
  | inr n ↦ inr (find-In id rs (ground (arith, n)))
]

module _ {F : Type 0} where
  pub due_rooms-All :
      (locked : String → Bool) (now : Time) (limit : ℕ) (s : Store F)
      → All
          (λ r. (is_due now r && not (locked r.id) ≡ true) × In r s.rooms)
          (due_rooms locked now limit s)
  unfolding due_rooms
  due_rooms-All locked now limit s =
      take-All _ limit _
        (sort-All due_before _ _ (keep-All (λ r. is_due now r && not (locked r.id)) s.rooms))

  -- A stored room that is among the rooms of the query is due.
  pub due_lem :
      (locked : String → Bool) (now : Time) (limit : ℕ) (s : Store F) (id : String) {old : RoomRow}
      → AreUnique s.rooms
      → find (λ q. str_eq q.id id) s.rooms ≡ some old
      → contains old.id (map (λ q. q.id) (due_rooms locked now limit s)) ≡ true
      → old.id ≡ id
      → is_due now old ≡ true
  due_lem locked now limit s id {old} u h c e =
      let due = due_rooms locked now limit s in
      let (r, i, same) = contains-key (λ q. q.id) old.id due c in
      let (ready, stored) =
        All-In (λ r. (is_due now r && not (locked r.id) ≡ true) × In r s.rooms) due r
          (due_rooms-All locked now limit s) i in
      let is_old : r ≡ old =
        same_row (λ q. q.id) s.rooms r old u stored (find-In id s.rooms h) same in
      let ready' : is_due now old && not (locked old.id) ≡ true =
        subst (λ x. is_due now x && not (locked x.id) ≡ true) is_old ready in
      ground (arith, ready')

  announce-Spares :
      (hashed : EventHash) (now : Time) (es : List ExpiredRoom) (s : Store F) {s' : Store F}
      → announce_rooms hashed now es s ≡ ok s'
      → Spares s s'
  unfolding announce_rooms forfeit_sessions
  announce-Spares hashed now [] s h =
      let e = ok_injective h in
      record {
        tickets = ap (λ x. x.tickets) (sym e);
        memberships = ap (λ x. x.memberships) (sym e);
        rooms = ap (λ x. x.rooms) (sym e);
      }
  announce-Spares hashed now (e ∷ es) s h =
      let (s₁, first, rest) =
        >>=-ok
          (insert_outbox (room_expiry_event hashed e) conflict (forfeit_sessions e.room_id now s))
          (announce_rooms hashed now es) h in
      let one =
        insert_outbox-ok (room_expiry_event hashed e) conflict (forfeit_sessions e.room_id now s)
          first in
      let spared = announce-Spares hashed now es s₁ rest in
      record {
        tickets = spared.tickets ∙ ap (λ x. x.tickets) one;
        memberships = spared.memberships ∙ ap (λ x. x.memberships) one;
        rooms = spared.rooms ∙ ap (λ x. x.rooms) one;
      }

  -- The evidence of an expiry.
  pub record Expires (locked : String → Bool) (s : Store F) (b : ResultDeadlineBatch)
      (es : List ExpiredRoom) (s' : Store F) : Type 0 where
    pub due : List RoomRow
    pub due_is : due ≡ due_rooms locked b.expired_at (pos_part b.limit) s
    pub returned : returned_rows b.expired_at due ≡ ok es
    pub tickets : s'.tickets ≡ s.tickets
    pub memberships : s'.memberships ≡ s.memberships
    pub rooms :
        s'.rooms
        ≡ update (λ r. contains r.id (map (λ q. q.id) due)) (expired_room b.expired_at) s.rooms

  pub expire_lem :
      (hashed : EventHash) (locked : String → Bool) (s : Store F) (b : ResultDeadlineBatch)
      {es : List ExpiredRoom} {s' : Store F}
      → expire_rooms_in_transaction hashed locked s b ≡ ok (es, s')
      → Expires locked s b es s'
  unfolding expire_rooms_in_transaction expire_rooms
  expire_lem hashed locked s b {es} {s'} h =
      let due = due_rooms locked b.expired_at (pos_part b.limit) s in
      let (_, _, h₁) = >>=-ok (validate_batch b) _ h in
      let ((es₁, s₁), first, h₂) = >>=-ok (expire_rooms b.expired_at due s) _ h₁ in
      let (es₂, returned, written) = >>=-ok (returned_rows b.expired_at due) _ first in
      let (s₂, second, last) = >>=-ok (announce_rooms hashed b.expired_at es₁ s₁) _ h₂ in
      let spared = announce-Spares hashed b.expired_at es₁ s₁ second in
      let one = ok_injective written in
      let end = ok_injective last in
      record {
        due = due;
        due_is = refl;
        returned = returned ∙ ap ok (ap (λ x. x.0) one ∙ ap (λ x. x.0) end);
        tickets =
            ap (λ x. x.1.tickets) (sym end) ∙ spared.tickets ∙ ap (λ x. x.1.tickets) (sym one);
        memberships =
            ap (λ x. x.1.memberships) (sym end)
            ∙ spared.memberships
            ∙ ap (λ x. x.1.memberships) (sym one);
        rooms = ap (λ x. x.1.rooms) (sym end) ∙ spared.rooms ∙ ap (λ x. x.1.rooms) (sym one);
      }
