-- ===== src/Postgres/Deadlines/Overdue.antt =====
-- The rooms that an expiry returns (internal/postgres/results.go).
use solitaire_matchmaking.Base.{
  ℕ, zero, suc, ◌≤◌, ◌≡◌, refl, sym, ap, ◌∙◌, Bool, true, not, ◌&&◌, Option, none, some, List, [],
  ◌∷◌, String, length, ok, arith, In, All, keep, >>=-ok, fail_if-ok, ok_injective, All-map, subst,
}
use solitaire_matchmaking.Base.Int.{pos, pos_part}
use solitaire_matchmaking.Base.Time.{Time}
use solitaire_matchmaking.Base.Sort.{sort}
use solitaire_matchmaking.Tournament.Model.{collecting}
use solitaire_matchmaking.Postgres.Tables.{RoomRow, Store}
use solitaire_matchmaking.Base.{take, &&-true}
use solitaire_matchmaking.Base.Int.{◌+ℤ◌}
use solitaire_matchmaking.Tournament.Results.{ResultDeadlineBatch, ExpiredRoom}
use solitaire_matchmaking.Postgres.Results.{is_collecting, is_collecting_lem, EventHash}
use solitaire_matchmaking.Postgres.Deadlines.{
  is_overdue, is_due, due_before, returned_row, row_with_deadline, returned_rows, due_rooms,
  expire_rooms_in_transaction, expire_result_rooms,
}
use solitaire_matchmaking.Tournament.Model.{collecting}
use solitaire_matchmaking.Postgres.Tickets.Fencing.{transact-ok}
use solitaire_matchmaking.Postgres.Deadlines.Due.{Expires, expire_lem, due_rooms-All}

-- A stored room that was collecting past its deadline, and the answer about it.
abbrev pub Overdue : List RoomRow → Time → ExpiredRoom → Type 0
Overdue rooms now e =
    (room : RoomRow) × In room rooms
    × (e.room_id ≡ room.id)
    × (room.status ≡ collecting)
    × (room.result_deadline ≡ some e.result_deadline)
    × (e.result_deadline ≤ now)
    × (e.room_version ≡ room.version +ℤ pos 1)
    × (e.expired_at ≡ now)

overdue_lem :
    (now : Time) (deadline : Option Time) {t : Time}
    → deadline ≡ some t
    → is_overdue now deadline ≡ true
    → t ≤ now
overdue_lem now none d h = cc
overdue_lem now (some u) {t} d h =
    let same : u ≡ t = cc in subst (λ x. x ≤ now) same (ground (arith, h))

Overdue-row :
    (rooms : List RoomRow) (now : Time) (r : RoomRow) (deadline : Option Time) {e : ExpiredRoom}
    → r.result_deadline ≡ deadline
    → In r rooms
    → is_due now r ≡ true
    → row_with_deadline now r deadline ≡ ok e
    → Overdue rooms now e
unfolding is_due row_with_deadline
Overdue-row rooms now r none {e} d i due h = cc
Overdue-row rooms now r (some t) {e} d i due h =
    let (open_room, late) =
      &&-true (is_collecting r.status) (is_overdue now r.result_deadline) due in
    let (_, last) = fail_if-ok _ _ _ h in
    let same = ok_injective last in
    subst (Overdue rooms now) same (
      r,
      i,
      refl,
      is_collecting_lem r.status open_room,
      d,
      overdue_lem now r.result_deadline d late,
      refl,
      refl,
    )

Overdue-rows :
    (rooms : List RoomRow) (now : Time) (rs : List RoomRow) {es : List ExpiredRoom}
    → All (λ r. (is_due now r ≡ true) × In r rooms) rs
    → returned_rows now rs ≡ ok es
    → All (Overdue rooms now) es
unfolding returned_rows
Overdue-rows rooms now [] due h = subst (All (Overdue rooms now)) (ok_injective h) tt
Overdue-rows rooms now (r ∷ rs) ((d, i), due) h =
    let (e, first, h₁) = >>=-ok (returned_row now r) _ h in
    let (es, rest, last) = >>=-ok (returned_rows now rs) _ h₁ in
    subst (All (Overdue rooms now)) (ok_injective last)
      (Overdue-row rooms now r r.result_deadline refl i d first, Overdue-rows rooms now rs due rest)

length-returned_rows :
    (now : Time) (rs : List RoomRow) {es : List ExpiredRoom}
    → returned_rows now rs ≡ ok es
    → length es ≡ length rs
unfolding returned_rows
length-returned_rows now [] h = ap length (sym (ok_injective h))
length-returned_rows now (r ∷ rs) h =
    let (e, _, h₁) = >>=-ok (returned_row now r) _ h in
    let (es, rest, last) = >>=-ok (returned_rows now rs) _ h₁ in
    ap length (sym (ok_injective last)) ∙ ap suc (length-returned_rows now rs rest)

length-take : (n : ℕ) (rs : List RoomRow) → length (take n rs) ≤ n
length-take zero rs = omega arith
length-take (suc n) [] = omega arith
length-take (suc n) (r ∷ rs) = omega (arith, length-take n rs)

module _ {F : Type 0} where
  due_All :
      (locked : String → Bool) (b : ResultDeadlineBatch) (s : Store F) {es : List ExpiredRoom}
      {s' : Store F} (e : Expires locked s b es s')
      → All (λ r. (is_due b.expired_at r ≡ true) × In r s.rooms) e.due
  due_All locked b s e =
      subst (All (λ r. (is_due b.expired_at r ≡ true) × In r s.rooms)) (sym e.due_is) (
        All-map (λ r. (is_due b.expired_at r && not (locked r.id) ≡ true) × In r s.rooms)
          (λ r. (is_due b.expired_at r ≡ true) × In r s.rooms) _
          (λ r h. ((&&-true (is_due b.expired_at r) (not (locked r.id)) h.0).0, h.1))
          (due_rooms-All locked b.expired_at (pos_part b.limit) s))

  few_returned :
      (locked : String → Bool) (b : ResultDeadlineBatch) (s : Store F) {es : List ExpiredRoom}
      {s' : Store F}
      → Expires locked s b es s'
      → length es ≤ pos_part b.limit
  unfolding due_rooms
  few_returned locked b s e = omega (
    arith,
    length-returned_rows b.expired_at e.due e.returned,
    ap length e.due_is,
    length-take (pos_part b.limit)
        (sort due_before (keep (λ r. is_due b.expired_at r && not (locked r.id)) s.rooms)),
  )

module _ {F : Type 0} (hashed : EventHash) where
  -- Every room that a successful expiry returns is stored, was collecting, and had the result deadline
  -- that is returned, not later than the time of the expiry; the version returned is the next one and
  -- the time returned is the time of the expiry. No ticket and no membership changes, and no more rooms are
  -- expired than the limit.
  pub expire_result_rooms-Overdue :
      (locked : String → Bool) (s : Store F) (b : ResultDeadlineBatch) {es : List ExpiredRoom}
      {s' : Store F}
      → expire_result_rooms hashed locked s b ≡ (ok es, s')
      → All (Overdue s.rooms b.expired_at) es
        × (length es ≤ pos_part b.limit)
        × (s'.tickets ≡ s.tickets)
        × (s'.memberships ≡ s.memberships)
  unfolding expire_result_rooms
  expire_result_rooms-Overdue locked s b h =
      let e =
        expire_lem hashed locked s b
          (transact-ok s (expire_rooms_in_transaction hashed locked s b) h) in
      (
        Overdue-rows s.rooms b.expired_at e.due (due_All locked b s e) e.returned,
        few_returned locked b s e,
        e.tickets,
        e.memberships,
      )
