-- ===== src/Postgres/Assign/Reading.antt =====
-- The room that is read after a write of it (internal/postgres/tickets.go).
use solitaire_matchmaking.Base.{
  ◌≡◌, sym, ap, ◌∙◌, true, some, String, str_eq, if◌then◌else◌, eq_iff,
}
use solitaire_matchmaking.Postgres.Tables.{RoomRow, Store, find}
use solitaire_matchmaking.Postgres.Tables.Rows.{find-update, changed_row}
use solitaire_matchmaking.Postgres.Assignment.{lock_assignment_room, store_room}

pub room_stored :
    {F : Type 0} (id : String) (s s' : Store F) (room new : RoomRow)
    → lock_assignment_room id s ≡ some room
    → new.id ≡ room.id
    → s'.rooms ≡ (store_room new s).rooms
    → lock_assignment_room id s' ≡ some new
unfolding lock_assignment_room store_room
room_stored id s s' room new h same rows =
    let here : str_eq room.id new.id ≡ true = (eq_iff room.id new.id).1 (sym same) in
    ap (find (λ r. str_eq r.id id)) rows
    ∙ find-update (λ r. str_eq r.id id) (λ r. str_eq r.id new.id) (λ _. new) s.rooms
        (λ x y. ap (λ k. str_eq k id) (sym ((eq_iff x.id new.id).0 y)))
    ∙ ap (changed_row (λ r. str_eq r.id new.id) (λ _. new)) h
    ∙ ap (λ b. some (if b then new else room)) here
