-- ===== src/Postgres/Lifecycle.antt =====
-- The life of a room over the commands on its tickets, its result and its deadline.
use solitaire_matchmaking.Base.{
  ◌≡◌, inl, inr, refl, sym, ap, ◌∙◌, Bool, true, false, Option, none, some, List, [], ◌∷◌, String,
  str_eq, contains, if◌then◌else◌, ok, arith, Bool-cases, eq_iff, fail_if-ok, ok_injective, subst,
}
use solitaire_matchmaking.Base.Int.{pos_part}
use solitaire_matchmaking.Base.Time.{Time}
use solitaire_matchmaking.Base.Float.{Float}
use solitaire_matchmaking.Base.{map}
use solitaire_matchmaking.Tournament.Model.{
  RoomStatus, forming, collecting, completed, expired, cancelled,
}
use solitaire_matchmaking.Tournament.Tickets.{Digest}
use solitaire_matchmaking.Tournament.Results.{
  FinalizeResultCommand, FinalizedResult, ResultDeadlineBatch, ExpiredRoom, ResultDigest,
}
use solitaire_matchmaking.Postgres.Tables.{RoomRow, ConfigRow, Store, find, update}
use solitaire_matchmaking.Postgres.Tables.Rows.{find-update, find_passes, changed_row}
use solitaire_matchmaking.Postgres.Assignment.{
  is_forming, lock_assignment_room, advance_room, fill_room, store_room,
}
use solitaire_matchmaking.Postgres.Commands.{Command, step, transact_lem}
use solitaire_matchmaking.Postgres.Rooms.{free_lem}
use solitaire_matchmaking.Postgres.Rooms.History.{Effect, step-Effect}
use solitaire_matchmaking.Postgres.Results.{is_collecting, EventHash, completed_room}
use solitaire_matchmaking.Postgres.Finalize.{finalize_in_transaction, finalize_result}
use solitaire_matchmaking.Postgres.Finalize.Writes.{Finalizes, finalize_lem}
use solitaire_matchmaking.Postgres.Deadlines.{
  expire_rooms_in_transaction, expire_result_rooms, expired_room, is_due,
}
use solitaire_matchmaking.Postgres.Deadlines.Due.{AreUnique, Expires, expire_lem, due_lem}
use solitaire_matchmaking.Postgres.Tables.Keys.{AreKeyed-update}

-- A step of a room from one status to the next.
pub data Turn : RoomStatus → RoomStatus → Type 0 where
  fills : Turn forming collecting
  completes : Turn collecting completed
  expires : Turn collecting expired

-- Any number of steps.
pub data Leads (a : RoomStatus) : RoomStatus → Type 0 where
  stays : Leads a a
  goes : {b c : RoomStatus} → Leads a b → Turn b c → Leads a c

Leads-trans : {a b c : RoomStatus} → Leads a b → Leads b c → Leads a c
Leads-trans p stays = p
Leads-trans p (goes q t) = goes (Leads-trans p q) t

-- What a room keeps, and how its status moves.
pub record Advances (old new : RoomRow) : Type 0 where
  pub path : Leads old.status new.status
  pub same_id : new.id ≡ old.id
  pub same_capacity : new.capacity ≡ old.capacity
  pub same_mode : new.mode_id ≡ old.mode_id
  pub same_deck : new.deck_id ≡ old.deck_id
  pub same_rules : new.scoring_rules_version ≡ old.scoring_rules_version
  pub same_fill_deadline : new.fill_deadline ≡ old.fill_deadline

Advances-refl : (r : RoomRow) → Advances r r
Advances-refl r = record {
  path = stays;
  same_id = refl;
  same_capacity = refl;
  same_mode = refl;
  same_deck = refl;
  same_rules = refl;
  same_fill_deadline = refl;
}

Advances-trans : {x y z : RoomRow} → Advances x y → Advances y z → Advances x z
Advances-trans a b = record {
  path = Leads-trans a.path b.path;
  same_id = b.same_id ∙ a.same_id;
  same_capacity = b.same_capacity ∙ a.same_capacity;
  same_mode = b.same_mode ∙ a.same_mode;
  same_deck = b.same_deck ∙ a.same_deck;
  same_rules = b.same_rules ∙ a.same_rules;
  same_fill_deadline = b.same_fill_deadline ∙ a.same_fill_deadline;
}

completed-Advances :
    (c : FinalizeResultCommand) (s : RoomStatus) (r : RoomRow)
    → r.status ≡ s
    → is_collecting s ≡ true
    → Advances r (completed_room c r)
completed-Advances c collecting r e h = record {
  path = subst (λ x. Leads x completed) (sym e) (goes stays completes);
  same_id = refl;
  same_capacity = refl;
  same_mode = refl;
  same_deck = refl;
  same_rules = refl;
  same_fill_deadline = refl;
}
completed-Advances c forming r e h = cc
completed-Advances c completed r e h = cc
completed-Advances c expired r e h = cc
completed-Advances c cancelled r e h = cc

expired-Advances :
    (now : Time) (s : RoomStatus) (r : RoomRow)
    → r.status ≡ s
    → is_collecting s ≡ true
    → Advances r (expired_room now r)
expired-Advances now collecting r e h = record {
  path = subst (λ x. Leads x expired) (sym e) (goes stays expires);
  same_id = refl;
  same_capacity = refl;
  same_mode = refl;
  same_deck = refl;
  same_rules = refl;
  same_fill_deadline = refl;
}
expired-Advances now forming r e h = cc
expired-Advances now completed r e h = cc
expired-Advances now expired r e h = cc
expired-Advances now cancelled r e h = cc

forming_lem : (s : RoomStatus) → is_forming s ≡ true → s ≡ forming
forming_lem forming h = refl
forming_lem collecting h = cc
forming_lem completed h = cc
forming_lem expired h = cc
forming_lem cancelled h = cc

due_status : (now : Time) (r : RoomRow) → is_due now r ≡ true → is_collecting r.status ≡ true
unfolding is_due
due_status now r h = ground (arith, h)

some_eq : {x y : RoomRow} → some x ≡ some y → x ≡ y
some_eq h = cc

module _ {F : Type 0} where
  fill-Advances :
      (s : Store F) (room : RoomRow) (now : Time) (config : Option ConfigRow) {room' : RoomRow}
      → is_forming room.status ≡ true
      → fill_room s room now config ≡ ok room'
      → Advances room room'
  unfolding fill_room
  fill-Advances s room now none f h = cc
  fill-Advances s room now (some config) {room'} f h =
      let (_, last) = fail_if-ok _ _ _ h in
      let same = ok_injective last in
      subst (Advances room) same (record {
        path = subst (λ x. Leads x collecting) (sym (forming_lem room.status f)) (goes stays fills);
        same_id = refl;
        same_capacity = refl;
        same_mode = refl;
        same_deck = refl;
        same_rules = refl;
        same_fill_deadline = refl;
      })

  advance-Advances :
      (s : Store F) (room : RoomRow) (now : Time) (last : Bool) {room' : RoomRow}
      → is_forming room.status ≡ true
      → advance_room s room now last ≡ ok room'
      → Advances room room'
  unfolding advance_room
  advance-Advances s room now true f h = fill-Advances s room now _ f h
  advance-Advances s room now false f h = subst (Advances room) (ok_injective h) (record {
    path = stays;
    same_id = refl;
    same_capacity = refl;
    same_mode = refl;
    same_deck = refl;
    same_rules = refl;
    same_fill_deadline = refl;
  })

  -- The room with an identity in a later store.
  abbrev pub RoomFollows : String → RoomRow → Store F → Type 0
  RoomFollows id old s = (new : RoomRow) × (lock_assignment_room id s ≡ some new) × Advances old new

  update-RoomFollows :
      (id : String) (s s' : Store F) (q : RoomRow → Bool) (f : RoomRow → RoomRow) {old : RoomRow}
      → lock_assignment_room id s ≡ some old
      → s'.rooms ≡ update q f s.rooms
      → ((x : RoomRow) → q x ≡ true → (f x).id ≡ x.id)
      → (q old ≡ true → Advances old (f old))
      → RoomFollows id old s'
  unfolding lock_assignment_room
  update-RoomFollows id s s' q f {old} h rows same on =
      let read : find (λ r. str_eq r.id id) s'.rooms ≡ some (if q old then f old else old) =
        ap (find (λ r. str_eq r.id id)) rows
        ∙ find-update (λ r. str_eq r.id id) q f s.rooms (λ x y. ap (λ k. str_eq k id) (same x y))
        ∙ ap (changed_row q f) h in
      elim (Bool-cases (q old)) [
        | inl y ↦ (f old, read ∙ ap (λ b. some (if b then f old else old)) y, on y)
        | inr n ↦ (old, read ∙ ap (λ b. some (if b then f old else old)) n, Advances-refl old)
      ]

  -- The room that a step has found and stores again.
  stored-RoomFollows :
      (id k : String) (s s' : Store F) (room : RoomRow) {old found : RoomRow}
      → lock_assignment_room id s ≡ some old
      → lock_assignment_room k s ≡ some found
      → s'.rooms ≡ (store_room room s).rooms
      → Advances found room
      → RoomFollows id old s'
  unfolding store_room lock_assignment_room
  stored-RoomFollows id k s s' room {old} {found} h g rows to =
      update-RoomFollows id s s' (λ r. str_eq r.id room.id) (λ _. room) h rows
        (λ x y. sym ((eq_iff x.id room.id).0 y))
        (λ y.
          let old_id : old.id ≡ id = (eq_iff _ _).0 (find_passes (λ r. str_eq r.id id) s.rooms h) in
          let found_id : found.id ≡ k =
            (eq_iff _ _).0 (find_passes (λ r. str_eq r.id k) s.rooms g) in
          let same : id ≡ k = sym old_id ∙ (eq_iff old.id room.id).0 y ∙ to.same_id ∙ found_id in
          let row : old ≡ found =
            some_eq (sym h ∙ ap (λ x. find (λ r. str_eq r.id x) s.rooms) same ∙ g) in
          subst (λ x. Advances x room) (sym row) to)

  Effect-RoomFollows :
      (id : String) (s s' : Store F) {old : RoomRow}
      → lock_assignment_room id s ≡ some old
      → Effect s s'
      → RoomFollows id old s'
  unfolding lock_assignment_room
  Effect-RoomFollows id s s' {old} h (inl (_, rows)) =
      (old, ap (find (λ r. str_eq r.id id)) rows ∙ h, Advances-refl old)
  Effect-RoomFollows id s s' h (inr (c, digest, clock, a, e)) =
      stored-RoomFollows id c.room_id s s' e.advanced h e.room_found e.rooms (
        advance-Advances s e.room c.assigned_at _
          (free_lem e.stored.ticket c e.room s.memberships e.room_checked).0 e.room_advanced)

  -- The rooms of a later store, still with distinct keys.
  abbrev pub RoomsFollow : String → RoomRow → Store F → Type 0
  RoomsFollow id old s = AreUnique s.rooms × RoomFollows id old s

  stored-AreUnique :
      (s s' : Store F) (room : RoomRow)
      → s'.rooms ≡ (store_room room s).rooms
      → AreUnique s.rooms
      → AreUnique s'.rooms
  unfolding store_room
  stored-AreUnique s s' room rows u = subst AreUnique (sym rows) (
      AreKeyed-update (λ r. r.id) (λ r. str_eq r.id room.id) (λ _. room) s.rooms
        (λ x y. sym ((eq_iff x.id room.id).0 y)) u)

  Effect-AreUnique : (s s' : Store F) → Effect s s' → AreUnique s.rooms → AreUnique s'.rooms
  Effect-AreUnique s s' (inl (_, rows)) u = subst AreUnique (sym rows) u
  Effect-AreUnique s s' (inr (c, digest, clock, a, e)) u =
      stored-AreUnique s s' e.advanced e.rooms u

  Finalizes-RoomsFollow :
      (id : String) (s s' : Store F) (c : FinalizeResultCommand) (r : FinalizedResult)
      {old : RoomRow}
      → AreUnique s.rooms
      → lock_assignment_room id s ≡ some old
      → Finalizes s c r s'
      → RoomsFollow id old s'
  Finalizes-RoomsFollow id s s' c r u h e = (
    stored-AreUnique s s' (completed_room c e.room) e.rooms u,
    stored-RoomFollows id c.room_id s s' (completed_room c e.room) h e.room_found e.rooms
        (completed-Advances c e.room.status e.room refl e.was_collecting),
  )

  Expires-RoomsFollow :
      (id : String) (locked : String → Bool) (s s' : Store F) (b : ResultDeadlineBatch)
      (es : List ExpiredRoom) {old : RoomRow}
      → AreUnique s.rooms
      → lock_assignment_room id s ≡ some old
      → Expires locked s b es s'
      → RoomsFollow id old s'
  unfolding lock_assignment_room
  Expires-RoomsFollow id locked s s' b es {old} u h e =
      let q = λ (r : RoomRow). contains r.id (map (λ (x : RoomRow). x.id) e.due) in
      let old_id : old.id ≡ id = (eq_iff _ _).0 (find_passes (λ r. str_eq r.id id) s.rooms h) in
      (
        subst AreUnique (sym e.rooms)
            (AreKeyed-update (λ r. r.id) q (expired_room b.expired_at) s.rooms (λ x y. refl) u),
        update-RoomFollows id s s' q (expired_room b.expired_at) h e.rooms (λ x y. refl)
            (λ y. expired-Advances b.expired_at old.status old refl (
              due_status b.expired_at old (
                due_lem locked b.expired_at (pos_part b.limit) s id u h
                  (subst (λ due. contains old.id (map (λ (x : RoomRow). x.id) due) ≡ true) e.due_is
                    y)
                  old_id))),
      )

-- The commands of the game, the results and the deadlines on one store.
pub data Event (F : Type 0) : Type 0 where
  ticketing : Command F → Event F
  finalizing : FinalizeResultCommand → Event F
  expiring_rooms : (locked : String → Bool) → ResultDeadlineBatch → Event F

module _ {F : Type 0} ⦃fl : Float F⦄ (sha256 : Digest F) (result_sha256 : ResultDigest)
    (hashed : EventHash) where
  unfoldable pub advance : Store F → Event F → Store F
  advance s (ticketing c) = step sha256 s c
  advance s (finalizing c) = (finalize_result hashed result_sha256 s c).1
  advance s (expiring_rooms locked b) = (expire_result_rooms hashed locked s b).1

  unfoldable pub play : Store F → List (Event F) → Store F
  play s [] = s
  play s (e ∷ es) = play (advance s e) es

  advance-RoomsFollow :
      (s : Store F) (e : Event F) (id : String) {old : RoomRow}
      → AreUnique s.rooms
      → lock_assignment_room id s ≡ some old
      → RoomsFollow id old (advance s e)
  unfolding advance finalize_result expire_result_rooms
  advance-RoomsFollow s (ticketing c) id u h = (
    Effect-AreUnique s (step sha256 s c) (step-Effect sha256 s c) u,
    Effect-RoomFollows id s (step sha256 s c) h (step-Effect sha256 s c),
  )
  advance-RoomsFollow s (finalizing c) id {old} u h =
      transact_lem (RoomsFollow id old) s (finalize_in_transaction hashed result_sha256 s c)
        (u, (old, h, Advances-refl old))
        (λ r s' e. elim (finalize_lem hashed result_sha256 s c e) [
          | inl (same, _) ↦ subst (RoomsFollow id old) (sym same) (u, (old, h, Advances-refl old))
          | inr f ↦ Finalizes-RoomsFollow id s s' c r u h f
        ])
  advance-RoomsFollow s (expiring_rooms locked b) id {old} u h =
      transact_lem (RoomsFollow id old) s (expire_rooms_in_transaction hashed locked s b)
        (u, (old, h, Advances-refl old))
        (λ es s' e. Expires-RoomsFollow id locked s s' b es u h (expire_lem hashed locked s b e))

  follow_on :
      (s : Store F) (es : List (Event F)) (id : String) {old : RoomRow}
      → RoomsFollow id old s
      → RoomsFollow id old (play s es)
  unfolding play
  follow_on s [] id h = h
  follow_on s (e ∷ es) id {old} (u, (mid, g, first)) =
      let (u', (new, h, second)) = advance-RoomsFollow s e id u g in
      follow_on (advance s e) es id (u', (new, h, Advances-trans first second))

  -- For every sequence of ticket commands, finalizations and expiries of overdue rooms, from a store
  -- whose rooms have distinct keys, a room is found under its key at the end, its status has moved from
  -- forming to collecting and from collecting to completed or expired and in no other way, and its
  -- capacity, mode, deck, scoring rules and fill deadline are as before.
  pub room_life :
      (s : Store F) (es : List (Event F)) (id : String) {old : RoomRow}
      → AreUnique s.rooms
      → lock_assignment_room id s ≡ some old
      → RoomFollows id old (play s es)
  room_life s es id {old} u h = (follow_on s es id (u, (old, h, Advances-refl old))).1
