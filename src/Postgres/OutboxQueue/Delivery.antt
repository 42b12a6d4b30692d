-- ===== src/Postgres/OutboxQueue/Delivery.antt =====
-- Histories of the outbox: what holds of every event after any sequence of operations.
use solitaire_matchmaking.Base.{
  ◌≡◌, inl, inr, refl, ap, Bool, false, ◌&&◌, List, [], ◌∷◌, String, str_eq, Result, ok, err, arith,
  Bool-cases, All,
}
use solitaire_matchmaking.Base.Time.{Time}
use solitaire_matchmaking.Worker.Outbox.{Error, OutboxEvent, OutboxClaimRequest, validate_request}
use solitaire_matchmaking.Postgres.Tables.{exists}
use solitaire_matchmaking.Postgres.Tables.Keys.{AreKeyed, AreKeyed-update, AreKeyed-append}
use solitaire_matchmaking.Postgres.OutboxQueue.{
  OutboxRow, key_of, precedes, due_events, claimed_row, is_among, write_claims, claim_valid,
  claim_outbox_events, change_one, checked, mark_outbox_delivered, mark_outbox_dead_lettered,
  redrive_outbox_dead_letter, schedule_outbox_retry, new_row, same_slot, enqueue,
}
use solitaire_matchmaking.Postgres.OutboxQueue.Ordering.{
  is_started, AreInTurn, Keeps, claims-AreInTurn, change-AreInTurn, delivered-Keeps, dead-Keeps,
  retried-Keeps, redriven-Keeps, enqueue-AreInTurn,
}

-- An operation with its arguments; `clock` is `clock_timestamp()`.
pub data Operation : Type 0 where
  enqueuing : OutboxEvent → Operation
  claiming : (locked : String → Bool) → OutboxClaimRequest → Operation
  delivering : (event_id token : String) (delivered_at clock : Time) → Operation
  dead_lettering :
      (event_id token : String) (at : Time) (reason : String) (clock : Time) → Operation
  redriving : (event_id : String) (available_at : Time) → Operation
  retrying :
      (event_id token : String) (retry_at : Time) (last_error : String) (clock : Time) → Operation

module _ (is_object : String → Bool) where
  unfoldable pub operate : List OutboxRow → Operation → List OutboxRow
  operate rows (enqueuing e) = enqueue rows e
  operate rows (claiming locked r) = (claim_outbox_events is_object locked rows r).1
  operate rows (delivering id token t clock) = (mark_outbox_delivered rows id token t clock).1
  operate rows (dead_lettering id token t reason clock) =
      (mark_outbox_dead_lettered rows id token t reason clock).1
  operate rows (redriving id t) = (redrive_outbox_dead_letter rows id t).1
  operate rows (retrying id token t text clock) =
      (schedule_outbox_retry rows id token t text clock).1

  unfoldable pub operate_all : List OutboxRow → List Operation → List OutboxRow
  operate_all rows [] = rows
  operate_all rows (o ∷ os) = operate_all (operate rows o) os

  -- An event is entered before any event that comes after it has been started.
  abbrev pub Enters : List OutboxRow → Operation → Type 0
  Enters rows (enqueuing e) = All (λ b. precedes e b.event && is_started b ≡ false) rows
  Enters rows _ = Unit {0}

  unfoldable pub EntersInTurn : List OutboxRow → List Operation → Type 0
  EntersInTurn rows [] = Unit {0}
  EntersInTurn rows (o ∷ os) = Enters rows o × EntersInTurn (operate rows o) os

-- Distinct keys, and events in turn.
abbrev pub Good : List OutboxRow → Type 0
Good rows = AreKeyed key_of rows × AreInTurn rows

change-Good :
    (q : OutboxRow → Bool) (f : OutboxRow → OutboxRow) (broken : OutboxRow → Bool) (lost : Error)
    (rows : List OutboxRow)
    → Keeps q f rows
    → Good rows
    → Good (change_one q f broken lost rows).1
unfolding change_one
change-Good q f broken lost rows k (u, h) = (
  elim (Bool-cases (exists q rows)) [
    | inr n ↦ rw n u
    | inl y ↦ elim (Bool-cases (exists (λ row. q row && broken row) rows)) [
      | inl z ↦ rw y (rw z u)
      | inr z ↦
          rw y (
            rw z (AreKeyed-update key_of q f rows (λ x e. ap (λ v. v.event_id) (k.same_event x)) u))
    ]
  ],
  change-AreInTurn q f broken lost rows k h,
)

checked-Good :
    (checks : Result Error (Unit {0})) (rows : List OutboxRow)
    (after : Result Error (Unit {0}) × List OutboxRow)
    → Good rows
    → Good after.1
    → Good (checked checks rows after).1
checked-Good (ok x) rows after h k = k
checked-Good (err x) rows after h k = h

new_key :
    (e : OutboxEvent) (rows : List OutboxRow)
    → exists (same_slot e) rows ≡ false
    → exists (λ q. str_eq (key_of q) (key_of (new_row e))) rows ≡ false
unfolding exists same_slot
new_key e [] h = refl
new_key e (x ∷ rows) h = ground (arith, new_key e rows, h)

module _ (is_object : String → Bool) where
  claim-Good :
      (locked : String → Bool) (rows : List OutboxRow) (r : OutboxClaimRequest)
      (checks : Result Error (Unit {0}))
      → Good rows
      → Good (claim_valid is_object locked rows r checks).1
  unfolding claim_valid write_claims
  claim-Good locked rows r (err e) g = g
  claim-Good locked rows r (ok x) (u, h) = (
    AreKeyed-update key_of (is_among (due_events locked r rows)) (claimed_row r) rows (λ x e. refl)
        u,
    claims-AreInTurn locked r rows u h,
  )

  enqueue-AreKeyed :
      (rows : List OutboxRow) (e : OutboxEvent)
      → AreKeyed key_of rows
      → AreKeyed key_of (enqueue rows e)
  unfolding enqueue
  enqueue-AreKeyed rows e u = elim (Bool-cases (exists (same_slot e) rows)) [
    | inl y ↦ rw y u
    | inr n ↦ rw n (AreKeyed-append key_of rows (new_row e) u (new_key e rows n))
  ]

  pub operate-Good :
      (rows : List OutboxRow) (o : Operation)
      → Enters is_object rows o
      → Good rows
      → Good (operate is_object rows o)
  unfolding operate claim_outbox_events mark_outbox_delivered mark_outbox_dead_lettered
      redrive_outbox_dead_letter schedule_outbox_retry
  operate-Good rows (enqueuing e) fresh (u, h) =
      (enqueue-AreKeyed rows e u, enqueue-AreInTurn rows e fresh h)
  operate-Good rows (claiming locked r) _ g = claim-Good locked rows r (validate_request r) g
  operate-Good rows (delivering id token t clock) _ g =
      checked-Good _ rows _ g (change-Good _ _ _ _ rows (delivered-Keeps id token clock t rows) g)
  operate-Good rows (dead_lettering id token t reason clock) _ g =
      checked-Good _ rows _ g (change-Good _ _ _ _ rows (dead-Keeps id token clock t reason rows) g)
  operate-Good rows (redriving id t) _ g =
      checked-Good _ rows _ g (change-Good _ _ _ _ rows (redriven-Keeps id t rows) g)
  operate-Good rows (retrying id token t text clock) _ g =
      checked-Good _ rows _ g
        (change-Good _ _ _ _ rows (retried-Keeps id token clock t text rows) g)

  all-Good :
      (rows : List OutboxRow) (os : List Operation)
      → EntersInTurn is_object rows os
      → Good rows
      → Good (operate_all is_object rows os)
  unfolding operate_all EntersInTurn
  all-Good rows [] _ g = g
  all-Good rows (o ∷ os) (e, es) g =
      all-Good (operate is_object rows o) os es (operate-Good rows o e g)

  -- For every sequence of operations on the outbox from rows with distinct identities, where each event is
  -- entered before an event that comes after it in its aggregate has been started, an event of an
  -- aggregate is handed to a worker or delivered only when every event of the aggregate with
  -- a smaller version has been delivered: if that holds at the start, it holds at the end.
  pub outbox_in_turn :
      (rows : List OutboxRow) (os : List Operation)
      → AreKeyed key_of rows
      → AreInTurn rows
      → EntersInTurn is_object rows os
      → AreInTurn (operate_all is_object rows os)
  outbox_in_turn rows os u h e = (all-Good rows os e (u, h)).1
