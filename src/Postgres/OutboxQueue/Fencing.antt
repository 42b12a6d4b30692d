-- ===== src/Postgres/OutboxQueue/Fencing.antt =====
-- Only the holder of a live lease acknowledges an event, and only once.
use solitaire_matchmaking.Base.{
  ◌≡◌, ◌<◌, inl, inr, refl, sym, ap, ◌∙◌, subst, Bool, true, false, not, ◌&&◌, ◌||◌, Option, none,
  some, List, [], ◌∷◌, String, str_eq, Result, ok, err, arith, Bool-cases, In, All, All-In,
  All-of_In, All-map, All-append, ◌++◌, fail_if, is_empty, ltb, eq_iff, if◌then◌else◌,
}
use solitaire_matchmaking.Base.Time.{Time, is_zero}
use solitaire_matchmaking.Worker.Outbox.{
  Error, claim_lost, arguments_required, OutboxEvent, OutboxClaimRequest, validate_request,
}
use solitaire_matchmaking.Postgres.Tables.{update, exists}
use solitaire_matchmaking.Postgres.Tables.Keys.{
  AreKeyed, same_row, In-update, exists_row, exists-In, exists-update, none_exists,
}
use solitaire_matchmaking.Postgres.OutboxQueue.{
  OutboxRow, key_of, is_null, is_token, lease_over, change_one, checked, claim_valid, claimed_row,
  due_events, is_among, write_claims, claim_outbox_events, delivered_row, holds,
  mark_outbox_delivered, mark_outbox_dead_lettered, redrive_outbox_dead_letter,
  schedule_outbox_retry, new_row, same_slot, enqueue,
}
use solitaire_matchmaking.Postgres.OutboxQueue.Ordering.{
  Keeps, changed, changed_event, changed_delivered, delivered-Keeps, dead-Keeps, retried-Keeps,
  redriven-Keeps,
}
use solitaire_matchmaking.Postgres.OutboxQueue.Delivery.{
  Operation, enqueuing, claiming, delivering, dead_lettering, redriving, retrying, operate,
  operate_all,
}

-- An event that waits for its acknowledgement, under a lease of the token that ends after `clock`.
abbrev pub IsLeased : OutboxRow → String → Time → Type 0
IsLeased r token clock =
    (r.delivered_at ≡ none)
    × (r.dead_lettered_at ≡ none)
    × (r.claimed_by ≡ some token)
    × ((until : Time) × (r.claimed_until ≡ some until) × (clock < until))

null_none : {A : Type 0} (x : Option A) → is_null x ≡ true → x ≡ none
null_none none h = refl
null_none (some a) h = cc

token_some : (token : String) (x : Option String) → is_token token x ≡ true → x ≡ some token
token_some token none h = cc
token_some token (some holder) h = ap some ((eq_iff holder token).0 h)

lease_live :
    (clock : Time) (x : Option Time)
    → not (lease_over clock x) ≡ true
    → (until : Time) × (x ≡ some until) × (clock < until)
lease_live clock none h = cc
lease_live clock (some until) h = (until, refl, ground (arith, h))

held_facts :
    (id token : String) (clock : Time) (r : OutboxRow)
    → holds id token clock r ≡ true
    → (key_of r ≡ id) × IsLeased r token clock
unfolding holds
held_facts id token clock r h = (
  (eq_iff (key_of r) id).0 (ground (arith, h)),
  (
    null_none r.delivered_at (ground (arith, h)),
    null_none r.dead_lettered_at (ground (arith, h)),
    token_some token r.claimed_by (ground (arith, h)),
    lease_live clock r.claimed_until (ground (arith, h)),
  ),
)

not_held :
    (id token : String) (clock : Time) (r : OutboxRow)
    → str_eq (key_of r) id ≡ false
    → holds id token clock r ≡ false
unfolding holds
not_held id token clock r h = rw h refl

-- The row that is held is the only one with its key.
held_key :
    (id token : String) (clock : Time) (rows : List OutboxRow) (r x : OutboxRow)
    → AreKeyed key_of rows
    → In r rows
    → holds id token clock r ≡ true
    → In x rows
    → holds id token clock x ≡ str_eq (key_of x) id
held_key id token clock rows r x u i h j = elim (Bool-cases (str_eq (key_of x) id)) [
  | inr n ↦ not_held id token clock x n ∙ sym n
  | inl y ↦
      ap (holds id token clock) (
        same_row key_of rows x r u j i
          ((eq_iff (key_of x) id).0 y ∙ sym (held_facts id token clock r h).0))
      ∙ h
      ∙ sym y
]

update_same :
    (q p : OutboxRow → Bool) (f : OutboxRow → OutboxRow) (rows : List OutboxRow)
    → ((x : OutboxRow) → In x rows → q x ≡ p x)
    → update q f rows ≡ update p f rows
unfolding update
update_same q p f [] h = refl
update_same q p f (x ∷ rows) h =
    ap (λ b. (if b then f x else x) ∷ update q f rows) (h x (inl refl))
    ∙ ap (λ l. (if p x then f x else x) ∷ l) (update_same q p f rows (λ y i. h y (inr i)))

change_lem :
    (q : OutboxRow → Bool) (f : OutboxRow → OutboxRow) (broken : OutboxRow → Bool) (lost : Error)
    (rows : List OutboxRow) {rows' : List OutboxRow}
    → change_one q f broken lost rows ≡ (ok tt, rows')
    → (exists q rows ≡ true) × (rows' ≡ update q f rows)
unfolding change_one
change_lem q f broken lost rows h = ground arith

checked_lem :
    (checks : Result Error (Unit {0})) (rows : List OutboxRow)
    (after : Result Error (Unit {0}) × List OutboxRow) {rows' : List OutboxRow}
    → checked checks rows after ≡ (ok tt, rows')
    → after ≡ (ok tt, rows')
checked_lem (ok x) rows after h = h
checked_lem (err x) rows after h = cc

lost_lem :
    (q : OutboxRow → Bool) (f : OutboxRow → OutboxRow) (broken : OutboxRow → Bool) (lost : Error)
    (rows : List OutboxRow)
    → exists q rows ≡ false
    → change_one q f broken lost rows ≡ (err lost, rows)
unfolding change_one
lost_lem q f broken lost rows h = rw h refl

-- The event is stored, and delivered.
abbrev Done : String → List OutboxRow → Type 0
Done id rows =
    (exists (λ r. str_eq (key_of r) id) rows ≡ true)
    × All (λ r. (str_eq (key_of r) id && is_null r.delivered_at) ≡ false) rows

still_false : (a b b' : Bool) → (a && b) ≡ false → (b ≡ false → b' ≡ false) → (a && b') ≡ false
still_false false b b' h k = refl
still_false true b b' h k = k h

Done-update :
    (id : String) (q : OutboxRow → Bool) (f : OutboxRow → OutboxRow) (rows : List OutboxRow)
    → ((x : OutboxRow) → (changed q f x).event ≡ x.event)
    → ((x : OutboxRow)
        → is_null x.delivered_at ≡ false
        → is_null (changed q f x).delivered_at ≡ false)
    → ((x : OutboxRow) → q x ≡ true → key_of (f x) ≡ key_of x)
    → Done id rows
    → Done id (update q f rows)
Done-update id q f rows same kept keys (there, h) = (
  exists-update key_of id q f rows keys ∙ there,
  All-of_In (λ r. (str_eq (key_of r) id && is_null r.delivered_at) ≡ false) (update q f rows)
      (λ y j.
        let (x, i, e) = In-update q f rows y j in
        subst (λ z. (str_eq (key_of z) id && is_null z.delivered_at) ≡ false) (sym e)
          (ap (λ v. str_eq v.event_id id && is_null (changed q f x).delivered_at) (same x)
            ∙ still_false (str_eq (key_of x) id) (is_null x.delivered_at)
                (is_null (changed q f x).delivered_at)
                (All-In (λ r. (str_eq (key_of r) id && is_null r.delivered_at) ≡ false) rows x h i)
                (kept x))),
)

Done-change :
    (id : String) (q : OutboxRow → Bool) (f : OutboxRow → OutboxRow) (broken : OutboxRow → Bool)
    (lost : Error) (rows : List OutboxRow)
    → Keeps q f rows
    → Done id rows
    → Done id (change_one q f broken lost rows).1
unfolding change_one
Done-change id q f broken lost rows k d = elim (Bool-cases (exists q rows)) [
  | inr n ↦ rw n d
  | inl y ↦ elim (Bool-cases (exists (λ row. q row && broken row) rows)) [
    | inl z ↦ rw y (rw z d)
    | inr z ↦ rw y (
        rw z (
          Done-update id q f rows (changed_event q f rows k) (changed_delivered q f rows k)
            (λ x e. ap (λ v. v.event_id) (k.same_event x)) d))
  ]
]

Done-checked :
    (id : String) (checks : Result Error (Unit {0})) (rows : List OutboxRow)
    (after : Result Error (Unit {0}) × List OutboxRow)
    → Done id rows
    → Done id after.1
    → Done id (checked checks rows after).1
Done-checked id (ok x) rows after d e = e
Done-checked id (err x) rows after d e = d

same_slot_key :
    (e : OutboxEvent) (rows : List OutboxRow)
    → exists (same_slot e) rows ≡ false
    → exists (λ r. str_eq (key_of r) e.event_id) rows ≡ false
unfolding exists same_slot
same_slot_key e [] h = refl
same_slot_key e (x ∷ rows) h = ground (arith, same_slot_key e rows, h)

exists-grown :
    (q : OutboxRow → Bool) (rows : List OutboxRow) (r : OutboxRow)
    → exists q rows ≡ true
    → exists q (rows ++ r ∷ []) ≡ true
unfolding exists
exists-grown q [] r h = cc
exists-grown q (x ∷ rows) r h = ground (arith, exists-grown q rows r)

Done-append :
    (id : String) (rows : List OutboxRow) (e : OutboxEvent)
    → exists (λ r. str_eq (key_of r) e.event_id) rows ≡ false
    → Done id rows
    → Done id (rows ++ new_row e ∷ [])
Done-append id rows e fresh (there, h) = (
  exists-grown (λ r. str_eq (key_of r) id) rows (new_row e) there,
  All-append (λ r. (str_eq (key_of r) id && is_null r.delivered_at) ≡ false) rows (new_row e ∷ []) h
      (elim (Bool-cases (str_eq e.event_id id)) [
        | inr n ↦ (rw n refl, tt)
        | inl y ↦
            let same : e.event_id ≡ id = (eq_iff e.event_id id).0 y in
            let none_there : exists (λ r. str_eq (key_of r) id) rows ≡ false =
              subst (λ k. exists (λ r. str_eq (key_of r) k) rows ≡ false) same fresh in
            cc
      ]),
)

module _ (is_object : String → Bool) where
  Done-claim :
      (id : String) (locked : String → Bool) (rows : List OutboxRow) (r : OutboxClaimRequest)
      (checks : Result Error (Unit {0}))
      → Done id rows
      → Done id (claim_valid is_object locked rows r checks).1
  unfolding claim_valid write_claims
  Done-claim id locked rows r (err e) d = d
  Done-claim id locked rows r (ok x) d =
      Done-update id (is_among (due_events locked r rows)) (claimed_row r) rows
        (λ x. elim (Bool-cases (is_among (due_events locked r rows) x)) [
          | inl y ↦ rw y refl
          | inr n ↦ rw n refl
        ])
        (λ x h. elim (Bool-cases (is_among (due_events locked r rows) x)) [
          | inl y ↦ rw y h
          | inr n ↦ rw n h
        ])
        (λ x e. refl) d

  Done-operate :
      (id : String) (rows : List OutboxRow) (o : Operation)
      → Done id rows
      → Done id (operate is_object rows o)
  unfolding operate enqueue claim_outbox_events mark_outbox_delivered mark_outbox_dead_lettered
      redrive_outbox_dead_letter schedule_outbox_retry
  Done-operate id rows (enqueuing e) d = elim (Bool-cases (exists (same_slot e) rows)) [
    | inl y ↦ rw y d
    | inr n ↦ rw n (Done-append id rows e (same_slot_key e rows n) d)
  ]
  Done-operate id rows (claiming locked r) d = Done-claim id locked rows r (validate_request r) d
  Done-operate id rows (delivering key token t clock) d =
      Done-checked id _ rows _ d
        (Done-change id _ _ _ _ rows (delivered-Keeps key token clock t rows) d)
  Done-operate id rows (dead_lettering key token t reason clock) d =
      Done-checked id _ rows _ d
        (Done-change id _ _ _ _ rows (dead-Keeps key token clock t reason rows) d)
  Done-operate id rows (redriving key t) d =
      Done-checked id _ rows _ d (Done-change id _ _ _ _ rows (redriven-Keeps key t rows) d)
  Done-operate id rows (retrying key token t text clock) d =
      Done-checked id _ rows _ d
        (Done-change id _ _ _ _ rows (retried-Keeps key token clock t text rows) d)

  Done-operate_all :
      (id : String) (rows : List OutboxRow) (os : List Operation)
      → Done id rows
      → Done id (operate_all is_object rows os)
  unfolding operate_all
  Done-operate_all id rows [] d = d
  Done-operate_all id rows (o ∷ os) d =
      Done-operate_all id (operate is_object rows o) os (Done-operate id rows o d)

unheld-Done :
    (id other : String) (clock : Time) (rows : List OutboxRow)
    → Done id rows
    → exists (holds id other clock) rows ≡ false
unfolding holds
unheld-Done id other clock rows (_, h) = none_exists (holds id other clock) rows (
    All-map (λ r. (str_eq (key_of r) id && is_null r.delivered_at) ≡ false)
      (λ r. holds id other clock r ≡ false) rows (λ r e. ground (arith, e)) h)

-- The rows after an acknowledgement: the row of the event is delivered at `t` without a lease or an error,
-- the others are as they were.
abbrev pub acknowledged : String → Time → List OutboxRow → List OutboxRow
acknowledged id t rows =
    update (λ r. str_eq (key_of r) id)
      (λ r. record r {
        delivered_at = some t;
        claimed_by = none;
        claimed_until = none;
        last_error = none;
      })
      rows

Done-acknowledged :
    (id : String) (t : Time) (rows : List OutboxRow) (r : OutboxRow)
    → In r rows
    → key_of r ≡ id
    → Done id (acknowledged id t rows)
Done-acknowledged id t rows r i e = (
  exists-update key_of id (λ x. str_eq (key_of x) id) (delivered_row t) rows (λ x y. refl)
      ∙ exists-In key_of id rows r i e,
  All-of_In (λ x. (str_eq (key_of x) id && is_null x.delivered_at) ≡ false) (acknowledged id t rows)
      (λ y j.
        let (x, k, e) = In-update (λ x. str_eq (key_of x) id) (delivered_row t) rows y j in
        subst (λ z. (str_eq (key_of z) id && is_null z.delivered_at) ≡ false) (sym e)
          (elim (Bool-cases (str_eq (key_of x) id)) [
            | inl y ↦ rw y (rw y refl)
            | inr n ↦ rw n (rw n refl)
          ])),
)

module _ (is_object : String → Bool) where
  -- An acknowledgement that succeeds finds the event neither delivered nor a dead letter and claimed by
  -- its token under a lease that ends after the time of the database, and changes only the row of
  -- that event: it is delivered, without a lease or an error. After any operations on the outbox that
  -- follow, an acknowledgement of the event by any token at any time is refused as a lost claim and changes
  -- nothing, when none of its arguments is missing.
  pub mark_outbox_delivered_once :
      (rows : List OutboxRow) (id token : String) (t clock : Time) (os : List Operation)
      (other : String) (t' clock' : Time) {rows' : List OutboxRow}
      → AreKeyed key_of rows
      → mark_outbox_delivered rows id token t clock ≡ (ok tt, rows')
      → (is_empty id || is_empty other || is_zero t') ≡ false
      → ((r : OutboxRow) × In r rows × (key_of r ≡ id) × IsLeased r token clock)
        × (rows' ≡ acknowledged id t rows)
        × (mark_outbox_delivered (operate_all is_object rows' os) id other t' clock'
            ≡ (err claim_lost, operate_all is_object rows' os))
  unfolding mark_outbox_delivered
  mark_outbox_delivered_once rows id token t clock os other t' clock' {rows'} u h given =
      let (held, written) =
        change_lem (holds id token clock) (delivered_row t) (λ row. ltb t row.event.occurred_at)
          claim_lost rows (checked_lem _ rows _ h) in
      let (r, i, held_row) = exists_row (holds id token clock) rows held in
      let (named, leased) = held_facts id token clock r held_row in
      let after : rows' ≡ acknowledged id t rows =
        written
        ∙ update_same (holds id token clock) (λ x. str_eq (key_of x) id) (delivered_row t) rows
            (λ x j. held_key id token clock rows r x u i held_row j) in
      let done : Done id (operate_all is_object rows' os) =
        Done-operate_all is_object id rows' os
          (subst (Done id) (sym after) (Done-acknowledged id t rows r i named)) in
      (
        (r, i, named, leased),
        after,
        ap
              (λ b. checked (fail_if b arguments_required) (operate_all is_object rows' os) (
                change_one (holds id other clock') (delivered_row t')
                  (λ row. ltb t' row.event.occurred_at) claim_lost
                  (operate_all is_object rows' os)))
              given
            ∙ lost_lem (holds id other clock') (delivered_row t')
                (λ row. ltb t' row.event.occurred_at) claim_lost (operate_all is_object rows' os)
                (unheld-Done id other clock' (operate_all is_object rows' os) done),
      )
