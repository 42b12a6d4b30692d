-- ===== src/Postgres/OutboxQueue/Ordering.antt =====
-- The events of an aggregate are delivered in the order of their versions.
use solitaire_matchmaking.Base.{
  ◌≡◌, ◌⊎◌, inl, inr, refl, sym, ap, ◌∙◌, subst, Bool, true, false, not, ◌&&◌, ◌||◌, Option, none,
  some, List, [], ◌∷◌, ◌++◌, String, if◌then◌else◌, arith, Bool-cases, In, All, All-In, All-of_In,
  All-map, In-append, take-All, keep-All, &&-true,
}
use solitaire_matchmaking.Base.Sort.{sort-All}
use solitaire_matchmaking.Base.Int.{pos_part}
use solitaire_matchmaking.Base.Time.{Time}
use solitaire_matchmaking.Worker.Outbox.{Error, OutboxEvent, OutboxClaimRequest}
use solitaire_matchmaking.Postgres.Tables.{update, exists}
use solitaire_matchmaking.Postgres.Tables.Keys.{AreKeyed, same_row, contains-key, In-update}
use solitaire_matchmaking.Postgres.Tables.Rows.{exists-All}
use solitaire_matchmaking.Postgres.OutboxQueue.{
  OutboxRow, key_of, is_null, precedes, blocks, is_claimable, served_before, due_events,
  claimed_row, is_among, write_claims, change_one, delivered_row, holds, dead_row, redriven_row,
  is_dead, retried_row, new_row, same_slot, enqueue, is_token,
}

-- Delivered, or handed to a worker.
abbrev pub is_started : OutboxRow → Bool
is_started r = not (is_null r.delivered_at) || not (is_null r.claimed_by)

-- If `b` has been started and `a` precedes it, `a` has been delivered.
abbrev pub in_turn : OutboxRow → OutboxRow → Bool
in_turn b a = not (precedes a.event b.event && is_started b) || not (is_null a.delivered_at)

abbrev pub AreInTurn : List OutboxRow → Type 0
AreInTurn rows = All (λ b. All (λ a. in_turn b a ≡ true) rows) rows

AreInTurn-In :
    (rows : List OutboxRow) (a b : OutboxRow)
    → AreInTurn rows
    → In a rows
    → In b rows
    → in_turn b a ≡ true
AreInTurn-In rows a b h i j =
    All-In (λ a. in_turn b a ≡ true) rows a
      (All-In (λ b. All (λ a. in_turn b a ≡ true) rows) rows b h j) i

AreInTurn-of_In :
    (rows : List OutboxRow)
    → ((a b : OutboxRow) → In a rows → In b rows → in_turn b a ≡ true)
    → AreInTurn rows
AreInTurn-of_In rows f =
    All-of_In (λ b. All (λ a. in_turn b a ≡ true) rows) rows
      (λ b j. All-of_In (λ a. in_turn b a ≡ true) rows (λ a i. f a b i j))

-- What a change of rows has to keep.
pub record Keeps (q : OutboxRow → Bool) (f : OutboxRow → OutboxRow) (rows : List OutboxRow)
    : Type 0 where
  pub same_event : (r : OutboxRow) → (f r).event ≡ r.event
  pub delivered :
      (r : OutboxRow) → is_null r.delivered_at ≡ false → is_null (f r).delivered_at ≡ false
  pub started :
      (r : OutboxRow)
      → In r rows
      → q r ≡ true
      → is_started (f r) ≡ true
      → (is_started r ≡ true) ⊎ (exists (blocks r) rows ≡ false)

in_turn_kept :
    (p s s' n n' : Bool)
    → (not (p && s) || not n) ≡ true
    → (s' ≡ true → (s ≡ true) ⊎ ((p && n) ≡ false))
    → (n ≡ false → n' ≡ false)
    → (not (p && s') || not n') ≡ true
in_turn_kept false s s' n n' h k m = refl
in_turn_kept true s false n n' h k m = refl
in_turn_kept true s true false n' h k m = ap not (m refl)
in_turn_kept true true true true n' h k m = cc
in_turn_kept true false true true n' h k m = elim (k refl) [ inl x ↦ cc | inr x ↦ cc ]

abbrev pub changed : (OutboxRow → Bool) → (OutboxRow → OutboxRow) → OutboxRow → OutboxRow
changed q f r = if q r then f r else r

module _ (q : OutboxRow → Bool) (f : OutboxRow → OutboxRow) (rows : List OutboxRow)
    (k : Keeps q f rows) where
  pub changed_event : (r : OutboxRow) → (changed q f r).event ≡ r.event
  changed_event r = elim (Bool-cases (q r)) [
    | inl y ↦ ap (λ b. (if b then f r else r).event) y ∙ k.same_event r
    | inr n ↦ ap (λ b. (if b then f r else r).event) n
  ]

  pub changed_delivered :
      (r : OutboxRow)
      → is_null r.delivered_at ≡ false
      → is_null (changed q f r).delivered_at ≡ false
  changed_delivered r h = elim (Bool-cases (q r)) [
    | inl y ↦ ap (λ b. is_null (if b then f r else r).delivered_at) y ∙ k.delivered r h
    | inr n ↦ ap (λ b. is_null (if b then f r else r).delivered_at) n ∙ h
  ]

  changed_started :
      (r : OutboxRow)
      → In r rows
      → is_started (changed q f r) ≡ true
      → (is_started r ≡ true) ⊎ (exists (blocks r) rows ≡ false)
  changed_started r i h = elim (Bool-cases (q r)) [
    | inl y ↦ k.started r i y (ap (λ b. is_started (if b then f r else r)) (sym y) ∙ h)
    | inr n ↦ inl (ap (λ b. is_started (if b then f r else r)) (sym n) ∙ h)
  ]

  pair_kept :
      (a b : OutboxRow)
      → In a rows
      → In b rows
      → in_turn b a ≡ true
      → in_turn (changed q f b) (changed q f a) ≡ true
  pair_kept a b i j h =
      let kept =
        in_turn_kept (precedes a.event b.event) (is_started b) (is_started (changed q f b))
          (is_null a.delivered_at) (is_null (changed q f a).delivered_at) h
          (λ s. elim (changed_started b j s) [
            | inl y ↦ inl y
            | inr n ↦ inr (All-In (λ x. blocks b x ≡ false) rows a (exists-All (blocks b) rows n) i)
          ])
          (changed_delivered a) in
      ap
        (λ x.
          not (precedes x (changed q f b).event && is_started (changed q f b))
          || not (is_null (changed q f a).delivered_at))
        (changed_event a)
      ∙ ap
          (λ x.
            not (precedes a.event x && is_started (changed q f b))
            || not (is_null (changed q f a).delivered_at))
          (changed_event b)
      ∙ kept

  -- An update where each row keeps its event and its delivery, and starts only with nothing before it.
  AreInTurn-update : AreInTurn rows → AreInTurn (update q f rows)
  AreInTurn-update h = AreInTurn-of_In (update q f rows) (λ a' b' i j.
      let (a, i', ea) = In-update q f rows a' i in
      let (b, j', eb) = In-update q f rows b' j in
      subst (λ y. in_turn y a' ≡ true) (sym eb)
        (subst (λ x. in_turn (changed q f b) x ≡ true) (sym ea)
          (pair_kept a b i' j' (AreInTurn-In rows a b h i' j'))))

-- A row that the query returns is stored and claimable.
pub due_events-claimable :
    (locked : String → Bool) (r : OutboxClaimRequest) (rows : List OutboxRow)
    → All (λ c. (is_claimable r.claimed_at rows c ≡ true) × In c rows) (due_events locked r rows)
unfolding due_events
due_events-claimable locked r rows =
    let p = λ (c : OutboxRow). is_claimable r.claimed_at rows c && not (locked (key_of c)) in
    All-map (λ c. (p c ≡ true) × In c rows)
      (λ c. (is_claimable r.claimed_at rows c ≡ true) × In c rows) _
      (λ c h. ((&&-true (is_claimable r.claimed_at rows c) (not (locked (key_of c))) h.0).0, h.1))
      (take-All (λ c. (p c ≡ true) × In c rows) (pos_part r.limit) _
        (sort-All served_before _ _ (keep-All p rows)))

claimable_alone :
    (now : Time) (rows : List OutboxRow) (c : OutboxRow)
    → is_claimable now rows c ≡ true
    → exists (blocks c) rows ≡ false
unfolding is_claimable
claimable_alone now rows c h = ground (arith, h)

pub claims-AreInTurn :
    (locked : String → Bool) (r : OutboxClaimRequest) (rows : List OutboxRow)
    → AreKeyed key_of rows
    → AreInTurn rows
    → AreInTurn (write_claims r (due_events locked r rows) rows)
unfolding write_claims
claims-AreInTurn locked r rows u h =
    AreInTurn-update (is_among (due_events locked r rows)) (claimed_row r) rows
      (record {
        same_event = λ x. refl;
        delivered = λ x e. e;
        started = λ x i y _.
            let (c, j, same) = contains-key key_of (key_of x) (due_events locked r rows) y in
            let (ready, stored) =
              All-In (λ c. (is_claimable r.claimed_at rows c ≡ true) × In c rows)
                (due_events locked r rows) c (due_events-claimable locked r rows) j in
            inr (
              claimable_alone r.claimed_at rows x (
                subst (λ z. is_claimable r.claimed_at rows z ≡ true)
                  (same_row key_of rows c x u stored i same) ready));
      })
      h

-- An operation on one event: a row that the test allows has been started, and none is started by it.
pub change-AreInTurn :
    (q : OutboxRow → Bool) (f : OutboxRow → OutboxRow) (broken : OutboxRow → Bool) (lost : Error)
    (rows : List OutboxRow)
    → Keeps q f rows
    → AreInTurn rows
    → AreInTurn (change_one q f broken lost rows).1
unfolding change_one
change-AreInTurn q f broken lost rows k h =
    let after = AreInTurn-update q f rows k h in
    elim (Bool-cases (exists q rows)) [
      | inr n ↦ rw n h
      | inl y ↦ elim (Bool-cases (exists (λ row. q row && broken row) rows)) [
        | inl z ↦ rw y (rw z h)
        | inr z ↦ rw y (rw z after)
      ]
    ]

token_held :
    (token : String) (holder : Option String)
    → is_token token holder ≡ true
    → is_null holder ≡ false
token_held token none h = cc
token_held token (some holder) h = refl

holds_started :
    (event_id token : String) (clock : Time) (r : OutboxRow)
    → holds event_id token clock r ≡ true
    → is_started r ≡ true
unfolding holds
holds_started event_id token clock r h =
    let held : is_token token r.claimed_by ≡ true = ground (arith, h) in
    ground (arith, token_held token r.claimed_by held)

pub delivered-Keeps :
    (event_id token : String) (clock t : Time) (rows : List OutboxRow)
    → Keeps (holds event_id token clock) (delivered_row t) rows
delivered-Keeps event_id token clock t rows = record {
  same_event = λ x. refl;
  delivered = λ x e. refl;
  started = λ x i y _. inl (holds_started event_id token clock x y);
}

pub dead-Keeps :
    (event_id token : String) (clock t : Time) (reason : String) (rows : List OutboxRow)
    → Keeps (holds event_id token clock) (dead_row t reason) rows
dead-Keeps event_id token clock t reason rows = record {
  same_event = λ x. refl;
  delivered = λ x e. e;
  started = λ x i y _. inl (holds_started event_id token clock x y);
}

pub retried-Keeps :
    (event_id token : String) (clock t : Time) (text : String) (rows : List OutboxRow)
    → Keeps (holds event_id token clock) (retried_row t text) rows
retried-Keeps event_id token clock t text rows = record {
  same_event = λ x. refl;
  delivered = λ x e. e;
  started = λ x i y _. inl (holds_started event_id token clock x y);
}

pub redriven-Keeps :
    (event_id : String) (t : Time) (rows : List OutboxRow)
    → Keeps (is_dead event_id) (redriven_row t) rows
redriven-Keeps event_id t rows = record {
  same_event = λ x. refl;
  delivered = λ x e. e;
  started = λ x i y s. inl (ground (arith, s));
}

new_in_turn :
    (rows : List OutboxRow) (e : OutboxEvent) (b : OutboxRow)
    → In b (rows ++ new_row e ∷ [])
    → All (λ b. precedes e b.event && is_started b ≡ false) rows
    → in_turn b (new_row e) ≡ true
new_in_turn [] e b (inl same) h = rw same (ground arith)
new_in_turn [] e b (inr i) h = absurd i
new_in_turn (x ∷ rows) e b (inl same) (fresh, h) = rw same (ground (arith, fresh))
new_in_turn (x ∷ rows) e b (inr i) (fresh, h) = new_in_turn rows e b i h

appended_in_turn :
    (rows : List OutboxRow) (e : OutboxEvent) (a b : OutboxRow)
    → All (λ b. precedes e b.event && is_started b ≡ false) rows
    → AreInTurn rows
    → In a rows ⊎ In a (new_row e ∷ [])
    → In b rows ⊎ In b (new_row e ∷ [])
    → In b (rows ++ new_row e ∷ [])
    → in_turn b a ≡ true
appended_in_turn rows e a b fresh h (inl i) (inl j) k = AreInTurn-In rows a b h i j
appended_in_turn rows e a b fresh h (inl i) (inr (inl same)) k = rw same (ground arith)
appended_in_turn rows e a b fresh h (inr (inl same)) j k = rw same (new_in_turn rows e b k fresh)
appended_in_turn rows e a b fresh h (inl i) (inr (inr x)) k = absurd x
appended_in_turn rows e a b fresh h (inr (inr x)) j k = absurd x

-- An event that no started event comes after.
pub enqueue-AreInTurn :
    (rows : List OutboxRow) (e : OutboxEvent)
    → All (λ b. precedes e b.event && is_started b ≡ false) rows
    → AreInTurn rows
    → AreInTurn (enqueue rows e)
unfolding enqueue
enqueue-AreInTurn rows e fresh h = elim (Bool-cases (exists (same_slot e) rows)) [
  | inl y ↦ rw y h
  | inr n ↦ rw n (
      AreInTurn-of_In (rows ++ new_row e ∷ []) (λ a b i j.
        appended_in_turn rows e a b fresh h (In-append a rows (new_row e ∷ []) i)
          (In-append b rows (new_row e ∷ []) j) j))
]
