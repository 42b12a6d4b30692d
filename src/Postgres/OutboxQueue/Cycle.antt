-- ===== src/Postgres/OutboxQueue/Cycle.antt =====
-- The runner of internal/worker/outbox.go on the queue of internal/postgres/outbox_queue.go.
use solitaire_matchmaking.Base.{
  ◌≡◌, ◌⊎◌, inl, inr, refl, sym, ap, ◌∙◌, List, [], ◌∷◌, String, Bool, true, false, ◌&&◌, Result,
  ok, err, ◌>>=◌, ◌>>◌, if◌then◌else◌, arith, Bool-cases, In, All, All-map, All-of_In, eq_iff,
}
use solitaire_matchmaking.Base.Time.{Time, add}
use solitaire_matchmaking.Postgres.Tables.{update, exists}
use solitaire_matchmaking.Postgres.Tables.Keys.{AreKeyed, same_row}
use solitaire_matchmaking.Worker.Outbox.{
  Error, OutboxEvent, OutboxClaimRequest, OutboxClaim, OutboxRunnerOptions, retry_delay,
  validate_request, validate_claim,
}
use solitaire_matchmaking.Worker.Outbox.Runner.{
  OutboxQueue, Published, published, permanent, transient, OutboxRunResult, after_publish,
  handle_claims, run_claimed, run_once, bounded_delivery_error,
}
use solitaire_matchmaking.Postgres.OutboxQueue.{
  OutboxRow, key_of, is_null, change_one, checked, holds, delivered_row, dead_row, retried_row,
  claim_outbox_events, claim_valid, claim_of, claimed_row, is_claimable, scan_claims, write_claims,
  due_events, is_among, mark_outbox_delivered, mark_outbox_dead_lettered, schedule_outbox_retry,
}
use solitaire_matchmaking.Postgres.OutboxQueue.Ordering.{AreInTurn, due_events-claimable}
use solitaire_matchmaking.Postgres.OutboxQueue.Delivery.{
  Good, operate, operate-Good, claiming, delivering, dead_lettering, retrying,
}

-- How an event that is delivered or a dead letter came to be so: it was that before, or it was published, or
-- its publication failed for good.
abbrev pub Settled : (OutboxEvent → Published) → List OutboxRow → OutboxRow → Type 0
Settled publish old r =
    ((is_null r.delivered_at ≡ true)
      ⊎ (publish r.event ≡ published)
      ⊎ ((o : OutboxRow) × In o old × (o.event ≡ r.event) × (is_null o.delivered_at ≡ false)))
    × ((is_null r.dead_lettered_at ≡ true)
        ⊎ ((m : String) × (publish r.event ≡ permanent m))
        ⊎ ((o : OutboxRow) × In o old × (o.event ≡ r.event) × (is_null o.dead_lettered_at ≡ false)))

before-Settled :
    (publish : OutboxEvent → Published) (rows : List OutboxRow) (r : OutboxRow)
    → In r rows
    → Settled publish rows r
before-Settled publish rows r i = (
  elim (Bool-cases (is_null r.delivered_at)) [ inl y ↦ inl y | inr n ↦ inr (inr (r, i, refl, n)) ],
  elim (Bool-cases (is_null r.dead_lettered_at)) [
    | inl y ↦ inl y
    | inr n ↦ inr (inr (r, i, refl, n))
  ],
)

All-update :
    (P : OutboxRow → Type 0) (q : OutboxRow → Bool) (f : OutboxRow → OutboxRow)
    (rows : List OutboxRow)
    → ((x : OutboxRow) → In x rows → q x ≡ true → P x → P (f x))
    → All P rows
    → All P (update q f rows)
unfolding update
All-update P q f [] k h = tt
All-update P q f (x ∷ rows) k (p, ps) = (
  elim (Bool-cases (q x)) [ inl y ↦ rw y (k x (inl refl) y p) | inr n ↦ rw n p ],
  All-update P q f rows (λ z i. k z (inr i)) ps,
)

-- A stored event, under its key.
abbrev Stores : List OutboxRow → OutboxEvent → Type 0
Stores rows e = (r : OutboxRow) × In r rows × (r.event ≡ e)

In-updated :
    (q : OutboxRow → Bool) (f : OutboxRow → OutboxRow) (rows : List OutboxRow) (r : OutboxRow)
    → In r rows
    → In (if q r then f r else r) (update q f rows)
unfolding update
In-updated q f [] r i = absurd i
In-updated q f (x ∷ rows) r (inl e) = inl (ap (λ z. if q z then f z else z) e)
In-updated q f (x ∷ rows) r (inr i) = inr (In-updated q f rows r i)

Stores-update :
    (q : OutboxRow → Bool) (f : OutboxRow → OutboxRow) (rows : List OutboxRow) (e : OutboxEvent)
    → ((x : OutboxRow) → (f x).event ≡ x.event)
    → Stores rows e
    → Stores (update q f rows) e
Stores-update q f rows e same (r, i, k) = (
  if q r then f r else r,
  In-updated q f rows r i,
  elim (Bool-cases (q r)) [
    | inl y ↦ ap (λ b. (if b then f r else r).event) y ∙ same r ∙ k
    | inr n ↦ ap (λ b. (if b then f r else r).event) n ∙ k
  ],
)

-- A change of one row keeps the stored events and passes a property on.
change_lem :
    (P : OutboxRow → Type 0) (q : OutboxRow → Bool) (f : OutboxRow → OutboxRow)
    (broken : OutboxRow → Bool) (lost : Error) (rows : List OutboxRow) (es : List OutboxClaim)
    → ((x : OutboxRow) → (f x).event ≡ x.event)
    → ((x : OutboxRow) → In x rows → q x ≡ true → P x → P (f x))
    → All P rows × All (λ c. Stores rows c.event) es
    → All P (change_one q f broken lost rows).1
      × All (λ c. Stores (change_one q f broken lost rows).1 c.event) es
unfolding change_one
change_lem P q f broken lost rows es same k (h, st) = elim (Bool-cases (exists q rows)) [
  | inr n ↦ rw n (h, st)
  | inl y ↦ elim (Bool-cases (exists (λ row. q row && broken row) rows)) [
    | inl z ↦ rw y (rw z (h, st))
    | inr z ↦ rw y (
        rw z (
          All-update P q f rows k h,
          All-map (λ c. Stores rows c.event) (λ c. Stores (update q f rows) c.event) es
              (λ c. Stores-update q f rows c.event same) st,
        ))
  ]
]

checked_lem :
    (Q : List OutboxRow → Type 0) (checks : Result Error (Unit {0})) (rows : List OutboxRow)
    (after : Result Error (Unit {0}) × List OutboxRow)
    → Q rows
    → Q after.1
    → Q (checked checks rows after).1
checked_lem Q (ok x) rows after h k = k
checked_lem Q (err x) rows after h k = h

holds_key :
    (id token : String) (t : Time) (r : OutboxRow) → holds id token t r ≡ true → key_of r ≡ id
unfolding holds
holds_key id token t r h = (eq_iff (key_of r) id).0 (ground (arith, h))

-- The row with the key of a claimed event has that event.
claimed_event :
    (rows : List OutboxRow) (e : OutboxEvent) (token : String) (t : Time) (x : OutboxRow)
    → AreKeyed key_of rows
    → Stores rows e
    → In x rows
    → holds e.event_id token t x ≡ true
    → x.event ≡ e
claimed_event rows e token t x u (r, i, k) j h =
    ap (λ z. z.event)
      (same_row key_of rows x r u j i
        (holds_key e.event_id token t x h ∙ sym (ap (λ z. z.event_id) k)))
    ∙ k

-- The events of the claims that a query returns are stored.
abbrev Claims : List OutboxRow → Result Error (List OutboxClaim) → Type 0
Claims rows (err e) = Unit {0}
Claims rows (ok cs) = All (λ c. Stores rows c.event) cs

Claims-cons :
    (rows : List OutboxRow) (checks : Result Error (Unit {0}))
    (rest : Result Error (List OutboxClaim)) (c : OutboxClaim)
    → Stores rows c.event
    → Claims rows rest
    → Claims rows (checks >> (rest >>= (λ cs. ok (c ∷ cs))))
Claims-cons rows (err e) rest c st h = tt
Claims-cons rows (ok x) (err e) c st h = tt
Claims-cons rows (ok x) (ok cs) c st h = (st, h)

scan_claims-Claims :
    (is_object : String → Bool) (r : OutboxClaimRequest) (rows due : List OutboxRow)
    → All (λ x. Stores rows x.event) due
    → Claims rows (scan_claims is_object r due)
unfolding scan_claims
scan_claims-Claims is_object r rows [] h = tt
scan_claims-Claims is_object r rows (x ∷ due) (st, h) =
    Claims-cons rows (validate_claim is_object (claim_of r x)) (scan_claims is_object r due)
      (claim_of r x) st (scan_claims-Claims is_object r rows due h)

module _ (is_object : String → Bool) (locked : String → Bool) (db_clock : String → Time) where
  -- The queue in the database; `db_clock` is the time of the database when an event is written.
  abbrev pub outbox_queue : OutboxQueue (List OutboxRow)
  outbox_queue = record {
    claim_outbox_events = λ rows r. claim_outbox_events is_object locked rows r;
    mark_outbox_delivered = λ rows id token t. mark_outbox_delivered rows id token t (db_clock id);
    mark_outbox_dead_lettered =
        λ rows id token t reason. mark_outbox_dead_lettered rows id token t reason (db_clock id);
    schedule_outbox_retry =
        λ rows id token t text. schedule_outbox_retry rows id token t text (db_clock id);
  }

  module _ (publish : OutboxEvent → Published) (clock : OutboxClaim → Time)
      (cancelled : OutboxClaim → Bool) (options : OutboxRunnerOptions) (old : List OutboxRow) where
    -- What a cycle keeps, with the claims that are left.
    abbrev Sound : List OutboxClaim → List OutboxRow → Type 0
    Sound cs rows = Good rows × (All (Settled publish old) rows × All (λ c. Stores rows c.event) cs)

    after_publish-Sound :
        (rows : List OutboxRow) (c : OutboxClaim) (cs : List OutboxClaim) (p : Published)
        (r : OutboxRunResult)
        → publish c.event ≡ p
        → Sound (c ∷ cs) rows
        → Sound cs (after_publish outbox_queue publish clock cancelled options rows c p r).1
    unfolding after_publish operate mark_outbox_delivered mark_outbox_dead_lettered
        schedule_outbox_retry
    after_publish-Sound rows c cs published r e (g, (h, (st, sts))) = (
      operate-Good is_object rows
          (delivering c.event.event_id c.token (clock c) (db_clock c.event.event_id)) tt g,
      checked_lem (λ x. All (Settled publish old) x × All (λ d. Stores x d.event) cs) _ rows _
          (h, sts)
          (change_lem (Settled publish old)
            (holds c.event.event_id c.token (db_clock c.event.event_id)) (delivered_row (clock c)) _
            _ rows cs (λ x. refl)
            (λ x i y s.
              (inr (inl (ap publish (claimed_event rows c.event c.token _ x g.0 st i y) ∙ e)), s.1))
            (h, sts)),
    )
    after_publish-Sound rows c cs (permanent message) r e (g, (h, (st, sts))) = (
      operate-Good is_object rows
          (dead_lettering c.event.event_id c.token (clock c) (bounded_delivery_error message)
            (db_clock c.event.event_id))
          tt g,
      checked_lem (λ x. All (Settled publish old) x × All (λ d. Stores x d.event) cs) _ rows _
          (h, sts)
          (change_lem (Settled publish old)
            (holds c.event.event_id c.token (db_clock c.event.event_id))
            (dead_row (clock c) (bounded_delivery_error message)) _ _ rows cs (λ x. refl)
            (λ x i y s. (
              s.0,
              inr (
                  inl
                    (message, ap publish (claimed_event rows c.event c.token _ x g.0 st i y) ∙ e)),
            ))
            (h, sts)),
    )
    after_publish-Sound rows c cs (transient message) r e (g, (h, (st, sts))) = (
      operate-Good is_object rows
          (retrying c.event.event_id c.token (add (clock c) (retry_delay options c.attempt))
            (bounded_delivery_error message) (db_clock c.event.event_id))
          tt g,
      checked_lem (λ x. All (Settled publish old) x × All (λ d. Stores x d.event) cs) _ rows _
          (h, sts)
          (change_lem (Settled publish old)
            (holds c.event.event_id c.token (db_clock c.event.event_id))
            (retried_row (add (clock c) (retry_delay options c.attempt))
              (bounded_delivery_error message))
            _ _ rows cs (λ x. refl) (λ x i y s. s) (h, sts)),
    )

    handle_claims-Sound :
        (rows : List OutboxRow) (cs : List OutboxClaim) (r : OutboxRunResult)
        → Sound cs rows
        → Sound [] (handle_claims outbox_queue publish clock cancelled options rows cs r).1
    unfolding handle_claims
    handle_claims-Sound rows [] r h = h
    handle_claims-Sound rows (c ∷ cs) r h = elim (Bool-cases (cancelled c)) [
      | inl y ↦ rw y (h.0, (h.1.0, tt))
      | inr n ↦
          let (r', rows') =
            after_publish outbox_queue publish clock cancelled options rows c (publish c.event) r in
          rw n (
            handle_claims-Sound rows' cs r'
              (after_publish-Sound rows c cs (publish c.event) r refl h))
    ]

    claim-Sound :
        (rows : List OutboxRow) (r : OutboxClaimRequest) (checks : Result Error (Unit {0}))
        → All (Settled publish old) rows
        → (let (claims, rows') = claim_valid is_object locked rows r checks in
            All (Settled publish old) rows' × Claims rows' claims)
    unfolding claim_valid write_claims
    claim-Sound rows r (err e) h = (h, tt)
    claim-Sound rows r (ok x) h =
        let due = due_events locked r rows in
        (
          All-update (Settled publish old) (is_among due) (claimed_row r) rows (λ x i y s. s) h,
          scan_claims-Claims is_object r (update (is_among due) (claimed_row r) rows) due (
              All-map (λ c. (is_claimable r.claimed_at rows c ≡ true) × In c rows)
                (λ c. Stores (update (is_among due) (claimed_row r) rows) c.event) due
                (λ c z.
                  Stores-update (is_among due) (claimed_row r) rows c.event (λ x. refl)
                    (c, z.1, refl))
                (due_events-claimable locked r rows)),
        )

    run_claimed-Sound :
        (claims : Result Error (List OutboxClaim)) (rows : List OutboxRow)
        → Good rows
        → All (Settled publish old) rows
        → Claims rows claims
        → Sound [] (run_claimed outbox_queue publish clock cancelled options claims rows).1
    unfolding run_claimed
    run_claimed-Sound (err e) rows g h st = (g, (h, tt))
    run_claimed-Sound (ok cs) rows g h st = handle_claims-Sound rows cs _ (g, (h, st))

    run_once-Sound :
        (rows : List OutboxRow) (token : String) (claimed_at : Time)
        → Good rows
        → All (Settled publish old) rows
        → Sound [] (run_once outbox_queue publish clock cancelled options rows token claimed_at).1
    unfolding run_once claim_outbox_events operate
    run_once-Sound rows token claimed_at g h =
        let r : OutboxClaimRequest = record {
          token = token;
          limit = options.batch_size;
          claimed_at = claimed_at;
          lease_until = add claimed_at options.lease_duration;
        } in
        let (settled, stored) = claim-Sound rows r (validate_request r) h in
        run_claimed-Sound _ _ (operate-Good is_object rows (claiming locked r) tt g) settled stored

  -- Over the rows, whatever the publisher answers and however the cycle ends: when the identities are
  -- distinct and the events in turn before a cycle, they are after it, and every event that is delivered
  -- after it was delivered before it or was published, and every event that is a dead letter was
  -- one before it or failed for good.
  pub run_once_in_turn :
      (publish : OutboxEvent → Published) (clock : OutboxClaim → Time)
      (cancelled : OutboxClaim → Bool) (options : OutboxRunnerOptions) (rows : List OutboxRow)
      (token : String) (claimed_at : Time)
      → AreKeyed key_of rows
      → AreInTurn rows
      → (let rows' =
            (run_once outbox_queue publish clock cancelled options rows token claimed_at).1 in
          AreKeyed key_of rows' × AreInTurn rows' × All (Settled publish rows) rows')
  run_once_in_turn publish clock cancelled options rows token claimed_at u h =
      let (g, (settled, _)) =
        run_once-Sound publish clock cancelled options rows rows token claimed_at (u, h)
          (All-of_In (Settled publish rows) rows (before-Settled publish rows)) in
      (g.0, g.1, settled)
