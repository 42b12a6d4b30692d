-- ===== src/Postgres/OutboxQueue.antt =====
-- internal/postgres/outbox_queue.go: the outbox as a queue. Each operation is one statement, so it
-- is a function on the rows of outbox_events; a statement that has run stays when a later check fails.
pub mod Ordering
pub mod Delivery
pub mod Cycle
mod Examples
pub mod Fencing
use solitaire_matchmaking.Base.{
  ℕ, zero, suc, ◌+◌, ◌-◌, ◌≤◌, ◌<◌, ◌≡◌, refl, Bool, true, false, not, ◌&&◌, ◌||◌, ltb, leb, Option,
  none, some, List, [], ◌∷◌, ◌++◌, String, is_empty, str_eq, str_lt, contains, if◌then◌else◌,
  Result, ok, err, ◌>>=◌, ◌>>◌, fail_if, keep, take, map,
}
use solitaire_matchmaking.Base.Sort.{sort}
use solitaire_matchmaking.Base.Int.{ℤ, pos_part, ltb_ℤ, eq_ℤ}
use solitaire_matchmaking.Base.Time.{Time, is_zero, after}
use solitaire_matchmaking.Worker.Outbox.{
  Error, claim_lost, arguments_required, text_too_long, dead_letter_not_found, constraint,
  OutboxEvent, OutboxClaimRequest, OutboxClaim, validate_request, validate_claim,
}
use solitaire_matchmaking.Postgres.Tables.{update, exists}
use Prim.Native.String.{count}

abbrev pub max_outbox_delivery_error : ℕ
max_outbox_delivery_error = 1024

-- outbox_events
pub record OutboxRow : Type 0 where
  pub event : OutboxEvent
  pub available_at : Time
  pub attempt_count : ℕ
  pub claimed_by : Option String
  pub claimed_until : Option Time
  pub delivered_at : Option Time
  pub dead_lettered_at : Option Time
  pub dead_letter_reason : Option String
  pub last_error : Option String

abbrev pub key_of : OutboxRow → String
key_of r = r.event.event_id

abbrev pub is_null : {A : Type 0} → Option A → Bool
is_null none = true
is_null (some a) = false

abbrev pub lease_over : Time → Option Time → Bool
lease_over now none = true
lease_over now (some until) = leb until now

-- `ROW(p.aggregate_version, p.event_id) < ROW(c.aggregate_version, c.event_id)` in one aggregate.
unfoldable pub precedes : OutboxEvent → OutboxEvent → Bool
precedes p c =
    str_eq p.aggregate_type c.aggregate_type
    && str_eq p.aggregate_id c.aggregate_id
    && (ltb_ℤ p.aggregate_version c.aggregate_version
        || eq_ℤ p.aggregate_version c.aggregate_version && str_lt p.event_id c.event_id)

-- A predecessor that has not been delivered.
abbrev pub blocks : OutboxRow → OutboxRow → Bool
blocks c p = precedes p.event c.event && is_null p.delivered_at

unfoldable pub is_claimable : Time → List OutboxRow → OutboxRow → Bool
is_claimable now rows c =
    is_null c.delivered_at
    && is_null c.dead_lettered_at
    && leb c.available_at now
    && lease_over now c.claimed_until
    && not (exists (blocks c) rows)

-- `ORDER BY available_at, occurred_at, event_id`.
unfoldable pub served_before : OutboxRow → OutboxRow → Bool
served_before a b =
    ltb a.available_at b.available_at
    || not (ltb b.available_at a.available_at)
      && (ltb a.event.occurred_at b.event.occurred_at
          || not (ltb b.event.occurred_at a.event.occurred_at)
            && str_lt a.event.event_id b.event.event_id)

-- `locked` names the rows that another transaction holds, which the query skips.
unfoldable pub due_events :
    (locked : String → Bool) → OutboxClaimRequest → List OutboxRow → List OutboxRow
due_events locked r rows = take (pos_part r.limit) (
    sort served_before
      (keep (λ c. is_claimable r.claimed_at rows c && not (locked (key_of c))) rows))

abbrev pub claimed_row : OutboxClaimRequest → OutboxRow → OutboxRow
claimed_row r row = record row {
  claimed_by = some r.token;
  claimed_until = some r.lease_until;
  attempt_count = row.attempt_count + 1;
}

abbrev pub is_among : List OutboxRow → OutboxRow → Bool
is_among due row = contains (key_of row) (map key_of due)

unfoldable pub write_claims : OutboxClaimRequest → List OutboxRow → List OutboxRow → List OutboxRow
write_claims r due rows = update (is_among due) (claimed_row r) rows

-- A row that the update returns, as it is scanned.
abbrev pub claim_of : OutboxClaimRequest → OutboxRow → OutboxClaim
claim_of r row = record {
  event = row.event;
  token = r.token;
  attempt = row.attempt_count + 1;
  lease_until = r.lease_until;
}

unfoldable pub scan_claims :
    (is_object : String → Bool)
    → OutboxClaimRequest
    → List OutboxRow
    → Result Error (List OutboxClaim)
scan_claims is_object r [] = ok []
scan_claims is_object r (row ∷ rows) = do
  validate_claim is_object (claim_of r row)
  claims ← scan_claims is_object r rows
  ok (claim_of r row ∷ claims)

unfoldable pub claim_valid :
    (is_object : String → Bool)
    → (locked : String → Bool) → List OutboxRow
    → OutboxClaimRequest
    → Result Error (Unit {0})
    → Result Error (List OutboxClaim) × List OutboxRow
claim_valid is_object locked rows r (err e) = (err e, rows)
claim_valid is_object locked rows r (ok _) = (
  scan_claims is_object r (due_events locked r rows),
  write_claims r (due_events locked r rows) rows,
)

unfoldable pub claim_outbox_events :
    (is_object : String → Bool)
    → (locked : String → Bool) → List OutboxRow
    → OutboxClaimRequest
    → Result Error (List OutboxClaim) × List OutboxRow
claim_outbox_events is_object locked rows r =
    claim_valid is_object locked rows r (validate_request r)

abbrev pub is_token : String → Option String → Bool
is_token token none = false
is_token token (some holder) = str_eq holder token

-- `WHERE event_id = $1 AND delivered_at IS NULL AND dead_lettered_at IS NULL AND claimed_by = $2 AND
-- claimed_until > clock_timestamp()`.
unfoldable pub holds : String → String → Time → OutboxRow → Bool
holds event_id token clock row =
    str_eq (key_of row) event_id
    && is_null row.delivered_at
    && is_null row.dead_lettered_at
    && is_token token row.claimed_by
    && not (lease_over clock row.claimed_until)

-- One row at most has the key; `broken` is a row that a constraint of the table refuses.
unfoldable pub change_one :
    (OutboxRow → Bool)
    → (OutboxRow → OutboxRow)
    → (broken : OutboxRow → Bool) → Error
    → List OutboxRow
    → Result Error (Unit {0}) × List OutboxRow
change_one q f broken lost rows =
    if not (exists q rows)
    then (err lost, rows)
    else if exists (λ row. q row && broken row) rows
    then (err constraint, rows)
    else (ok tt, update q f rows)

-- The checks on the arguments come first.
abbrev pub checked :
    Result Error (Unit {0})
    → List OutboxRow
    → Result Error (Unit {0}) × List OutboxRow
    → Result Error (Unit {0}) × List OutboxRow
checked (ok _) rows after = after
checked (err e) rows after = (err e, rows)

abbrev pub delivered_row : Time → OutboxRow → OutboxRow
delivered_row t row = record row {
  delivered_at = some t;
  claimed_by = none;
  claimed_until = none;
  last_error = none;
}

unfoldable pub mark_outbox_delivered :
    List OutboxRow
    → (event_id token : String) → (delivered_at clock : Time)
    → Result Error (Unit {0}) × List OutboxRow
mark_outbox_delivered rows event_id token delivered_at clock =
    checked
      (fail_if (is_empty event_id || is_empty token || is_zero delivered_at) arguments_required)
      rows
      (change_one (holds event_id token clock) (delivered_row delivered_at)
        (λ row. ltb delivered_at row.event.occurred_at) claim_lost rows)

abbrev pub dead_row : Time → String → OutboxRow → OutboxRow
dead_row t reason row = record row {
  dead_lettered_at = some t;
  dead_letter_reason = some reason;
  claimed_by = none;
  claimed_until = none;
  last_error = some reason;
}

abbrev pub check_text : Bool → String → Result Error (Unit {0})
check_text missing text =
    fail_if missing arguments_required
    >> fail_if (ltb max_outbox_delivery_error (count text)) text_too_long

unfoldable pub mark_outbox_dead_lettered :
    List OutboxRow
    → (event_id token : String) → (dead_lettered_at : Time) → (reason : String) → (clock : Time)
    → Result Error (Unit {0}) × List OutboxRow
mark_outbox_dead_lettered rows event_id token dead_lettered_at reason clock =
    checked
      (check_text
        (is_empty event_id || is_empty token || is_zero dead_lettered_at || is_empty reason) reason)
      rows
      (change_one (holds event_id token clock) (dead_row dead_lettered_at reason) (λ row. false)
        claim_lost rows)

abbrev pub redriven_row : Time → OutboxRow → OutboxRow
redriven_row t row = record row {
  dead_lettered_at = none;
  dead_letter_reason = none;
  last_error = none;
  available_at = t;
  claimed_by = none;
  claimed_until = none;
}

unfoldable pub is_dead : String → OutboxRow → Bool
is_dead event_id row =
    str_eq (key_of row) event_id && is_null row.delivered_at && not (is_null row.dead_lettered_at)

unfoldable pub redrive_outbox_dead_letter :
    List OutboxRow
    → (event_id : String) → (available_at : Time) → Result Error (Unit {0}) × List OutboxRow
redrive_outbox_dead_letter rows event_id available_at =
    checked (fail_if (is_empty event_id || is_zero available_at) arguments_required) rows (
      change_one (is_dead event_id) (redriven_row available_at)
        (λ row. ltb available_at row.event.occurred_at) dead_letter_not_found rows)

abbrev pub retried_row : Time → String → OutboxRow → OutboxRow
retried_row t text row = record row {
  available_at = t;
  claimed_by = none;
  claimed_until = none;
  last_error = some text;
}

unfoldable pub schedule_outbox_retry :
    List OutboxRow
    → (event_id token : String) → (retry_at : Time) → (last_error : String) → (clock : Time)
    → Result Error (Unit {0}) × List OutboxRow
schedule_outbox_retry rows event_id token retry_at last_error clock =
    checked
      (check_text (is_empty event_id || is_empty token || is_zero retry_at || is_empty last_error)
        last_error)
      rows
      (change_one (holds event_id token clock) (retried_row retry_at last_error)
        (λ row. ltb retry_at row.event.occurred_at) claim_lost rows)

-- The row that `insertOutbox` of tickets.go writes.
abbrev pub new_row : OutboxEvent → OutboxRow
new_row e = record {
  event = e;
  available_at = e.occurred_at;
  attempt_count = 0;
  claimed_by = none;
  claimed_until = none;
  delivered_at = none;
  dead_lettered_at = none;
  dead_letter_reason = none;
  last_error = none;
}

unfoldable pub same_slot : OutboxEvent → OutboxRow → Bool
same_slot e row =
    str_eq (key_of row) e.event_id
    || str_eq row.event.aggregate_type e.aggregate_type
      && str_eq row.event.aggregate_id e.aggregate_id
      && eq_ℤ row.event.aggregate_version e.aggregate_version
      && str_eq row.event.event_type e.event_type

unfoldable pub enqueue : List OutboxRow → OutboxEvent → List OutboxRow
enqueue rows e = if exists (same_slot e) rows then rows else rows ++ new_row e ∷ []
