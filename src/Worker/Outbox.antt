-- ===== src/Worker/Outbox.antt =====
-- internal/worker/outbox.go: events, claims and their checks, the delays between attempts, and the
-- delivery of a claimed event. The validity of JSON and the publisher are parameters.
pub mod Delays
pub mod Runner
use solitaire_matchmaking.Base.{
  ℕ, zero, suc, ◌+◌, ◌-◌, ◌≤◌, ◌<◌, ◌≡◌, refl, Bool, true, false, not, ◌&&◌, ◌||◌, ◌==◌, ltb,
  Option, none, some, List, [], ◌∷◌, String, is_empty, if◌then◌else◌, Result, ok, err, ◌>>=◌, ◌>>◌,
  fail_if, length,
}
use solitaire_matchmaking.Base.Int.{ℤ, pos, negsuc, ltb_ℤ, leb_ℤ, quot, wrap_int64, ◌+ℤ◌, ◌-ℤ◌}
use solitaire_matchmaking.Base.Time.{Time, Duration, is_zero, after, add, since}

abbrev pub max_outbox_batch_size : ℕ
max_outbox_batch_size = 256

pub data Error : Type 0 where
  claim_lost : Error
  event_identities event_version_or_time event_payload : Error
  claim_token_or_size claim_lease claim_incomplete : Error
  batch_size concurrency lease_duration poll_interval retry_delays : Error
  arguments_required text_too_long dead_letter_not_found : Error
  -- a constraint of the table
  constraint : Error

pub record OutboxEvent : Type 0 where
  pub event_id : String
  pub aggregate_type : String
  pub aggregate_id : String
  pub aggregate_version : ℤ
  pub event_type : String
  pub payload : String
  pub occurred_at : Time

pub record OutboxClaimRequest : Type 0 where
  pub token : String
  pub limit : ℤ
  pub claimed_at : Time
  pub lease_until : Time

unfoldable pub validate_request : OutboxClaimRequest → Result Error (Unit {0})
validate_request r = do
  fail_if (is_empty r.token || leb_ℤ r.limit (pos 0) || ltb_ℤ (pos max_outbox_batch_size) r.limit)
      claim_token_or_size
  fail_if (is_zero r.claimed_at || not (after r.lease_until r.claimed_at)) claim_lease
  ok tt

pub record OutboxClaim : Type 0 where
  pub event : OutboxEvent
  pub token : String
  pub attempt : ℕ
  pub lease_until : Time

-- `is_object` is whether a text is JSON that begins with a brace.
module _ (is_object : String → Bool) where
  unfoldable pub validate_event : OutboxEvent → Result Error (Unit {0})
  validate_event e = do
    fail_if
        (is_empty e.event_id
          || is_empty e.aggregate_type
          || is_empty e.aggregate_id
          || is_empty e.event_type)
        event_identities
    fail_if (leb_ℤ e.aggregate_version (pos 0) || is_zero e.occurred_at) event_version_or_time
    fail_if (not (is_object e.payload)) event_payload
    ok tt

  unfoldable pub validate_claim : OutboxClaim → Result Error (Unit {0})
  validate_claim c = do
    validate_event c.event
    fail_if (is_empty c.token || (c.attempt == 0) || is_zero c.lease_until) claim_incomplete
    ok tt

pub record OutboxRunnerOptions : Type 0 where
  pub batch_size : ℤ
  pub concurrency : ℤ
  pub lease_duration : Duration
  pub poll_interval : Duration
  pub retry_base_delay : Duration
  pub retry_max_delay : Duration

abbrev pub second : ℕ
second = 1000000000

abbrev pub minute : ℕ
minute = 60000000000

abbrev pub hour : ℕ
hour = 3600000000000

unfoldable pub validate_options : OutboxRunnerOptions → Result Error (Unit {0})
validate_options o = do
  fail_if (leb_ℤ o.batch_size (pos 0) || ltb_ℤ (pos max_outbox_batch_size) o.batch_size) batch_size
  fail_if (leb_ℤ o.concurrency (pos 0) || ltb_ℤ o.batch_size o.concurrency) concurrency
  fail_if (leb_ℤ o.lease_duration (pos 0) || ltb_ℤ (pos 300000000000) o.lease_duration)
      lease_duration
  fail_if (leb_ℤ o.poll_interval (pos 0) || ltb_ℤ (pos minute) o.poll_interval) poll_interval
  fail_if
      (leb_ℤ o.retry_base_delay (pos 0)
        || ltb_ℤ o.retry_max_delay o.retry_base_delay
        || ltb_ℤ (pos hour) o.retry_max_delay)
      retry_delays
  ok tt

abbrev pub min_ℤ : ℤ → ℤ → ℤ
min_ℤ a b = if ltb_ℤ b a then b else a

-- The loop of `retryDelay` over the attempts that are left, with its early return.
unfoldable pub retry_loop : Duration → ℕ → Duration → Duration
retry_loop maximum zero delay = min_ℤ delay maximum
retry_loop maximum (suc left) delay =
    let rest = retry_loop maximum left (wrap_int64 (delay +ℤ delay)) in
    if ltb_ℤ delay maximum
    then (if ltb_ℤ (quot maximum (pos 2)) delay then maximum else rest)
    else min_ℤ delay maximum

unfoldable pub retry_delay : OutboxRunnerOptions → ℕ → Duration
retry_delay o attempt = retry_loop o.retry_max_delay (attempt - 1) o.retry_base_delay

unfoldable pub lease_margin : Duration → Duration
lease_margin lease =
    let margin = quot lease (pos 10) in if ltb_ℤ (pos second) margin then pos second else margin

unfoldable pub lease_bounded_timeout : Duration → Duration
lease_bounded_timeout lease =
    if leb_ℤ lease (pos 0)
    then pos 1
    else if leb_ℤ (lease_margin lease) (pos 0) || leb_ℤ lease (lease_margin lease)
    then lease
    else lease -ℤ lease_margin lease
