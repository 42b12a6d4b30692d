-- ===== src/Worker/Runner.antt =====
-- internal/worker/runner.go and internal/worker/result_deadlines.go: one cycle of each runner. The claims
-- of a batch are handled one after another; timers and the deadlines of the contexts are not modelled.
use solitaire_matchmaking.Base.{Bool, if◌then◌else◌}
use solitaire_matchmaking.Base.{
  ℕ, ◌+◌, ◌||◌, List, [], ◌∷◌, String, Result, ok, err, ◌>>◌, fail_if, length,
}
use solitaire_matchmaking.Base.Int.{ℤ, pos, ltb_ℤ, leb_ℤ}
use solitaire_matchmaking.Base.Time.{Time, Duration, add}
use solitaire_matchmaking.Tournament.Results.{
  ResultDeadlineBatch, ExpiredRoom, max_result_deadline_batch_size,
}
use solitaire_matchmaking.Worker.Outbox.{minute}
use solitaire_matchmaking.Worker.Queue.{Error, TicketClaim, QueueRepository, max_batch_size}

pub data OptionsError : Type 0 where
  batch_range concurrency_range lease_range polling_range : OptionsError

pub record RunnerOptions : Type 0 where
  pub batch_size : ℤ
  pub concurrency : ℤ
  pub lease_duration : Duration
  pub poll_interval : Duration
  pub failure_backoff : Duration

unfoldable pub validate_runner_options : RunnerOptions → Result OptionsError (Unit {0})
validate_runner_options o = do
  fail_if (leb_ℤ o.batch_size (pos 0) || ltb_ℤ (pos max_batch_size) o.batch_size) batch_range
  fail_if (leb_ℤ o.concurrency (pos 0) || ltb_ℤ o.batch_size o.concurrency) concurrency_range
  fail_if (leb_ℤ o.lease_duration (pos 0) || ltb_ℤ (pos 300000000000) o.lease_duration) lease_range
  fail_if
      (leb_ℤ o.poll_interval (pos 0)
        || ltb_ℤ (pos minute) o.poll_interval
        || leb_ℤ o.failure_backoff (pos 0)
        || ltb_ℤ (pos minute) o.failure_backoff)
      polling_range
  ok tt

pub record RunResult : Type 0 where
  pub claimed : ℕ
  pub failed : ℕ

-- `failed_at` is the time at which the handling of a claim has failed; `cancelled` is whether the
-- context turns out to be done when the loop comes to a claim.
module _ {S F : Type 0} (queue : QueueRepository S F)
    (handler : S → TicketClaim F → Time → Result Error (Unit {0}) × S)
    (failed_at : TicketClaim F → Time) (cancelled : TicketClaim F → Bool)
    (options : RunnerOptions) where
  -- A claim that fails is put back after the backoff, whatever comes of that.
  unfoldable pub after_handle :
      S → TicketClaim F → Result Error (Unit {0}) → RunResult → RunResult × S
  after_handle s c (ok _) r = (r, s)
  after_handle s c (err e) r =
      let (_, s') =
        queue.schedule_ticket_retry s c.ticket.id c.token
          (add (failed_at c) options.failure_backoff) in
      (record r { failed = r.failed + 1 }, s')

  -- A cancelled context ends the loop, with one error for the claims that are left.
  unfoldable pub handle_batch : Time → S → List (TicketClaim F) → RunResult → RunResult × S
  handle_batch now s [] r = (r, s)
  handle_batch now s (c ∷ cs) r =
      let (done, s₁) = handler s c now in
      let (r', s₂) = after_handle s₁ c done r in
      let rest = handle_batch now s₂ cs r' in
      if cancelled c then (record r { failed = r.failed + 1 }, s) else rest

  unfoldable pub run_batch :
      Time → Result Error (List (TicketClaim F)) → S → Result Error RunResult × S
  run_batch now (err e) s = (err e, s)
  run_batch now (ok cs) s =
      let (r, s') = handle_batch now s cs (record { claimed = length cs; failed = 0 }) in (ok r, s')

  unfoldable pub run_once : S → (token : String) → (now : Time) → Result Error RunResult × S
  run_once s token now =
      let (claims, s') = queue.claim_matchmaking_tickets s (record {
        token = token;
        limit = options.batch_size;
        claimed_at = now;
        lease_until = add now options.lease_duration;
      }) in
      run_batch now claims s'

pub record ResultDeadlineOptions : Type 0 where
  pub batch_size : ℤ
  pub poll_interval : Duration

unfoldable pub validate_deadline_options : ResultDeadlineOptions → Result OptionsError (Unit {0})
validate_deadline_options o = do
  fail_if (leb_ℤ o.batch_size (pos 0) || ltb_ℤ (pos max_result_deadline_batch_size) o.batch_size)
      batch_range
  fail_if (leb_ℤ o.poll_interval (pos 0) || ltb_ℤ (pos minute) o.poll_interval) polling_range
  ok tt

abbrev count_expired : {E : Type 0} → Result E (List ExpiredRoom) → Result E ℕ
count_expired (ok rooms) = ok (length rooms)
count_expired (err e) = err e

-- `RunOnce` of the deadlines, over `ExpireDue` of the service.
module _ {S E : Type 0}
    (expire_due : S → ResultDeadlineBatch → Result E (List ExpiredRoom) × S) where
  unfoldable pub run_deadlines : ResultDeadlineOptions → S → (now : Time) → Result E ℕ × S
  run_deadlines o s now =
      let (rooms, s') = expire_due s (record { limit = o.batch_size; expired_at = now }) in
      (count_expired rooms, s')
