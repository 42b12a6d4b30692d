-- ===== src/Worker/Outbox/Runner.antt =====
-- internal/worker/outbox.go: `RunOnce` over a queue and a publisher. The claims of a batch are handled in
-- the order in which their turns end; the deadlines of the contexts are not modelled.
use solitaire_matchmaking.Base.{◌≤◌, ◌<◌, ◌⊎◌, inl, inr, Bool, Bool-cases, true, if◌then◌else◌}
use solitaire_matchmaking.Base.{
  ℕ, zero, suc, ◌+◌, ◌≡◌, refl, ap, ◌∙◌, List, [], ◌∷◌, String, Result, ok, err, length, arith,
  ok_injective, subst,
}
use Prim.Native.String.{◌∷◌ as ◌∷ₛ◌, [] as []ₛ}
use solitaire_matchmaking.Base.Time.{Time, add}
use solitaire_matchmaking.Worker.Outbox.{
  Error, OutboxEvent, OutboxClaimRequest, OutboxClaim, OutboxRunnerOptions, retry_delay,
}

abbrev pub max_delivery_error : ℕ
max_delivery_error = 1024

abbrev first_runes : ℕ → String → String
first_runes zero s = []ₛ
first_runes (suc n) []ₛ = []ₛ
first_runes (suc n) (c ∷ₛ s) = c ∷ₛ first_runes n s

unfoldable pub bounded_delivery_error : String → String
bounded_delivery_error message = first_runes max_delivery_error message

pub record OutboxQueue (S : Type 0) : Type 0 where
  pub claim_outbox_events : S → OutboxClaimRequest → Result Error (List OutboxClaim) × S
  pub mark_outbox_delivered : S → (event_id token : String) → Time → Result Error (Unit {0}) × S
  pub mark_outbox_dead_lettered :
      S → (event_id token : String) → Time → (reason : String) → Result Error (Unit {0}) × S
  pub schedule_outbox_retry :
      S → (event_id token : String) → Time → (last_error : String) → Result Error (Unit {0}) × S

-- What `Publish` returns: no error, one that is permanent, or another; with its text.
pub data Published : Type 0 where
  published : Published
  permanent : String → Published
  transient : String → Published

pub record OutboxRunResult : Type 0 where
  pub claimed : ℕ
  pub delivered : ℕ
  pub dead_lettered : ℕ
  pub failed : ℕ

abbrev no_result : OutboxRunResult
no_result = record { claimed = 0; delivered = 0; dead_lettered = 0; failed = 0 }

abbrev pub count_delivered : {E : Type 0} → Result E (Unit {0}) → OutboxRunResult → OutboxRunResult
count_delivered (ok _) r = record r { delivered = r.delivered + 1 }
count_delivered (err e) r = record r { failed = r.failed + 1 }

abbrev pub count_dead : {E : Type 0} → Result E (Unit {0}) → OutboxRunResult → OutboxRunResult
count_dead (ok _) r = record r { dead_lettered = r.dead_lettered + 1 }
count_dead (err e) r = record r { failed = r.failed + 1 }

abbrev pub count_failed : OutboxRunResult → OutboxRunResult
count_failed r = record r { failed = r.failed + 1 }

abbrev outcomes : OutboxRunResult → ℕ
outcomes r = r.delivered + r.dead_lettered + r.failed

-- One more claim has been accounted for.
abbrev Counts : OutboxRunResult → OutboxRunResult → Type 0
Counts r r' = (r'.claimed ≡ r.claimed) × (outcomes r' ≡ outcomes r + 1) × (r.failed ≤ r'.failed)

delivered-Counts :
    {E : Type 0} (done : Result E (Unit {0})) (r : OutboxRunResult)
    → Counts r (count_delivered done r)
delivered-Counts (ok _) r = (refl, omega arith, omega arith)
delivered-Counts (err _) r = (refl, omega arith, omega arith)

dead-Counts :
    {E : Type 0} (done : Result E (Unit {0})) (r : OutboxRunResult) → Counts r (count_dead done r)
dead-Counts (ok _) r = (refl, omega arith, omega arith)
dead-Counts (err _) r = (refl, omega arith, omega arith)

-- `clock` is the time at which the publication of a claim has ended; `cancelled` is whether the
-- context turns out to be done when the loop comes to a claim.
module _ {S : Type 0} (queue : OutboxQueue S) (publish : OutboxEvent → Published)
    (clock : OutboxClaim → Time) (cancelled : OutboxClaim → Bool)
    (options : OutboxRunnerOptions) where
  unfoldable pub after_publish : S → OutboxClaim → Published → OutboxRunResult → OutboxRunResult × S
  after_publish s c published r =
      let (done, s') = queue.mark_outbox_delivered s c.event.event_id c.token (clock c) in
      (count_delivered done r, s')
  after_publish s c (permanent message) r =
      let (done, s') =
        queue.mark_outbox_dead_lettered s c.event.event_id c.token (clock c)
          (bounded_delivery_error message) in
      (count_dead done r, s')
  after_publish s c (transient message) r =
      let (_, s') =
        queue.schedule_outbox_retry s c.event.event_id c.token
          (add (clock c) (retry_delay options c.attempt)) (bounded_delivery_error message) in
      (count_failed r, s')

  -- A cancelled context ends the loop, with one error for the claims that are left.
  unfoldable pub handle_claims : S → List OutboxClaim → OutboxRunResult → OutboxRunResult × S
  handle_claims s [] r = (r, s)
  handle_claims s (c ∷ cs) r =
      let (r', s') = after_publish s c (publish c.event) r in
      let rest = handle_claims s' cs r' in if cancelled c then (count_failed r, s) else rest

  unfoldable pub run_claimed :
      Result Error (List OutboxClaim) → S → Result Error OutboxRunResult × S
  run_claimed (err e) s = (err e, s)
  run_claimed (ok cs) s =
      let (r, s') = handle_claims s cs (record no_result { claimed = length cs }) in (ok r, s')

  unfoldable pub run_once :
      S → (token : String) → (claimed_at : Time) → Result Error OutboxRunResult × S
  run_once s token claimed_at =
      let (claims, s') = queue.claim_outbox_events s (record {
        token = token;
        limit = options.batch_size;
        claimed_at = claimed_at;
        lease_until = add claimed_at options.lease_duration;
      }) in
      run_claimed claims s'

  after_publish-Counts :
      (s : S) (c : OutboxClaim) (p : Published) (r : OutboxRunResult)
      → Counts r (after_publish s c p r).0
  unfolding after_publish
  after_publish-Counts s c published r =
      delivered-Counts (queue.mark_outbox_delivered s c.event.event_id c.token (clock c)).0 r
  after_publish-Counts s c (permanent message) r =
      dead-Counts
        (queue.mark_outbox_dead_lettered s c.event.event_id c.token (clock c)
          (bounded_delivery_error message)).0
        r
  after_publish-Counts s c (transient message) r = (refl, omega arith, omega arith)

  -- All of `n` claims have an outcome, or the context was done at one of them.
  abbrev Accounts : ℕ → OutboxRunResult → OutboxRunResult → Type 0
  Accounts n r r' =
      (r'.claimed ≡ r.claimed)
      × ((outcomes r' ≡ outcomes r + n)
          ⊎ ((c : OutboxClaim) × (cancelled c ≡ true)
              × (outcomes r' ≤ outcomes r + n)
              × (r.failed < r'.failed)))

  Accounts-suc :
      (n : ℕ) (x y z : OutboxRunResult) → Counts x y → Accounts n y z → Accounts (suc n) x z
  Accounts-suc n x y z (a, b, m) (c, inl d) = (c ∙ a, inl (omega (arith, b, d)))
  Accounts-suc n x y z (a, b, m) (c, inr (at, done, d, f)) =
      (c ∙ a, inr (at, done, omega (arith, b, d), omega (arith, m, f)))

  handle_claims-Accounts :
      (s : S) (cs : List OutboxClaim) (r : OutboxRunResult)
      → Accounts (length cs) r (handle_claims s cs r).0
  unfolding handle_claims
  handle_claims-Accounts s [] r = (refl, inl (omega arith))
  handle_claims-Accounts s (c ∷ cs) r = elim (Bool-cases (cancelled c)) [
    | inl y ↦ rw y (refl, inr (c, y, omega arith, omega arith))
    | inr n ↦
        let (r', s') = after_publish s c (publish c.event) r in
        rw n (
          Accounts-suc (length cs) r r' (handle_claims s' cs r').0
            (after_publish-Counts s c (publish c.event) r) (handle_claims-Accounts s' cs r'))
  ]

  -- The claims of a result, against its outcomes.
  abbrev pub AddsUp : OutboxRunResult → Type 0
  AddsUp r =
      (r.claimed ≡ r.delivered + r.dead_lettered + r.failed)
      ⊎ ((c : OutboxClaim) × (cancelled c ≡ true)
          × (r.delivered + r.dead_lettered + r.failed ≤ r.claimed)
          × (0 < r.failed))

  started-AddsUp :
      (n : ℕ) (r : OutboxRunResult) → Accounts n (record no_result { claimed = n }) r → AddsUp r
  started-AddsUp n r (same, inl all) = inl (omega (arith, same, all))
  started-AddsUp n r (same, inr (c, done, few, some_failed)) =
      inr (c, done, omega (arith, same, few), omega (arith, some_failed))

  run_claimed-AddsUp :
      (claims : Result Error (List OutboxClaim)) (s : S) {r : OutboxRunResult} {s' : S}
      → run_claimed claims s ≡ (ok r, s')
      → AddsUp r
  unfolding run_claimed
  run_claimed-AddsUp (err e) s h = cc
  run_claimed-AddsUp (ok cs) s {r} h =
      let start : OutboxRunResult = record no_result { claimed = length cs } in
      subst AddsUp (ok_injective (ap (λ x. x.0) h)) (
        started-AddsUp (length cs) (handle_claims s cs start).0 (handle_claims-Accounts s cs start))

  -- Whatever the queue and the publisher answer, a cycle that has claimed its events counts each of
  -- them once, as delivered, dead-lettered or failed, unless the context is done at one of the claims:
  -- then at least one failure is counted, and no more outcomes than claims.
  pub run_once_counts :
      (s : S) (token : String) (claimed_at : Time) {r : OutboxRunResult} {s' : S}
      → run_once s token claimed_at ≡ (ok r, s')
      → AddsUp r
  unfolding run_once
  run_once_counts s token claimed_at h = run_claimed-AddsUp _ _ h
