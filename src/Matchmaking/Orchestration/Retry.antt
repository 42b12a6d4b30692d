-- ===== src/Matchmaking/Orchestration/Retry.antt =====
-- The next retry of a waiting ticket: later than now, and no later than its deadline.
use solitaire_matchmaking.Base.{
  ℕ, suc, ◌+◌, ◌-◌, ◌*◌, ◌≤◌, ◌<◌, ◌≡◌, ◌≢◌, ◌⊎◌, inl, inr, none, some, List, [], ◌∷◌, String,
  if◌then◌else◌, ok, arith, Bool-cases, All,
}
use solitaire_matchmaking.Base.Int.{ℤ, pos, rem, ◌-ℤ◌, ◌≤ℤ◌, ◌<ℤ◌, pos_part, neg_part, wrap_int64}
use solitaire_matchmaking.Base.Time.{Time, Duration, before, after, since}
use solitaire_matchmaking.Base.Float.{Float}
use solitaire_matchmaking.Base.{ltb→lt, >>=-ok}
use solitaire_matchmaking.Base.Int.{
  max_int64, rem_bounds, -ℤ_parts, wrap_int64-eq, IsInt64, one_sign, div_rem,
}
use solitaire_matchmaking.Base.Time.{since-parts}
use solitaire_matchmaking.Matchmaking.Policy.{Policy, RoomView}
use solitaire_matchmaking.Matchmaking.Policy.Window.{IsValid, validate-IsValid}
use solitaire_matchmaking.Matchmaking.Validation.{validate_room}
use solitaire_matchmaking.Matchmaking.Validation.WellFormed.{validate_room-IsWellFormed}
use solitaire_matchmaking.Matchmaking.Fairness.{Evaluator}
use solitaire_matchmaking.Matchmaking.Selector.{check_scope, validate_selection_scope, select_room}
use solitaire_matchmaking.Matchmaking.Orchestration.{
  MatchAttempt, MatchAttemptResult, matched, retry_scheduled, timed_out, next_periodic_boundary,
  room_boundary, earliest_boundary, next_retry_boundary, check_created, check_rooms,
  validate_match_attempt, fill_deadline, conclude, attempt_match,
}

-- The step that is left of an interval.
step_left :
    (elapsed interval : ℤ)
    → pos 0 ≤ℤ elapsed
    → pos 0 <ℤ interval
    → IsInt64 interval
    → let left = wrap_int64 (interval -ℤ rem elapsed interval) in
      (neg_part left ≡ 0)
      × (0 < pos_part left)
      × (pos_part left + pos_part (rem elapsed interval) ≡ pos_part interval)
step_left elapsed interval h k fits =
    let (low, high) = rem_bounds elapsed interval h k in
    let parts = -ℤ_parts interval (rem elapsed interval) in
    let same = wrap_int64-eq (interval -ℤ rem elapsed interval) (
      omega (
        arith,
        one_sign (interval -ℤ rem elapsed interval),
        one_sign interval,
        one_sign (rem elapsed interval),
      )) in
    rw same (
      omega (
        arith,
        one_sign (interval -ℤ rem elapsed interval),
        one_sign interval,
        one_sign (rem elapsed interval),
      ))

-- The next boundary comes after now, and within one interval.
pub next_periodic_boundary_bounds :
    (anchor : Time) (interval : Duration) (now : Time)
    → anchor ≤ now
    → pos 0 <ℤ interval
    → IsInt64 interval
    → (now < next_periodic_boundary anchor interval now)
      × (next_periodic_boundary anchor interval now ≤ now + pos_part interval)
unfolding next_periodic_boundary
next_periodic_boundary_bounds anchor interval now h k fits =
    let (exact, _, _) = since-parts now anchor h in
    let (a, b, c) = step_left (since now anchor) interval (omega arith) k fits in
    (omega arith, omega arith)

-- Counted from the anchor the boundary is a whole number of intervals, as long as the time since the
-- anchor is a duration.
pub next_periodic_boundary_multiple :
    (anchor : Time) (interval : Duration) (now : Time)
    → anchor ≤ now
    → now - anchor ≤ max_int64
    → pos 0 <ℤ interval
    → IsInt64 interval
    → (k : ℕ) × (next_periodic_boundary anchor interval now ≡ anchor + k * pos_part interval)
unfolding next_periodic_boundary
next_periodic_boundary_multiple anchor interval now h j k fits =
    let (exact, _, same) = since-parts now anchor h in
    let (a, b, c) = step_left (since now anchor) interval (omega arith) k fits in
    let (q, whole) = div_rem (since now anchor) interval (omega arith) k in
    (suc q, omega (arith, same j))

module _ {F : Type 0} ⦃fl : Float F⦄ where
  -- What the rooms of an attempt must be for their boundaries to lie ahead.
  pub record IsAhead (now : Time) (r : RoomView F) : Type 0 where
    pub created : r.created_at ≤ now
    pub interval_pos : pos 0 <ℤ r.policy.expansion_interval
    pub interval_fits : IsInt64 r.policy.expansion_interval

  room_boundary_after :
      (now : Time) (r : RoomView F) → IsAhead now r → now < r.deadline → now < room_boundary now r
  unfolding room_boundary
  room_boundary_after now r a h = ground (
    arith,
    next_periodic_boundary_bounds r.created_at r.policy.expansion_interval now a.created
        a.interval_pos a.interval_fits,
  )

  earliest_bounds :
      (now next : Time) (rooms : List (RoomView F))
      → All (IsAhead now) rooms
      → now < next
      → (now < earliest_boundary now next rooms) × (earliest_boundary now next rooms ≤ next)
  unfolding earliest_boundary
  earliest_bounds now next [] a h = (h, omega arith)
  earliest_bounds now next (r ∷ rooms) (a, as') h = elim (Bool-cases (before now r.deadline)) [
    | inr late ↦ rw late (earliest_bounds now next rooms as' h)
    | inl early ↦ elim (Bool-cases (before (room_boundary now r) next)) [
      | inr later ↦ rw (early, later) (earliest_bounds now next rooms as' h)
      | inl sooner ↦
          let (low, high) =
            earliest_bounds now (room_boundary now r) rooms as'
              (room_boundary_after now r a (ltb→lt _ _ early)) in
          rw (early, sooner) (low, omega (arith, ltb→lt _ _ sooner))
    ]
  ]

  scope_policies :
      (reference : RoomView F) (i : ℕ) (seen : List String) (rooms : List (RoomView F))
      → check_scope reference i seen rooms ≡ ok tt
      → All (λ r. validate_room r ≡ ok tt) rooms
  unfolding check_scope
  scope_policies reference i seen [] h = tt
  scope_policies reference i seen (r ∷ rooms) h =
      (ground arith, scope_policies reference (suc i) (r.room_id ∷ seen) rooms (ground arith))

  created_by :
      (now : Time) (i : ℕ) (rooms : List (RoomView F))
      → check_created now i rooms ≡ ok tt
      → All (λ r. r.created_at ≤ now) rooms
  unfolding check_created
  created_by now i [] h = tt
  created_by now i (r ∷ rooms) h = (ground arith, created_by now (suc i) rooms (ground arith))

  -- The intervals of the attempt and of its rooms are values of `time.Duration`.
  pub record HasDurations (attempt : MatchAttempt F) : Type 0 where
    pub own : IsInt64 attempt.policy.expansion_interval
    pub of_rooms : All (λ r. IsInt64 r.policy.expansion_interval) attempt.rooms

  ahead_lem :
      (now : Time) (rooms : List (RoomView F))
      → All (λ r. validate_room r ≡ ok tt) rooms
      → All (λ r. r.created_at ≤ now) rooms
      → All (λ r. IsInt64 r.policy.expansion_interval) rooms
      → All (IsAhead now) rooms
  ahead_lem now [] a b c = tt
  ahead_lem now (r ∷ rooms) (a, as') (b, bs) (c, cs) = (
    record {
      created = b;
      interval_pos =
          (validate-IsValid r.policy (validate_room-IsWellFormed r a).policy_accepted).interval_pos;
      interval_fits = c;
    },
    ahead_lem now rooms as' bs cs,
  )

  rooms_valid :
      (policy : Policy F) (rooms : List (RoomView F))
      → check_rooms policy rooms ≡ ok tt
      → All (λ r. validate_room r ≡ ok tt) rooms
  unfolding check_rooms validate_selection_scope
  rooms_valid policy [] h = tt
  rooms_valid policy (r ∷ rooms) h = scope_policies r 0 [] (r ∷ rooms) (ground arith)

  pub record IsAccepted (attempt : MatchAttempt F) : Type 0 where
    pub policy_valid : IsValid attempt.policy
    pub joined : attempt.candidate.joined_at ≤ attempt.evaluated_at
    pub rooms_valid : All (λ r. validate_room r ≡ ok tt) attempt.rooms
    pub rooms_created : All (λ r. r.created_at ≤ attempt.evaluated_at) attempt.rooms

  pub validate_match_attempt-IsAccepted :
      (attempt : MatchAttempt F) → validate_match_attempt attempt ≡ ok tt → IsAccepted attempt
  unfolding validate_match_attempt
  validate_match_attempt-IsAccepted attempt h = record {
    policy_valid = validate-IsValid attempt.policy (ground arith);
    joined = ground arith;
    rooms_valid = rooms_valid attempt.policy attempt.rooms (ground arith);
    rooms_created = created_by attempt.evaluated_at 0 attempt.rooms (ground arith);
  }

  -- The outcome says which parts of a result are filled in, and the deadline is the ticket's: a match
  -- has a selection and comes by the deadline, a retry has a time, a time-out has neither and comes
  -- no sooner than the deadline.
  pub attempt_match_outcome :
      (e : Evaluator F) (attempt : MatchAttempt F) {result : MatchAttemptResult F}
      → attempt_match e attempt ≡ ok result
      → (result.deadline ≡ fill_deadline attempt)
        × ((result.outcome ≡ matched)
              × (result.retry_at ≡ none)
              × (attempt.evaluated_at ≤ fill_deadline attempt)
              × (select_room e attempt.rooms attempt.candidate attempt.evaluated_at
                  ≡ ok result.selection)
              × (result.selection ≢ none)
            ⊎ (result.outcome ≡ retry_scheduled)
              × (result.selection ≡ none)
              × (attempt.evaluated_at < fill_deadline attempt)
              × (select_room e attempt.rooms attempt.candidate attempt.evaluated_at ≡ ok none)
              × (result.retry_at ≡ some (next_retry_boundary attempt (fill_deadline attempt)))
            ⊎ (result.outcome ≡ timed_out)
              × (result.selection ≡ none)
              × (result.retry_at ≡ none)
              × (fill_deadline attempt ≤ attempt.evaluated_at))
  unfolding attempt_match conclude
  attempt_match_outcome e attempt h =
      let (_, _, rest) = >>=-ok (validate_match_attempt attempt) _ h in ground (arith, rest)

  attempt_accepted :
      (e : Evaluator F) (attempt : MatchAttempt F) {result : MatchAttemptResult F}
      → attempt_match e attempt ≡ ok result
      → validate_match_attempt attempt ≡ ok tt
  unfolding attempt_match
  attempt_accepted e attempt h = ground arith

  abbrev first_boundary : MatchAttempt F → Time
  first_boundary attempt =
      let next =
        next_periodic_boundary attempt.candidate.joined_at attempt.policy.expansion_interval
          attempt.evaluated_at in
      if after next (fill_deadline attempt) then fill_deadline attempt else next

  -- A retry lies strictly ahead of the evaluation and not behind the deadline of the ticket, so a
  -- ticket that is retried is evaluated again before it is timed out.
  pub attempt_match_retry :
      (e : Evaluator F) (attempt : MatchAttempt F) {result : MatchAttemptResult F} {t : Time}
      → HasDurations attempt
      → attempt_match e attempt ≡ ok result
      → result.retry_at ≡ some t
      → (attempt.evaluated_at < t)
        × (t ≤ fill_deadline attempt)
        × (result.outcome ≡ retry_scheduled)
  unfolding next_retry_boundary
  attempt_match_retry e attempt durations h k =
      let a = validate_match_attempt-IsAccepted attempt (attempt_accepted e attempt h) in
      let (after_now, _) =
        next_periodic_boundary_bounds attempt.candidate.joined_at attempt.policy.expansion_interval
          attempt.evaluated_at a.joined a.policy_valid.interval_pos durations.own in
      elim (attempt_match_outcome e attempt h).1 [
        | inl m ↦ cc
        | inr (inr t') ↦ cc
        | inr (inl (outcome, _, early, _, same)) ↦
            let (low, high) =
              earliest_bounds attempt.evaluated_at (first_boundary attempt) attempt.rooms
                (ahead_lem attempt.evaluated_at attempt.rooms a.rooms_valid a.rooms_created
                  durations.of_rooms)
                (ground arith) in
            (ground arith, ground arith, outcome)
      ]
