-- ===== src/Matchmaking/Orchestration.antt =====
-- pkg/matchmaking/orchestration.go: one attempt to match a waiting ticket, and its next retry.
pub mod Retry
use solitaire_matchmaking.Base.{
  ℕ, zero, suc, ◌+◌, ◌-◌, ◌*◌, ◌%◌, ◌≤◌, ◌<◌, ◌≡◌, ◌≢◌, ◌⊎◌, inl, inr, refl, Bool, true, false, not,
  ◌&&◌, ◌||◌, Option, none, some, List, [], ◌∷◌, ◌++◌, String, is_empty, str_eq, contains, length,
  ◌==◌, if◌then◌else◌, Result, ok, err, ◌>>=◌, ◌>>◌, fail_if, wrap, arith, Bool-cases, Option-cases,
  Result-cases, In, All, keep, Accepts, str_eq_refl, eq_iff,
}
use solitaire_matchmaking.Base.Int.{
  ℤ, pos, negsuc, ltb_ℤ, leb_ℤ, eq_ℤ, quot, rem, ◌+ℤ◌, ◌-ℤ◌, ◌≤ℤ◌, ◌<ℤ◌, pos_part, neg_part,
  wrap_int64, int_laws,
}
use solitaire_matchmaking.Base.Time.{Time, Duration, is_zero, before, after, add, since}
use solitaire_matchmaking.Base.Float.{Float, IsIeee, IsFinite, ◌≼◌}
use solitaire_matchmaking.Base.Sort.{sort}
use solitaire_matchmaking.Matchmaking.Policy.{
  Policy, Candidate, RoomView, Error, trigger_invalid, attempt_time, at_attempt_policy,
  at_attempt_candidate, candidate_unavailable, candidate_model, attempt_batch, at_attempt_rooms,
  attempt_policy, room_created_later,
}
use solitaire_matchmaking.Matchmaking.Policy
use solitaire_matchmaking.Matchmaking.Validation.{validate_candidate}
use solitaire_matchmaking.Matchmaking.Fairness.{Evaluator}
use solitaire_matchmaking.Matchmaking.Selector.{
  RoomSelection, policy_eq, validate_selection_scope, select_room,
}

-- A string; `other` is one that is none of the three constants.
pub data AttemptTrigger : Type 0 where
  ticket_accepted room_changed periodic_retry : AttemptTrigger
  other : String → AttemptTrigger

abbrev pub is_known : AttemptTrigger → Bool
is_known (other s) = false
is_known _ = true

pub data AttemptOutcome : Type 0 where
  matched retry_scheduled timed_out : AttemptOutcome

pub record MatchAttempt (F : Type 0) : Type 0 where
  pub trigger : AttemptTrigger
  pub evaluated_at : Time
  pub candidate : Candidate F
  pub policy : Policy F
  pub rooms : List (RoomView F)

pub record MatchAttemptResult (F : Type 0) : Type 0 where
  pub outcome : AttemptOutcome
  pub deadline : Time
  pub selection : Option (RoomSelection F)
  pub retry_at : Option Time

-- `interval - elapsed%interval` is an `int64`.
unfoldable pub next_periodic_boundary : Time → Duration → Time → Time
next_periodic_boundary anchor interval now =
    add now (wrap_int64 (interval -ℤ rem (since now anchor) interval))

module _ {F : Type 0} ⦃fl : Float F⦄ where
  -- `roomNext`: the deadline, or the next expansion of the window if that is sooner.
  unfoldable pub room_boundary : Time → RoomView F → Time
  room_boundary now room =
      let expansion = next_periodic_boundary room.created_at room.policy.expansion_interval now in
      if fl.lt room.policy.initial_skill_gap room.policy.max_skill_gap
        && before expansion room.deadline
      then expansion
      else room.deadline

  -- The loop over the rooms, with `next` as it goes.
  unfoldable pub earliest_boundary : Time → Time → List (RoomView F) → Time
  earliest_boundary now next [] = next
  earliest_boundary now next (room ∷ rooms) =
      earliest_boundary now
        (if not (before now room.deadline)
          then next
          else if before (room_boundary now room) next
          then room_boundary now room
          else next)
        rooms

  unfoldable pub next_retry_boundary : MatchAttempt F → Time → Time
  next_retry_boundary attempt deadline =
      let next =
        next_periodic_boundary attempt.candidate.joined_at attempt.policy.expansion_interval
          attempt.evaluated_at in
      earliest_boundary attempt.evaluated_at (if after next deadline then deadline else next)
        attempt.rooms

  -- The last loop of `validateMatchAttempt`.
  unfoldable pub check_created : Time → ℕ → List (RoomView F) → Result Error (Unit {0})
  check_created now index [] = ok tt
  check_created now index (room ∷ rooms) =
      fail_if (before now room.created_at) (room_created_later index)
      >> check_created now (suc index) rooms

  -- The checks that are made if there is a room.
  unfoldable pub check_rooms : Policy F → List (RoomView F) → Result Error (Unit {0})
  check_rooms policy [] = ok tt
  check_rooms policy (room ∷ rooms) =
      wrap at_attempt_rooms (validate_selection_scope (room ∷ rooms))
      >> fail_if (not (policy_eq room.policy policy)) attempt_policy

  unfoldable pub validate_match_attempt : MatchAttempt F → Result Error (Unit {0})
  validate_match_attempt attempt = do
    fail_if (not (is_known attempt.trigger)) trigger_invalid
    fail_if (is_zero attempt.evaluated_at) attempt_time
    wrap at_attempt_policy (Policy.validate attempt.policy)
    wrap at_attempt_candidate (validate_candidate attempt.candidate)
    fail_if
        (after attempt.candidate.joined_at attempt.evaluated_at
          || after attempt.candidate.snapshot_at attempt.evaluated_at)
        candidate_unavailable
    fail_if
        (not (str_eq attempt.candidate.rating.model_version attempt.policy.rating_model_version))
        candidate_model
    fail_if (ltb_ℤ attempt.policy.room_limit (pos (length attempt.rooms))) attempt_batch
    check_rooms attempt.policy attempt.rooms
    check_created attempt.evaluated_at 0 attempt.rooms

  abbrev pub fill_deadline : MatchAttempt F → Time
  fill_deadline attempt = add attempt.candidate.joined_at attempt.policy.fill_timeout

  abbrev pub timed_out_at : Time → MatchAttemptResult F
  timed_out_at deadline = record {
    outcome = timed_out;
    deadline = deadline;
    selection = none;
    retry_at = none;
  }

  -- What follows a selection without an error.
  unfoldable pub conclude : MatchAttempt F → Time → Option (RoomSelection F) → MatchAttemptResult F
  conclude attempt deadline (some selection) = record {
    outcome = matched;
    deadline = deadline;
    selection = some selection;
    retry_at = none;
  }
  conclude attempt deadline none =
      if not (before attempt.evaluated_at deadline) then timed_out_at deadline else record {
        outcome = retry_scheduled;
        deadline = deadline;
        selection = none;
        retry_at = some (next_retry_boundary attempt deadline);
      }

  unfoldable pub attempt_match : Evaluator F → MatchAttempt F → Result Error (MatchAttemptResult F)
  attempt_match e attempt = do
    validate_match_attempt attempt
    let deadline = fill_deadline attempt
    let selected = select_room e attempt.rooms attempt.candidate attempt.evaluated_at
    if after attempt.evaluated_at deadline
        then ok (timed_out_at deadline)
        else (do found ← selected; ok (conclude attempt deadline found))
