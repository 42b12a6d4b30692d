-- ===== src/Matchmaking/Policy.antt =====
-- pkg/matchmaking/policy.go and `AllowedSkillGap` of priority.go.
pub mod Window
use solitaire_matchmaking.Base.{
  ℕ, zero, suc, ◌+◌, ◌≡◌, refl, Bool, true, false, not, ◌&&◌, ◌||◌, Option, none, some, List, [],
  ◌∷◌, String, is_empty, str_eq, contains, length, if◌then◌else◌, Result, ok, err, ◌>>=◌, ◌>>◌,
  fail_if, wrap, arith,
}
use solitaire_matchmaking.Base.Int.{ℤ, pos, ltb_ℤ, leb_ℤ, eq_ℤ, quot, rem, ◌+ℤ◌}
use solitaire_matchmaking.Base.Time.{Time, Duration}
use solitaire_matchmaking.Base.Float.{Float}
use solitaire_matchmaking.Rating.Types.{Estimate}
use solitaire_matchmaking.Rating.Types

pub record Policy (F : Type 0) : Type 0 where
  pub version : String
  pub rating_model_version : String
  pub initial_skill_gap : F
  pub max_skill_gap : F
  pub max_win_probability_spread : F
  pub expansion_interval : Duration
  pub fill_timeout : Duration
  pub age_priority_after : Duration
  pub candidate_limit : ℤ
  pub room_limit : ℤ
  pub prefer_nearly_full : Bool

pub record Candidate (F : Type 0) : Type 0 where
  pub ticket_id : String
  pub player_id : String
  pub joined_at : Time
  pub snapshot_at : Time
  pub rating : Estimate F

pub record RoomView (F : Type 0) : Type 0 where
  pub room_id : String
  pub mode_id : String
  pub aggregate_version : ℤ
  pub capacity : ℤ
  pub created_at : Time
  pub deadline : Time
  pub policy : Policy F
  pub members : List (Candidate F)

-- The errors of the package, a constructor for each message; `at_…` wraps another.
pub data Error : Type 0 where
  policy_versions : Error
  skill_gaps : Error
  probability_spread : Error
  expansion_interval_range : Error
  priority_or_limits : Error
  negative_room_age : Error
  candidate_ids : Error
  candidate_times : Error
  at_candidate_rating : Types.Error → Error
  rating_after_snapshot : Error
  room_ids : Error
  room_version : Error
  room_capacity : Error
  room_times : Error
  too_many_members : Error
  at_room_policy : Error → Error
  deadline_after_timeout : Error
  at_room_member : ℕ → Error → Error
  member_after_deadline : String → Error
  member_model : String → Error
  duplicate_ticket : String → Error
  duplicate_player : String → Error
  at_room : ℕ → Error → Error
  priority_time : Error
  room_not_active : ℕ → Error
  evaluation_time : Error
  candidate_batch : Error
  at_evaluation : String → Error → Error
  room_incomplete : Error
  fairness_time : Error
  member_after_evaluation : String → Error
  predictor_required : Error
  at_prediction : Types.Error → Error
  prediction_mismatch : Error
  prediction_unknown_player : Error
  prediction_duplicate_player : Error
  prediction_range : Error
  prediction_distribution : Error
  prediction_sum : Error
  at_selected_room : String → Error → Error
  room_batch : Error
  selection_scope : Error
  duplicate_room : String → Error
  trigger_invalid : Error
  attempt_time : Error
  at_attempt_policy : Error → Error
  at_attempt_candidate : Error → Error
  candidate_unavailable : Error
  candidate_model : Error
  attempt_batch : Error
  at_attempt_rooms : Error → Error
  attempt_policy : Error
  room_created_later : ℕ → Error

module _ {F : Type 0} ⦃fl : Float F⦄ where
  unfoldable pub validate : Policy F → Result Error (Unit {0})
  validate p = do
    fail_if (is_empty p.version || is_empty p.rating_model_version) policy_versions
    fail_if
        (not (fl.is_finite p.initial_skill_gap)
          || not (fl.is_finite p.max_skill_gap)
          || fl.lt p.initial_skill_gap fl.nought
          || fl.lt p.max_skill_gap p.initial_skill_gap)
        skill_gaps
    fail_if
        (not (fl.is_finite p.max_win_probability_spread)
          || fl.lt p.max_win_probability_spread fl.nought
          || fl.lt fl.one p.max_win_probability_spread)
        probability_spread
    fail_if
        (leb_ℤ p.fill_timeout (pos 0)
          || leb_ℤ p.expansion_interval (pos 0)
          || ltb_ℤ p.fill_timeout p.expansion_interval)
        expansion_interval_range
    fail_if
        (ltb_ℤ p.age_priority_after (pos 0)
          || ltb_ℤ p.fill_timeout p.age_priority_after
          || leb_ℤ p.candidate_limit (pos 0)
          || leb_ℤ p.room_limit (pos 0))
        priority_or_limits
    ok tt

  -- `totalSteps`: the timeout in intervals, rounded up.
  unfoldable pub total_steps : Policy F → ℤ
  total_steps p =
      if eq_ℤ (rem p.fill_timeout p.expansion_interval) (pos 0)
      then quot p.fill_timeout p.expansion_interval
      else quot p.fill_timeout p.expansion_interval +ℤ pos 1

  -- `elapsedSteps`.
  unfoldable pub elapsed_steps : Policy F → Duration → ℤ
  elapsed_steps p room_age =
      if ltb_ℤ (total_steps p) (quot room_age p.expansion_interval)
      then total_steps p
      else quot room_age p.expansion_interval

  unfoldable pub allowed_skill_gap : Policy F → Duration → Result Error F
  allowed_skill_gap p room_age = do
    validate p
    fail_if (ltb_ℤ room_age (pos 0)) negative_room_age
    if leb_ℤ p.fill_timeout room_age || fl.eq p.initial_skill_gap p.max_skill_gap
        then ok p.max_skill_gap
        else ok (
            fl.plus p.initial_skill_gap (
              fl.times (fl.minus p.max_skill_gap p.initial_skill_gap)
                (fl.over (fl.of_ℤ (elapsed_steps p room_age)) (fl.of_ℤ (total_steps p)))))
