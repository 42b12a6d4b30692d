-- ===== src/Matchmaking/Fairness.antt =====
-- pkg/matchmaking/eligibility.go: the skill gap, the probability spread and the fairness of a complete
-- room. The predictor is an interface, so it is a field of the evaluator.
pub mod Gap
use solitaire_matchmaking.Base.{
  ℕ, zero, suc, ◌+◌, ◌-◌, ◌*◌, ◌%◌, ◌≤◌, ◌<◌, ◌≡◌, ◌≢◌, ◌⊎◌, inl, inr, refl, Bool, true, false, not,
  ◌&&◌, ◌||◌, Option, none, some, List, [], ◌∷◌, ◌++◌, String, is_empty, str_eq, contains, length,
  ◌==◌, if◌then◌else◌, Result, ok, err, ◌>>=◌, ◌>>◌, fail_if, wrap, arith, Bool-cases, Option-cases,
  Result-cases, In, All, keep, Accepts, str_eq_refl, eq_iff,
}
use solitaire_matchmaking.Base.Int.{
  ℤ, pos, negsuc, ltb_ℤ, leb_ℤ, eq_ℤ, quot, rem, ◌+ℤ◌, ◌-ℤ◌, ◌≤ℤ◌, ◌<ℤ◌, pos_part, neg_part,
  wrap_int64, int_laws,
}
use solitaire_matchmaking.Base.Time.{Time, Duration, is_zero, before, after, add, since}
use solitaire_matchmaking.Base.Float.{Float, IsIeee, IsFinite, ◌≼◌}
use solitaire_matchmaking.Base.Sort.{sort}
use solitaire_matchmaking.Rating.Types.{Estimate}
use solitaire_matchmaking.Rating.Types
use solitaire_matchmaking.Matchmaking.Policy.{
  Policy, Candidate, RoomView, Error, allowed_skill_gap, evaluation_time, candidate_batch,
  at_evaluation, room_incomplete, fairness_time, member_after_evaluation, predictor_required,
  at_prediction, prediction_mismatch, prediction_unknown_player, prediction_duplicate_player,
  prediction_range, prediction_distribution, prediction_sum,
}
use solitaire_matchmaking.Matchmaking.Validation.{validate_candidate, validate_room}

-- pkg/rating/prediction.go: what goes to a predictor, and what it answers.
pub record PredictionRequest (F : Type 0) : Type 0 where
  pub room_id : String
  pub mode_id : String
  pub generated_at : Time
  pub estimates : List (String × Estimate F)

pub record PlacementPrediction (F : Type 0) : Type 0 where
  pub player_id : String
  pub place_probabilities : List F
  pub first_place_probability : F
  pub expected_place : F

pub record RoomPrediction (F : Type 0) : Type 0 where
  pub room_id : String
  pub mode_id : String
  pub model_version : String
  pub generated_at : Time
  pub participants : List (PlacementPrediction F)

pub record FairnessReport (F : Type 0) : Type 0 where
  pub skill_gap : F
  pub maximum_skill_gap : F
  pub win_probability_spread : F
  pub maximum_win_probability_spread : F
  pub within_hard_limits : Bool

pub record Evaluator (F : Type 0) : Type 0 where
  pub predict : PredictionRequest F → Result Types.Error (RoomPrediction F)

-- `NewEvaluator`; a nil predictor is `none`.
pub new_evaluator :
    {F : Type 0}
    → Option (PredictionRequest F → Result Types.Error (RoomPrediction F))
    → Result Error (Evaluator F)
new_evaluator none = err predictor_required
new_evaluator (some predictor) = ok (record { predict = predictor })

-- `estimates[player] = rating`.
unfoldable pub put_estimate :
    {F : Type 0} → String → Estimate F → List (String × Estimate F) → List (String × Estimate F)
put_estimate k e [] = (k, e) ∷ []
put_estimate k e ((j, d) ∷ m) = if str_eq j k then (k, e) ∷ m else (j, d) ∷ put_estimate k e m

module _ {F : Type 0} ⦃fl : Float F⦄ where
  -- The loop of `skillGap` over the candidates after the first.
  unfoldable pub mean_span : F → F → List (Candidate F) → F
  mean_span minimum maximum [] = fl.minus maximum minimum
  mean_span minimum maximum (c ∷ cs) =
      mean_span (fl.min minimum c.rating.mean) (fl.max maximum c.rating.mean) cs

  unfoldable pub skill_gap : List (Candidate F) → F
  skill_gap [] = fl.nought
  skill_gap (c ∷ []) = fl.nought
  skill_gap (c ∷ d ∷ cs) = mean_span c.rating.mean c.rating.mean (d ∷ cs)

  -- The loop of `EvaluateFairness` that gathers the estimates.
  unfoldable pub gather_estimates :
      Time
      → List (String × Estimate F)
      → List (Candidate F)
      → Result Error (List (String × Estimate F))
  gather_estimates now estimates [] = ok estimates
  gather_estimates now estimates (m ∷ ms) =
      fail_if (after m.snapshot_at now) (member_after_evaluation m.player_id)
      >> gather_estimates now (put_estimate m.player_id m.rating estimates) ms

  abbrev pub member_ids : List (Candidate F) → List String
  member_ids [] = []
  member_ids (m ∷ ms) = m.player_id ∷ member_ids ms

  -- `PlaceProbabilities[0]` against the first-place probability; the length is checked before.
  abbrev pub first_place_differs : List F → F → Bool
  first_place_differs [] p = false
  first_place_differs (q ∷ qs) p = fl.lt fl.tolerance (fl.abs (fl.minus q p))

  unfoldable pub check_participant :
      List (Candidate F) → List String → PlacementPrediction F → Result Error (Unit {0})
  check_participant members seen q = do
    fail_if (not (contains q.player_id (member_ids members)) || is_empty q.player_id)
        prediction_unknown_player
    fail_if (contains q.player_id seen) prediction_duplicate_player
    fail_if
        (not (fl.is_finite q.first_place_probability)
          || fl.lt q.first_place_probability fl.nought
          || fl.lt fl.one q.first_place_probability)
        prediction_range
    fail_if
        (not (eq_ℤ (pos (length q.place_probabilities)) (pos (length members)))
          || first_place_differs q.place_probabilities q.first_place_probability)
        prediction_distribution
    ok tt

  -- The loop of `validatedProbabilitySpread`: the map `seen`, the running minimum, maximum, total.
  unfoldable pub probability_loop :
      List (Candidate F) → List String → F → F → F → List (PlacementPrediction F) → Result Error F
  probability_loop members seen minimum maximum total [] =
      fail_if (fl.lt fl.tolerance (fl.abs (fl.minus total fl.one))) prediction_sum
      >> ok (fl.minus maximum minimum)
  probability_loop members seen minimum maximum total (q ∷ qs) =
      check_participant members seen q
      >> probability_loop members (q.player_id ∷ seen) (fl.min minimum q.first_place_probability)
          (fl.max maximum q.first_place_probability) (fl.plus total q.first_place_probability) qs

  unfoldable pub validated_spread : RoomPrediction F → RoomView F → Time → Result Error F
  validated_spread prediction room now = do
    fail_if
        (not (str_eq prediction.room_id room.room_id)
          || not (str_eq prediction.mode_id room.mode_id)
          || not (str_eq prediction.model_version room.policy.rating_model_version)
          || not (prediction.generated_at == now)
          || not (length prediction.participants == length room.members))
        prediction_mismatch
    probability_loop room.members [] fl.plus_inf fl.minus_inf fl.nought prediction.participants

  unfoldable pub evaluate_fairness :
      Evaluator F → RoomView F → Time → Result Error (FairnessReport F)
  evaluate_fairness e room now = do
    validate_room room
    fail_if (not (eq_ℤ (pos (length room.members)) room.capacity)) room_incomplete
    fail_if (is_zero now || before now room.created_at || after now room.deadline) fairness_time
    estimates ← gather_estimates now [] room.members
    prediction ← wrap at_prediction (
        e.predict (record {
          room_id = room.room_id;
          mode_id = room.mode_id;
          generated_at = now;
          estimates = estimates;
        }))
    spread ← validated_spread prediction room now
    ok (record {
      skill_gap = skill_gap room.members;
      maximum_skill_gap = room.policy.max_skill_gap;
      win_probability_spread = spread;
      maximum_win_probability_spread = room.policy.max_win_probability_spread;
      within_hard_limits =
          fl.le (skill_gap room.members) room.policy.max_skill_gap
          && fl.le spread room.policy.max_win_probability_spread;
    })
