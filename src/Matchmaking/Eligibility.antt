-- ===== src/Matchmaking/Eligibility.antt =====
-- pkg/matchmaking/eligibility.go: the decision about one candidate, and the filter over a batch.
pub mod Sound
use solitaire_matchmaking.Base.{
  ℕ, zero, suc, ◌+◌, ◌-◌, ◌*◌, ◌%◌, ◌≤◌, ◌<◌, ◌≡◌, ◌≢◌, ◌⊎◌, inl, inr, refl, Bool, true, false, not,
  ◌&&◌, ◌||◌, Option, none, some, List, [], ◌∷◌, ◌++◌, String, is_empty, str_eq, contains, length,
  ◌==◌, if◌then◌else◌, Result, ok, err, ◌>>=◌, ◌>>◌, fail_if, wrap, arith, Bool-cases, Option-cases,
  Result-cases, In, All, keep, Accepts, str_eq_refl, eq_iff,
}
use solitaire_matchmaking.Base.Int.{
  ℤ, pos, negsuc, ltb_ℤ, leb_ℤ, eq_ℤ, quot, rem, ◌+ℤ◌, ◌-ℤ◌, ◌≤ℤ◌, ◌<ℤ◌, pos_part, neg_part,
  wrap_int64, int_laws,
}
use solitaire_matchmaking.Base.Time.{Time, Duration, is_zero, before, after, add, since}
use solitaire_matchmaking.Base.Float.{Float, IsIeee, IsFinite, ◌≼◌}
use solitaire_matchmaking.Base.Sort.{sort}
use solitaire_matchmaking.Rating.Types.{Estimate}
use solitaire_matchmaking.Rating.Types
use solitaire_matchmaking.Matchmaking.Policy.{
  Policy, Candidate, RoomView, Error, allowed_skill_gap, evaluation_time, candidate_batch,
  at_evaluation, room_incomplete, fairness_time, member_after_evaluation, predictor_required,
  at_prediction, prediction_mismatch, prediction_unknown_player, prediction_duplicate_player,
  prediction_range, prediction_distribution, prediction_sum,
}
use solitaire_matchmaking.Matchmaking.Validation.{validate_candidate, validate_room}
use solitaire_matchmaking.Matchmaking.Fairness.{
  Evaluator, FairnessReport, skill_gap, evaluate_fairness,
}

pub data RejectionCode : Type 0 where
  invalid_candidate room_expired room_full duplicate_ticket duplicate_player rating_model_mismatch
        skill_gap_exceeded skill_window_exceeded win_probability_spread_exceeded :
      RejectionCode

-- The zero value of `RejectionCode` is `none`.
pub record CandidateDecision (F : Type 0) : Type 0 where
  pub ticket_id : String
  pub eligible : Bool
  pub rejection : Option RejectionCode
  pub skill_gap : F
  pub allowed_gap : F
  pub win_probability_spread : Option F

module _ {F : Type 0} ⦃fl : Float F⦄ where
  -- The loop that compares the candidate with the members.
  unfoldable pub find_duplicate : Candidate F → List (Candidate F) → Option RejectionCode
  find_duplicate c [] = none
  find_duplicate c (m ∷ ms) =
      if str_eq c.ticket_id m.ticket_id
      then some duplicate_ticket
      else if str_eq c.player_id m.player_id
      then some duplicate_player
      else find_duplicate c ms

  abbrev pub is_valid : Candidate F → Bool
  is_valid c = elim (validate_candidate c) [ ok _ ↦ true | err _ ↦ false ]

  abbrev pub undecided : Candidate F → CandidateDecision F
  undecided c = record {
    ticket_id = c.ticket_id;
    eligible = false;
    rejection = none;
    skill_gap = fl.nought;
    allowed_gap = fl.nought;
    win_probability_spread = none;
  }

  abbrev pub reject : CandidateDecision F → RejectionCode → CandidateDecision F
  reject d code = record d { rejection = some code }

  -- The last part of `evaluateCandidate`: the room with the candidate in it is complete.
  unfoldable pub decide_complete :
      Evaluator F → RoomView F → Time → CandidateDecision F → Result Error (CandidateDecision F)
  decide_complete e complete now d = do
    report ← evaluate_fairness e complete now
    let d' = record d {
      skill_gap = report.skill_gap;
      win_probability_spread = some report.win_probability_spread;
    }
    ok (
        if report.within_hard_limits
        then record d' { eligible = true }
        else reject d' win_probability_spread_exceeded)

  -- The decision once the gap and its window are known.
  abbrev pub measured : Candidate F → F → F → CandidateDecision F
  measured c gap allowed = record (undecided c) { skill_gap = gap; allowed_gap = allowed }

  -- The middle part: the skill gap of the proposed members against the window and the hard limit.
  unfoldable pub decide_window :
      Evaluator F → RoomView F → Candidate F → Time → Result Error (CandidateDecision F)
  decide_window e room c now = do
    let proposed = room.members ++ c ∷ []
    allowed ← allowed_skill_gap room.policy (since now room.created_at)
    let d = measured c (skill_gap proposed) allowed
    let complete = decide_complete e (record room { members = proposed }) now d
    if fl.lt room.policy.max_skill_gap (skill_gap proposed)
        then ok (reject d skill_gap_exceeded)
        else if fl.lt allowed (skill_gap proposed)
        then ok (reject d skill_window_exceeded)
        else if ltb_ℤ (pos (length proposed)) room.capacity
        then ok (record d { eligible = true })
        else complete

  unfoldable pub evaluate_candidate :
      Evaluator F → RoomView F → Candidate F → Time → Result Error (CandidateDecision F)
  evaluate_candidate e room c now =
      if not (is_valid c) || after c.joined_at now || after c.snapshot_at now
      then ok (reject (undecided c) invalid_candidate)
      else if after now room.deadline
      then ok (reject (undecided c) room_expired)
      else if eq_ℤ (pos (length room.members)) room.capacity
      then ok (reject (undecided c) room_full)
      else elim (find_duplicate c room.members) [
        | some code ↦ ok (reject (undecided c) code)
        | none ↦
            if not (str_eq c.rating.model_version room.policy.rating_model_version)
            then ok (reject (undecided c) rating_model_mismatch)
            else decide_window e room c now
      ]

  -- The loop of `Filter`.
  unfoldable pub evaluate_all :
      Evaluator F
      → RoomView F
      → Time
      → List (Candidate F)
      → Result Error (List (CandidateDecision F))
  evaluate_all e room now [] = ok []
  evaluate_all e room now (c ∷ cs) = do
    d ← wrap (at_evaluation c.ticket_id) (evaluate_candidate e room c now)
    rest ← evaluate_all e room now cs
    ok (d ∷ rest)

  unfoldable pub filter :
      Evaluator F
      → RoomView F
      → List (Candidate F)
      → Time
      → Result Error (List (CandidateDecision F))
  filter e room candidates now = do
    validate_room room
    fail_if (is_zero now || before now room.created_at) evaluation_time
    fail_if (ltb_ℤ room.policy.candidate_limit (pos (length candidates))) candidate_batch
    evaluate_all e room now candidates
