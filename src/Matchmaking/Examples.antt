-- ===== src/Matchmaking/Examples.antt =====
-- Concrete rooms and candidates, runs of the code on them, and each theorem at such an input.
use solitaire_matchmaking.Base.{
  ℕ, ◌+◌, ◌*◌, ◌≤◌, ◌<◌, ◌≡◌, ◌≢◌, ◌⊎◌, inl, inr, refl, true, false, none, some, List, [], ◌∷◌,
  ◌++◌, String, ok, arith, In, keep,
}
use solitaire_matchmaking.Base.Int.{pos, quot, rem, ◌+ℤ◌, ◌-ℤ◌, ◌<ℤ◌, wrap_int64}
use solitaire_matchmaking.Base.Time.{Time, since}
use solitaire_matchmaking.Base.Float.{◌≼◌}
use solitaire_matchmaking.Base.Sort.{sort}
use mathlib.Core.List.{Perm, map}
use solitaire_matchmaking.Base.Float.Fixed.{Fixed, milli, fixed, Fixed-IsIeee}
use solitaire_matchmaking.Base.Sort.{insert}
use solitaire_matchmaking.Rating.Types.{Estimate, validate_estimate}
use solitaire_matchmaking.Matchmaking.Policy.{
  Policy, Candidate, RoomView, validate, allowed_skill_gap, total_steps, elapsed_steps,
}
use solitaire_matchmaking.Matchmaking.Policy.Window.{
  allowed_skill_gap_bounds, allowed_skill_gap_mono, allowed_skill_gap_total,
}
use solitaire_matchmaking.Matchmaking.Validation.{
  validate_candidate, validate_member, validate_members, validate_room,
}
use solitaire_matchmaking.Matchmaking.Validation.WellFormed.{
  IsWellFormed, validate_room-IsWellFormed,
}
use solitaire_matchmaking.Matchmaking.Fairness.{
  PlacementPrediction, Evaluator, put_estimate, mean_span, skill_gap, gather_estimates,
  check_participant, probability_loop, validated_spread, evaluate_fairness,
}
use solitaire_matchmaking.Matchmaking.Eligibility.{
  CandidateDecision, find_duplicate, decide_complete, decide_window, evaluate_candidate,
  evaluate_all, filter,
}
use solitaire_matchmaking.Base.Int.{saturate_int64}
use solitaire_matchmaking.Matchmaking.Priority.{
  age_prioritized, compare_waiting, check_active, prioritize_waiting_rooms,
}
use solitaire_matchmaking.Matchmaking.Priority.Order.{prioritize_waiting_rooms_order}
use solitaire_matchmaking.Matchmaking.Fairness.{FairnessReport}
use solitaire_matchmaking.Matchmaking.Fairness.Gap.{skill_gap_bounds}
use solitaire_matchmaking.Matchmaking.Eligibility.{room_full}
use solitaire_matchmaking.Matchmaking.Eligibility.Sound.{
  is_none, joined, IsAdmissible, IsWithinWindow, eligible-eq-no_rejection, eligible-IsAdmissible,
  eligible_complete, eligible-validate_room,
}
use solitaire_matchmaking.Matchmaking.Selector.{
  RoomSelection, RoomOption, policy_eq, same_scope, check_scope, validate_selection_scope,
  compare_fill, compare_options, gather_options, selection_of, select_room,
}
use solitaire_matchmaking.Matchmaking.Selector.Gather.{IsOption}
use solitaire_matchmaking.Matchmaking.Selector.Choice.{select_room_oldest, select_room-none}
use solitaire_matchmaking.Matchmaking.Orchestration.{
  MatchAttempt, MatchAttemptResult, ticket_accepted, matched, retry_scheduled, timed_out,
  next_periodic_boundary, room_boundary, earliest_boundary, next_retry_boundary, check_created,
  check_rooms, validate_match_attempt, fill_deadline, conclude, attempt_match,
}
use solitaire_matchmaking.Matchmaking.Orchestration.Retry.{
  next_periodic_boundary_bounds, next_periodic_boundary_multiple, attempt_match_retry,
  attempt_match_outcome,
}
use solitaire_matchmaking.Matchmaking.Selector.Best.{get_elem?, IsBetter, select_room_best}
use solitaire_matchmaking.Matchmaking.Priority.Order.{AreServed, is_aged}
use solitaire_matchmaking.Base.{not}

abbrev policy : Policy Fixed
policy = record {
  version = "policy-1";
  rating_model_version = "model-1";
  initial_skill_gap = milli 100;
  max_skill_gap = milli 200;
  max_win_probability_spread = milli 300;
  expansion_interval = pos 10;
  fill_timeout = pos 60;
  age_priority_after = pos 30;
  candidate_limit = pos 4;
  room_limit = pos 4;
  prefer_nearly_full = true;
}

abbrev player : String → String → ℕ → Candidate Fixed
player ticket id mean = record {
  ticket_id = ticket;
  player_id = id;
  joined_at = 5;
  snapshot_at = 4;
  rating = record {
    mean = milli mean;
    uncertainty = milli 50;
    performance_deviation = none;
    games = 3;
    model_version = "model-1";
    updated_at = 2;
  };
}

abbrev room_of : String → Time → List (Candidate Fixed) → RoomView Fixed
room_of id created members = record {
  room_id = id;
  mode_id = "klondike";
  aggregate_version = pos 1;
  capacity = pos 5;
  created_at = created;
  deadline = created + 60;
  policy = policy;
  members = members;
}

abbrev four : List (Candidate Fixed)
four =
    player "t1" "a" 1500 ∷ player "t2" "b" 1520 ∷ player "t3" "c" 1540 ∷ player "t4" "d" 1510 ∷ []

abbrev nearly_full : RoomView Fixed
nearly_full = room_of "room-1" 10 four

abbrev newcomer : Candidate Fixed
newcomer = player "t5" "e" 1530

-- A predictor that gives every player an equal chance in a room of five.
abbrev even_chances : Evaluator Fixed
even_chances = record {
  predict = λ request. ok (record {
    room_id = request.room_id;
    mode_id = request.mode_id;
    model_version = "model-1";
    generated_at = request.generated_at;
    participants = map chance request.estimates;
  });
}
  where
    chance : String × Estimate Fixed → PlacementPrediction Fixed
    chance (id, _) = record {
      player_id = id;
      place_probabilities = milli 200 ∷ milli 200 ∷ milli 200 ∷ milli 200 ∷ milli 200 ∷ [];
      first_place_probability = milli 200;
      expected_place = milli 3000;
    }

-- The functions that the runs below go through.
runs : Unit {0}
unfolding validate allowed_skill_gap elapsed_steps total_steps quot rem ◌+ℤ◌ ◌-ℤ◌ validate_room
    validate_members validate_member validate_candidate validate_estimate put_estimate mean_span
    skill_gap gather_estimates check_participant probability_loop validated_spread evaluate_fairness
    find_duplicate decide_complete decide_window evaluate_candidate evaluate_all filter policy_eq
    same_scope check_scope validate_selection_scope compare_fill compare_options gather_options
    select_room age_prioritized compare_waiting check_active prioritize_waiting_rooms insert sort
    since saturate_int64 wrap_int64 next_periodic_boundary room_boundary earliest_boundary
    next_retry_boundary check_created check_rooms validate_match_attempt conclude attempt_match
runs = tt

policy_valid : validate policy ≡ ok tt
unfolding validate
policy_valid = refl

window_grows : allowed_skill_gap policy (pos 25) ≡ ok (milli 133)
unfolding validate allowed_skill_gap elapsed_steps total_steps quot rem ◌+ℤ◌
window_grows = refl

room_valid : validate_room nearly_full ≡ ok tt
unfolding validate_room validate_members validate_member validate_candidate validate_estimate
    validate
room_valid = refl

abbrev joins : CandidateDecision Fixed
joins = record {
  ticket_id = "t5";
  eligible = true;
  rejection = none;
  skill_gap = milli 40;
  allowed_gap = milli 150;
  win_probability_spread = some (milli 0);
}

-- The candidate completes the room half a minute after its creation.
newcomer-joins : evaluate_candidate even_chances nearly_full newcomer 40 ≡ ok joins
unfolding runs
newcomer-joins = refl

filtered : filter even_chances nearly_full (newcomer ∷ []) 40 ≡ ok (joins ∷ [])
unfolding runs
filtered = refl

abbrev empty_room : RoomView Fixed
empty_room = room_of "room-2" 20 []

abbrev waits_there : CandidateDecision Fixed
waits_there = record {
  ticket_id = "t5";
  eligible = true;
  rejection = none;
  skill_gap = milli 0;
  allowed_gap = milli 133;
  win_probability_spread = none;
}

-- The room past its age threshold is chosen.
abbrev chosen_room : RoomSelection Fixed
chosen_room = record {
  room_id = "room-1";
  room_version = pos 1;
  members_before = 4;
  capacity = pos 5;
  age_priority = true;
  decision = joins;
}

selected :
    select_room even_chances (empty_room ∷ nearly_full ∷ []) newcomer 40 ≡ ok (some chosen_room)
unfolding runs
selected = refl

abbrev attempt : MatchAttempt Fixed
attempt = record {
  trigger = ticket_accepted;
  evaluated_at = 40;
  candidate = newcomer;
  policy = policy;
  rooms = empty_room ∷ nearly_full ∷ [];
}

-- With no room the ticket, which joined at 5, is evaluated again at 45.
abbrev lonely : MatchAttempt Fixed
lonely = record attempt { rooms = [] }

abbrev later : MatchAttemptResult Fixed
later = record { outcome = retry_scheduled; deadline = 65; selection = none; retry_at = some 45 }

lonely_retries : attempt_match even_chances lonely ≡ ok later
unfolding runs
lonely_retries = refl

abbrev match_found : MatchAttemptResult Fixed
match_found = record {
  outcome = matched;
  deadline = 65;
  selection = some chosen_room;
  retry_at = none;
}

attempt_matches : attempt_match even_chances attempt ≡ ok match_found
unfolding runs
attempt_matches = refl

allowed_skill_gap_bounds_example :
    (milli 100 ≼ milli 133) × ((milli 133 ≡ milli 200) ⊎ (milli 133 ≼ milli 200))
allowed_skill_gap_bounds_example =
    allowed_skill_gap_bounds Fixed-IsIeee policy (pos 25) window_grows

allowed_skill_gap_mono_example : milli 133 ≼ milli 150
unfolding runs
allowed_skill_gap_mono_example =
    allowed_skill_gap_mono Fixed-IsIeee policy (pos 25) (pos 30) (omega arith) (omega arith)
      window_grows refl

allowed_skill_gap_total_example :
    (g : Fixed) × (allowed_skill_gap policy (pos 90) ≡ ok g)
    × ((pos 90 <ℤ policy.fill_timeout) ⊎ (g ≡ milli 200))
allowed_skill_gap_total_example = allowed_skill_gap_total policy (pos 90) policy_valid (omega arith)

validate_room-IsWellFormed_example : IsWellFormed nearly_full
validate_room-IsWellFormed_example = validate_room-IsWellFormed nearly_full room_valid

eligible-eq-no_rejection_example : true ≡ is_none joins.rejection
eligible-eq-no_rejection_example =
    eligible-eq-no_rejection even_chances nearly_full newcomer 40 newcomer-joins

eligible-IsAdmissible_example :
    IsAdmissible nearly_full newcomer 40
    × IsWithinWindow even_chances nearly_full 40 (skill_gap (four ++ newcomer ∷ []))
eligible-IsAdmissible_example =
    eligible-IsAdmissible even_chances nearly_full newcomer 40 newcomer-joins refl

eligible_complete_example :
    (report : FairnessReport Fixed) × (evaluate_fairness even_chances
        (joined nearly_full newcomer)
        40
      ≡ ok report)
    × (fixed.le (skill_gap (four ++ newcomer ∷ [])) (milli 200) ≡ true)
    × (fixed.le report.win_probability_spread (milli 300) ≡ true)
eligible_complete_example =
    eligible_complete even_chances nearly_full newcomer 40 newcomer-joins refl (omega arith)

eligible-validate_room_example : validate_room (joined nearly_full newcomer) ≡ ok tt
eligible-validate_room_example =
    eligible-validate_room even_chances nearly_full newcomer 40 room_valid newcomer-joins refl

skill_gap_bounds_example : fixed.minus (milli 1530) (milli 1500) ≼ skill_gap (four ++ newcomer ∷ [])
skill_gap_bounds_example =
    skill_gap_bounds Fixed-IsIeee (four ++ newcomer ∷ []) newcomer (player "t1" "a" 1500)
      (refl, (refl, (refl, (refl, (refl, tt))))) (inr (inr (inr (inr (inl refl))))) (inl refl)

prioritize_waiting_rooms_order_example :
    Perm (nearly_full ∷ empty_room ∷ []) (empty_room ∷ nearly_full ∷ [])
    × AreServed 40 (nearly_full ∷ empty_room ∷ [])
    × (keep (λ r. not (is_aged 40 r)) (nearly_full ∷ empty_room ∷ [])
        ≡ keep (λ r. not (is_aged 40 r)) (empty_room ∷ nearly_full ∷ []))
unfolding runs
prioritize_waiting_rooms_order_example =
    prioritize_waiting_rooms_order (empty_room ∷ nearly_full ∷ []) 40 refl

select_room_best_example :
    (chosen : RoomOption Fixed) × (other : RoomOption Fixed) × IsOption even_chances newcomer 40
      (empty_room ∷ nearly_full ∷ [])
      chosen
    × (chosen_room ≡ selection_of 40 chosen)
    × (other.room ≡ empty_room)
    × (other.decision ≡ waits_there)
    × (get_elem? (empty_room ∷ nearly_full ∷ []) chosen.input_rank ≡ some chosen.room)
    × (get_elem? (empty_room ∷ nearly_full ∷ []) other.input_rank ≡ some empty_room)
    × IsBetter 40 chosen other
unfolding runs
select_room_best_example =
    select_room_best Fixed-IsIeee even_chances (empty_room ∷ nearly_full ∷ []) newcomer 40
      empty_room waits_there selected (inl refl) refl refl

select_room_oldest_example :
    (chosen : RoomView Fixed) × In chosen (empty_room ∷ nearly_full ∷ [])
    × (chosen_room.room_id ≡ chosen.room_id)
    × (chosen_room.age_priority ≡ true)
    × (chosen.created_at ≤ 10)
unfolding runs
select_room_oldest_example =
    select_room_oldest Fixed-IsIeee even_chances (empty_room ∷ nearly_full ∷ []) newcomer 40
      nearly_full joins selected (inr (inl refl)) filtered refl refl

-- A room that is full has no place for the newcomer.
abbrev full_room : RoomView Fixed
full_room = room_of "room-3" 10 (player "t6" "f" 1520 ∷ four)

abbrev no_place : CandidateDecision Fixed
no_place = record {
  ticket_id = "t5";
  eligible = false;
  rejection = some room_full;
  skill_gap = milli 0;
  allowed_gap = milli 0;
  win_probability_spread = none;
}

select_room-none_example : no_place.eligible ≡ false
unfolding runs
select_room-none_example =
    select_room-none Fixed-IsIeee even_chances (full_room ∷ []) newcomer 40 full_room no_place refl
      (inl refl) refl

next_periodic_boundary_bounds_example :
    (40 < next_periodic_boundary 5 (pos 10) 40) × (next_periodic_boundary 5 (pos 10) 40 ≤ 40 + 10)
next_periodic_boundary_bounds_example =
    next_periodic_boundary_bounds 5 (pos 10) 40 (omega arith) (omega arith) (omega arith)

next_periodic_boundary_multiple_example :
    (k : ℕ) × (next_periodic_boundary 5 (pos 10) 40 ≡ 5 + k * 10)
next_periodic_boundary_multiple_example =
    next_periodic_boundary_multiple 5 (pos 10) 40 (omega arith) (omega arith) (omega arith)
      (omega arith)

attempt_match_outcome_example :
    (match_found.deadline ≡ fill_deadline attempt)
    × ((match_found.outcome ≡ matched)
          × (match_found.retry_at ≡ none)
          × (40 ≤ fill_deadline attempt)
          × (select_room even_chances attempt.rooms newcomer 40 ≡ ok match_found.selection)
          × (match_found.selection ≢ none)
        ⊎ (match_found.outcome ≡ retry_scheduled)
          × (match_found.selection ≡ none)
          × (40 < fill_deadline attempt)
          × (select_room even_chances attempt.rooms newcomer 40 ≡ ok none)
          × (match_found.retry_at ≡ some (next_retry_boundary attempt (fill_deadline attempt)))
        ⊎ (match_found.outcome ≡ timed_out)
          × (match_found.selection ≡ none)
          × (match_found.retry_at ≡ none)
          × (fill_deadline attempt ≤ 40))
attempt_match_outcome_example = attempt_match_outcome even_chances attempt attempt_matches

attempt_match_retry_example :
    (40 < 45) × (45 ≤ fill_deadline lonely) × (later.outcome ≡ retry_scheduled)
attempt_match_retry_example =
    attempt_match_retry even_chances lonely (record { own = omega arith; of_rooms = tt })
      lonely_retries refl
