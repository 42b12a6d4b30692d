-- ===== src/Matchmaking/Selector.antt =====
-- pkg/matchmaking/selector.go: the choice of one eligible room for one candidate.
pub mod Order
pub mod Gather
pub mod Choice
pub mod Best
use solitaire_matchmaking.Base.{
  ℕ, zero, suc, ◌+◌, ◌-◌, ◌*◌, ◌%◌, ◌≤◌, ◌<◌, ◌≡◌, ◌≢◌, ◌⊎◌, inl, inr, refl, Bool, true, false, not,
  ◌&&◌, ◌||◌, Option, none, some, List, [], ◌∷◌, ◌++◌, String, is_empty, str_eq, contains, length,
  ◌==◌, if◌then◌else◌, Result, ok, err, ◌>>=◌, ◌>>◌, fail_if, wrap, arith, Bool-cases, Option-cases,
  Result-cases, In, All, keep, Accepts, str_eq_refl, eq_iff,
}
use solitaire_matchmaking.Base.Int.{
  ℤ, pos, negsuc, ltb_ℤ, leb_ℤ, eq_ℤ, quot, rem, ◌+ℤ◌, ◌-ℤ◌, ◌≤ℤ◌, ◌<ℤ◌, pos_part, neg_part,
  wrap_int64, int_laws,
}
use solitaire_matchmaking.Base.Time.{Time, Duration, is_zero, before, after, add, since}
use solitaire_matchmaking.Base.Float.{Float, IsIeee, IsFinite, ◌≼◌}
use solitaire_matchmaking.Base.Sort.{sort}
use solitaire_matchmaking.Matchmaking.Policy.{
  Policy, Candidate, RoomView, Error, at_selected_room, room_batch, selection_scope, duplicate_room,
  at_room,
}
use solitaire_matchmaking.Matchmaking.Validation.{validate_room}
use solitaire_matchmaking.Matchmaking.Priority.{age_prioritized}
use solitaire_matchmaking.Matchmaking.Fairness.{Evaluator}
use solitaire_matchmaking.Matchmaking.Eligibility.{CandidateDecision, filter}

pub record RoomSelection (F : Type 0) : Type 0 where
  pub room_id : String
  pub room_version : ℤ
  pub members_before : ℕ
  pub capacity : ℤ
  pub age_priority : Bool
  pub decision : CandidateDecision F

pub record RoomOption (F : Type 0) : Type 0 where
  pub room : RoomView F
  pub decision : CandidateDecision F
  pub input_rank : ℕ

module _ {F : Type 0} ⦃fl : Float F⦄ where
  -- `p == q` on two policies, field by field.
  unfoldable pub policy_eq : Policy F → Policy F → Bool
  policy_eq p q =
      str_eq p.version q.version
      && str_eq p.rating_model_version q.rating_model_version
      && fl.eq p.initial_skill_gap q.initial_skill_gap
      && fl.eq p.max_skill_gap q.max_skill_gap
      && fl.eq p.max_win_probability_spread q.max_win_probability_spread
      && eq_ℤ p.expansion_interval q.expansion_interval
      && eq_ℤ p.fill_timeout q.fill_timeout
      && eq_ℤ p.age_priority_after q.age_priority_after
      && eq_ℤ p.candidate_limit q.candidate_limit
      && eq_ℤ p.room_limit q.room_limit
      && (if p.prefer_nearly_full then q.prefer_nearly_full else not q.prefer_nearly_full)

  unfoldable pub same_scope : RoomView F → RoomView F → Bool
  same_scope room reference =
      str_eq room.mode_id reference.mode_id
      && eq_ℤ room.capacity reference.capacity
      && policy_eq room.policy reference.policy

  -- The loop of `validateSelectionScope`, with the keys of the map `seen`.
  unfoldable pub check_scope :
      RoomView F → ℕ → List String → List (RoomView F) → Result Error (Unit {0})
  check_scope reference index seen [] = ok tt
  check_scope reference index seen (room ∷ rooms) =
      wrap (at_room index) (validate_room room)
      >> fail_if (not (same_scope room reference)) selection_scope
      >> fail_if (contains room.room_id seen) (duplicate_room room.room_id)
      >> check_scope reference (suc index) (room.room_id ∷ seen) rooms

  -- Only called with a room in the list.
  unfoldable pub validate_selection_scope : List (RoomView F) → Result Error (Unit {0})
  validate_selection_scope [] = ok tt
  validate_selection_scope (reference ∷ rooms) = check_scope reference 0 [] (reference ∷ rooms)

  -- The comparison below the age priority: the fuller room, the smaller gap, the input order.
  unfoldable pub compare_fill : RoomOption F → RoomOption F → ℤ
  compare_fill left right =
      if left.room.policy.prefer_nearly_full
        && not (length left.room.members == length right.room.members)
      then pos (length right.room.members) -ℤ pos (length left.room.members)
      else if left.room.policy.prefer_nearly_full
          && not (fl.eq left.decision.skill_gap right.decision.skill_gap)
      then (if fl.lt left.decision.skill_gap right.decision.skill_gap then negsuc 0 else pos 1)
      else pos left.input_rank -ℤ pos right.input_rank

  unfoldable pub compare_options : Time → RoomOption F → RoomOption F → ℤ
  compare_options now left right =
      if age_prioritized left.room now
      then (if age_prioritized right.room now
          then (if before left.room.created_at right.room.created_at
              then negsuc 0
              else if after left.room.created_at right.room.created_at
              then pos 1
              else compare_fill left right)
          else negsuc 0)
      else if age_prioritized right.room now
      then pos 1
      else compare_fill left right

  abbrev pub preferred : Time → RoomOption F → RoomOption F → Bool
  preferred now left right = ltb_ℤ (compare_options now left right) (pos 0)

  -- `decisions[0].Eligible`: one option for each room whose only decision is positive.
  abbrev pub option_of : RoomView F → ℕ → List (CandidateDecision F) → List (RoomOption F)
  option_of room index [] = []
  option_of room index (d ∷ ds) =
      if d.eligible then record { room = room; decision = d; input_rank = index } ∷ [] else []

  -- The loop of `SelectRoom` that gathers the options.
  unfoldable pub gather_options :
      Evaluator F → Candidate F → Time → ℕ → List (RoomView F) → Result Error (List (RoomOption F))
  gather_options e c now index [] = ok []
  gather_options e c now index (room ∷ rooms) = do
    decisions ← wrap (at_selected_room room.room_id) (filter e room (c ∷ []) now)
    rest ← gather_options e c now (suc index) rooms
    ok (option_of room index decisions ++ rest)

  abbrev pub selection_of : Time → RoomOption F → RoomSelection F
  selection_of now o = record {
    room_id = o.room.room_id;
    room_version = o.room.aggregate_version;
    members_before = length o.room.members;
    capacity = o.room.capacity;
    age_priority = age_prioritized o.room now;
    decision = o.decision;
  }

  -- `options[0]` of the sorted options, if there is one.
  abbrev pub select_first : Time → List (RoomOption F) → Option (RoomSelection F)
  select_first now [] = none
  select_first now (o ∷ os) = some (selection_of now o)

  unfoldable pub select_room :
      Evaluator F → List (RoomView F) → Candidate F → Time → Result Error (Option (RoomSelection F))
  select_room e [] c now = ok none
  select_room e (room ∷ rooms) c now = do
    validate_selection_scope (room ∷ rooms)
    fail_if (ltb_ℤ room.policy.room_limit (pos (length (room ∷ rooms)))) room_batch
    options ← gather_options e c now 0 (room ∷ rooms)
    ok (select_first now (sort (preferred now) options))
