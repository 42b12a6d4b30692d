-- ===== src/Rating/Types.antt =====
-- pkg/rating/types.go: estimates, verified observations and complete results, and what their
-- `Validate` methods accept. Each constructor of `Error` is one message of the source.
use solitaire_matchmaking.Base.{
  ℕ, Bool, false, not, ◌||◌, Option, none, some, List, [], ◌∷◌, String, is_empty, contains, length,
  Result, ok, ◌>>=◌, ◌>>◌, fail_if, wrap,
}
use solitaire_matchmaking.Base.Int.{ℤ, pos, ltb_ℤ, eq_ℤ}
use solitaire_matchmaking.Base.Time.{Time, is_zero, before}
use solitaire_matchmaking.Base.Float.{Float}

abbrev pub min_room_size : ℕ
min_room_size = 5

abbrev pub max_room_size : ℕ
max_room_size = 7

pub data Error : Type 0 where
  mean_or_uncertainty : Error
  performance_deviation_range : Error
  version_or_update_time : Error
  negative_elapsed : Error
  negative_moves : Error
  negative_undo_moves : Error
  negative_revealed_cards : Error
  result_identifiers : Error
  result_times : Error
  participant_count : Error
  participant_id : Error
  duplicate_player : String → Error
  place_outside_room : String → Error
  at_features : String → Error → Error
  no_winner : Error

pub record Estimate (F : Type 0) : Type 0 where
  pub mean : F
  pub uncertainty : F
  pub performance_deviation : Option F
  pub games : ℕ
  pub model_version : String
  pub updated_at : Time

abbrev deviation_invalid : {F : Type 0} ⦃fl : Float F⦄ → Option F → Bool
deviation_invalid none = false
deviation_invalid ⦃fl⦄ (some d) = not (fl.is_finite d) || fl.lt d fl.nought

unfoldable pub validate_estimate :
    {F : Type 0} ⦃fl : Float F⦄ → Estimate F → Result Error (Unit {0})
validate_estimate ⦃fl⦄ e = do
  fail_if
      (not (fl.is_finite e.mean)
        || not (fl.is_finite e.uncertainty)
        || fl.le e.uncertainty fl.nought)
      mean_or_uncertainty
  fail_if (deviation_invalid e.performance_deviation) performance_deviation_range
  fail_if (is_empty e.model_version || is_zero e.updated_at) version_or_update_time
  ok tt

pub record Features : Type 0 where
  pub score : Option ℤ
  pub elapsed_millis : Option ℤ
  pub completed : Option Bool
  pub moves : Option ℤ
  pub undo_moves : Option ℤ
  pub revealed_cards : Option ℤ

-- `v != nil && *v < 0`.
abbrev pub is_negative : Option ℤ → Bool
is_negative none = false
is_negative (some v) = ltb_ℤ v (pos 0)

unfoldable pub validate_features : Features → Result Error (Unit {0})
validate_features f = do
  fail_if (is_negative f.elapsed_millis) negative_elapsed
  fail_if (is_negative f.moves) negative_moves
  fail_if (is_negative f.undo_moves) negative_undo_moves
  fail_if (is_negative f.revealed_cards) negative_revealed_cards
  ok tt

pub record ParticipantResult : Type 0 where
  pub player_id : String
  pub place : ℤ
  pub features : Features

pub record MatchResult : Type 0 where
  pub event_id : String
  pub room_id : String
  pub mode_id : String
  pub deck_id : String
  pub scoring_rules_version : String
  pub finished_at : Time
  pub available_at : Time
  pub participants : List ParticipantResult

-- One pass of the loop of `MatchResult.Validate` over a room of `size` participants.
unfoldable pub validate_participant : ℕ → List String → ParticipantResult → Result Error (Unit {0})
validate_participant size players p = do
  fail_if (is_empty p.player_id) participant_id
  fail_if (contains p.player_id players) (duplicate_player p.player_id)
  fail_if (ltb_ℤ p.place (pos 1) || ltb_ℤ (pos size) p.place) (place_outside_room p.player_id)
  wrap (at_features p.player_id) (validate_features p.features)

-- The loop, with the map `players` and `hasWinner` as it goes; it returns the last `hasWinner`.
unfoldable pub validate_participants :
    ℕ → List String → Bool → List ParticipantResult → Result Error Bool
validate_participants size players has_winner [] = ok has_winner
validate_participants size players has_winner (p ∷ ps) =
    validate_participant size players p
    >> validate_participants size (p.player_id ∷ players) (has_winner || eq_ℤ p.place (pos 1)) ps

unfoldable pub validate_match_result : MatchResult → Result Error (Unit {0})
validate_match_result r = do
  fail_if
      (is_empty r.event_id
        || is_empty r.room_id
        || is_empty r.mode_id
        || is_empty r.deck_id
        || is_empty r.scoring_rules_version)
      result_identifiers
  fail_if (is_zero r.finished_at || is_zero r.available_at || before r.available_at r.finished_at)
      result_times
  fail_if
      (ltb_ℤ (pos (length r.participants)) (pos min_room_size)
        || ltb_ℤ (pos max_room_size) (pos (length r.participants)))
      participant_count
  has_winner ← validate_participants (length r.participants) [] false r.participants
  fail_if (not has_winner) no_winner
  ok tt
