-- ===== src/Tournament/Results.antt =====
-- internal/tournament/results.go: the commands on the results of a room, and what they are checked for.
use solitaire_matchmaking.Base.{
  ℕ, Bool, ◌||◌, Option, none, some, List, [], ◌∷◌, String, is_empty, contains, Result, ok, err,
  ◌>>◌, fail_if, wrap,
}
use solitaire_matchmaking.Base.Int.{ℤ, pos, ltb_ℤ, leb_ℤ}
use solitaire_matchmaking.Base.Time.{Time, is_zero, before}
use solitaire_matchmaking.Base.{str_lt, map}
use solitaire_matchmaking.Base.Sort.{sort}
use solitaire_matchmaking.Rating.Types
use solitaire_matchmaking.Rating.Types.{
  Features, MatchResult, ParticipantResult, validate_match_result,
}

pub data Error : Type 0 where
  conflict room_not_found room_not_collecting deadline_passed participants_mismatch : Error
  acceptance_before_availability : Error
  at_result : Types.Error → Error
  session_id_required : Error
  duplicate_session : String → Error
  at_features : String → Error → Error
  negative_feature : String → Error
  batch_size batch_time : Error
  encoding scan version_range room_not_completed : Error

abbrev pub max_result_deadline_batch_size : ℕ
max_result_deadline_batch_size = 256

pub record VerifiedParticipant : Type 0 where
  pub session_id : String
  pub player_id : String
  pub place : ℤ
  pub features : Features

pub record FinalizeResultCommand : Type 0 where
  pub event_id : String
  pub room_id : String
  pub mode_id : String
  pub deck_id : String
  pub scoring_rules_version : String
  pub finished_at : Time
  pub available_at : Time
  pub accepted_at : Time
  pub participants : List VerifiedParticipant

abbrev pub participant_result : VerifiedParticipant → ParticipantResult
participant_result p = record { player_id = p.player_id; place = p.place; features = p.features }

unfoldable pub match_result : FinalizeResultCommand → MatchResult
match_result c = record {
  event_id = c.event_id;
  room_id = c.room_id;
  mode_id = c.mode_id;
  deck_id = c.deck_id;
  scoring_rules_version = c.scoring_rules_version;
  finished_at = c.finished_at;
  available_at = c.available_at;
  participants = map participant_result c.participants;
}

-- The map of the source has no order; here it has the order in which it is written.
unfoldable pub validate_present : Features → Result Error (Unit {0})
validate_present f = do
  fail_if (Types.is_negative f.elapsed_millis) (negative_feature "elapsed_ms")
  fail_if (Types.is_negative f.moves) (negative_feature "moves")
  fail_if (Types.is_negative f.undo_moves) (negative_feature "undo_moves")
  fail_if (Types.is_negative f.revealed_cards) (negative_feature "revealed_cards")
  ok tt

-- The loop over the participants, with the set of the sessions before.
unfoldable pub validate_sessions : List String → List VerifiedParticipant → Result Error (Unit {0})
validate_sessions sessions [] = ok tt
validate_sessions sessions (p ∷ ps) =
    fail_if (is_empty p.session_id) session_id_required
    >> (fail_if (contains p.session_id sessions) (duplicate_session p.session_id)
        >> (wrap (at_features p.player_id) (validate_present p.features)
            >> validate_sessions (p.session_id ∷ sessions) ps))

unfoldable pub validate_finalize : FinalizeResultCommand → Result Error (Unit {0})
validate_finalize c = do
  fail_if (is_zero c.accepted_at || before c.accepted_at c.available_at)
      acceptance_before_availability
  wrap at_result (validate_match_result (match_result c))
  validate_sessions [] c.participants

abbrev pub by_player : VerifiedParticipant → VerifiedParticipant → Bool
by_player left right = str_lt left.player_id right.player_id

-- The struct that `RequestDigest` encodes.
pub record ResultIdentity : Type 0 where
  pub event_id : String
  pub room_id : String
  pub mode_id : String
  pub deck_id : String
  pub scoring_rules_version : String
  pub finished_at : Time
  pub available_at : Time
  pub participants : List VerifiedParticipant

-- SHA-256 over JSON is a parameter; `none` is a value that JSON cannot encode.
abbrev pub ResultDigest : Type 0
ResultDigest = ResultIdentity → Option String

abbrev pub or_encoding : Option String → Result Error String
or_encoding none = err encoding
or_encoding (some d) = ok d

unfoldable pub result_digest : ResultDigest → FinalizeResultCommand → Result Error String
result_digest sha256 c = do
  validate_finalize c
  or_encoding (
      sha256 (record {
        event_id = c.event_id;
        room_id = c.room_id;
        mode_id = c.mode_id;
        deck_id = c.deck_id;
        scoring_rules_version = c.scoring_rules_version;
        finished_at = c.finished_at;
        available_at = c.available_at;
        participants = sort by_player c.participants;
      }))

pub record FinalizedResult : Type 0 where
  pub result : MatchResult
  pub room_version : ℤ
  pub completed_at : Time
  pub rating_pending : Bool
  pub replay : Bool

pub record ResultDeadlineBatch : Type 0 where
  pub limit : ℤ
  pub expired_at : Time

unfoldable pub validate_batch : ResultDeadlineBatch → Result Error (Unit {0})
validate_batch b = do
  fail_if (leb_ℤ b.limit (pos 0) || ltb_ℤ (pos max_result_deadline_batch_size) b.limit) batch_size
  fail_if (is_zero b.expired_at) batch_time
  ok tt

pub record ExpiredRoom : Type 0 where
  pub room_id : String
  pub room_version : ℤ
  pub result_deadline : Time
  pub expired_at : Time

-- The repository behind `ResultService`; an error of its own is a value of `E`.
pub record ResultRepository (S E : Type 0) : Type 0 where
  pub finalize_result : S → FinalizeResultCommand → Result E FinalizedResult × S
  pub expire_result_rooms : S → ResultDeadlineBatch → Result E (List ExpiredRoom) × S

abbrev guarded :
    {S E A : Type 0} → (Error → E) → Result Error (Unit {0}) → S → Result E A × S → Result E A × S
guarded f (ok _) s r = r
guarded f (err e) s r = (err (f e), s)

module _ {S E : Type 0} (repository : ResultRepository S E) (invalid : Error → E) where
  unfoldable pub finalize : S → FinalizeResultCommand → Result E FinalizedResult × S
  finalize s c = guarded invalid (validate_finalize c) s (repository.finalize_result s c)

  unfoldable pub expire_due : S → ResultDeadlineBatch → Result E (List ExpiredRoom) × S
  expire_due s b = guarded invalid (validate_batch b) s (repository.expire_result_rooms s b)
