-- ===== src/Tournament/Model.antt =====
-- internal/tournament/model.go: statuses, configurations, tickets, rooms and sessions.
use solitaire_matchmaking.Base.{
  not, ◌&&◌, ◌||◌, Option, String, is_empty, Result, ok, ◌>>◌, fail_if,
}
use solitaire_matchmaking.Base.Int.{ℤ, pos, ltb_ℤ, leb_ℤ, eq_ℤ}
use solitaire_matchmaking.Base.Time.{Time, Duration}
use solitaire_matchmaking.Rating.Types.{Estimate}

-- A status is a string of the source; `other` is one that is no constant.
pub data TicketStatus : Type 0 where
  queued assigned cancelled expired : TicketStatus
  other : String → TicketStatus

pub data RoomStatus : Type 0 where
  forming collecting completed expired cancelled : RoomStatus

pub data SessionStatus : Type 0 where
  allocated playing submitted forfeited : SessionStatus

pub data Error : Type 0 where
  config_identity config_capacity config_fee_or_timeout config_versions : Error

pub record Config : Type 0 where
  pub id : String
  pub version : String
  pub mode_id : String
  pub capacity : ℤ
  pub entry_fee_minor : ℤ
  pub currency : String
  pub scoring_rules_version : String
  pub settlement_version : String
  pub policy_version : String
  pub rating_model_version : String
  pub result_timeout : Duration

unfoldable pub validate_config : Config → Result Error (Unit {0})
validate_config c = do
  fail_if (is_empty c.id || is_empty c.version || is_empty c.mode_id || is_empty c.currency)
      config_identity
  fail_if
      (not (eq_ℤ c.capacity (pos 5))
        && not (eq_ℤ c.capacity (pos 6))
        && not (eq_ℤ c.capacity (pos 7)))
      config_capacity
  fail_if (ltb_ℤ c.entry_fee_minor (pos 0) || leb_ℤ c.result_timeout (pos 0)) config_fee_or_timeout
  fail_if
      (is_empty c.scoring_rules_version
        || is_empty c.settlement_version
        || is_empty c.policy_version
        || is_empty c.rating_model_version)
      config_versions
  ok tt

pub record Ticket (F : Type 0) : Type 0 where
  pub id : String
  pub entry_id : String
  pub player_id : String
  pub tournament_id : String
  pub tournament_version : String
  pub status : TicketStatus
  pub requested_at : Time
  pub assigned_at : Option Time
  pub cancelled_at : Option Time
  pub expired_at : Option Time
  pub snapshot_at : Time
  pub rating_snapshot : Estimate F
  pub aggregate_version : ℤ
