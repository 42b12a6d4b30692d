-- ===== src/Matchmaking/Validation.antt =====
-- pkg/matchmaking/validation.go: what a candidate and a room view must be.
pub mod WellFormed
use solitaire_matchmaking.Base.{
  ℕ, zero, suc, ◌+◌, ◌≡◌, refl, Bool, true, false, not, ◌&&◌, ◌||◌, Option, none, some, List, [],
  ◌∷◌, String, is_empty, str_eq, contains, length, if◌then◌else◌, Result, ok, err, ◌>>=◌, ◌>>◌,
  fail_if, wrap, arith,
}
use solitaire_matchmaking.Base.Int.{ℤ, pos, ltb_ℤ}
use solitaire_matchmaking.Base.Time.{Time, Duration, is_zero, before, after, add}
use solitaire_matchmaking.Base.Float.{Float}
use solitaire_matchmaking.Rating.Types.{validate_estimate, min_room_size, max_room_size}
use solitaire_matchmaking.Matchmaking.Policy.{
  Policy, Candidate, RoomView, Error, candidate_ids, candidate_times, at_candidate_rating,
  rating_after_snapshot, room_ids, room_version, room_capacity, room_times, too_many_members,
  at_room_policy, deadline_after_timeout, at_room_member, member_after_deadline, member_model,
  duplicate_ticket, duplicate_player,
}
use solitaire_matchmaking.Matchmaking.Policy

module _ {F : Type 0} ⦃fl : Float F⦄ where
  unfoldable pub validate_candidate : Candidate F → Result Error (Unit {0})
  validate_candidate c = do
    fail_if (is_empty c.ticket_id || is_empty c.player_id) candidate_ids
    fail_if (is_zero c.joined_at || is_zero c.snapshot_at || after c.snapshot_at c.joined_at)
        candidate_times
    wrap at_candidate_rating (validate_estimate c.rating)
    fail_if (after c.rating.updated_at c.snapshot_at) rating_after_snapshot
    ok tt

  -- One pass of the loop over the members, with the keys of the maps `tickets` and `players`.
  unfoldable pub validate_member :
      RoomView F → ℕ → List String → List String → Candidate F → Result Error (Unit {0})
  validate_member r index tickets players m = do
    wrap (at_room_member index) (validate_candidate m)
    fail_if (after m.snapshot_at r.deadline) (member_after_deadline m.player_id)
    fail_if (not (str_eq m.rating.model_version r.policy.rating_model_version))
        (member_model m.player_id)
    fail_if (contains m.ticket_id tickets) (duplicate_ticket m.ticket_id)
    fail_if (contains m.player_id players) (duplicate_player m.player_id)
    ok tt

  unfoldable pub validate_members :
      RoomView F → ℕ → List String → List String → List (Candidate F) → Result Error (Unit {0})
  validate_members r index tickets players [] = ok tt
  validate_members r index tickets players (m ∷ ms) =
      validate_member r index tickets players m
      >> validate_members r (suc index) (m.ticket_id ∷ tickets) (m.player_id ∷ players) ms

  unfoldable pub validate_room : RoomView F → Result Error (Unit {0})
  validate_room r = do
    fail_if (is_empty r.room_id || is_empty r.mode_id) room_ids
    fail_if (ltb_ℤ r.aggregate_version (pos 0)) room_version
    fail_if (ltb_ℤ r.capacity (pos min_room_size) || ltb_ℤ (pos max_room_size) r.capacity)
        room_capacity
    fail_if (is_zero r.created_at || is_zero r.deadline || not (after r.deadline r.created_at))
        room_times
    fail_if (ltb_ℤ r.capacity (pos (length r.members))) too_many_members
    wrap at_room_policy (Policy.validate r.policy)
    fail_if (after r.deadline (add r.created_at r.policy.fill_timeout)) deadline_after_timeout
    validate_members r 0 [] [] r.members
