-- ===== src/Matchmaking/Priority.antt =====
-- pkg/matchmaking/priority.go: the order in which waiting rooms are served.
pub mod Order
use solitaire_matchmaking.Base.{
  ℕ, zero, suc, ◌+◌, ◌-◌, ◌*◌, ◌%◌, ◌≤◌, ◌<◌, ◌≡◌, ◌≢◌, ◌⊎◌, inl, inr, refl, Bool, true, false, not,
  ◌&&◌, ◌||◌, Option, none, some, List, [], ◌∷◌, ◌++◌, String, is_empty, str_eq, contains, length,
  if◌then◌else◌, Result, ok, err, ◌>>=◌, ◌>>◌, fail_if, wrap, arith, Bool-cases, Option-cases,
  Result-cases, In, All, keep, Accepts, str_eq_refl, eq_iff,
}
use solitaire_matchmaking.Base.Int.{
  ℤ, pos, negsuc, ltb_ℤ, leb_ℤ, eq_ℤ, quot, rem, ◌+ℤ◌, ◌-ℤ◌, ◌≤ℤ◌, ◌<ℤ◌, pos_part, neg_part,
  wrap_int64, int_laws,
}
use solitaire_matchmaking.Base.Time.{Time, Duration, is_zero, before, after, add, since}
use solitaire_matchmaking.Base.Float.{Float, IsIeee, IsFinite, ◌≼◌}
use solitaire_matchmaking.Base.Sort.{sort}
use solitaire_matchmaking.Matchmaking.Policy.{
  RoomView, Error, priority_time, room_not_active, at_room,
}
use solitaire_matchmaking.Matchmaking.Validation.{validate_room}

module _ {F : Type 0} where
  unfoldable pub age_prioritized : RoomView F → Time → Bool
  age_prioritized room evaluated_at =
      leb_ℤ room.policy.age_priority_after (since evaluated_at room.created_at)

  -- The comparison of `PrioritizeWaitingRooms`, as the sign that it returns.
  unfoldable pub compare_waiting : Time → RoomView F → RoomView F → ℤ
  compare_waiting now left right =
      if age_prioritized left now
      then (if age_prioritized right now
          then (if before left.created_at right.created_at
              then negsuc 0
              else if after left.created_at right.created_at
              then pos 1
              else pos 0)
          else negsuc 0)
      else if age_prioritized right now
      then pos 1
      else pos 0

  abbrev pub waits_before : Time → RoomView F → RoomView F → Bool
  waits_before now left right = ltb_ℤ (compare_waiting now left right) (pos 0)

module _ {F : Type 0} ⦃fl : Float F⦄ where
  -- The loop that checks the rooms from `index` on.
  unfoldable pub check_active : Time → ℕ → List (RoomView F) → Result Error (Unit {0})
  check_active now index [] = ok tt
  check_active now index (room ∷ rooms) =
      wrap (at_room index) (validate_room room)
      >> fail_if (before now room.created_at || after now room.deadline) (room_not_active index)
      >> check_active now (suc index) rooms

  unfoldable pub prioritize_waiting_rooms :
      List (RoomView F) → Time → Result Error (List (RoomView F))
  prioritize_waiting_rooms rooms now = do
    fail_if (is_zero now) priority_time
    check_active now 0 rooms
    ok (sort (waits_before now) rooms)
