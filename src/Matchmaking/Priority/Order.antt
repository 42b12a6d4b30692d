-- ===== src/Matchmaking/Priority/Order.antt =====
-- The order of `PrioritizeWaitingRooms`: aged rooms first and oldest first, the others as they came.
use solitaire_matchmaking.Base.{
  ◌≡◌, Bool, true, false, not, leb, ◌&&◌, ◌||◌, List, [], ◌∷◌, ok, arith, All, keep,
}
use solitaire_matchmaking.Base.{All-map}
use solitaire_matchmaking.Base.Int.{leb_ℤ}
use solitaire_matchmaking.Base.Time.{Time, before, since}
use solitaire_matchmaking.Base.Float.{Float}
use solitaire_matchmaking.Base.Sort.{sort}
use mathlib.Core.List.{Perm}
use solitaire_matchmaking.Base.{ok}
use solitaire_matchmaking.Base.Sort.{IsSorted, sort-perm, sort-IsSorted, sort-stable}
use solitaire_matchmaking.Matchmaking.Policy.{RoomView}
use solitaire_matchmaking.Matchmaking.Priority.{
  age_prioritized, compare_waiting, waits_before, prioritize_waiting_rooms,
}

module _ {F : Type 0} where
  abbrev pub is_young : Time → RoomView F → Bool
  is_young now room = not (age_prioritized room now)

  waits_asym :
      (now : Time) (a b : RoomView F) → waits_before now a b ≡ true → waits_before now b a ≡ false
  unfolding compare_waiting
  waits_asym now a b h = ground arith

  waits_step :
      (now : Time) (a b c : RoomView F)
      → waits_before now b a ≡ false
      → waits_before now c b ≡ false
      → waits_before now c a ≡ false
  unfolding compare_waiting
  waits_step now a b c h k = ground arith

  young_tied :
      (now : Time) (a b : RoomView F)
      → is_young now a ≡ true
      → is_young now b ≡ true
      → waits_before now a b ≡ false
  unfolding compare_waiting
  young_tied now a b h k = ground arith

  -- `waits_before`, read as the rule: an aged room goes before a young one, and the older of two aged
  -- rooms before the other.
  pub waits_before_lem :
      (now : Time) (a b : RoomView F)
      → waits_before now a b
        ≡ age_prioritized a now && (not (age_prioritized b now) || before a.created_at b.created_at)
  unfolding compare_waiting
  waits_before_lem now a b = ground arith

  -- Past the age threshold of its policy.
  abbrev pub is_aged : Time → RoomView F → Bool
  is_aged now room = leb_ℤ room.policy.age_priority_after (since now room.created_at)

  -- `a` may be served before `b`: `b` is below its threshold, or both are past theirs and `a` was
  -- created no later.
  abbrev pub may_precede : Time → RoomView F → RoomView F → Bool
  may_precede now a b = not (is_aged now b) || is_aged now a && leb a.created_at b.created_at

  abbrev pub AreServed : Time → List (RoomView F) → Type 0
  AreServed now [] = Unit {0}
  AreServed now (r ∷ rs) = All (λ q. may_precede now r q ≡ true) rs × AreServed now rs

  may_precede_lem :
      (now : Time) (a b : RoomView F) → waits_before now b a ≡ false → may_precede now a b ≡ true
  unfolding compare_waiting age_prioritized
  may_precede_lem now a b h = ground arith

  IsSorted-AreServed :
      (now : Time) (rs : List (RoomView F)) → IsSorted (waits_before now) rs → AreServed now rs
  IsSorted-AreServed now [] h = tt
  IsSorted-AreServed now (r ∷ rs) (h, hs) = (
    All-map (λ q. waits_before now q r ≡ false) (λ q. may_precede now r q ≡ true) rs
        (λ q e. may_precede_lem now r q e) h,
    IsSorted-AreServed now rs hs,
  )

module _ {F : Type 0} ⦃fl : Float F⦄ where
  -- A successful ordering holds the same rooms. The rooms past their age threshold stand before all
  -- others, from the oldest to the youngest, and the rooms below their threshold in the order of the
  -- input.
  pub prioritize_waiting_rooms_order :
      (rooms : List (RoomView F)) (now : Time) {ordered : List (RoomView F)}
      → prioritize_waiting_rooms rooms now ≡ ok ordered
      → Perm ordered rooms
        × AreServed now ordered
        × (keep (λ r. not (is_aged now r)) ordered ≡ keep (λ r. not (is_aged now r)) rooms)
  unfolding prioritize_waiting_rooms age_prioritized
  prioritize_waiting_rooms_order rooms now {ordered} h =
      let same : ordered ≡ sort (waits_before now) rooms = ground arith in
      rw same (
        sort-perm (waits_before now) rooms,
        IsSorted-AreServed now (sort (waits_before now) rooms) (
            sort-IsSorted (waits_before now) (λ _. Unit {0}) (λ a b _ _. waits_asym now a b)
              (λ a b c _ _ _. waits_step now a b c) rooms (trivially rooms)),
        sort-stable (waits_before now) (is_young now) (young_tied now) rooms,
      )
    where
      trivially : (xs : List (RoomView F)) → All (λ _. Unit {0}) xs
      trivially [] = tt
      trivially (x ∷ xs) = (tt, trivially xs)
