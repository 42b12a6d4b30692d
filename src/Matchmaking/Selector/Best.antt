-- ===== src/Matchmaking/Selector/Best.antt =====
-- The selected room against every other room in which the candidate is eligible, criterion by criterion.
use solitaire_matchmaking.Base.{
  ◌≤◌, ◌≡◌, inl, inr, refl, Bool, true, false, Option, none, some, List, [], ◌∷◌, ok, arith,
  Bool-cases, In, All,
}
use solitaire_matchmaking.Base.Time.{Time}
use solitaire_matchmaking.Base.Float.{Float, IsIeee, ◌≼◌}
use solitaire_matchmaking.Base.Sort.{sort}
use solitaire_matchmaking.Base.{ok_injective, All-In, All-map, sym}
use solitaire_matchmaking.Base.Sort.{sort-All}
use solitaire_matchmaking.Matchmaking.Policy.{Candidate, RoomView}
use solitaire_matchmaking.Matchmaking.Priority.{age_prioritized}
use solitaire_matchmaking.Matchmaking.Fairness.{Evaluator}
use solitaire_matchmaking.Matchmaking.Eligibility.{CandidateDecision, filter}
use solitaire_matchmaking.Matchmaking.Selector.{
  RoomOption, RoomSelection, preferred, gather_options, selection_of, select_room,
}
use solitaire_matchmaking.Matchmaking.Selector.Order.{IsComparable, preferred_lem}
use solitaire_matchmaking.Matchmaking.Selector.Gather.{IsOption, gather_sound}
use solitaire_matchmaking.Base.{
  ℕ, ◌⊎◌, length, zero, suc, ◌+◌, ◌<◌, ◌≤◌, ltb, ◌==◌, not, ◌&&◌, ◌||◌, true, false, ap, ◌∙◌, sym,
  All-append,
}
use solitaire_matchmaking.Base.Int.{leb_ℤ}
use solitaire_matchmaking.Base.Time.{since}
use solitaire_matchmaking.Matchmaking.Selector.{option_of}
use solitaire_matchmaking.Matchmaking.Selector.Gather.{gather_parts}
use solitaire_matchmaking.Matchmaking.Selector.Order.{fills_before, fills_before_lem, gap_before}
use solitaire_matchmaking.Matchmaking.Selector.Choice.{choice_lem, option-IsComparable}

-- The element at a position.
abbrev pub get_elem? {ℓ} : {A : Type ℓ} → List A → ℕ → Option A
get_elem? [] n = none
get_elem? (x ∷ xs) zero = some x
get_elem? (x ∷ xs) (suc n) = get_elem? xs n

module _ {F : Type 0} ⦃fl : Float F⦄ where
  -- Past the age threshold of its policy.
  abbrev pub is_old : Time → RoomOption F → Bool
  is_old now o = leb_ℤ o.room.policy.age_priority_after (since now o.room.created_at)

  -- Both below their age threshold, or both past it and created at the same time.
  abbrev pub level : Time → RoomOption F → RoomOption F → Bool
  level now a b =
      not (is_old now a) && not (is_old now b)
      || is_old now a && is_old now b && (a.room.created_at == b.room.created_at)

  abbrev pub members : RoomOption F → ℕ
  members o = length o.room.members

  -- Why `a` is selected although `b` could be.
  pub data IsBetter (now : Time) (a b : RoomOption F) : Type 0 where
    aged : is_old now a ≡ true → is_old now b ≡ false → IsBetter now a b
    older :
        is_old now a ≡ true
        → is_old now b ≡ true
        → a.room.created_at < b.room.created_at
        → IsBetter now a b
    fuller :
        level now a b ≡ true
        → a.room.policy.prefer_nearly_full ≡ true
        → members b < members a
        → IsBetter now a b
    nearer :
        level now a b ≡ true
        → a.room.policy.prefer_nearly_full ≡ true
        → members a ≡ members b
        → fl.lt a.decision.skill_gap b.decision.skill_gap ≡ true
        → IsBetter now a b
    first :
        level now a b ≡ true
        → a.room.policy.prefer_nearly_full ≡ true
        → members a ≡ members b
        → fl.eq a.decision.skill_gap b.decision.skill_gap ≡ true
        → a.input_rank ≤ b.input_rank
        → IsBetter now a b
    first_plain :
        level now a b ≡ true
        → a.room.policy.prefer_nearly_full ≡ false
        → a.input_rank ≤ b.input_rank
        → IsBetter now a b

  -- The rank of an option is the position of its room.
  HasRank : List (RoomView F) → ℕ → RoomOption F → Type 0
  HasRank rooms i o = (n : ℕ) × (o.input_rank ≡ i + n) × (get_elem? rooms n ≡ some o.room)

  option-HasRank :
      (i : ℕ) (room : RoomView F) (rooms : List (RoomView F)) (d : CandidateDecision F)
      → All (HasRank (room ∷ rooms) i) (option_of room i (d ∷ []))
  unfolding HasRank
  option-HasRank i room rooms d = elim (Bool-cases d.eligible) [
    | inl e ↦ rw e ((0, omega arith, refl), tt)
    | inr e ↦ rw e tt
  ]

  later-HasRank :
      (i : ℕ) (room : RoomView F) (rooms : List (RoomView F)) (o : RoomOption F)
      → HasRank rooms (suc i) o
      → HasRank (room ∷ rooms) i o
  unfolding HasRank
  later-HasRank i room rooms o (n, e, at) = (suc n, omega (arith, e), at)

  gather-HasRank :
      (e : Evaluator F) (c : Candidate F) (now : Time) (i : ℕ) (rooms : List (RoomView F))
      {os : List (RoomOption F)}
      → gather_options e c now i rooms ≡ ok os
      → All (HasRank rooms i) os
  unfolding gather_options
  gather-HasRank e c now i [] h = rw (ok_injective (sym h)) tt
  gather-HasRank e c now i (room ∷ rooms) h =
      let (d, more, decided, gathered, same) = gather_parts e c now i room rooms h in
      rw same (
        All-append (HasRank (room ∷ rooms) i) (option_of room i (d ∷ [])) more
          (option-HasRank i room rooms d)
          (All-map (HasRank rooms (suc i)) (HasRank (room ∷ rooms) i) more
            (later-HasRank i room rooms) (gather-HasRank e c now (suc i) rooms gathered)))

module _ {F : Type 0} ⦃fl : Float F⦄ (ieee : IsIeee F) where
  open ieee use {lt-not-le, eq-le, le_total}

  gap_lem :
      (x y : F) (m n : ℕ)
      → x ≼ x
      → y ≼ y
      → gap_before y x n m ≡ false
      → (fl.lt x y ≡ true) ⊎ ((fl.eq x y ≡ true) × (m ≤ n))
  gap_lem x y m n a b h = elim (Bool-cases (fl.lt x y)) [
    | inl l ↦ inl l
    | inr l ↦ inr (
      ground (arith, eq-le x y, eq-le y x, lt-not-le x y, lt-not-le y x, le_total x y),
      ground (arith, eq-le x y, eq-le y x, lt-not-le x y, lt-not-le y x, le_total x y),
    )
  ]

  filled_lem :
      (now : Time) (a b : RoomOption F) (flag : Bool)
      → IsComparable flag a
      → IsComparable flag b
      → level now a b ≡ true
      → fills_before b a ≡ false
      → IsBetter now a b
  filled_lem now a b true p q l h = elim (Bool-cases (ltb (members b) (members a))) [
    | inl more ↦ fuller l p.same_flag (ground (arith, more))
    | inr few ↦
        let same : members a ≡ members b =
          ground (arith, fills_before_lem b a, p.same_flag, q.same_flag, few, h) in
        let tie : gap_before b.decision.skill_gap a.decision.skill_gap b.input_rank a.input_rank
            ≡ false =
          ground (arith, fills_before_lem b a, p.same_flag, q.same_flag, few, h, same) in
        elim (gap_lem a.decision.skill_gap b.decision.skill_gap a.input_rank b.input_rank
          p.gap_number q.gap_number tie) [
            | inl x ↦ nearer l p.same_flag same x
            | inr (x, y) ↦ first l p.same_flag same x y
          ]
  ]
  filled_lem now a b false p q l h =
      first_plain l p.same_flag (ground (arith, fills_before_lem b a, q.same_flag, h))

  better_lem :
      (now : Time) (a b : RoomOption F) (flag : Bool)
      → IsComparable flag a
      → IsComparable flag b
      → preferred now b a ≡ false
      → IsBetter now a b
  unfolding age_prioritized
  better_lem now a b flag p q h = elim (Bool-cases (is_old now a)) [
    | inr na ↦
        filled_lem now a b flag p q (ground (arith, preferred_lem now b a, na, h))
          (ground (arith, preferred_lem now b a, na, h))
    | inl ya ↦ elim (Bool-cases (is_old now b)) [
      | inr nb ↦ aged ya nb
      | inl yb ↦ elim (Bool-cases (ltb a.room.created_at b.room.created_at)) [
        | inl y ↦ older ya yb (ground (arith, y))
        | inr n ↦
            filled_lem now a b flag p q (ground (arith, preferred_lem now b a, ya, yb, n, h))
              (ground (arith, preferred_lem now b a, ya, yb, n, h))
      ]
    ]
  ]

  -- A selected room is one of the list in which the candidate is eligible, and the selection reports
  -- it. Against any room of the list in which the candidate is eligible it is past its age threshold
  -- when the other is not, or older when both are; and when they are level in that, and the policy
  -- prefers nearly full rooms, it has more members, or as many and the smaller skill gap, or also the
  -- same gap and no later a position in the list; when the policy does not, no later a position.
  pub select_room_best :
      (e : Evaluator F) (rooms : List (RoomView F)) (c : Candidate F) (now : Time)
      (room : RoomView F) (d : CandidateDecision F) {sel : RoomSelection F}
      → select_room e rooms c now ≡ ok (some sel)
      → In room rooms
      → filter e room (c ∷ []) now ≡ ok (d ∷ [])
      → d.eligible ≡ true
      → (chosen : RoomOption F) × (other : RoomOption F) × IsOption e c now rooms chosen
        × (sel ≡ selection_of now chosen)
        × (other.room ≡ room)
        × (other.decision ≡ d)
        × (get_elem? rooms chosen.input_rank ≡ some chosen.room)
        × (get_elem? rooms other.input_rank ≡ some room)
        × IsBetter now chosen other
  unfolding HasRank
  select_room_best e rooms c now room d h i f y =
      let (
        chosen, other, option, selected, a, b, best, os, gathered, in_sorted, in_os, flag, flags,
      ) =
        choice_lem ieee e rooms c now room d h i f y in
      let ranks = gather-HasRank e c now 0 rooms gathered in
      let (m, rank, at) =
        All-In (HasRank rooms 0) (sort (preferred now) os) chosen
          (sort-All (preferred now) (HasRank rooms 0) os ranks) in_sorted in
      let (n, rank', at') = All-In (HasRank rooms 0) os other ranks in_os in
      let is_m : chosen.input_rank ≡ m = omega (arith, rank) in
      let is_n : other.input_rank ≡ n = omega (arith, rank') in
      let known =
        All-In (IsOption e c now rooms) os other (gather_sound e c now 0 rooms gathered) in_os in
      (
        chosen,
        other,
        option,
        selected,
        a,
        b,
        ap (get_elem? rooms) is_m ∙ at,
        ap (get_elem? rooms) is_n ∙ at' ∙ ap some a,
        better_lem now chosen other flag
            (option-IsComparable ieee e c now rooms flag flags chosen option)
            (option-IsComparable ieee e c now rooms flag flags other known) best,
      )
