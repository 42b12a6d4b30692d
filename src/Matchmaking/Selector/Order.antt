-- ===== src/Matchmaking/Selector/Order.antt =====
-- The comparison of `SelectRoom` is a strict weak order on the options of one selection.
use solitaire_matchmaking.Base.{
  ℕ, ◌≡◌, Bool, true, false, not, ◌&&◌, ◌||◌, length, if◌then◌else◌, ltb, arith,
}
use solitaire_matchmaking.Base.Int.{pos, ltb_ℤ, ◌-ℤ◌}
use solitaire_matchmaking.Base.Time.{Time, before}
use solitaire_matchmaking.Base.Float.{Float, IsIeee, ◌≼◌}
use solitaire_matchmaking.Matchmaking.Priority.{age_prioritized}
use solitaire_matchmaking.Matchmaking.Selector.{
  RoomOption, compare_fill, compare_options, preferred,
}

module _ {F : Type 0} ⦃fl : Float F⦄ where
  abbrev pub fills_before : RoomOption F → RoomOption F → Bool
  fills_before left right = ltb_ℤ (compare_fill left right) (pos 0)

  -- The options of one selection share a policy, and their gaps are numbers.
  pub record IsComparable (flag : Bool) (o : RoomOption F) : Type 0 where
    pub same_flag : o.room.policy.prefer_nearly_full ≡ flag
    pub gap_number : o.decision.skill_gap ≼ o.decision.skill_gap

  -- The smaller gap, and the input order between equal gaps.
  abbrev pub gap_before : F → F → ℕ → ℕ → Bool
  gap_before x y m n = if fl.eq x y then ltb m n else fl.lt x y

  -- `compare_fill` as a rule.
  pub fills_before_lem :
      (a b : RoomOption F)
      → fills_before a b ≡ (
          if a.room.policy.prefer_nearly_full
          then (if ltb (length b.room.members) (length a.room.members)
              then true
              else if ltb (length a.room.members) (length b.room.members)
              then false
              else gap_before a.decision.skill_gap b.decision.skill_gap a.input_rank b.input_rank)
          else ltb a.input_rank b.input_rank)
  unfolding compare_fill ◌-ℤ◌
  fills_before_lem a b = ground arith

  -- `compare_options` as a rule.
  pub preferred_lem :
      (now : Time) (a b : RoomOption F)
      → preferred now a b ≡ (
          if age_prioritized a.room now
          then (if age_prioritized b.room now
              then before a.room.created_at b.room.created_at
                || not (before b.room.created_at a.room.created_at) && fills_before a b
              else true)
          else not (age_prioritized b.room now) && fills_before a b)
  unfolding compare_options
  preferred_lem now a b = ground arith

module _ {F : Type 0} ⦃fl : Float F⦄ (ieee : IsIeee F) (flag : Bool) where
  open ieee use {lt-not-le, eq-le, le_trans, le_total}

  gap_asym :
      (x y : F) (m n : ℕ) → x ≼ x → y ≼ y → gap_before x y m n ≡ true → gap_before y x n m ≡ false
  gap_asym x y m n a b h =
      ground (arith, eq-le x y, eq-le y x, lt-not-le x y, lt-not-le y x, le_total x y)

  gap_step :
      (x y z : F) (l m n : ℕ)
      → x ≼ x
      → y ≼ y
      → z ≼ z
      → gap_before y x m l ≡ false
      → gap_before z y n m ≡ false
      → gap_before z x n l ≡ false
  gap_step x y z l m n a b c h k = ground (
    arith,
    eq-le y x,
    eq-le z y,
    eq-le z x,
    lt-not-le y x,
    lt-not-le z y,
    lt-not-le z x,
    le_trans x y z,
    le_trans z y x,
    le_trans y z x,
    le_trans z x y,
    le_trans y x z,
    le_trans x z y,
    le_total x y,
    le_total y z,
    le_total x z,
  )

  fill_asym :
      (a b : RoomOption F)
      → IsComparable flag a
      → IsComparable flag b
      → fills_before a b ≡ true
      → fills_before b a ≡ false
  fill_asym a b p q h = rw (fills_before_lem b a) (
      ground (
        arith,
        fills_before_lem a b,
        gap_asym a.decision.skill_gap b.decision.skill_gap a.input_rank b.input_rank,
      ))

  fill_step :
      (a b c : RoomOption F)
      → IsComparable flag a
      → IsComparable flag b
      → IsComparable flag c
      → fills_before b a ≡ false
      → fills_before c b ≡ false
      → fills_before c a ≡ false
  fill_step a b c p q r h k = rw (fills_before_lem c a) (
      ground (
        arith,
        fills_before_lem b a,
        fills_before_lem c b,
        gap_step a.decision.skill_gap b.decision.skill_gap c.decision.skill_gap a.input_rank
            b.input_rank c.input_rank,
      ))

  pub preferred_asym :
      (now : Time) (a b : RoomOption F)
      → IsComparable flag a
      → IsComparable flag b
      → preferred now a b ≡ true
      → preferred now b a ≡ false
  preferred_asym now a b p q h =
      rw (preferred_lem now b a) (ground (arith, preferred_lem now a b, fill_asym a b p q))

  pub preferred_step :
      (now : Time) (a b c : RoomOption F)
      → IsComparable flag a
      → IsComparable flag b
      → IsComparable flag c
      → preferred now b a ≡ false
      → preferred now c b ≡ false
      → preferred now c a ≡ false
  preferred_step now a b c p q r h k =
      rw (preferred_lem now c a)
        (ground (arith, preferred_lem now b a, preferred_lem now c b, fill_step a b c p q r))
