-- ===== src/Matchmaking/Policy/Window.antt =====
-- The skill window of `AllowedSkillGap`: what a valid policy gives it, its bounds and its growth.
use solitaire_matchmaking.Base.{◌≡◌, ◌⊎◌, inl, inr, refl, true, false, ◌||◌, ok, arith, Bool-cases}
use solitaire_matchmaking.Base.Int.{
  pos, leb_ℤ, eq_ℤ, quot, rem, ◌≤ℤ◌, ◌<ℤ◌, int_laws, quot-nonneg, quot-mono, one-le-quot, +ℤ_parts,
}
use solitaire_matchmaking.Base.Time.{Duration}
use solitaire_matchmaking.Base.Float.{Float, IsIeee, IsFinite, ◌≼◌}
use solitaire_matchmaking.Matchmaking.Policy.{
  Policy, validate, total_steps, elapsed_steps, allowed_skill_gap,
}

module _ {F : Type 0} ⦃fl : Float F⦄ where
  pub record IsValid (p : Policy F) : Type 0 where
    pub initial_finite : IsFinite p.initial_skill_gap
    pub max_finite : IsFinite p.max_skill_gap
    pub initial_nonneg : fl.lt p.initial_skill_gap fl.nought ≡ false
    pub gaps_ordered : fl.lt p.max_skill_gap p.initial_skill_gap ≡ false
    pub timeout_pos : pos 0 <ℤ p.fill_timeout
    pub interval_pos : pos 0 <ℤ p.expansion_interval
    pub interval_le : p.expansion_interval ≤ℤ p.fill_timeout
    pub priority_nonneg : pos 0 ≤ℤ p.age_priority_after
    pub priority_le : p.age_priority_after ≤ℤ p.fill_timeout
    pub candidates_pos : pos 0 <ℤ p.candidate_limit
    pub rooms_pos : pos 0 <ℤ p.room_limit

  pub validate-IsValid : (p : Policy F) → validate p ≡ ok tt → IsValid p
  unfolding validate
  validate-IsValid p h = ground arith

  total_pos : (p : Policy F) → IsValid p → pos 0 <ℤ total_steps p
  unfolding total_steps
  total_pos p v = elim (Bool-cases (eq_ℤ (rem p.fill_timeout p.expansion_interval) (pos 0))) [
    | inl e ↦ rw e (
        omega
          (int_laws, one-le-quot p.fill_timeout p.expansion_interval v.interval_pos v.interval_le))
    | inr e ↦ rw e (
        omega
          (int_laws, one-le-quot p.fill_timeout p.expansion_interval v.interval_pos v.interval_le))
  ]

  -- Within a valid policy the step counts are in order, so their quotient is a fraction.
  steps_ordered :
      (p : Policy F) (age : Duration)
      → IsValid p
      → pos 0 ≤ℤ age
      → (pos 0 ≤ℤ elapsed_steps p age)
        × (elapsed_steps p age ≤ℤ total_steps p)
        × (pos 0 <ℤ total_steps p)
  unfolding elapsed_steps
  steps_ordered p age v h = ground (
    arith,
    quot-nonneg age p.expansion_interval,
    total_pos p v,
    +ℤ_parts (quot p.fill_timeout p.expansion_interval) (pos 1),
  )

  elapsed_mono :
      (p : Policy F) (age later : Duration)
      → IsValid p
      → pos 0 ≤ℤ age
      → age ≤ℤ later
      → elapsed_steps p age ≤ℤ elapsed_steps p later
  unfolding elapsed_steps
  elapsed_mono p age later v h k = ground (arith, quot-mono age later p.expansion_interval)

  -- The fraction of the way from the initial to the maximal gap that an age has reached.
  progress : Policy F → Duration → F
  progress p age = fl.over (fl.of_ℤ (elapsed_steps p age)) (fl.of_ℤ (total_steps p))

  -- The code's value before the timeout, where the two gaps differ.
  window_at : Policy F → Duration → F
  unfolding progress
  window_at p age =
      fl.plus p.initial_skill_gap
        (fl.times (fl.minus p.max_skill_gap p.initial_skill_gap) (progress p age))

  allowed_cases :
      (p : Policy F) (age : Duration) {g : F}
      → allowed_skill_gap p age ≡ ok g
      → IsValid p
        × (pos 0 ≤ℤ age)
        × (((g ≡ p.max_skill_gap)
              × ((p.fill_timeout ≤ℤ age) ⊎ (fl.eq p.initial_skill_gap p.max_skill_gap ≡ true)))
            ⊎ ((g ≡ window_at p age)
                × (age <ℤ p.fill_timeout)
                × (fl.eq p.initial_skill_gap p.max_skill_gap ≡ false)))
  unfolding allowed_skill_gap window_at progress
  allowed_cases p age h = ground (arith, validate-IsValid p)

  module _ (ieee : IsIeee F) where
    open ieee use {
      finite-refl, le-refl, le_trans, lt-not-le, le_total, minus_nonneg, plus_grows, plus_mono,
      fraction, minus_finite, nought_finite, fraction_mono, scale,
    }

    gaps_le : (p : Policy F) → IsValid p → p.initial_skill_gap ≼ p.max_skill_gap
    gaps_le p v = ground (
      arith,
      lt-not-le p.max_skill_gap p.initial_skill_gap,
      finite-refl p.initial_skill_gap v.initial_finite,
      finite-refl p.max_skill_gap v.max_finite,
    )

    range-IsFinite :
        (p : Policy F) → IsValid p → IsFinite (fl.minus p.max_skill_gap p.initial_skill_gap)
    range-IsFinite p v =
        minus_finite p.initial_skill_gap p.max_skill_gap v.initial_finite v.max_finite
          (ground (
            arith,
            v.initial_nonneg,
            lt-not-le p.initial_skill_gap fl.nought,
            finite-refl p.initial_skill_gap v.initial_finite,
            finite-refl fl.nought nought_finite,
          ))
          (gaps_le p v)

    window_bounds :
        (p : Policy F) (age : Duration)
        → IsValid p
        → pos 0 ≤ℤ age
        → (p.initial_skill_gap ≼ window_at p age)
          × (window_at p age
              ≼ fl.plus p.initial_skill_gap (fl.minus p.max_skill_gap p.initial_skill_gap))
    unfolding window_at progress
    window_bounds p age v h =
        let (nonneg, le_total', pos_total) = steps_ordered p age v h in
        let (low, high) =
          fraction (elapsed_steps p age) (total_steps p) nonneg le_total' pos_total in
        let room =
          minus_nonneg p.initial_skill_gap p.max_skill_gap v.initial_finite v.max_finite
            (gaps_le p v) in
        let q = fl.over (fl.of_ℤ (elapsed_steps p age)) (fl.of_ℤ (total_steps p)) in
        let (grown, _, within) =
          scale _ q q (range-IsFinite p v) room low (le-refl _ _ low).1 high in
        (plus_grows _ _ v.initial_finite grown, plus_mono _ _ _ v.initial_finite grown within)

    window_mono :
        (p : Policy F) (age later : Duration)
        → IsValid p
        → pos 0 ≤ℤ age
        → age ≤ℤ later
        → window_at p age ≼ window_at p later
    unfolding window_at progress
    window_mono p age later v h k =
        let (nonneg, _, pos_total) = steps_ordered p age v h in
        let (nonneg', le_total', _) = steps_ordered p later v (omega arith) in
        let room =
          minus_nonneg p.initial_skill_gap p.max_skill_gap v.initial_finite v.max_finite
            (gaps_le p v) in
        let steps = elapsed_mono p age later v h k in
        let low =
          (fraction (elapsed_steps p age) (total_steps p) nonneg (omega arith) pos_total).0 in
        let high =
          (fraction (elapsed_steps p later) (total_steps p) nonneg' le_total' pos_total).1 in
        let (grown, larger, _) =
          scale _ _ _ (range-IsFinite p v) room low
            (fraction_mono _ _ _ nonneg steps le_total' pos_total) high in
        plus_mono _ _ _ v.initial_finite grown larger

    -- The window of a room that is younger than the fill timeout lies between the initial gap and
    -- the rounded sum of the initial gap and the difference of the two gaps, or is the maximal gap.
    pub allowed_skill_gap_bounds :
        (p : Policy F) (age : Duration) {g : F}
        → allowed_skill_gap p age ≡ ok g
        → (p.initial_skill_gap ≼ g)
          × ((g ≡ p.max_skill_gap)
              ⊎ (g ≼ fl.plus p.initial_skill_gap (fl.minus p.max_skill_gap p.initial_skill_gap)))
    allowed_skill_gap_bounds p age h =
        let (v, nonneg, cases) = allowed_cases p age h in
        elim cases [
          | inl (e, _) ↦ rw e (gaps_le p v, inl refl)
          | inr (e, _, _) ↦
              rw e ((window_bounds p age v nonneg).0, inr (window_bounds p age v nonneg).1)
        ]

    -- While a room is younger than the fill timeout its window never shrinks.
    pub allowed_skill_gap_mono :
        (p : Policy F) (age later : Duration) {g g' : F}
        → age ≤ℤ later
        → later <ℤ p.fill_timeout
        → allowed_skill_gap p age ≡ ok g
        → allowed_skill_gap p later ≡ ok g'
        → g ≼ g'
    allowed_skill_gap_mono p age later k l e e' =
        let (v, nonneg, first) = allowed_cases p age e in
        let (_, _, second) = allowed_cases p later e' in
        ground (
          arith,
          first,
          second,
          window_mono p age later v nonneg k,
          finite-refl p.max_skill_gap v.max_finite,
        )

  -- The window is defined for every valid policy and every age that is not negative, and from the
  -- fill timeout on it is the maximal gap.
  pub allowed_skill_gap_total :
      (p : Policy F) (age : Duration)
      → validate p ≡ ok tt
      → pos 0 ≤ℤ age
      → (g : F) × (allowed_skill_gap p age ≡ ok g)
        × ((age <ℤ p.fill_timeout) ⊎ (g ≡ p.max_skill_gap))
  unfolding allowed_skill_gap window_at progress
  allowed_skill_gap_total p age h k =
      elim (Bool-cases (leb_ℤ p.fill_timeout age || fl.eq p.initial_skill_gap p.max_skill_gap)) [
        | inl e ↦ (p.max_skill_gap, ground arith, inr refl)
        | inr e ↦ (window_at p age, ground arith, inl (ground arith))
      ]
