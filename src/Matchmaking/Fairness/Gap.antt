-- ===== src/Matchmaking/Fairness/Gap.antt =====
-- The skill gap of a room: how far the means of its members lie apart.
use solitaire_matchmaking.Base.{◌≡◌, inl, inr, refl, List, [], ◌∷◌, In, All}
use solitaire_matchmaking.Base.Float.{Float, IsIeee, IsFinite, ◌≼◌}
use solitaire_matchmaking.Base.{All-In}
use solitaire_matchmaking.Matchmaking.Policy.{Candidate}
use solitaire_matchmaking.Matchmaking.Fairness.{mean_span, skill_gap}

module _ {F : Type 0} ⦃fl : Float F⦄ (ieee : IsIeee F) where
  open ieee use {
    finite-refl, le_trans, min_le, le_max, min_finite, max_finite, minus_mono, minus_nonneg,
    minus_self, le-refl,
  }

  -- The running minimum and maximum bound the means seen so far and those to come.
  abbrev Between : F → F → Candidate F → Type 0
  Between low high c = IsFinite c.rating.mean × (low ≼ c.rating.mean) × (c.rating.mean ≼ high)

  span_lem :
      (low high : F) (cs : List (Candidate F))
      → IsFinite low
      → IsFinite high
      → All (λ c. IsFinite c.rating.mean) cs
      → (l : F) × (h : F) × IsFinite l
        × IsFinite h
        × (l ≼ low)
        × (high ≼ h)
        × All (Between l h) cs
        × (mean_span low high cs ≡ fl.minus h l)
  unfolding mean_span
  span_lem low high [] f g _ = (low, high, f, g, finite-refl low f, finite-refl high g, tt, refl)
  span_lem low high (c ∷ cs) f g (m, ms) =
      let x = c.rating.mean in
      let (l, h, lf, hf, ll, hh, rest, same) =
        span_lem (fl.min low x) (fl.max high x) cs (min_finite low x f m) (max_finite high x g m)
          ms in
      let (m₁, m₂) = min_le low x f m in
      let (m₃, m₄) = le_max high x g m in
      (
        l,
        h,
        lf,
        hf,
        le_trans l _ low ll m₁,
        le_trans high _ h m₃ hh,
        ((m, le_trans l _ x ll m₂, le_trans x _ h m₄ hh), rest),
        same,
      )

  -- The skill gap of a room is at least the difference of the means of any two of its members.
  pub skill_gap_bounds :
      (cs : List (Candidate F)) (a b : Candidate F)
      → All (λ c. IsFinite c.rating.mean) cs
      → In a cs
      → In b cs
      → fl.minus a.rating.mean b.rating.mean ≼ skill_gap cs
  unfolding skill_gap
  skill_gap_bounds [] a b f i j = absurd i
  skill_gap_bounds (c ∷ []) a b (f, _) (inl i) (inl j) = rw (i, j) (minus_self c.rating.mean f)
  skill_gap_bounds (c ∷ []) a b f (inr i) j = absurd i
  skill_gap_bounds (c ∷ []) a b f (inl i) (inr j) = absurd j
  skill_gap_bounds (c ∷ e ∷ cs) a b (f, fs) i j =
      let (l, h, lf, hf, ll, hh, rest, same) =
        span_lem c.rating.mean c.rating.mean (e ∷ cs) f f fs in
      let all : All (Between l h) (c ∷ e ∷ cs) = ((f, ll, hh), rest) in
      let (af, la, ah) = All-In (Between l h) (c ∷ e ∷ cs) a all i in
      let (bf, lb, bh) = All-In (Between l h) (c ∷ e ∷ cs) b all j in
      rw same (minus_mono a.rating.mean h l b.rating.mean af hf lf bf ah lb)

  -- The skill gap of finite means is a number.
  pub skill_gap_number :
      (cs : List (Candidate F))
      → fl.nought ≼ fl.nought
      → All (λ c. IsFinite c.rating.mean) cs
      → skill_gap cs ≼ skill_gap cs
  unfolding skill_gap
  skill_gap_number [] z f = z
  skill_gap_number (c ∷ []) z f = z
  skill_gap_number (c ∷ e ∷ cs) z (f, fs) =
      let (l, h, lf, hf, ll, hh, rest, same) =
        span_lem c.rating.mean c.rating.mean (e ∷ cs) f f fs in
      rw same (le-refl _ _ (minus_nonneg l h lf hf (le_trans l _ h ll hh))).1
