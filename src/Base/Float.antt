-- ===== src/Base/Float.antt =====
-- `float64` is a parameter: the operations that the code applies, and the laws of IEEE 754 and of
-- package math that the proofs rely on.
pub mod Fixed
use mathlib.Core.Path.{◌≡◌, refl}
use mathlib.Core.Bool.{Bool, true, not, ◌&&◌}
use mathlib.Core.Logic.{◌⊎◌, inl, inr}
use solitaire_matchmaking.Base.Int.{ℤ, ◌≤ℤ◌, ◌<ℤ◌, pos}

pub record Float (F : Type 0) : Type 0 where
  -- not NaN and not infinite
  pub is_finite : F → Bool
  pub nought : F
  pub one : F
  -- 1e-9
  pub tolerance : F
  pub plus_inf : F
  pub minus_inf : F
  pub lt : F → F → Bool
  pub le : F → F → Bool
  pub eq : F → F → Bool
  pub plus : F → F → F
  pub minus : F → F → F
  pub times : F → F → F
  pub over : F → F → F
  -- math.Min, math.Max, math.Abs
  pub min : F → F → F
  pub max : F → F → F
  pub abs : F → F
  -- float64(n)
  pub of_ℤ : ℤ → F

-- `a <= b` in the code's arithmetic. A NaN stands in it with nothing, not even with itself.
infix 4 ◌≼◌
abbrev pub ◌≼◌ : {F : Type 0} ⦃fl : Float F⦄ → F → F → Type 0
◌≼◌ ⦃fl⦄ a b = fl.le a b ≡ true

abbrev pub IsFinite : {F : Type 0} ⦃fl : Float F⦄ → F → Type 0
IsFinite ⦃fl⦄ a = fl.is_finite a ≡ true

-- Rounding is monotone, so each operation is monotone wherever its result is a number.
pub record IsIeee (F : Type 0) ⦃fl : Float F⦄ : Type 0 where
  pub nought_finite : IsFinite fl.nought
  pub finite-refl : (a : F) → IsFinite a → a ≼ a
  pub le-refl : (a b : F) → a ≼ b → (a ≼ a) × (b ≼ b)
  pub le_trans : (a b c : F) → a ≼ b → b ≼ c → a ≼ c
  pub lt-not-le : (a b : F) → a ≼ a → b ≼ b → fl.lt a b ≡ not (fl.le b a)
  pub eq-le : (a b : F) → a ≼ a → b ≼ b → fl.eq a b ≡ fl.le a b && fl.le b a
  pub le_total : (a b : F) → a ≼ a → b ≼ b → (a ≼ b) ⊎ (b ≼ a)
  pub min_le : (a b : F) → IsFinite a → IsFinite b → (fl.min a b ≼ a) × (fl.min a b ≼ b)
  pub le_max : (a b : F) → IsFinite a → IsFinite b → (a ≼ fl.max a b) × (b ≼ fl.max a b)
  pub min_finite : (a b : F) → IsFinite a → IsFinite b → IsFinite (fl.min a b)
  pub max_finite : (a b : F) → IsFinite a → IsFinite b → IsFinite (fl.max a b)
  pub minus_mono :
      (a b c d : F)
      → IsFinite a
      → IsFinite b
      → IsFinite c
      → IsFinite d
      → a ≼ b
      → c ≼ d
      → fl.minus a d ≼ fl.minus b c
  pub minus_self : (a : F) → IsFinite a → fl.minus a a ≼ fl.nought
  pub minus_nonneg : (a b : F) → IsFinite a → IsFinite b → a ≼ b → fl.nought ≼ fl.minus b a
  -- between two numbers of one sign the difference does not overflow
  pub minus_finite :
      (a b : F) → IsFinite a → IsFinite b → fl.nought ≼ a → a ≼ b → IsFinite (fl.minus b a)
  pub plus_grows : (a b : F) → IsFinite a → fl.nought ≼ b → a ≼ fl.plus a b
  pub plus_mono : (a b c : F) → IsFinite a → fl.nought ≼ b → b ≼ c → fl.plus a b ≼ fl.plus a c
  -- a fraction in [0, 1]
  pub fraction :
      (m n : ℤ)
      → pos 0 ≤ℤ m
      → m ≤ℤ n
      → pos 0 <ℤ n
      → (fl.nought ≼ fl.over (fl.of_ℤ m) (fl.of_ℤ n)) × (fl.over (fl.of_ℤ m) (fl.of_ℤ n) ≼ fl.one)
  pub fraction_mono :
      (l m n : ℤ)
      → pos 0 ≤ℤ l
      → l ≤ℤ m
      → m ≤ℤ n
      → pos 0 <ℤ n
      → fl.over (fl.of_ℤ l) (fl.of_ℤ n) ≼ fl.over (fl.of_ℤ m) (fl.of_ℤ n)
  -- a finite non-negative number times fractions, in their order
  pub scale :
      (a p q : F)
      → IsFinite a
      → fl.nought ≼ a
      → fl.nought ≼ p
      → p ≼ q
      → q ≼ fl.one
      → (fl.nought ≼ fl.times a p) × (fl.times a p ≼ fl.times a q) × (fl.times a q ≼ a)
