-- ===== src/Base/Float/Fixed.antt =====
-- A number format in which the laws hold: thousandths without a sign, an infinity and a NaN. The
-- difference stops at 0. It serves the examples.
use Prim.Native.Nat.{ℕ, ◌+◌, ◌-◌, ◌*◌, ◌/◌, ◌≤◌, ◌<◌}
use mathlib.Core.Path.{refl}
use mathlib.Core.Bool.{Bool, true, false, not, ◌&&◌}
use native.Mathlib.Omega.{arith}
use solitaire_matchmaking.Base.Tests.{leb, if◌then◌else◌}
use solitaire_matchmaking.Base.Int.{pos_part}
use solitaire_matchmaking.Base.Float.{Float, IsIeee, IsFinite, ◌≼◌}

pub data Fixed : Type 0 where
  nan : Fixed
  inf : Fixed
  milli : ℕ → Fixed

abbrev pub le_fixed : Fixed → Fixed → Bool
le_fixed nan b = false
le_fixed inf inf = true
le_fixed inf b = false
le_fixed (milli a) nan = false
le_fixed (milli a) inf = true
le_fixed (milli a) (milli b) = leb a b

abbrev lt_fixed : Fixed → Fixed → Bool
lt_fixed a b = le_fixed a b && not (le_fixed b a)

abbrev on_finite : (ℕ → ℕ → ℕ) → Fixed → Fixed → Fixed
on_finite f (milli a) (milli b) = milli (f a b)
on_finite f nan b = nan
on_finite f a nan = nan
on_finite f _ _ = inf

abbrev min_fixed : Fixed → Fixed → Fixed
min_fixed nan b = nan
min_fixed inf b = b
min_fixed (milli a) nan = nan
min_fixed (milli a) inf = milli a
min_fixed (milli a) (milli b) = milli (if leb a b then a else b)

abbrev max_fixed : Fixed → Fixed → Fixed
max_fixed nan b = nan
max_fixed inf nan = nan
max_fixed inf b = inf
max_fixed (milli a) nan = nan
max_fixed (milli a) inf = inf
max_fixed (milli a) (milli b) = milli (if leb a b then b else a)

abbrev is_milli : Fixed → Bool
is_milli (milli a) = true
is_milli _ = false

instance abbrev pub fixed : Float Fixed
fixed = record {
  is_finite = is_milli;
  nought = milli 0;
  one = milli 1000;
  tolerance = milli 0;
  plus_inf = inf;
  minus_inf = milli 0;
  lt = lt_fixed;
  le = le_fixed;
  eq = λ a b. le_fixed a b && le_fixed b a;
  plus = on_finite (λ a b. a + b);
  minus = on_finite (λ a b. a - b);
  times = on_finite (λ a b. a * b / 1000);
  over = on_finite (λ a b. a * 1000 / b);
  min = min_fixed;
  max = max_fixed;
  abs = λ a. a;
  of_ℤ = λ n. milli (pos_part n);
}

ratio_le : (m n : ℕ) → m ≤ n → 0 < n → m * 1000 / n ≤ 1000
ratio_le m n h k = grind arith

ratio_mono : (l m n : ℕ) → l ≤ m → l * 1000 / n ≤ m * 1000 / n
ratio_mono l m n h = grind arith

product_mono : (a p q : ℕ) → p ≤ q → a * p / 1000 ≤ a * q / 1000
product_mono a p q h = grind arith

product_le : (a q : ℕ) → q ≤ 1000 → a * q / 1000 ≤ a
product_le a q h = grind arith

scale_fixed :
    (a p q : Fixed)
    → IsFinite a
    → milli 0 ≼ a
    → milli 0 ≼ p
    → p ≼ q
    → q ≼ milli 1000
    → (milli 0 ≼ fixed.times a p) × (fixed.times a p ≼ fixed.times a q) × (fixed.times a q ≼ a)
scale_fixed (milli a) (milli p) (milli q) f h k l m =
    (ground arith, ground (arith, product_mono a p q), ground (arith, product_le a q))
scale_fixed (milli a) nan q f h k l m = ground arith
scale_fixed (milli a) inf q f h k l m = ground arith
scale_fixed (milli a) (milli p) nan f h k l m = ground arith
scale_fixed (milli a) (milli p) inf f h k l m = ground arith
scale_fixed nan p q f h k l m = ground arith
scale_fixed inf p q f h k l m = ground arith

pub Fixed-IsIeee : IsIeee Fixed
Fixed-IsIeee = record {
  nought_finite = refl;
  finite-refl = λ a. ground arith;
  le-refl = λ a b. ground arith;
  le_trans = λ a b c. ground arith;
  lt-not-le = λ a b. ground arith;
  eq-le = λ a b. ground arith;
  le_total = λ a b. ground arith;
  min_le = λ a b. ground arith;
  le_max = λ a b. ground arith;
  min_finite = λ a b. ground arith;
  max_finite = λ a b. ground arith;
  minus_mono = λ a b c d. ground arith;
  minus_self = λ a. ground arith;
  minus_nonneg = λ a b. ground arith;
  minus_finite = λ a b. ground arith;
  plus_grows = λ a b. ground arith;
  plus_mono = λ a b c. ground arith;
  fraction = λ m n h k l. (ground arith, ground (arith, ratio_le (pos_part m) (pos_part n)));
  fraction_mono =
      λ l m n h k p q. ground (arith, ratio_mono (pos_part l) (pos_part m) (pos_part n));
  scale = scale_fixed;
}
