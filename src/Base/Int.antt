-- ===== src/Base/Int.antt =====
-- Signed integers over the native numbers: Go's `int`, `int64` and `time.Duration` values.
use Prim.Native.Nat.{ℕ, suc, ◌+◌, ◌-◌, ◌*◌, ◌/◌, ◌%◌, ◌≤◌, ◌<◌}
use mathlib.Core.Path.{◌≡◌, sym}
use mathlib.Core.Bool.{Bool, ◌&&◌}
use mathlib.Core.Logic.{◌⊎◌}
use native.Mathlib.Nat.{div-add-mod', add-zero}
use native.Mathlib.Omega.{arith}
use solitaire_matchmaking.Base.Tests.{ltb, leb, ◌==◌, if◌then◌else◌}

-- `negsuc n` is -(n + 1).
pub data ℤ : Type 0 where
  pos : ℕ → ℤ
  negsuc : ℕ → ℤ

abbrev pub pos_part : ℤ → ℕ
pos_part (pos n) = n
pos_part (negsuc n) = 0

abbrev pub neg_part : ℤ → ℕ
neg_part (pos n) = 0
neg_part (negsuc n) = suc n

abbrev pub sub_ℕ : ℕ → ℕ → ℤ
sub_ℕ a b = if leb b a then pos (a - b) else negsuc (b - a - 1)

infixl 65 ◌+ℤ◌ ◌-ℤ◌
infix 50 ◌≤ℤ◌ ◌<ℤ◌
unfoldable pub ◌+ℤ◌ : ℤ → ℤ → ℤ
a +ℤ b = sub_ℕ (pos_part a + pos_part b) (neg_part a + neg_part b)

unfoldable pub ◌-ℤ◌ : ℤ → ℤ → ℤ
a -ℤ b = sub_ℕ (pos_part a + neg_part b) (neg_part a + pos_part b)

abbrev pub ◌≤ℤ◌ : ℤ → ℤ → Type 0
a ≤ℤ b = pos_part a + neg_part b ≤ pos_part b + neg_part a

abbrev pub ◌<ℤ◌ : ℤ → ℤ → Type 0
a <ℤ b = pos_part a + neg_part b < pos_part b + neg_part a

abbrev pub ltb_ℤ : ℤ → ℤ → Bool
ltb_ℤ a b = ltb (pos_part a + neg_part b) (pos_part b + neg_part a)

abbrev pub leb_ℤ : ℤ → ℤ → Bool
leb_ℤ a b = leb (pos_part a + neg_part b) (pos_part b + neg_part a)

abbrev pub eq_ℤ : ℤ → ℤ → Bool
eq_ℤ a b = (pos_part a == pos_part b) && (neg_part a == neg_part b)

-- Go's `/` and `%`: the quotient is truncated towards zero, the remainder has the sign of the
-- dividend.
unfoldable pub quot : ℤ → ℤ → ℤ
quot (pos a) (pos b) = pos (a / b)
quot (pos a) (negsuc b) = sub_ℕ 0 (a / suc b)
quot (negsuc a) (pos b) = sub_ℕ 0 (suc a / b)
quot (negsuc a) (negsuc b) = pos (suc a / suc b)

unfoldable pub rem : ℤ → ℤ → ℤ
rem (pos a) b = pos (a % (pos_part b + neg_part b))
rem (negsuc a) b = sub_ℕ 0 (suc a % (pos_part b + neg_part b))

-- `int64`: the bounds, and the value that a sum or difference of two `int64` is stored as.
abbrev pub max_int64 : ℕ
max_int64 = 9223372036854775807

abbrev pub two_64 : ℕ
two_64 = 18446744073709551616

abbrev pub IsInt64 : ℤ → Type 0
IsInt64 a = (pos_part a ≤ max_int64) × (neg_part a ≤ suc max_int64)

unfoldable pub wrap_int64 : ℤ → ℤ
wrap_int64 (pos n) = if leb n max_int64 then pos n else sub_ℕ n two_64
wrap_int64 (negsuc n) = if leb n max_int64 then negsuc n else sub_ℕ two_64 (suc n)

-- Clamped to the range, as `Time.Sub` does.
unfoldable pub saturate_int64 : ℤ → ℤ
saturate_int64 (pos n) = if leb n max_int64 then pos n else pos max_int64
saturate_int64 (negsuc n) = if leb n max_int64 then negsuc n else negsuc max_int64

pub wrap_int64-eq : (a : ℤ) → IsInt64 a → wrap_int64 a ≡ a
unfolding wrap_int64
wrap_int64-eq (pos n) h = ground arith
wrap_int64-eq (negsuc n) h = ground arith

div_mono : (a b c : ℕ) → a ≤ b → a / c ≤ b / c
div_mono a b c h = grind arith

div_pos : (a c : ℕ) → 0 < c → c ≤ a → 1 ≤ a / c
div_pos a c h k = grind arith

mod_below : (a c : ℕ) → 0 < c → a % c < c
mod_below a c h = grind arith

div_mod_add : (a c : ℕ) → a ≡ a / c * c + a % (c + 0)
div_mod_add a c = rw add-zero (sym (div-add-mod' a c))

-- Division of a non-negative number by a positive one, where the code divides.
pub quot-nonneg : (a c : ℤ) → pos 0 ≤ℤ a → pos 0 <ℤ c → pos 0 ≤ℤ quot a c
unfolding quot
quot-nonneg (pos a) (pos c) h k = omega arith
quot-nonneg (pos a) (negsuc c) h k = absurd (omega arith)
quot-nonneg (negsuc a) c h k = absurd (omega arith)

pub quot-mono : (a b c : ℤ) → pos 0 ≤ℤ a → a ≤ℤ b → pos 0 <ℤ c → quot a c ≤ℤ quot b c
unfolding quot
quot-mono (pos a) (pos b) (pos c) h k l = omega (arith, div_mono a b c (omega arith))
quot-mono (pos a) (negsuc b) c h k l = absurd (omega arith)
quot-mono (pos a) (pos b) (negsuc c) h k l = absurd (omega arith)
quot-mono (negsuc a) b c h k l = absurd (omega arith)

pub one-le-quot : (a c : ℤ) → pos 0 <ℤ c → c ≤ℤ a → pos 1 ≤ℤ quot a c
unfolding quot
one-le-quot (pos a) (pos c) h k = omega (arith, div_pos a c (omega arith) (omega arith))
one-le-quot (negsuc a) (pos c) h k = absurd (omega arith)
one-le-quot a (negsuc c) h k = absurd (omega arith)

pub rem_bounds : (a c : ℤ) → pos 0 ≤ℤ a → pos 0 <ℤ c → (pos 0 ≤ℤ rem a c) × (rem a c <ℤ c)
unfolding rem
rem_bounds (pos a) (pos c) h k = (omega arith, omega (arith, mod_below a c (omega arith)))
rem_bounds (pos a) (negsuc c) h k = absurd (omega arith)
rem_bounds (negsuc a) c h k = absurd (omega arith)

pub +ℤ_parts :
    (a b : ℤ)
    → pos_part (a +ℤ b) + neg_part a + neg_part b ≡ neg_part (a +ℤ b) + pos_part a + pos_part b
unfolding ◌+ℤ◌
+ℤ_parts a b = ground arith

pub -ℤ_parts :
    (a b : ℤ)
    → pos_part (a -ℤ b) + neg_part a + pos_part b ≡ neg_part (a -ℤ b) + pos_part a + neg_part b
unfolding ◌-ℤ◌
-ℤ_parts a b = ground arith

pub eq_of_parts : (a b : ℤ) → pos_part a + neg_part b ≡ pos_part b + neg_part a → a ≡ b
eq_of_parts a b h = ground arith

pub ruleset int_laws = (arith, +ℤ_parts, -ℤ_parts, eq_of_parts)

pub one_sign : (a : ℤ) → (pos_part a ≡ 0) ⊎ (neg_part a ≡ 0)
one_sign a = ground arith

-- The two parts of a quotient and a remainder of a non-negative number by a positive one.
pub div_rem :
    (a c : ℤ)
    → pos 0 ≤ℤ a
    → pos 0 <ℤ c
    → (q : ℕ) × (pos_part a ≡ q * pos_part c + pos_part (rem a c))
unfolding rem
div_rem (pos a) (pos c) h k = (a / c, div_mod_add a c)
div_rem (pos a) (negsuc c) h k = absurd (omega arith)
div_rem (negsuc a) c h k = absurd (omega arith)
