-- ===== src/Base/Time.antt =====
-- `time.Time` and `time.Duration` in nanoseconds. An instant is counted from Go's zero time, so
-- `IsZero` is `0`; the instants before it are not modelled. A duration is an `int64`.
use Prim.Native.Nat.{ℕ, ◌+◌, ◌-◌, ◌≤◌}
use mathlib.Core.Path.{◌≡◌}
use mathlib.Core.Bool.{Bool}
use native.Mathlib.Omega.{arith}
use solitaire_matchmaking.Base.Tests.{ltb, ◌==◌}
use solitaire_matchmaking.Base.Int.{ℤ, sub_ℕ, pos_part, neg_part, saturate_int64, max_int64}

abbrev pub Time : Type 0
Time = ℕ

abbrev pub Duration : Type 0
Duration = ℤ

abbrev pub is_zero : Time → Bool
is_zero t = t == 0

-- `t.Before(u)` and `t.After(u)`.
abbrev pub before : Time → Time → Bool
before t u = ltb t u

abbrev pub after : Time → Time → Bool
after t u = ltb u t

-- `t.Add(d)`.
abbrev pub add : Time → Duration → Time
add t d = t + pos_part d - neg_part d

-- `t.Sub(u)`, which saturates.
unfoldable pub since : Time → Time → Duration
since t u = saturate_int64 (sub_ℕ t u)

-- Between two instants in order the difference is exact up to the largest duration.
pub since-parts :
    (t u : Time)
    → u ≤ t
    → (neg_part (since t u) ≡ 0)
      × (pos_part (since t u) ≤ t - u)
      × (t - u ≤ max_int64 → pos_part (since t u) ≡ t - u)
unfolding since saturate_int64
since-parts t u h = ground arith
