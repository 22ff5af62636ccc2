-- ===== src/Prelude/Time.antt =====
-- Go's time.Time and time.Duration: an instant is its nanoseconds after the zero Time (`IsZero` is
-- 0), a duration is a signed count of nanoseconds.
use Prim.Native.Nat.{ℕ, ◌+◌, ◌-◌, ◌^◌, min}
use mathlib.Core.Bool.{Bool}
use orchids_2api.Prelude.Tests.{ltb, leb, ◌==◌, if◌then◌else◌}
use orchids_2api.Prelude.Int.{ℤ, pos, negsuc, pos_part, neg_part}

abbrev pub Time : Type 0
Time = ℕ

abbrev pub Duration : Type 0
Duration = ℤ

abbrev pub is_zero : Time → Bool
is_zero t = t == 0

-- t.After(u) and t.Before(u).
abbrev pub after : Time → Time → Bool
after t u = ltb u t

abbrev pub before : Time → Time → Bool
before t u = ltb t u

-- t.Add(d).
abbrev pub add : Time → Duration → Time
add t d = t + pos_part d - neg_part d

-- t.Sub(u), which saturates at the range of an int64.
abbrev pub sub : Time → Time → Duration
sub t u = if leb u t then pos (min (t - u) (2 ^ 63 - 1)) else negsuc (min (u - t - 1) (2 ^ 63 - 1))

abbrev pub second : ℕ
second = 1_000_000_000

abbrev pub minute : ℕ
minute = 60_000_000_000

abbrev pub hour : ℕ
hour = 3_600_000_000_000
