-- ===== src/Clock.antt =====
-- The package `time` as the program uses it. An instant is the number of nanoseconds since Go's zero
-- time (January 1 of the year 1), so `IsZero` is a test for 0; a duration is a signed number of
-- nanoseconds.
use Prim.Native.Nat.{min}
use one_time_note.Base.{ℕ, suc, ◌+◌, ◌-◌, ◌*◌, ◌^◌, Bool, ltb, leb, ◌==◌, if◌then◌else◌}
use one_time_note.Base.Int.{ℤ, pos, negsuc}

abbrev pub Time : Type 0
Time = ℕ

abbrev pub Duration : Type 0
Duration = ℤ

abbrev pub second : ℕ
second = 1_000_000_000

abbrev pub minute : ℕ
minute = 60 * second

abbrev pub hour : ℕ
hour = 60 * minute

abbrev pub is_zero : Time → Bool
is_zero t = t == 0

abbrev pub before : Time → Time → Bool
before t u = ltb t u

abbrev pub after : Time → Time → Bool
after t u = ltb u t

abbrev pub add : Time → Duration → Time
add t (pos d) = t + d
add t (negsuc d) = t - suc d

-- `t.Sub(u)`, which stays at the least and the greatest duration where the difference is outside.
abbrev pub sub : Time → Time → Duration
sub t u = if leb u t then pos (min (t - u) (2 ^ 63 - 1)) else negsuc (min (u - t - 1) (2 ^ 63 - 1))
