-- ===== src/Presence/Clock.antt =====
-- The times and durations of internal/agentstate/state.go, in nanoseconds.
use Prim.Native.Nat.{◌^◌}
use ac_cli.Prelude.{ℕ, ◌-◌, ◌*◌, Bool, ◌==◌, nat_eq, min}

abbrev pub Time : Type 0
Time = ℕ

-- time.Time.IsZero
abbrev pub is_zero : Time → Bool
is_zero t = t == 0

-- The largest Duration: `Sub` saturates there. Where `b` is later than `a` the source's result is
-- negative and this one is 0; the code only compares it with positive durations.
abbrev pub max_duration : ℕ
max_duration = 2 ^ 63 - 1

abbrev pub sub_time : Time → Time → ℕ
sub_time a b = min (a - b) max_duration

abbrev pub minute : ℕ
minute = 60_000_000_000

abbrev pub quiet_after : ℕ
quiet_after = 15 * minute

abbrev pub nudge_after : ℕ
nudge_after = 15 * minute

abbrev pub report_every : ℕ
report_every = 25 * minute
