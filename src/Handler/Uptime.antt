-- ===== src/Handler/Uptime.antt =====
-- handler.c: `uptime_ms`.
use psdk_orangepi.Prelude.{ℕ, ◌+◌, ◌-◌, ◌*◌, ◌/◌, ◌≤◌, ◌<◌, ◌≡◌, arith}
use psdk_orangepi.Types.{Timespec}
use psdk_orangepi.Handler.{elapsed_ms}

-- A reading of the clock as one number of nanoseconds.
abbrev pub nanoseconds : Timespec → ℕ
nanoseconds t = t.sec * 1_000_000_000 + t.nsec

-- What `clock_gettime` gives: a normalised reading, of a clock that counts for less than 2^50 s.
pub record IsReading (t : Timespec) : Type 0 where
  pub normal : t.nsec < 1_000_000_000
  pub small : t.sec < 1_125_899_906_842_624

-- For two normalised readings of the clock below 2^50 seconds, the second not before the first,
-- the uptime is their distance in whole milliseconds: neither the borrow from the seconds nor the
-- unsigned conversions lose anything.
pub elapsed_ms_lem :
    (start now : Timespec)
    → IsReading start
    → IsReading now
    → nanoseconds start ≤ nanoseconds now
    → elapsed_ms start now ≡ (nanoseconds now - nanoseconds start) / 1_000_000
unfolding elapsed_ms
elapsed_ms_lem start now s n h = ground arith
