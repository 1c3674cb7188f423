-- ===== src/Ctrl/Real/Topics/Freshness.antt =====
-- drone_ctrl.c, PSDK_REAL: the age of a sample.
use psdk_orangepi.Prelude.{ℕ, ◌+◌, ◌-◌, ◌≤◌, ◌<◌, ◌≡◌, ◌≢◌, ◌↔◌, true, arith, leb}
use psdk_orangepi.Types.{Timespec}
use psdk_orangepi.Ctrl.Real.Topics.{TopicStats, Cell, monotonic_ms, topic_is_fresh, receive}

-- A topic is fresh exactly where a sample of it has been received, not later than now, and at most
-- the given age ago.
pub topic_is_fresh_iff :
    (now : Timespec) (stats : TopicStats) (max_age_ms : ℕ)
    → (topic_is_fresh now stats max_age_ms ≡ true) ↔ (
        (stats.last_update_ms ≢ 0)
        × (stats.last_update_ms ≤ monotonic_ms now)
        × (monotonic_ms now ≤ stats.last_update_ms + max_age_ms))
unfolding topic_is_fresh
topic_is_fresh_iff now stats max_age_ms = ground arith

-- Behind the callback with a sample that is whole, at a clock that has passed its first
-- millisecond, the topic is fresh at a later time exactly while the age does not pass the limit.
topic_is_fresh-receive :
    {A : Type 0} (size len : ℕ) (sample : A) (then_ now : Timespec) (max_age_ms : ℕ) (c : Cell A)
    → size ≤ len
    → 0 < monotonic_ms then_
    → monotonic_ms then_ ≤ monotonic_ms now
    → topic_is_fresh now (receive size len sample then_ c).stats max_age_ms
      ≡ leb (monotonic_ms now - monotonic_ms then_) max_age_ms
unfolding topic_is_fresh receive
topic_is_fresh-receive size len sample then_ now max_age_ms c h p q = ground arith
