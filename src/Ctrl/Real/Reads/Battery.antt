-- ===== src/Ctrl/Real/Reads/Battery.antt =====
-- drone_ctrl.c, PSDK_REAL: the fall-back on the single batteries, beside a mean and a maximum over the
-- list of those that have been received.
use psdk_orangepi.Prelude.{
  ℕ, ◌+◌, ◌/◌, ◌≤◌, ◌≡◌, ◌≢◌, max, false, List, [], ◌∷◌, arith, length, All, if◌then◌else◌,
}
use psdk_orangepi.Prelude.Words.{to_u32}
use psdk_orangepi.Floating.{Floating}
use psdk_orangepi.Types.{Timespec, DroneTelemetry}
use psdk_orangepi.Ctrl.Real.{SingleBattery}
use psdk_orangepi.Ctrl.Real.Topics.{Cell, Real, topic_is_fresh}
use psdk_orangepi.Ctrl.Real.Reads.{received, telemetry_fallback, get_telemetry, get_battery_info}

-- The single batteries of which a sample has been received.
abbrev pub received_singles : {fp : Floating} → Real fp → List SingleBattery
received_singles r = keep r.single_1 (keep r.single_2 [])
  where
    keep : Cell SingleBattery → List SingleBattery → List SingleBattery
    keep c l = if received c then c.value ∷ l else l

abbrev pub percents : List SingleBattery → ℕ
percents [] = 0
percents (b ∷ bs) = b.battery_capacity_percent + percents bs

abbrev pub highest_voltage : List SingleBattery → ℕ
highest_voltage [] = 0
highest_voltage (b ∷ bs) = max (to_u32 b.current_voltage) (highest_voltage bs)

-- A percentage is one.
abbrev pub IsPercent : SingleBattery → Type 0
IsPercent b = b.battery_capacity_percent ≤ 100

module _ {fp : Floating} (r : Real fp) (out : DroneTelemetry fp) where
  fallback_pct :
      received_singles r ≢ []
      → All IsPercent (received_singles r)
      → (telemetry_fallback r out).battery_pct
        ≡ percents (received_singles r) / length (received_singles r)
  unfolding telemetry_fallback
  fallback_pct some_received percent = ground arith

  fallback_mv :
      received_singles r ≢ []
      → (telemetry_fallback r out).battery_mv ≡ highest_voltage (received_singles r)
  unfolding telemetry_fallback
  fallback_mv some_received = ground arith

module _ {fp : Floating} (now : Timespec) (r : Real fp) where
  -- Where the sample of the whole battery is not fresh and the single batteries received, at least
  -- one, show percentages, drone_get_telemetry of the real layer shows the mean of their charges
  -- and their highest voltage.
  pub get_telemetry-stale :
      topic_is_fresh now r.battery.stats 5000 ≡ false
      → received_singles r ≢ []
      → All IsPercent (received_singles r)
      → ((get_telemetry now r).1.battery_pct
          ≡ percents (received_singles r) / length (received_singles r))
        × ((get_telemetry now r).1.battery_mv ≡ highest_voltage (received_singles r))
  unfolding get_telemetry
  get_telemetry-stale stale some_received percent =
      rw (stale, get_telemetry)
        (fallback_pct r _ some_received percent, fallback_mv r _ some_received)

module _ {fp : Floating} (now : Timespec) (r : Real fp) where
  -- Where the samples show percentages, the charge in the telemetry and in the battery information
  -- of the real layer is at most 100, fresh or not.
  pub battery_pct-le :
      r.battery.value.percentage ≤ 100
      → All IsPercent (received_singles r)
      → ((get_telemetry now r).1.battery_pct ≤ 100)
        × ((get_battery_info now r).1.remaining_pct ≤ 100)
  battery_pct-le whole percent = (in_telemetry, in_info)
    where
      in_telemetry : (get_telemetry now r).1.battery_pct ≤ 100
      in_telemetry = unfold get_telemetry in ground arith

      in_info : (get_battery_info now r).1.remaining_pct ≤ 100
      in_info = unfold get_battery_info in ground arith
