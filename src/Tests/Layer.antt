-- ===== src/Tests/Layer.antt =====
-- The drone control layer on small inputs.
use psdk_orangepi.Prelude.{◌≤◌, ◌<◌, ◌≡◌, ◌≢◌, ◌↔◌, refl, false, List, [], ◌∷◌, arith, All}
use psdk_orangepi.Prelude.Int.{pos, negsuc}
use psdk_orangepi.Prelude.Text.{Bytes, codes}
use psdk_orangepi.Types.{ok}
use psdk_orangepi.Ctrl.Real.{SdkCall, success}
use psdk_orangepi.Ctrl.Real.Topics.{topic_is_fresh, make_call}
use psdk_orangepi.Ctrl.Real.Reads.{get_telemetry, get_battery_info, add_first, add_second, set_mean}
use psdk_orangepi.Prelude.Words.{to_u32, add_i32}
use psdk_orangepi.Ctrl.Real.Reads.Battery.{get_telemetry-stale, battery_pct-le}
use psdk_orangepi.Ctrl.Real.Reads.BatteryInfo.{Shown, get_battery_info_lem}
use psdk_orangepi.Ctrl.Real.Writes.{set_obstacle_avoidance}
use psdk_orangepi.Ctrl.Real.Writes.Avoidance.{Switches, avoidance_inverted}
use psdk_orangepi.Ctrl.Real.Waypoint.{ensure_waypoint_v3_ready, upload_kmz}
use psdk_orangepi.Ctrl.Real.Waypoint.Upload.{
  Readable, StoresPast, upload_kmz-StoresPast, SameHeld, upload_kmz-SameHeld, upload_kmz-ok,
}
use psdk_orangepi.Tests.Fixtures.{fixed, willing, singles, second_one}

abbrev pub a_kmz : Bytes
a_kmz = codes "/home/orangepi/PSDK/kmz_data/a.kmz"

-- Over the willing SDK an upload succeeds, with the file as its last call.
upload_runs : (upload_kmz willing a_kmz singles).0 ≡ ok
unfolding upload_kmz make_call
upload_runs = refl

upload_kmz-SameHeld_example : SameHeld fixed singles (upload_kmz willing a_kmz singles).1
upload_kmz-SameHeld_example = upload_kmz-SameHeld willing a_kmz singles

upload_kmz-ok_example : ((upload_kmz willing (b'a' ∷ []) singles).0 ≡ ok) ↔ (
    ((ensure_waypoint_v3_ready willing singles).0 ≡ ok)
    × Readable (willing.file_io (b'a' ∷ []) [])
    × (success ≡ success))
upload_kmz-ok_example = upload_kmz-ok willing b'a' [] singles (omega arith)

whole_stale : topic_is_fresh second_one singles.battery.stats 5000 ≡ false
unfolding topic_is_fresh
whole_stale = refl

get_telemetry-stale_example :
    ((get_telemetry second_one singles).1.battery_pct ≡ 50)
    × ((get_telemetry second_one singles).1.battery_mv ≡ 14588)
unfolding to_u32
get_telemetry-stale_example =
    get_telemetry-stale second_one singles whole_stale (λ e. cc) (omega arith)

battery_pct-le_example :
    ((get_telemetry second_one singles).1.battery_pct ≤ 100)
    × ((get_battery_info second_one singles).1.remaining_pct ≤ 100)
battery_pct-le_example = battery_pct-le second_one singles (omega arith) (omega arith)

get_battery_info_lem_example : Shown second_one singles (get_battery_info second_one singles).1
get_battery_info_lem_example =
    get_battery_info_lem second_one singles (omega arith) (omega arith) (omega arith)

shows_old_current : (get_battery_info second_one singles).1.current_ma ≡ negsuc 4199
unfolding get_battery_info add_first add_second set_mean add_i32 to_u32 topic_is_fresh
shows_old_current = refl

upload_kmz-StoresPast_example :
    let ready = ensure_waypoint_v3_ready willing singles in
    (singles.overrun < (upload_kmz willing (b'a' ∷ []) singles).1.overrun)
    ↔ ((ready.0 ≡ ok) × StoresPast (willing.file_io (b'a' ∷ []) ready.1.calls))
upload_kmz-StoresPast_example = upload_kmz-StoresPast willing b'a' [] singles

avoidance_inverted_example :
    (new : List (SdkCall fixed)) × ((set_obstacle_avoidance willing (pos 1) singles).1.calls ≡ new)
    × (new ≢ [])
    × All (Switches false) new
avoidance_inverted_example = avoidance_inverted willing (pos 1) singles
