-- ===== src/Handler/Reads/Bounds.antt =====
-- handler.c: the printed records stay within the buffers of their handlers.
use psdk_orangepi.Prelude.{ℕ, ◌≤◌, ◌<◌, arith, length}
use psdk_orangepi.Prelude.Text.{Bytes}
use psdk_orangepi.Floating.{Floating}
use psdk_orangepi.Types.{
  DroneTelemetry, DroneGimbalAngle, DroneCameraState, DroneBatteryInfo, DroneRtkStatus,
}
use psdk_orangepi.Proto.{snprintf}
use psdk_orangepi.Proto.Framing.{length-snprintf}
use psdk_orangepi.Handler.Reads.{telemetry_json, battery_json, gimbal_json, camera_json, rtk_json}

-- A buffer of at most 512 bytes.
small : (size : ℕ) (s : Bytes) → 0 < size → size ≤ 512 → length (snprintf size s).text < 512
small size s h k = omega (arith, length-snprintf size s h)

pub length-battery_json : (b : DroneBatteryInfo) → length (battery_json b) < 512
unfolding battery_json
length-battery_json b = small 256 _ (omega arith) (omega arith)

module _ {fp : Floating} where
  pub length-telemetry_json : (t : DroneTelemetry fp) → length (telemetry_json t) < 512
  unfolding telemetry_json
  length-telemetry_json t = small 512 _ (omega arith) (omega arith)

  pub length-gimbal_json : (g : DroneGimbalAngle fp) → length (gimbal_json g) < 512
  unfolding gimbal_json
  length-gimbal_json g = small 128 _ (omega arith) (omega arith)

  pub length-camera_json : (c : DroneCameraState fp) → length (camera_json c) < 512
  unfolding camera_json
  length-camera_json c = small 128 _ (omega arith) (omega arith)

  pub length-rtk_json : (r : DroneRtkStatus fp) → length (rtk_json r) < 512
  unfolding rtk_json
  length-rtk_json r = small 256 _ (omega arith) (omega arith)
