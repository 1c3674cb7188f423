-- ===== src/Ctrl/Real/Writes.antt =====
-- drone_ctrl.c, PSDK_REAL: the operations that command the aircraft, each one call of the SDK but for
-- the obstacle avoidance, which takes two.
pub mod Avoidance
use psdk_orangepi.Prelude.{zero, suc, Bool, true, false, if◌then◌else◌}
use psdk_orangepi.Prelude.Int.{ℤ, pos, negsuc}
use psdk_orangepi.Floating.{Floating}
use psdk_orangepi.Types.{
  DroneError, ok, err_psdk, CameraMode, ObstacleAvoidMode, DroneGimbalAngle, DroneHomeLocation,
}
use psdk_orangepi.Ctrl.Real.{
  ReturnCode, success, failure, Sdk, SdkCall, status_of, zoom_in, zoom_out, set_go_home_altitude,
  gimbal_rotate, camera_set_mode, camera_set_optical_zoom, set_horizontal_avoidance,
  set_upwards_avoidance, start_shoot_photo, start_record_video, stop_record_video,
}
use psdk_orangepi.Ctrl.Real
use psdk_orangepi.Ctrl.Real.Topics.{Real, make_call}

-- `mode == k` for an enumeration that holds any `int`.
abbrev pub is_zero : ℤ → Bool
is_zero (pos zero) = true
is_zero (pos (suc n)) = false
is_zero (negsuc n) = false

module _ {fp : Floating} (sdk : Sdk fp) where
  open fp use {F, lit_f, le_f, to_u16}

  -- One call, and `rc == SUCCESS ? DRONE_OK : DRONE_ERR_PSDK`.
  unfoldable pub command : SdkCall fp → Real fp → DroneError × Real fp
  unfolding make_call
  command c r = let (rc, r') = make_call sdk c r in (status_of rc, r')

  unfoldable pub set_rth_altitude : F → Real fp → DroneError × Real fp
  unfolding command
  set_rth_altitude alt_m r = command (set_go_home_altitude (to_u16 alt_m)) r

  unfoldable pub set_gimbal_angle : DroneGimbalAngle fp → Real fp → DroneError × Real fp
  unfolding command
  set_gimbal_angle a r = command (gimbal_rotate a (lit_f (pos 5) 1)) r

  -- `camera_set_mode true` stands for `DJI_CAMERA_MANAGER_WORK_MODE_SHOOT_PHOTO`.
  unfoldable pub set_camera_mode : CameraMode → Real fp → DroneError × Real fp
  unfolding command
  set_camera_mode mode r = command (camera_set_mode (is_zero mode)) r

  unfoldable pub set_camera_zoom : F → Real fp → DroneError × Real fp
  unfolding command
  set_camera_zoom zoom_factor r =
      let dir = if le_f (lit_f (pos 10) 1) zoom_factor then zoom_in else zoom_out in
      command (camera_set_optical_zoom dir zoom_factor) r

  unfoldable pub set_home_location : DroneHomeLocation fp → Real fp → DroneError × Real fp
  unfolding command
  set_home_location loc r = command (Real.set_home_location loc.lat loc.lon) r

  -- The part of `drone_set_obstacle_avoidance` behind its first return.
  unfoldable pub after_horizontal : Bool → ReturnCode → Real fp → DroneError × Real fp
  unfolding command
  after_horizontal sw (failure n) r = (err_psdk, r)
  after_horizontal sw success r = command (set_upwards_avoidance sw) r

  -- The switch is true for `DJI_FLIGHT_CONTROLLER_ENABLE_OBSTACLE_AVOIDANCE`.
  unfoldable pub set_obstacle_avoidance : ObstacleAvoidMode → Real fp → DroneError × Real fp
  unfolding make_call after_horizontal
  set_obstacle_avoidance mode r =
      let sw = is_zero mode in
      let (rc, r') = make_call sdk (set_horizontal_avoidance sw) r in after_horizontal sw rc r'

  unfoldable pub shoot_photo : Real fp → DroneError × Real fp
  unfolding command
  shoot_photo r = command start_shoot_photo r

  unfoldable pub start_recording : Real fp → DroneError × Real fp
  unfolding command
  start_recording r = command start_record_video r

  unfoldable pub stop_recording : Real fp → DroneError × Real fp
  unfolding command
  stop_recording r = command stop_record_video r
