-- ===== src/Ctrl.antt =====
-- bsp/drone_ctrl.h: the drone control interface between the dispatcher and the two builds of
-- bsp/drone_ctrl.c. An operation takes the state of the layer and returns it with its `DroneError`;
-- a read also returns the record that it fills. Where an implementation reads the monotonic clock,
-- the reading is an argument.
pub mod Stub
pub mod Real
use psdk_orangepi.Prelude.Text.{Bytes}
use psdk_orangepi.Floating.{Floating}
use psdk_orangepi.Types.{
  DroneError, CameraMode, ObstacleAvoidMode, Timespec, DroneTelemetry, DroneGimbalAngle,
  DroneCameraState, DroneBatteryInfo, DroneRtkStatus, DroneHomeLocation,
}

pub record DroneCtrl (fp : Floating) (S : Type 0) : Type 0 where
  pub get_telemetry : Timespec → S → DroneError × DroneTelemetry fp × S
  pub get_battery_info : Timespec → S → DroneError × DroneBatteryInfo × S
  pub get_gimbal_angle : S → DroneError × DroneGimbalAngle fp × S
  pub get_camera_state : S → DroneError × DroneCameraState fp × S
  pub get_rtk_status : S → DroneError × DroneRtkStatus fp × S
  pub set_rth_altitude : fp.F → S → DroneError × S
  pub set_gimbal_angle : DroneGimbalAngle fp → S → DroneError × S
  pub set_camera_mode : CameraMode → S → DroneError × S
  pub set_camera_zoom : fp.F → S → DroneError × S
  pub set_home_location : DroneHomeLocation fp → S → DroneError × S
  pub set_obstacle_avoidance : ObstacleAvoidMode → S → DroneError × S
  pub shoot_photo : S → DroneError × S
  pub start_recording : S → DroneError × S
  pub stop_recording : S → DroneError × S
  pub upload_kmz : Bytes → S → DroneError × S
