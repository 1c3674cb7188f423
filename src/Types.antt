-- ===== src/Types.antt =====
-- include/drone_types.h: limits, error codes and the records that pass between the layers, and
-- `struct timespec`. The C enumerations that a request may fill with any `int` are integers here.
use psdk_orangepi.Prelude.{ℕ, Bool}
use psdk_orangepi.Prelude.Int.{ℤ, pos}
use psdk_orangepi.Floating.{Floating}

abbrev pub max_msg_len : ℕ
max_msg_len = 4096

abbrev pub rpc_backlog : ℕ
rpc_backlog = 4

abbrev pub recv_buf_len : ℕ
recv_buf_len = 8192

abbrev pub max_clients : ℕ
max_clients = 8

pub data DroneError : Type 0 where
  ok err_psdk err_param err_state err_timeout err_unknown : DroneError

abbrev pub CameraMode : Type 0
CameraMode = ℤ

abbrev pub camera_mode_photo : CameraMode
camera_mode_photo = pos 0

abbrev pub camera_mode_video : CameraMode
camera_mode_video = pos 1

abbrev pub ObstacleAvoidMode : Type 0
ObstacleAvoidMode = ℤ

abbrev pub obstacle_avoid_close : ObstacleAvoidMode
obstacle_avoid_close = pos 0

pub record Timespec : Type 0 where
  pub sec : ℕ
  pub nsec : ℕ

pub record DroneTelemetry (fp : Floating) : Type 0 where
  pub lat : fp.D
  pub lon : fp.D
  pub alt_msl_m : fp.F
  pub alt_rel_m : fp.F
  pub vx_ms : fp.F
  pub vy_ms : fp.F
  pub vz_ms : fp.F
  pub heading_deg : fp.F
  pub battery_pct : ℕ
  pub battery_mv : ℕ
  pub gps_sats : ℕ
  pub gps_fix : ℕ
  pub flight_status : ℕ
  pub motors_on : Bool

pub record DroneGimbalAngle (fp : Floating) : Type 0 where
  pub pitch : fp.F
  pub roll : fp.F
  pub yaw : fp.F

pub record DroneCameraState (fp : Floating) : Type 0 where
  pub mode : CameraMode
  pub is_recording : Bool
  pub zoom_factor : fp.F

pub record DroneBatteryInfo : Type 0 where
  pub voltage_mv : ℕ
  pub current_ma : ℤ
  pub remaining_pct : ℕ
  pub temperature_dc : ℤ
  pub cycle_count : ℕ

pub record DroneRtkStatus (fp : Floating) : Type 0 where
  pub enabled : Bool
  pub fix_type : ℕ
  pub satellites : ℕ
  pub lat : fp.D
  pub lon : fp.D
  pub alt_m : fp.F

pub record DroneHomeLocation (fp : Floating) : Type 0 where
  pub lat : fp.D
  pub lon : fp.D
  pub alt_m : fp.F
