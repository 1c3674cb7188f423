-- ===== src/Ctrl/Real.antt =====
-- bsp/drone_ctrl.c, the build with PSDK_REAL: the cached samples of the subscriptions and the calls of
-- the payload SDK. The SDK is a parameter: what a call returns may depend on all calls before it.
pub mod Topics
pub mod Reads
pub mod Writes
pub mod Waypoint
pub mod Build
pub mod Steady
use psdk_orangepi.Prelude.{ℕ, Bool, true, false, List, [], ◌∷◌, ◌++◌, Option}
use psdk_orangepi.Prelude.Int.{ℤ}
use psdk_orangepi.Prelude.Text.{Bytes}
use psdk_orangepi.Floating.{Floating}
use psdk_orangepi.Types.{DroneGimbalAngle, DroneError, ok, err_psdk}

-- `T_DjiReturnCode`: the code of success or any other.
pub data ReturnCode : Type 0 where
  success : ReturnCode
  failure : ℕ → ReturnCode

pub data Topic : Type 0 where
  position_fused velocity quaternion gps_details status_flight battery_info : Topic
  battery_single_1 battery_single_2 gimbal_angles : Topic

pub data ZoomDirection : Type 0 where
  zoom_in zoom_out : ZoomDirection

-- The samples, with the members that the sources read.
pub record Vector3 (F : Type 0) : Type 0 where
  pub x : F
  pub y : F
  pub z : F

pub record Quaternion (F : Type 0) : Type 0 where
  pub q0 : F
  pub q1 : F
  pub q2 : F
  pub q3 : F

pub record PositionFused (fp : Floating) : Type 0 where
  pub longitude : fp.D
  pub latitude : fp.D
  pub altitude : fp.F
  pub visible_satellite_number : ℕ

pub record GpsDetails : Type 0 where
  pub fix_state : ℕ
  pub gps_satellite_number_used : ℕ

pub record WholeBattery : Type 0 where
  pub voltage : ℤ
  pub current : ℤ
  pub percentage : ℕ

pub record SingleBattery : Type 0 where
  pub current_voltage : ℤ
  pub current_electric : ℤ
  pub battery_temperature : ℤ
  pub battery_capacity_percent : ℕ

-- The calls of the SDK whose return code the sources look at, or that they make for their effect.
pub data SdkCall (fp : Floating) : Type 0 where
  waypoint_init waypoint_reg_mission_state waypoint_reg_action_state waypoint_deinit : SdkCall fp
  waypoint_upload_kmz : Bytes → SdkCall fp
  subscription_init subscription_deinit : SdkCall fp
  subscribe_topic : Topic → ℕ → SdkCall fp
  camera_init camera_deinit gimbal_init gimbal_deinit : SdkCall fp
  camera_get_mode camera_get_recording_state camera_get_optical_zoom : SdkCall fp
  set_go_home_altitude : ℕ → SdkCall fp
  gimbal_rotate : DroneGimbalAngle fp → fp.F → SdkCall fp
  camera_set_mode : Bool → SdkCall fp
  camera_set_optical_zoom : ZoomDirection → fp.F → SdkCall fp
  set_home_location : fp.D → fp.D → SdkCall fp
  set_horizontal_avoidance set_upwards_avoidance : Bool → SdkCall fp
  start_shoot_photo start_record_video stop_record_video : SdkCall fp

-- What the operating system answers to the calls of one upload; `Malloc` may look at the size.
pub record FileIo : Type 0 where
  pub opens : Bool
  pub seeks_end : Bool
  pub tells : ℤ
  pub seeks_set : Bool
  pub has_osal : Bool
  pub allocates : ℕ → Bool
  pub content : Bytes

-- The SDK and the operating system; the list holds the calls made before, oldest first.
pub record Sdk (fp : Floating) : Type 0 where
  pub answer : List (SdkCall fp) → SdkCall fp → ReturnCode
  pub shoots_photo : List (SdkCall fp) → Bool
  pub records : List (SdkCall fp) → Bool
  pub optical_zoom : List (SdkCall fp) → fp.F
  pub file_io : Bytes → List (SdkCall fp) → FileIo

-- `rc == DJI_ERROR_SYSTEM_MODULE_CODE_SUCCESS ? DRONE_OK : DRONE_ERR_PSDK`
abbrev pub status_of : ReturnCode → DroneError
status_of success = ok
status_of (failure n) = err_psdk
