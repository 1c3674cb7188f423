-- ===== src/Ctrl/Stub.antt =====
-- bsp/drone_ctrl.c, the build without PSDK_REAL: the mock drone, whose static variables are the state.
use psdk_orangepi.Prelude.{true, false, Bool, [], ◌∷◌}
use psdk_orangepi.Prelude.Int.{ℤ, pos, negsuc}
use psdk_orangepi.Prelude.Text.{Bytes}
use psdk_orangepi.Floating.{Floating}
use psdk_orangepi.Types.{
  DroneError, ok, err_param, CameraMode, camera_mode_photo, ObstacleAvoidMode, Timespec,
  DroneTelemetry, DroneGimbalAngle, DroneCameraState, DroneBatteryInfo, DroneRtkStatus,
  DroneHomeLocation,
}
use psdk_orangepi.Ctrl.{DroneCtrl}

module _ (fp : Floating) where
  open fp use {F, D, lit_f, lit_d, narrow, of_int, add_f, mul_f, add_d, mul_d, sin, cos, fmod}

  -- `g_stub_rth_alt`, `g_stub_gimbal_p`, `g_stub_zoom`, `g_stub_cam_mode`, `g_stub_recording`
  pub record Stub : Type 0 where
    pub rth_alt : F
    pub gimbal_p : F
    pub zoom : F
    pub cam_mode : ℤ
    pub recording : Bool

  -- The initialisers.
  unfoldable pub stub_start : Stub
  stub_start = record {
    rth_alt = lit_f (pos 300) 1;
    gimbal_p = lit_f (negsuc 299) 1;
    zoom = lit_f (pos 10) 1;
    cam_mode = camera_mode_photo;
    recording = false;
  }

  unfoldable pub drone_ctrl_init : Stub → ℤ × Stub
  drone_ctrl_init s = (pos 0, s)

  unfoldable pub drone_ctrl_deinit : Stub → Stub
  drone_ctrl_deinit s = s

  -- A slowly varying position, by the reading of the clock.
  unfoldable pub get_telemetry : Timespec → Stub → DroneError × DroneTelemetry fp × Stub
  get_telemetry ts s =
      let t = add_d (of_int (pos ts.sec)) (mul_d (of_int (pos ts.nsec)) (lit_d (pos 1) 9)) in
      (
        ok,
        record {
          lat =
              add_d (lit_d (pos 225430) 4)
                (mul_d (lit_d (pos 1) 4) (sin (mul_d t (lit_d (pos 1) 1))));
          lon =
              add_d (lit_d (pos 1139310) 4)
                (mul_d (lit_d (pos 1) 4) (cos (mul_d t (lit_d (pos 1) 1))));
          alt_msl_m =
              add_f (lit_f (pos 500) 1)
                (mul_f (lit_f (pos 50) 1) (narrow (sin (mul_d t (lit_d (pos 5) 2)))));
          alt_rel_m = lit_f (pos 300) 1;
          vx_ms = lit_f (pos 15) 1;
          vy_ms = lit_f (pos 3) 1;
          vz_ms = lit_f (pos 0) 1;
          heading_deg = narrow (fmod (mul_d t (lit_d (pos 50) 1)) (lit_d (pos 3600) 1));
          battery_pct = 82;
          battery_mv = 25200;
          gps_sats = 14;
          gps_fix = 2;
          flight_status = 2;
          motors_on = true;
        },
        s,
      )

  unfoldable pub get_battery_info : Timespec → Stub → DroneError × DroneBatteryInfo × Stub
  get_battery_info ts s = (
    ok,
    record {
      voltage_mv = 25200;
      current_ma = negsuc 3199;
      remaining_pct = 82;
      temperature_dc = pos 253;
      cycle_count = 47;
    },
    s,
  )

  unfoldable pub get_gimbal_angle : Stub → DroneError × DroneGimbalAngle fp × Stub
  get_gimbal_angle s =
      (ok, record { pitch = s.gimbal_p; roll = lit_f (pos 0) 1; yaw = lit_f (pos 0) 1 }, s)

  unfoldable pub get_camera_state : Stub → DroneError × DroneCameraState fp × Stub
  get_camera_state s =
      (ok, record { mode = s.cam_mode; is_recording = s.recording; zoom_factor = s.zoom }, s)

  -- `memset` clears the three floating-point fields.
  unfoldable pub get_rtk_status : Stub → DroneError × DroneRtkStatus fp × Stub
  get_rtk_status s = (
    ok,
    record {
      enabled = false;
      fix_type = 0;
      satellites = 0;
      lat = lit_d (pos 0) 0;
      lon = lit_d (pos 0) 0;
      alt_m = lit_f (pos 0) 0;
    },
    s,
  )

  unfoldable pub set_rth_altitude : F → Stub → DroneError × Stub
  set_rth_altitude alt_m s = (ok, record s { rth_alt = alt_m })

  unfoldable pub set_gimbal_angle : DroneGimbalAngle fp → Stub → DroneError × Stub
  set_gimbal_angle a s = (ok, record s { gimbal_p = a.pitch })

  unfoldable pub set_camera_mode : CameraMode → Stub → DroneError × Stub
  set_camera_mode mode s = (ok, record s { cam_mode = mode })

  unfoldable pub set_camera_zoom : F → Stub → DroneError × Stub
  set_camera_zoom zoom_factor s = (ok, record s { zoom = zoom_factor })

  unfoldable pub set_home_location : DroneHomeLocation fp → Stub → DroneError × Stub
  set_home_location loc s = (ok, s)

  unfoldable pub set_obstacle_avoidance : ObstacleAvoidMode → Stub → DroneError × Stub
  set_obstacle_avoidance mode s = (ok, s)

  unfoldable pub shoot_photo : Stub → DroneError × Stub
  shoot_photo s = (ok, s)

  unfoldable pub start_recording : Stub → DroneError × Stub
  start_recording s = (ok, record s { recording = true })

  unfoldable pub stop_recording : Stub → DroneError × Stub
  stop_recording s = (ok, record s { recording = false })

  unfoldable pub upload_kmz : Bytes → Stub → DroneError × Stub
  upload_kmz [] s = (err_param, s)
  upload_kmz (c ∷ cs) s = (ok, s)

  -- The operations behind drone_ctrl.h.
  abbrev pub stub_ctrl : DroneCtrl fp Stub
  stub_ctrl = record {
    get_telemetry = get_telemetry;
    get_battery_info = get_battery_info;
    get_gimbal_angle = get_gimbal_angle;
    get_camera_state = get_camera_state;
    get_rtk_status = get_rtk_status;
    set_rth_altitude = set_rth_altitude;
    set_gimbal_angle = set_gimbal_angle;
    set_camera_mode = set_camera_mode;
    set_camera_zoom = set_camera_zoom;
    set_home_location = set_home_location;
    set_obstacle_avoidance = set_obstacle_avoidance;
    shoot_photo = shoot_photo;
    start_recording = start_recording;
    stop_recording = stop_recording;
    upload_kmz = upload_kmz;
  }
