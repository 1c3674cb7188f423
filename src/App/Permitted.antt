-- ===== src/App/Permitted.antt =====
-- handler.c over drone_ctrl.c with PSDK_REAL: the SDK calls that a request may lead to.
pub mod Adds
use psdk_orangepi.Prelude.{List, ◌≡◌, refl, Bool, true, false, ◌||◌, if◌then◌else◌}
use psdk_orangepi.Prelude.Int.{pos, negsuc}
use psdk_orangepi.Prelude.Text.{Bytes}
use psdk_orangepi.Floating.{Floating}
use psdk_orangepi.Types.{
  DroneError, ok, err_psdk, CameraMode, ObstacleAvoidMode, DroneCameraState, DroneHomeLocation,
}
use psdk_orangepi.Ctrl.Real.{
  Sdk, SdkCall, ReturnCode, success, failure, waypoint_init, waypoint_reg_mission_state,
  waypoint_reg_action_state, waypoint_deinit, waypoint_upload_kmz, subscription_init,
  subscription_deinit, subscribe_topic, camera_init, camera_deinit, gimbal_init, gimbal_deinit,
  camera_get_mode, camera_get_recording_state, camera_get_optical_zoom, set_go_home_altitude,
  gimbal_rotate, camera_set_mode, camera_set_optical_zoom, set_horizontal_avoidance,
  set_upwards_avoidance, start_shoot_photo, start_record_video, stop_record_video,
}
use psdk_orangepi.Ctrl.Real
use psdk_orangepi.Ctrl.Real.Topics.{Real, make_call}
use psdk_orangepi.Ctrl.Real.Reads.{
  succeeded, camera_rest, get_camera_state, get_telemetry, get_battery_info, get_gimbal_angle,
  get_rtk_status,
}
use psdk_orangepi.Ctrl.Real.Writes.{
  is_zero, command, after_horizontal, set_rth_altitude, set_gimbal_angle, set_camera_mode,
  set_camera_zoom, set_home_location, set_obstacle_avoidance, shoot_photo, start_recording,
  stop_recording,
}
use psdk_orangepi.Ctrl.Real.Waypoint.{sent_bytes, upload_kmz}
use psdk_orangepi.Ctrl.Real.Build.{real_ctrl}
use psdk_orangepi.Handler.Kmz.Confined.{IsConfined}
use psdk_orangepi.Handler.Dispatch.Guarded.{AltitudeOk, ZoomOk, HomeOk, Respects}

-- What an upload reads behind these calls from a file directly in the KMZ directory.
pub record FromDirectory {fp : Floating} (sdk : Sdk fp) (before : List (SdkCall fp))
    (content : Bytes) : Type 0 where
  pub path : Bytes
  pub confined : IsConfined path
  pub whole : content ≡ sent_bytes (sdk.file_io path before)

module _ {fp : Floating} (sdk : Sdk fp) where
  -- None of the calls that start and end the modules but for the waypoint module's start, and values
  -- within the tests of the handlers.
  abbrev pub Permitted : List (SdkCall fp) → SdkCall fp → Type 0
  Permitted before waypoint_init = Unit
  Permitted before waypoint_reg_mission_state = Unit
  Permitted before waypoint_reg_action_state = Unit
  Permitted before waypoint_deinit = ⊥
  Permitted before (waypoint_upload_kmz content) = FromDirectory sdk before content
  Permitted before subscription_init = ⊥
  Permitted before subscription_deinit = ⊥
  Permitted before (subscribe_topic t hz) = ⊥
  Permitted before camera_init = ⊥
  Permitted before camera_deinit = ⊥
  Permitted before gimbal_init = ⊥
  Permitted before gimbal_deinit = ⊥
  Permitted before camera_get_mode = Unit
  Permitted before camera_get_recording_state = Unit
  Permitted before camera_get_optical_zoom = Unit
  Permitted before (set_go_home_altitude n) = (x : fp.F) × AltitudeOk fp x × (n ≡ fp.to_u16 x)
  Permitted before (gimbal_rotate a seconds) = seconds ≡ fp.lit_f (pos 5) 1
  Permitted before (camera_set_mode photo) = Unit
  Permitted before (camera_set_optical_zoom dir x) = ZoomOk fp x
  Permitted before (Real.set_home_location lat lon) =
      (alt_m : fp.F) × HomeOk fp (record { lat = lat; lon = lon; alt_m = alt_m })
  Permitted before (set_horizontal_avoidance sw) = Unit
  Permitted before (set_upwards_avoidance sw) = Unit
  Permitted before start_shoot_photo = Unit
  Permitted before start_record_video = Unit
  Permitted before stop_record_video = Unit

  -- A relation that the permitted calls and the uploads of files of the directory keep.
  pub record Carries (R : Real fp → Real fp → Type 0) : Type 0 where
    pub same : (r : Real fp) → R r r
    pub trans : (a b c : Real fp) → R a b → R b c → R a c
    pub call : (c : SdkCall fp) (r : Real fp) → Permitted r.calls c → R r (make_call sdk c r).1
    pub upload : (path : Bytes) (r : Real fp) → IsConfined path → R r (upload_kmz sdk path r).1

  module _ (R : Real fp → Real fp → Type 0) (carries : Carries R) where
    after_horizontal-Carries :
        (sw : Bool) (rc : ReturnCode) (r : Real fp) → R r (after_horizontal sdk sw rc r).1
    unfolding after_horizontal command
    after_horizontal-Carries sw (failure n) r = carries.same r
    after_horizontal-Carries sw success r = carries.call (set_upwards_avoidance sw) r tt

    avoidance-Carries :
        (mode : ObstacleAvoidMode) (r : Real fp) → R r (set_obstacle_avoidance sdk mode r).1
    unfolding set_obstacle_avoidance
    avoidance-Carries mode r =
        carries.trans r _ _ (carries.call (set_horizontal_avoidance (is_zero mode)) r tt)
          (after_horizontal-Carries (is_zero mode) _ _)

    camera_rest-Carries : (photo : Bool) (r : Real fp) → R r (camera_rest sdk photo r).1
    unfolding camera_rest
    camera_rest-Carries photo r =
        carries.trans r _ _ (carries.call camera_get_recording_state r tt)
          (carries.call camera_get_optical_zoom _ tt)

    camera-Carries : (r : Real fp) → R r (get_camera_state sdk r).2
    unfolding get_camera_state
    camera-Carries r = go (succeeded (make_call sdk camera_get_mode r).0)
      where
        r' : Real fp
        r' = (make_call sdk camera_get_mode r).1

        rest : DroneCameraState fp × Real fp
        rest = camera_rest sdk (sdk.shoots_photo r.calls) r'

        unset : DroneCameraState fp
        unset = record { mode = pos 0; is_recording = false; zoom_factor = fp.lit_f (pos 0) 0 }

        go :
            (b : Bool)
            → let read : DroneError × DroneCameraState fp × Real fp =
                if b then (ok, rest.0, rest.1) else (err_psdk, unset, r') in
              R r read.2
        go true =
            carries.trans r r' _ (carries.call camera_get_mode r tt)
              (camera_rest-Carries (sdk.shoots_photo r.calls) r')
        go false = carries.call camera_get_mode r tt

    pub real_ctrl-Respects : Respects R (real_ctrl sdk)
    unfolding get_telemetry get_battery_info get_gimbal_angle get_rtk_status command
        set_rth_altitude set_gimbal_angle set_camera_mode set_camera_zoom set_home_location
        shoot_photo start_recording stop_recording
    real_ctrl-Respects = record {
      stays = carries.same;
      get_telemetry = λ t r. carries.same r;
      get_battery_info = λ t r. carries.same r;
      get_gimbal_angle = λ r. carries.same r;
      get_camera_state = camera-Carries;
      get_rtk_status = λ r. carries.same r;
      set_rth_altitude = λ x r h. carries.call _ r (x, h, refl);
      set_gimbal_angle = λ a r. carries.call _ r refl;
      set_camera_mode = λ m r h. carries.call _ r tt;
      set_camera_zoom = λ x r h. carries.call _ r h;
      set_home_location = λ l r h. carries.call _ r (l.alt_m, h);
      set_obstacle_avoidance = λ m r h. avoidance-Carries m r;
      shoot_photo = λ r. carries.call _ r tt;
      start_recording = λ r. carries.call _ r tt;
      stop_recording = λ r. carries.call _ r tt;
      upload_kmz = λ path. carries.upload path;
    }
