-- ===== src/Handler/Dispatch/Guarded.antt =====
-- handler.c: the tests of the arguments that stand in the handlers, and what it means for the drone
-- control layer to keep a relation under the operations whose arguments pass them.
use psdk_orangepi.Prelude.{◌≡◌, false, ◌||◌}
use psdk_orangepi.Prelude.Int.{ℤ, pos, negsuc, is_neg}
use psdk_orangepi.Prelude.Text.{Bytes}
use psdk_orangepi.Floating.{Floating}
use psdk_orangepi.Types.{
  Timespec, CameraMode, ObstacleAvoidMode, DroneGimbalAngle, DroneHomeLocation,
}
use psdk_orangepi.Ctrl.{DroneCtrl}
use psdk_orangepi.Handler.Kmz.Confined.{IsConfined}

module _ (fp : Floating) where
  open fp use {F, lit_f, lit_d, lt_f, lt_d}

  -- What the handlers test before they call an operation.
  abbrev pub AltitudeOk : F → Type 0
  AltitudeOk alt_m = lt_f alt_m (lit_f (pos 0) 0) ≡ false

  abbrev pub ZoomOk : F → Type 0
  ZoomOk zoom = lt_f zoom (lit_f (pos 10) 1) ≡ false

  abbrev pub HomeOk : DroneHomeLocation fp → Type 0
  HomeOk loc =
      (lt_d (lit_d (pos 900) 1) loc.lat
        || (lt_d loc.lat (lit_d (negsuc 899) 1)
            || (lt_d (lit_d (pos 1800) 1) loc.lon || lt_d loc.lon (lit_d (negsuc 1799) 1))))
      ≡ false

abbrev pub ModeOk : ℤ → Type 0
ModeOk mode = is_neg mode ≡ false

-- Every operation leads from a state to one that is related to it, where its argument passes the
-- tests of its handler, and each state is related to itself.
pub record Respects {fp : Floating} {S : Type 0} (R : S → S → Type 0) (ctrl : DroneCtrl fp S)
    : Type 0 where
  pub stays : (s : S) → R s s
  pub get_telemetry : (t : Timespec) (s : S) → R s (ctrl.get_telemetry t s).2
  pub get_battery_info : (t : Timespec) (s : S) → R s (ctrl.get_battery_info t s).2
  pub get_gimbal_angle : (s : S) → R s (ctrl.get_gimbal_angle s).2
  pub get_camera_state : (s : S) → R s (ctrl.get_camera_state s).2
  pub get_rtk_status : (s : S) → R s (ctrl.get_rtk_status s).2
  pub set_rth_altitude : (x : fp.F) (s : S) → AltitudeOk fp x → R s (ctrl.set_rth_altitude x s).1
  pub set_gimbal_angle : (a : DroneGimbalAngle fp) (s : S) → R s (ctrl.set_gimbal_angle a s).1
  pub set_camera_mode : (m : CameraMode) (s : S) → ModeOk m → R s (ctrl.set_camera_mode m s).1
  pub set_camera_zoom : (x : fp.F) (s : S) → ZoomOk fp x → R s (ctrl.set_camera_zoom x s).1
  pub set_home_location :
      (l : DroneHomeLocation fp) (s : S) → HomeOk fp l → R s (ctrl.set_home_location l s).1
  pub set_obstacle_avoidance :
      (m : ObstacleAvoidMode) (s : S) → ModeOk m → R s (ctrl.set_obstacle_avoidance m s).1
  pub shoot_photo : (s : S) → R s (ctrl.shoot_photo s).1
  pub start_recording : (s : S) → R s (ctrl.start_recording s).1
  pub stop_recording : (s : S) → R s (ctrl.stop_recording s).1
  pub upload_kmz : (path : Bytes) (s : S) → IsConfined path → R s (ctrl.upload_kmz path s).1
