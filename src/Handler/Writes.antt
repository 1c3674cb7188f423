-- ===== src/Handler/Writes.antt =====
-- handler.c: the handlers that set a value of the drone control layer or start an action. A float
-- literal of the C code is given by its digits, as `Floating` takes it.
use psdk_orangepi.Prelude.{Option, ◌||◌, if◌then◌else◌}
use psdk_orangepi.Prelude.Int.{ℤ, pos, negsuc, is_neg}
use psdk_orangepi.Prelude.Text.{codes}
use psdk_orangepi.Floating.{Floating}
use psdk_orangepi.Types.{DroneGimbalAngle, DroneHomeLocation}
use psdk_orangepi.Ctrl.{DroneCtrl}
use psdk_orangepi.Proto.{JsonC, rpc_param_int, rpc_param_double}
use psdk_orangepi.Server.Udp.{Peer}
use psdk_orangepi.Handler.{World, send_error, reply_status}

module _ {fp : Floating} (json : JsonC fp) {S : Type 0} (ctrl : DroneCtrl fp S) where
  open fp use {F, D, lit_f, lit_d, narrow, lt_f, lt_d}
  open json use {Json}

  unfoldable pub h_drone_set_rth_altitude : Peer → ℤ → Option Json → World S → World S
  h_drone_set_rth_altitude peer id params w =
      let alt_m = narrow (rpc_param_double json params (codes "altitude_m") (lit_d (negsuc 9) 1)) in
      if lt_f alt_m (lit_f (pos 0) 0)
      then send_error peer id (codes "missing param: altitude_m") w
      else let (err, s) = ctrl.set_rth_altitude alt_m w.ctrl in
        reply_status peer id err (codes "PSDK set rth altitude failed") (record w { ctrl = s })

  unfoldable pub h_drone_set_gimbal_angle : Peer → ℤ → Option Json → World S → World S
  h_drone_set_gimbal_angle peer id params w =
      let angle : DroneGimbalAngle fp = record {
        pitch = narrow (rpc_param_double json params (codes "pitch") (lit_d (pos 0) 1));
        roll = narrow (rpc_param_double json params (codes "roll") (lit_d (pos 0) 1));
        yaw = narrow (rpc_param_double json params (codes "yaw") (lit_d (pos 0) 1));
      } in
      let (err, s) = ctrl.set_gimbal_angle angle w.ctrl in
      reply_status peer id err (codes "PSDK set gimbal angle failed") (record w { ctrl = s })

  unfoldable pub h_drone_set_camera_mode : Peer → ℤ → Option Json → World S → World S
  h_drone_set_camera_mode peer id params w =
      let mode = rpc_param_int json params (codes "mode") (negsuc 0) in
      if is_neg mode
      then send_error peer id (codes "missing param: mode (0=photo, 1=video)") w
      else let (err, s) = ctrl.set_camera_mode mode w.ctrl in
        reply_status peer id err (codes "PSDK set camera mode failed") (record w { ctrl = s })

  unfoldable pub h_drone_set_camera_zoom : Peer → ℤ → Option Json → World S → World S
  h_drone_set_camera_zoom peer id params w =
      let zoom = narrow (rpc_param_double json params (codes "zoom_factor") (lit_d (negsuc 9) 1)) in
      if lt_f zoom (lit_f (pos 10) 1)
      then send_error peer id (codes "missing or invalid param: zoom_factor (>= 1.0)") w
      else let (err, s) = ctrl.set_camera_zoom zoom w.ctrl in
        reply_status peer id err (codes "PSDK set camera zoom failed") (record w { ctrl = s })

  unfoldable pub h_drone_set_home_location : Peer → ℤ → Option Json → World S → World S
  h_drone_set_home_location peer id params w =
      let loc : DroneHomeLocation fp = record {
        lat = rpc_param_double json params (codes "lat") (lit_d (pos 9990) 1);
        lon = rpc_param_double json params (codes "lon") (lit_d (pos 9990) 1);
        alt_m = narrow (rpc_param_double json params (codes "alt_m") (lit_d (pos 0) 1));
      } in
      if lt_d (lit_d (pos 900) 1) loc.lat
        || (lt_d loc.lat (lit_d (negsuc 899) 1)
            || (lt_d (lit_d (pos 1800) 1) loc.lon || lt_d loc.lon (lit_d (negsuc 1799) 1)))
      then send_error peer id (codes "missing or invalid params: lat, lon") w
      else let (err, s) = ctrl.set_home_location loc w.ctrl in
        reply_status peer id err (codes "PSDK set home location failed") (record w { ctrl = s })

  unfoldable pub h_drone_set_obstacle_avoidance : Peer → ℤ → Option Json → World S → World S
  h_drone_set_obstacle_avoidance peer id params w =
      let mode = rpc_param_int json params (codes "mode") (negsuc 0) in
      if is_neg mode
      then send_error peer id (codes "missing param: mode (0=off, 1=on, 2=brake)") w
      else let (err, s) = ctrl.set_obstacle_avoidance mode w.ctrl in
        reply_status peer id err (codes "PSDK set obstacle avoidance failed")
          (record w { ctrl = s })

module _ {fp : Floating} {S : Type 0} (ctrl : DroneCtrl fp S) where
  unfoldable pub h_drone_shoot_photo : Peer → ℤ → World S → World S
  h_drone_shoot_photo peer id w =
      let (err, s) = ctrl.shoot_photo w.ctrl in
      reply_status peer id err (codes "PSDK shoot photo failed") (record w { ctrl = s })

  unfoldable pub h_drone_start_recording : Peer → ℤ → World S → World S
  h_drone_start_recording peer id w =
      let (err, s) = ctrl.start_recording w.ctrl in
      reply_status peer id err (codes "PSDK start recording failed") (record w { ctrl = s })

  unfoldable pub h_drone_stop_recording : Peer → ℤ → World S → World S
  h_drone_stop_recording peer id w =
      let (err, s) = ctrl.stop_recording w.ctrl in
      reply_status peer id err (codes "PSDK stop recording failed") (record w { ctrl = s })
