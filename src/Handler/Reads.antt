-- ===== src/Handler/Reads.antt =====
-- handler.c: `system.ping` and the handlers that read from the drone control layer.
pub mod Bounds
use psdk_orangepi.Prelude.{some, [], ◌∷◌}
use psdk_orangepi.Prelude.Int.{ℤ}
use psdk_orangepi.Prelude.Text.{Bytes, codes, concat, print_int, print_unsigned, show_bool}
use psdk_orangepi.Floating.{Floating}
use psdk_orangepi.Types.{
  DroneError, ok, DroneTelemetry, DroneGimbalAngle, DroneCameraState, DroneBatteryInfo,
  DroneRtkStatus,
}
use psdk_orangepi.Ctrl.{DroneCtrl}
use psdk_orangepi.Proto.{snprintf}
use psdk_orangepi.Server.Udp.{Peer}
use psdk_orangepi.Handler.{World, Clock, uptime_ms, send_result, send_error}

module _ {S : Type 0} where
  unfoldable pub h_system_ping : Clock → Peer → ℤ → World S → World S
  h_system_ping clock peer id w =
      let (ms, w') = uptime_ms clock w in
      let text =
        concat (codes "{\"pong\":true,\"uptime_ms\":" ∷ print_unsigned ms ∷ codes "}" ∷ []) in
      send_result peer id (some (snprintf 128 text).text) w'

  -- `if (read(&x) != DRONE_OK) { send_error(...); return; }`, then the printed record.
  unfoldable pub reply_read : Peer → ℤ → DroneError → Bytes → Bytes → World S → World S
  reply_read peer id ok msg result w = send_result peer id (some result) w
  reply_read peer id _ msg result w = send_error peer id msg w

unfoldable pub battery_json : DroneBatteryInfo → Bytes
battery_json b =
    (snprintf 256 (
      concat (
        codes "{\"voltage_mv\":"
        ∷ print_unsigned b.voltage_mv
        ∷ codes ",\"current_ma\":"
        ∷ print_int b.current_ma
        ∷ codes ",\"remaining_pct\":"
        ∷ print_unsigned b.remaining_pct
        ∷ codes ",\"temperature_dc\":"
        ∷ print_int b.temperature_dc
        ∷ codes ",\"cycle_count\":"
        ∷ print_unsigned b.cycle_count
        ∷ codes "}"
        ∷ []))).text

module _ {fp : Floating} where
  open fp use {show_f, show_d}

  unfoldable pub telemetry_json : DroneTelemetry fp → Bytes
  telemetry_json t =
      (snprintf 512 (
        concat (
          codes "{\"lat\":"
          ∷ show_d 8 t.lat
          ∷ codes ",\"lon\":"
          ∷ show_d 8 t.lon
          ∷ codes ",\"alt_msl_m\":"
          ∷ show_f 2 t.alt_msl_m
          ∷ codes ",\"alt_rel_m\":"
          ∷ show_f 2 t.alt_rel_m
          ∷ codes ",\"vx_ms\":"
          ∷ show_f 2 t.vx_ms
          ∷ codes ",\"vy_ms\":"
          ∷ show_f 2 t.vy_ms
          ∷ codes ",\"vz_ms\":"
          ∷ show_f 2 t.vz_ms
          ∷ codes ",\"heading_deg\":"
          ∷ show_f 1 t.heading_deg
          ∷ codes ",\"battery_pct\":"
          ∷ print_unsigned t.battery_pct
          ∷ codes ",\"battery_mv\":"
          ∷ print_unsigned t.battery_mv
          ∷ codes ",\"gps_sats\":"
          ∷ print_unsigned t.gps_sats
          ∷ codes ",\"gps_fix\":"
          ∷ print_unsigned t.gps_fix
          ∷ codes ",\"flight_status\":"
          ∷ print_unsigned t.flight_status
          ∷ codes ",\"motors_on\":"
          ∷ show_bool t.motors_on
          ∷ codes "}"
          ∷ []))).text

  unfoldable pub gimbal_json : DroneGimbalAngle fp → Bytes
  gimbal_json g =
      (snprintf 128 (
        concat (
          codes "{\"pitch\":"
          ∷ show_f 2 g.pitch
          ∷ codes ",\"roll\":"
          ∷ show_f 2 g.roll
          ∷ codes ",\"yaw\":"
          ∷ show_f 2 g.yaw
          ∷ codes "}"
          ∷ []))).text

  unfoldable pub camera_json : DroneCameraState fp → Bytes
  camera_json c =
      (snprintf 128 (
        concat (
          codes "{\"mode\":"
          ∷ print_int c.mode
          ∷ codes ",\"is_recording\":"
          ∷ show_bool c.is_recording
          ∷ codes ",\"zoom_factor\":"
          ∷ show_f 2 c.zoom_factor
          ∷ codes "}"
          ∷ []))).text

  unfoldable pub rtk_json : DroneRtkStatus fp → Bytes
  rtk_json r =
      (snprintf 256 (
        concat (
          codes "{\"enabled\":"
          ∷ show_bool r.enabled
          ∷ codes ",\"fix_type\":"
          ∷ print_unsigned r.fix_type
          ∷ codes ",\"satellites\":"
          ∷ print_unsigned r.satellites
          ∷ codes ",\"lat\":"
          ∷ show_d 8 r.lat
          ∷ codes ",\"lon\":"
          ∷ show_d 8 r.lon
          ∷ codes ",\"alt_m\":"
          ∷ show_f 2 r.alt_m
          ∷ codes "}"
          ∷ []))).text

module _ {fp : Floating} {S : Type 0} (ctrl : DroneCtrl fp S) where
  unfoldable pub h_drone_get_telemetry : Clock → Peer → ℤ → World S → World S
  h_drone_get_telemetry clock peer id w =
      let (err, t, s) = ctrl.get_telemetry clock.now w.ctrl in
      reply_read peer id err (codes "failed to read telemetry") (telemetry_json t)
        (record w { ctrl = s })

  unfoldable pub h_drone_get_battery_info : Clock → Peer → ℤ → World S → World S
  h_drone_get_battery_info clock peer id w =
      let (err, b, s) = ctrl.get_battery_info clock.now w.ctrl in
      reply_read peer id err (codes "failed to read battery info") (battery_json b)
        (record w { ctrl = s })

  unfoldable pub h_drone_get_gimbal_angle : Peer → ℤ → World S → World S
  h_drone_get_gimbal_angle peer id w =
      let (err, g, s) = ctrl.get_gimbal_angle w.ctrl in
      reply_read peer id err (codes "failed to read gimbal angle") (gimbal_json g)
        (record w { ctrl = s })

  unfoldable pub h_drone_get_camera_state : Peer → ℤ → World S → World S
  h_drone_get_camera_state peer id w =
      let (err, c, s) = ctrl.get_camera_state w.ctrl in
      reply_read peer id err (codes "failed to read camera state") (camera_json c)
        (record w { ctrl = s })

  unfoldable pub h_drone_get_rtk_status : Peer → ℤ → World S → World S
  h_drone_get_rtk_status peer id w =
      let (err, r, s) = ctrl.get_rtk_status w.ctrl in
      reply_read peer id err (codes "failed to read RTK status") (rtk_json r)
        (record w { ctrl = s })
