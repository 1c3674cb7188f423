-- ===== src/Handler/Dispatch.antt =====
-- handler.c: `handle_rpc`. The ladder of comparisons is split in the test of the name, `select`, and
-- the call that it leads to, `run`.
pub mod Outcome
pub mod Replies
pub mod Selection
pub mod Required
pub mod Echo
pub mod Guarded
pub mod Reaches
use psdk_orangepi.Prelude.{zero, suc, Option, none, some, if◌then◌else◌}
use psdk_orangepi.Prelude.Int.{ℤ, pos, negsuc}
use psdk_orangepi.Prelude.Text.{Bytes, codes, bytes_eq}
use psdk_orangepi.Floating.{Floating}
use psdk_orangepi.Ctrl.{DroneCtrl}
use psdk_orangepi.Proto.{JsonC, RpcRequest, Refs, rpc_parse, rpc_request_free}
use psdk_orangepi.Server.Udp.{Peer}
use psdk_orangepi.Handler.{World, Clock, send_error}
use psdk_orangepi.Handler.Reads.{
  h_system_ping, h_drone_get_telemetry, h_drone_get_battery_info, h_drone_get_gimbal_angle,
  h_drone_get_camera_state, h_drone_get_rtk_status,
}
use psdk_orangepi.Handler.Writes.{
  h_drone_set_rth_altitude, h_drone_set_gimbal_angle, h_drone_set_camera_mode,
  h_drone_set_camera_zoom, h_drone_set_home_location, h_drone_set_obstacle_avoidance,
  h_drone_shoot_photo, h_drone_start_recording, h_drone_stop_recording,
}
use psdk_orangepi.Handler.Kmz.{h_drone_upload_kmz}

pub data Method : Type 0 where
  system_ping : Method
  get_telemetry get_battery_info get_gimbal_angle get_camera_state get_rtk_status : Method
  upload_kmz : Method
  set_rth_altitude set_gimbal_angle set_camera_mode : Method
  set_camera_zoom set_home_location set_obstacle_avoidance : Method
  shoot_photo start_recording stop_recording : Method

-- The tests of the ladder, in its order; none is its last branch.
unfoldable pub select : Bytes → Option Method
select m =
    if bytes_eq m (codes "system.ping")
    then some system_ping
    else if bytes_eq m (codes "drone.get_telemetry")
    then some get_telemetry
    else if bytes_eq m (codes "drone.get_battery_info")
    then some get_battery_info
    else if bytes_eq m (codes "drone.get_gimbal_angle")
    then some get_gimbal_angle
    else if bytes_eq m (codes "drone.get_camera_state")
    then some get_camera_state
    else if bytes_eq m (codes "drone.get_rtk_status")
    then some get_rtk_status
    else if bytes_eq m (codes "drone.upload_kmz")
    then some upload_kmz
    else if bytes_eq m (codes "drone.set_rth_altitude")
    then some set_rth_altitude
    else if bytes_eq m (codes "drone.set_gimbal_angle")
    then some set_gimbal_angle
    else if bytes_eq m (codes "drone.set_camera_mode")
    then some set_camera_mode
    else if bytes_eq m (codes "drone.set_camera_zoom")
    then some set_camera_zoom
    else if bytes_eq m (codes "drone.set_home_location")
    then some set_home_location
    else if bytes_eq m (codes "drone.set_obstacle_avoidance")
    then some set_obstacle_avoidance
    else if bytes_eq m (codes "drone.shoot_photo")
    then some shoot_photo
    else if bytes_eq m (codes "drone.start_recording")
    then some start_recording
    else if bytes_eq m (codes "drone.stop_recording")
    then some stop_recording
    else none

module _ {fp : Floating} (json : JsonC fp) {S : Type 0} (ctrl : DroneCtrl fp S) where
  open json use {Json}

  -- The call in the branch that the ladder takes.
  unfoldable pub run : Option Method → Clock → Peer → ℤ → Option Json → World S → World S
  run none clock peer id p w = send_error peer id (codes "method not found") w
  run (some system_ping) clock peer id p w = h_system_ping clock peer id w
  run (some get_telemetry) clock peer id p w = h_drone_get_telemetry ctrl clock peer id w
  run (some get_battery_info) clock peer id p w = h_drone_get_battery_info ctrl clock peer id w
  run (some get_gimbal_angle) clock peer id p w = h_drone_get_gimbal_angle ctrl peer id w
  run (some get_camera_state) clock peer id p w = h_drone_get_camera_state ctrl peer id w
  run (some get_rtk_status) clock peer id p w = h_drone_get_rtk_status ctrl peer id w
  run (some upload_kmz) clock peer id p w = h_drone_upload_kmz ctrl json peer id p w
  run (some set_rth_altitude) clock peer id p w = h_drone_set_rth_altitude json ctrl peer id p w
  run (some set_gimbal_angle) clock peer id p w = h_drone_set_gimbal_angle json ctrl peer id p w
  run (some set_camera_mode) clock peer id p w = h_drone_set_camera_mode json ctrl peer id p w
  run (some set_camera_zoom) clock peer id p w = h_drone_set_camera_zoom json ctrl peer id p w
  run (some set_home_location) clock peer id p w = h_drone_set_home_location json ctrl peer id p w
  run (some set_obstacle_avoidance) clock peer id p w =
      h_drone_set_obstacle_avoidance json ctrl peer id p w
  run (some shoot_photo) clock peer id p w = h_drone_shoot_photo ctrl peer id w
  run (some start_recording) clock peer id p w = h_drone_start_recording ctrl peer id w
  run (some stop_recording) clock peer id p w = h_drone_stop_recording ctrl peer id w

  -- The part of `handle_rpc` behind `rpc_parse`.
  unfoldable pub dispatch : Clock → Peer → ℤ → RpcRequest json → World S → World S
  dispatch clock peer (negsuc n) req w = w
  dispatch clock peer (pos (suc n)) req w = w
  dispatch clock peer (pos zero) req w =
      let w' = run (select req.method) clock peer req.id req.params w in
      let (_, refs) = rpc_request_free json req w'.refs in record w' { refs = refs }

  unfoldable pub handle_rpc : Clock → Peer → Bytes → World S → World S
  handle_rpc clock peer line w =
      let (rc, req, refs) = rpc_parse json line w.refs in
      dispatch clock peer rc req (record w { refs = refs })
