-- ===== src/App/Decoded.antt =====
-- app/main.c with rpc.c and handler.c: the commands that the datagrams of a run stand for, read off
-- their JSON.
pub mod Runs
use psdk_orangepi.Prelude.{
  ◌≡◌, refl, sym, ap, ◌∙◌, Bool, true, false, ◌||◌, Option, none, some, List, [], ◌∷◌, ◌++◌,
  if◌then◌else◌, Bool-cases, Option-cases, inl, inr,
}
use psdk_orangepi.Prelude.Int.{ℤ, pos, negsuc, is_neg}
use psdk_orangepi.Prelude.Text.{Bytes, codes, c_string, has_byte, has_substring}
use psdk_orangepi.Floating.{Floating}
use psdk_orangepi.Types.{DroneError, ok, Timespec, DroneGimbalAngle, DroneHomeLocation}
use psdk_orangepi.Ctrl.{DroneCtrl}
use psdk_orangepi.Proto.{
  JsonC, Refs, snprintf, or_null, params_of, parse_members, rpc_parse, rpc_param_int,
  rpc_param_double, rpc_param_str,
}
use psdk_orangepi.Server.Udp.{Peer}
use psdk_orangepi.Handler.{World, Clock, send_result, send_error, reply_status, uptime_ms}
use psdk_orangepi.Handler.Sending.{send_result-Keeps, send_error-Keeps, reply_status-Keeps}
use psdk_orangepi.Handler.Reads.{
  reply_read, h_system_ping, h_drone_get_telemetry, h_drone_get_battery_info,
  h_drone_get_gimbal_angle, h_drone_get_camera_state, h_drone_get_rtk_status,
}
use psdk_orangepi.Handler.Writes.{
  h_drone_set_rth_altitude, h_drone_set_gimbal_angle, h_drone_set_camera_mode,
  h_drone_set_camera_zoom, h_drone_set_home_location, h_drone_set_obstacle_avoidance,
  h_drone_shoot_photo, h_drone_start_recording, h_drone_stop_recording,
}
use psdk_orangepi.Handler.Kmz.{kmz_path, reply_upload, upload_named, h_drone_upload_kmz}
use psdk_orangepi.Handler.Dispatch.{
  Method, system_ping, get_telemetry, get_battery_info, get_gimbal_angle, get_camera_state,
  get_rtk_status, upload_kmz, set_rth_altitude, set_gimbal_angle, set_camera_mode, set_camera_zoom,
  set_home_location, set_obstacle_avoidance, shoot_photo, start_recording, stop_recording, select,
  run, dispatch, handle_rpc,
}
use psdk_orangepi.Handler.Dispatch.Selection.{select-snprintf}
use psdk_orangepi.App.{Poll, poll_all}
use psdk_orangepi.App.Requests.{callbacks, gather, poll_all-Composes}
use psdk_orangepi.App.Commands.{
  Command, reads_telemetry, reads_battery, reads_gimbal, reads_camera, reads_rtk, shoots, starts,
  stops, sets_altitude, sets_zoom, sets_gimbal, sets_mode, sets_home, sets_avoidance, uploads,
  carry_out, carry_out_all, carry_out_all-append,
}

module _ {fp : Floating} where
  open fp use {lit_d, lt_d}

  abbrev pub unless : Bool → Command fp → List (Command fp)
  unless refused c = if refused then [] else c ∷ []

  abbrev beyond : DroneHomeLocation fp → Bool
  beyond loc =
      lt_d (lit_d (pos 900) 1) loc.lat
      || (lt_d loc.lat (lit_d (negsuc 899) 1)
          || (lt_d (lit_d (pos 1800) 1) loc.lon || lt_d loc.lon (lit_d (negsuc 1799) 1)))

  abbrev pub named : Bytes → List (Command fp)
  named name =
      unless (has_substring (codes "..") name || has_byte b'/' name) (uploads (kmz_path name))

module _ {fp : Floating} (json : JsonC fp) where
  open fp use {F, D, lit_f, lit_d, narrow, lt_f}
  open json use {Json, parse, is_object, get_ex, get_string}

  abbrev number : Option Json → Bytes → D → D
  number p key def = rpc_param_double json p key def

  -- The command that a method with its parameters stands for, none where a parameter is missing or
  -- is refused.
  abbrev pub decode : Clock → Method → Option Json → List (Command fp)
  decode clock system_ping p = []
  decode clock get_telemetry p = reads_telemetry clock.now ∷ []
  decode clock get_battery_info p = reads_battery clock.now ∷ []
  decode clock get_gimbal_angle p = reads_gimbal ∷ []
  decode clock get_camera_state p = reads_camera ∷ []
  decode clock get_rtk_status p = reads_rtk ∷ []
  decode clock upload_kmz p = elim (rpc_param_str json p (codes "file")) [
    | none ↦ []
    | some [] ↦ []
    | some (c ∷ cs) ↦ named (c ∷ cs)
  ]
  decode clock set_rth_altitude p =
      let x = narrow (number p (codes "altitude_m") (lit_d (negsuc 9) 1)) in
      unless (lt_f x (lit_f (pos 0) 0)) (sets_altitude x)
  decode clock set_gimbal_angle p =
      sets_gimbal (record {
        pitch = narrow (number p (codes "pitch") (lit_d (pos 0) 1));
        roll = narrow (number p (codes "roll") (lit_d (pos 0) 1));
        yaw = narrow (number p (codes "yaw") (lit_d (pos 0) 1));
      })
      ∷ []
  decode clock set_camera_mode p =
      let m = rpc_param_int json p (codes "mode") (negsuc 0) in unless (is_neg m) (sets_mode m)
  decode clock set_camera_zoom p =
      let x = narrow (number p (codes "zoom_factor") (lit_d (negsuc 9) 1)) in
      unless (lt_f x (lit_f (pos 10) 1)) (sets_zoom x)
  decode clock set_home_location p =
      let loc : DroneHomeLocation fp = record {
        lat = number p (codes "lat") (lit_d (pos 9990) 1);
        lon = number p (codes "lon") (lit_d (pos 9990) 1);
        alt_m = narrow (number p (codes "alt_m") (lit_d (pos 0) 1));
      } in
      unless (beyond loc) (sets_home loc)
  decode clock set_obstacle_avoidance p =
      let m = rpc_param_int json p (codes "mode") (negsuc 0) in unless (is_neg m) (sets_avoidance m)
  decode clock shoot_photo p = shoots ∷ []
  decode clock start_recording p = starts ∷ []
  decode clock stop_recording p = stops ∷ []

  abbrev pub decode_named : Clock → Option Method → Option Json → List (Command fp)
  decode_named clock none p = []
  decode_named clock (some m) p = decode clock m p

  abbrev pub decode_root : Clock → Json → Bool → Option (Option Json) → List (Command fp)
  decode_root clock root true (some name) =
      decode_named clock (select (or_null (get_string name))) (params_of json root)
  decode_root clock root true none = []
  decode_root clock root false name = []

  -- The command that a line stands for: that of the member "method" with the member "params".
  abbrev pub decode_line : Clock → Peer × Bytes → List (Command fp)
  decode_line clock (peer, line) = elim (parse (c_string line)) [
    | none ↦ []
    | some root ↦ decode_root clock root (is_object root) (get_ex root (codes "method"))
  ]
