-- ===== src/App/Decoded/Runs.antt =====
-- app/main.c with rpc.c and handler.c: what a run does to the drone control layer is what its commands
-- do.
use psdk_orangepi.Prelude.{
  ◌≡◌, refl, sym, ap, ◌∙◌, Bool, true, false, ◌||◌, Option, none, some, List, [], ◌∷◌,
  if◌then◌else◌, Bool-cases, Option-cases, inl, inr,
}
use psdk_orangepi.Prelude.Int.{ℤ}
use psdk_orangepi.Prelude.Text.{Bytes, codes, c_string, has_byte, has_substring}
use psdk_orangepi.Floating.{Floating}
use psdk_orangepi.Types.{DroneError, ok}
use psdk_orangepi.Ctrl.{DroneCtrl}
use psdk_orangepi.Proto.{
  JsonC, snprintf, or_null, params_of, parse_members, rpc_parse, rpc_param_str,
}
use psdk_orangepi.Server.Udp.{Peer}
use psdk_orangepi.Handler.{World, Clock, send_error, reply_status, uptime_ms}
use psdk_orangepi.Handler.Sending.{send_result-Keeps, send_error-Keeps, reply_status-Keeps}
use psdk_orangepi.Handler.Reads.{
  reply_read, h_system_ping, h_drone_get_telemetry, h_drone_get_battery_info,
  h_drone_get_gimbal_angle, h_drone_get_camera_state, h_drone_get_rtk_status,
}
use psdk_orangepi.Handler.Writes.{
  h_drone_set_rth_altitude, h_drone_set_gimbal_angle, h_drone_set_camera_mode,
  h_drone_set_camera_zoom, h_drone_set_home_location, h_drone_set_obstacle_avoidance,
  h_drone_shoot_photo, h_drone_start_recording, h_drone_stop_recording,
}
use psdk_orangepi.Handler.Kmz.{kmz_path, reply_upload, upload_named, h_drone_upload_kmz}
use psdk_orangepi.Handler.Dispatch.{
  Method, system_ping, get_telemetry, get_battery_info, get_gimbal_angle, get_camera_state,
  get_rtk_status, upload_kmz, set_rth_altitude, set_gimbal_angle, set_camera_mode, set_camera_zoom,
  set_home_location, set_obstacle_avoidance, shoot_photo, start_recording, stop_recording, select,
  run, dispatch, handle_rpc,
}
use psdk_orangepi.Handler.Dispatch.Selection.{select-snprintf}
use psdk_orangepi.App.{Poll, poll_all}
use psdk_orangepi.App.Requests.{gather, poll_all-Always}
use psdk_orangepi.App.Commands.{
  Command, reads_telemetry, reads_battery, reads_gimbal, reads_camera, reads_rtk, shoots, starts,
  stops, sets_altitude, sets_zoom, sets_gimbal, sets_mode, sets_home, sets_avoidance, uploads,
  carry_out, carry_out_all, carry_out_all-append,
}
use psdk_orangepi.App.Decoded.{unless, named, decode, decode_named, decode_line}

module _ {fp : Floating} {S : Type 0} (ctrl : DroneCtrl fp S) (peer : Peer) (id : ℤ)
    (w : World S) where
  guarded :
      (b : Bool) (c : Command fp) (m' : Bytes) (err : DroneError) (m : Bytes)
      → (if b
          then send_error peer id m' w
          else reply_status peer id err m (record w { ctrl = carry_out ctrl c w.ctrl })).ctrl
        ≡ carry_out_all ctrl (unless b c) w.ctrl
  guarded true c m' err m = (send_error-Keeps peer id w m').ctrl
  guarded false c m' err m =
      (reply_status-Keeps peer id (record w { ctrl = carry_out ctrl c w.ctrl }) err m).ctrl

  commanded :
      (c : Command fp) (err : DroneError) (m : Bytes)
      → (reply_status peer id err m (record w { ctrl = carry_out ctrl c w.ctrl })).ctrl
        ≡ carry_out ctrl c w.ctrl
  commanded c err m =
      (reply_status-Keeps peer id (record w { ctrl = carry_out ctrl c w.ctrl }) err m).ctrl

  read_out :
      (c : Command fp) (err : DroneError) (m r : Bytes)
      → (reply_read peer id err m r (record w { ctrl = carry_out ctrl c w.ctrl })).ctrl
        ≡ carry_out ctrl c w.ctrl
  unfolding reply_read
  read_out c ok m r =
      (send_result-Keeps peer id (record w { ctrl = carry_out ctrl c w.ctrl }) (some r)).ctrl
  read_out c _ m r = (send_error-Keeps peer id (record w { ctrl = carry_out ctrl c w.ctrl }) m).ctrl

  uploaded :
      (name : Bytes) (err : DroneError)
      → (reply_upload peer id name err
          (record w { ctrl = carry_out ctrl (uploads (kmz_path name)) w.ctrl })).ctrl
        ≡ carry_out ctrl (uploads (kmz_path name)) w.ctrl
  unfolding reply_upload
  uploaded name ok =
      (send_result-Keeps peer id
        (record w { ctrl = carry_out ctrl (uploads (kmz_path name)) w.ctrl }) (some _)).ctrl
  uploaded name _ =
      (send_error-Keeps peer id
        (record w { ctrl = carry_out ctrl (uploads (kmz_path name)) w.ctrl }) _).ctrl

  ctrl-upload_named :
      (name : Bytes)
      → (upload_named ctrl peer id name w).ctrl ≡ carry_out_all ctrl (named name) w.ctrl
  unfolding upload_named
  ctrl-upload_named name = go (has_substring (codes "..") name || has_byte b'/' name)
    where
      go :
          (b : Bool)
          → (if b
              then send_error peer id (codes "invalid file name") w
              else reply_upload peer id name
                  (ctrl.upload_kmz (kmz_path name) w.ctrl).0
                  (record w { ctrl = (ctrl.upload_kmz (kmz_path name) w.ctrl).1 })).ctrl
            ≡ carry_out_all ctrl (unless b (uploads (kmz_path name))) w.ctrl
      go true = (send_error-Keeps peer id w _).ctrl
      go false = uploaded name _

module _ {fp : Floating} (json : JsonC fp) {S : Type 0} (ctrl : DroneCtrl fp S) where
  open json use {Json, parse, is_object, get_ex, get_string}

  ctrl-upload :
      (clock : Clock) (peer : Peer) (id : ℤ) (p : Option Json) (w : World S)
      → (h_drone_upload_kmz ctrl json peer id p w).ctrl
        ≡ carry_out_all ctrl (decode json clock upload_kmz p) w.ctrl
  unfolding h_drone_upload_kmz
  ctrl-upload clock peer id p w = elim (Option-cases (rpc_param_str json p (codes "file"))) [
    | inl e ↦ rw (e, decode, h_drone_upload_kmz) ((send_error-Keeps peer id w _).ctrl)
    | inr ([], e) ↦ rw (e, decode, h_drone_upload_kmz) ((send_error-Keeps peer id w _).ctrl)
    | inr (c ∷ cs, e) ↦
        rw (e, decode, h_drone_upload_kmz) (ctrl-upload_named ctrl peer id w (c ∷ cs))
  ]

  ctrl-run :
      (m : Option Method) (clock : Clock) (peer : Peer) (id : ℤ) (p : Option Json) (w : World S)
      → (run json ctrl m clock peer id p w).ctrl
        ≡ carry_out_all ctrl (decode_named json clock m p) w.ctrl
  unfolding run h_system_ping uptime_ms h_drone_get_telemetry h_drone_get_battery_info
      h_drone_get_gimbal_angle h_drone_get_camera_state h_drone_get_rtk_status
      h_drone_set_rth_altitude h_drone_set_gimbal_angle h_drone_set_camera_mode
      h_drone_set_camera_zoom h_drone_set_home_location h_drone_set_obstacle_avoidance
      h_drone_shoot_photo h_drone_start_recording h_drone_stop_recording
  ctrl-run none clock peer id p w = (send_error-Keeps peer id w _).ctrl
  ctrl-run (some system_ping) clock peer id p w =
      (send_result-Keeps peer id (record w { start = _ }) _).ctrl
  ctrl-run (some get_telemetry) clock peer id p w =
      read_out ctrl peer id w (reads_telemetry clock.now) _ _ _
  ctrl-run (some get_battery_info) clock peer id p w =
      read_out ctrl peer id w (reads_battery clock.now) _ _ _
  ctrl-run (some get_gimbal_angle) clock peer id p w = read_out ctrl peer id w reads_gimbal _ _ _
  ctrl-run (some get_camera_state) clock peer id p w = read_out ctrl peer id w reads_camera _ _ _
  ctrl-run (some get_rtk_status) clock peer id p w = read_out ctrl peer id w reads_rtk _ _ _
  ctrl-run (some upload_kmz) clock peer id p w = ctrl-upload clock peer id p w
  ctrl-run (some set_rth_altitude) clock peer id p w =
      guarded ctrl peer id w _ (sets_altitude _) _ _ _
  ctrl-run (some set_gimbal_angle) clock peer id p w = commanded ctrl peer id w (sets_gimbal _) _ _
  ctrl-run (some set_camera_mode) clock peer id p w = guarded ctrl peer id w _ (sets_mode _) _ _ _
  ctrl-run (some set_camera_zoom) clock peer id p w = guarded ctrl peer id w _ (sets_zoom _) _ _ _
  ctrl-run (some set_home_location) clock peer id p w = guarded ctrl peer id w _ (sets_home _) _ _ _
  ctrl-run (some set_obstacle_avoidance) clock peer id p w =
      guarded ctrl peer id w _ (sets_avoidance _) _ _ _
  ctrl-run (some shoot_photo) clock peer id p w = commanded ctrl peer id w shoots _ _
  ctrl-run (some start_recording) clock peer id p w = commanded ctrl peer id w starts _ _
  ctrl-run (some stop_recording) clock peer id p w = commanded ctrl peer id w stops _ _

  ctrl-handle_rpc :
      (clock : Clock) (peer : Peer) (line : Bytes) (w : World S)
      → (handle_rpc json ctrl clock peer line w).ctrl
        ≡ carry_out_all ctrl (decode_line json clock (peer, line)) w.ctrl
  unfolding handle_rpc rpc_parse dispatch parse_members
  ctrl-handle_rpc clock peer line w = elim (Option-cases (parse (c_string line))) [
    | inl e ↦ rw (e, decode_line, rpc_parse, dispatch) refl
    | inr (root, e) ↦ elim (Bool-cases (is_object root)) [
      | inr f ↦ rw (e, f, decode_line, rpc_parse, dispatch) refl
      | inl f ↦ elim (Option-cases (get_ex root (codes "method"))) [
        | inl g ↦ rw (e, f, g, decode_line, rpc_parse, parse_members, dispatch) refl
        | inr (name, g) ↦
            rw (e, f, g, decode_line, rpc_parse, parse_members, dispatch)
              (ctrl-run (select (snprintf 64 (or_null (get_string name))).text) clock peer _
                  (params_of json root) _
                ∙ ap
                    (λ m.
                      carry_out_all ctrl (decode_named json clock m (params_of json root)) w.ctrl)
                    (select-snprintf (or_null (get_string name))))
      ]
    ]
  ]

  -- Whatever arrives in a run of the poll loop, the run leaves the drone control layer as the
  -- commands do, one behind the other, that the datagrams stand for. A datagram whose text is a
  -- JSON object stands for the operation that its whole member "method" names, with the parameters
  -- of its member "params"; it stands for none where the name is system.ping or not the name of a
  -- method, and where a parameter is refused by the test of its handler or is missing for an
  -- upload; a number that is missing is the default of its handler.
  pub ctrl-poll_all :
      (polls : List Poll) (w : World S)
      → (poll_all json ctrl polls w).ctrl
        ≡ carry_out_all ctrl (gather (decode_line json) polls) w.ctrl
  ctrl-poll_all polls w =
      poll_all-Always json ctrl (decode_line json)
        (λ cs w w'. w'.ctrl ≡ carry_out_all ctrl cs w.ctrl)
        (record {
          same = λ w. refl;
          step = λ cs ds w w' w'' p q.
              q ∙ ap (carry_out_all ctrl ds) p ∙ sym (carry_out_all-append ctrl cs ds w.ctrl);
        })
        (λ clock peer line w. ctrl-handle_rpc clock peer line w) polls w
