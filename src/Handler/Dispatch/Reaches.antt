-- ===== src/Handler/Dispatch/Reaches.antt =====
-- handler.c: what requests can do to the drone control layer is what the operations of its interface
-- can do to it, with the arguments that the handlers let pass.
use psdk_orangepi.Prelude.{
  ℕ, zero, suc, ◌≡◌, refl, sym, subst, inl, inr, Bool-cases, arith, Bool, true, false, ◌||◌, Option,
  none, some, [], ◌∷◌, if◌then◌else◌,
}
use psdk_orangepi.Prelude.Int.{ℤ, pos, negsuc}
use psdk_orangepi.Prelude.Text.{Bytes, codes, has_byte, has_substring}
use psdk_orangepi.Floating.{Floating}
use psdk_orangepi.Types.{DroneError, ok, Timespec}
use psdk_orangepi.Ctrl.{DroneCtrl}
use psdk_orangepi.Proto.{JsonC, RpcRequest, rpc_param_str}
use psdk_orangepi.Server.Udp.{Peer, deliver, udp_server_poll}
use psdk_orangepi.Handler.{World, Clock, send_result, send_error, reply_status, uptime_ms}
use psdk_orangepi.Handler.Sending.{send_result-Keeps, send_error-Keeps, reply_status-Keeps}
use psdk_orangepi.Handler.Reads.{
  reply_read, h_system_ping, h_drone_get_telemetry, h_drone_get_battery_info,
  h_drone_get_gimbal_angle, h_drone_get_camera_state, h_drone_get_rtk_status,
}
use psdk_orangepi.Handler.Writes.{
  h_drone_set_rth_altitude, h_drone_set_gimbal_angle, h_drone_set_camera_mode,
  h_drone_set_camera_zoom, h_drone_set_home_location, h_drone_set_obstacle_avoidance,
  h_drone_shoot_photo, h_drone_start_recording, h_drone_stop_recording,
}
use psdk_orangepi.Handler.Kmz.{reply_upload, upload_named, h_drone_upload_kmz}
use psdk_orangepi.Handler.Dispatch.Guarded.{Respects}
use psdk_orangepi.Handler.Kmz.Confined.{kmz_path-IsConfined}
use psdk_orangepi.Handler.Dispatch.{
  Method, system_ping, get_telemetry, get_battery_info, get_gimbal_angle, get_camera_state,
  get_rtk_status, upload_kmz, set_rth_altitude, set_gimbal_angle, set_camera_mode, set_camera_zoom,
  set_home_location, set_obstacle_avoidance, shoot_photo, start_recording, stop_recording, select,
  run, dispatch, handle_rpc,
}

module _ {S : Type 0} (R : S → S → Type 0) (peer : Peer) (id : ℤ) (w : World S) where
  after_error :
      (m : Bytes) (s : S)
      → R w.ctrl s
      → R w.ctrl (send_error peer id m (record w { ctrl = s })).ctrl
  after_error m s h =
      subst (R w.ctrl) (sym (send_error-Keeps peer id (record w { ctrl = s }) m).ctrl) h

  after_result :
      (r : Option Bytes) (t : Option Timespec) (s : S)
      → R w.ctrl s
      → R w.ctrl (send_result peer id r (record w { start = t; ctrl = s })).ctrl
  after_result r t s h =
      subst (R w.ctrl) (sym (send_result-Keeps peer id (record w { start = t; ctrl = s }) r).ctrl) h

  after_status :
      (err : DroneError) (m : Bytes) (s : S)
      → R w.ctrl s
      → R w.ctrl (reply_status peer id err m (record w { ctrl = s })).ctrl
  after_status err m s h =
      subst (R w.ctrl) (sym (reply_status-Keeps peer id (record w { ctrl = s }) err m).ctrl) h

  after_guard :
      (b : Bool) (m' : Bytes) (err : DroneError) (m : Bytes) (s : S)
      → R w.ctrl w.ctrl
      → (b ≡ false → R w.ctrl s)
      → R w.ctrl
          (if b
            then send_error peer id m' w
            else reply_status peer id err m (record w { ctrl = s })).ctrl
  after_guard true m' err m s k h = after_error m' w.ctrl k
  after_guard false m' err m s k h = after_status err m s (h refl)

  after_read :
      (err : DroneError) (m r : Bytes) (s : S)
      → R w.ctrl s
      → R w.ctrl (reply_read peer id err m r (record w { ctrl = s })).ctrl
  unfolding reply_read
  after_read ok m r s h = after_result (some r) w.start s h
  after_read _ m r s h = after_error m s h

  after_upload :
      (name : Bytes) (err : DroneError) (s : S)
      → R w.ctrl s
      → R w.ctrl (reply_upload peer id name err (record w { ctrl = s })).ctrl
  unfolding reply_upload
  after_upload name ok s h = after_result _ w.start s h
  after_upload name _ s h = after_error _ s h

module _ {fp : Floating} {S : Type 0} (R : S → S → Type 0) (ctrl : DroneCtrl fp S)
    (respects : Respects R ctrl) where
  named-Reaches :
      (peer : Peer) (id : ℤ) (c : ℕ) (cs : Bytes) (w : World S)
      → R w.ctrl (upload_named ctrl peer id (c ∷ cs) w).ctrl
  unfolding upload_named
  named-Reaches peer id c cs w =
      elim (Bool-cases (has_substring (codes "..") (c ∷ cs) || has_byte b'/' (c ∷ cs))) [
        | inl bad ↦ rw (bad) (after_error R peer id w _ w.ctrl (respects.stays w.ctrl))
        | inr good ↦ rw (good) (
            after_upload R peer id w (c ∷ cs) _ _ (
              respects.upload_kmz _ w.ctrl
                (kmz_path-IsConfined c cs (ground arith) (ground arith))))
      ]

  module _ (json : JsonC fp) where
    kmz-Reaches :
        (peer : Peer) (id : ℤ) (p : Option json.Json) (w : World S)
        → R w.ctrl (h_drone_upload_kmz ctrl json peer id p w).ctrl
    unfolding h_drone_upload_kmz
    kmz-Reaches peer id p w = go (rpc_param_str json p (codes "file"))
      where
        go :
            (o : Option Bytes)
            → R w.ctrl
                (elim o as (λ _. World S) [
                  | none ↦ send_error peer id (codes "missing param: file") w
                  | some [] ↦ send_error peer id (codes "missing param: file") w
                  | some (c ∷ cs) ↦ upload_named ctrl peer id (c ∷ cs) w
                ]).ctrl
        go none = after_error R peer id w _ w.ctrl (respects.stays w.ctrl)
        go (some []) = after_error R peer id w _ w.ctrl (respects.stays w.ctrl)
        go (some (c ∷ cs)) = named-Reaches peer id c cs w

    run-Reaches :
        (m : Option Method) (clock : Clock) (peer : Peer) (id : ℤ) (p : Option json.Json)
        (w : World S)
        → R w.ctrl (run json ctrl m clock peer id p w).ctrl
    unfolding run h_system_ping uptime_ms h_drone_get_telemetry h_drone_get_battery_info
        h_drone_get_gimbal_angle h_drone_get_camera_state h_drone_get_rtk_status
        h_drone_set_rth_altitude h_drone_set_gimbal_angle h_drone_set_camera_mode
        h_drone_set_camera_zoom h_drone_set_home_location h_drone_set_obstacle_avoidance
        h_drone_shoot_photo h_drone_start_recording h_drone_stop_recording
    run-Reaches none clock peer id p w = after_error R peer id w _ w.ctrl (respects.stays w.ctrl)
    run-Reaches (some system_ping) clock peer id p w =
        after_result R peer id w _ _ w.ctrl (respects.stays w.ctrl)
    run-Reaches (some get_telemetry) clock peer id p w =
        after_read R peer id w _ _ _ _ (respects.get_telemetry clock.now w.ctrl)
    run-Reaches (some get_battery_info) clock peer id p w =
        after_read R peer id w _ _ _ _ (respects.get_battery_info clock.now w.ctrl)
    run-Reaches (some get_gimbal_angle) clock peer id p w =
        after_read R peer id w _ _ _ _ (respects.get_gimbal_angle w.ctrl)
    run-Reaches (some get_camera_state) clock peer id p w =
        after_read R peer id w _ _ _ _ (respects.get_camera_state w.ctrl)
    run-Reaches (some get_rtk_status) clock peer id p w =
        after_read R peer id w _ _ _ _ (respects.get_rtk_status w.ctrl)
    run-Reaches (some upload_kmz) clock peer id p w = kmz-Reaches peer id p w
    run-Reaches (some set_rth_altitude) clock peer id p w =
        after_guard R peer id w _ _ _ _ _ (respects.stays w.ctrl)
          (respects.set_rth_altitude _ w.ctrl)
    run-Reaches (some set_gimbal_angle) clock peer id p w =
        after_status R peer id w _ _ _ (respects.set_gimbal_angle _ w.ctrl)
    run-Reaches (some set_camera_mode) clock peer id p w =
        after_guard R peer id w _ _ _ _ _ (respects.stays w.ctrl)
          (respects.set_camera_mode _ w.ctrl)
    run-Reaches (some set_camera_zoom) clock peer id p w =
        after_guard R peer id w _ _ _ _ _ (respects.stays w.ctrl)
          (respects.set_camera_zoom _ w.ctrl)
    run-Reaches (some set_home_location) clock peer id p w =
        after_guard R peer id w _ _ _ _ _ (respects.stays w.ctrl)
          (respects.set_home_location _ w.ctrl)
    run-Reaches (some set_obstacle_avoidance) clock peer id p w =
        after_guard R peer id w _ _ _ _ _ (respects.stays w.ctrl)
          (respects.set_obstacle_avoidance _ w.ctrl)
    run-Reaches (some shoot_photo) clock peer id p w =
        after_status R peer id w _ _ _ (respects.shoot_photo w.ctrl)
    run-Reaches (some start_recording) clock peer id p w =
        after_status R peer id w _ _ _ (respects.start_recording w.ctrl)
    run-Reaches (some stop_recording) clock peer id p w =
        after_status R peer id w _ _ _ (respects.stop_recording w.ctrl)

    dispatch-Reaches :
        (clock : Clock) (peer : Peer) (rc : ℤ) (req : RpcRequest json) (w : World S)
        → R w.ctrl (dispatch json ctrl clock peer rc req w).ctrl
    unfolding dispatch
    dispatch-Reaches clock peer (negsuc n) req w = respects.stays w.ctrl
    dispatch-Reaches clock peer (pos (suc n)) req w = respects.stays w.ctrl
    dispatch-Reaches clock peer (pos zero) req w =
        run-Reaches (select req.method) clock peer req.id req.params w

    pub handle_rpc-Reaches :
        (clock : Clock) (peer : Peer) (line : Bytes) (w : World S)
        → R w.ctrl (handle_rpc json ctrl clock peer line w).ctrl
    unfolding handle_rpc
    handle_rpc-Reaches clock peer line w = dispatch-Reaches clock peer _ _ _

    called_if : (b : Bool) (w w' : World S) → R w.ctrl w'.ctrl → R w.ctrl (if b then w else w').ctrl
    called_if true w w' h = respects.stays w.ctrl
    called_if false w w' h = h

    pub udp_server_poll-Reaches :
        (clock : Clock) (ready : Bool) (received : Option (Peer × Bytes)) (w : World S)
        → R w.ctrl (udp_server_poll (handle_rpc json ctrl clock) ready received w).ctrl
    unfolding udp_server_poll deliver
    udp_server_poll-Reaches clock false received w = respects.stays w.ctrl
    udp_server_poll-Reaches clock true none w = respects.stays w.ctrl
    udp_server_poll-Reaches clock true (some (peer, data_in)) w =
        called_if _ w _ (handle_rpc-Reaches clock peer _ w)
