-- ===== src/Handler/Dispatch/Outcome.antt =====
-- handler.c: every handler ends in one reply. `Outcome n` says which, with a bound on the reply's own
-- text; what the proofs need of the handlers follows from it.
use psdk_orangepi.Prelude.{
  ℕ, ◌≤◌, ◌<◌, ◌≡◌, refl, Bool, true, false, ◌||◌, Option, none, some, [], ◌∷◌, arith, length,
  if◌then◌else◌,
}
use psdk_orangepi.Prelude.Int.{ℤ}
use psdk_orangepi.Prelude.Text.{Bytes, codes, has_substring, has_byte}
use psdk_orangepi.Floating.{Floating}
use psdk_orangepi.Types.{DroneError, ok, Timespec}
use psdk_orangepi.Ctrl.{DroneCtrl}
use psdk_orangepi.Proto.{JsonC, or_empty_object, rpc_param_str, snprintf}
use psdk_orangepi.Proto.Framing.{length-snprintf}
use psdk_orangepi.Server.Udp.{Peer}
use psdk_orangepi.Handler.{World, Clock, uptime_ms, send_result, send_error, reply_status}
use psdk_orangepi.Handler.Reads.{
  reply_read, h_system_ping, h_drone_get_telemetry, h_drone_get_battery_info,
  h_drone_get_gimbal_angle, h_drone_get_camera_state, h_drone_get_rtk_status,
}
use psdk_orangepi.Handler.Reads.Bounds.{
  length-telemetry_json, length-battery_json, length-gimbal_json, length-camera_json,
  length-rtk_json,
}
use psdk_orangepi.Handler.Writes.{
  h_drone_set_rth_altitude, h_drone_set_gimbal_angle, h_drone_set_camera_mode,
  h_drone_set_camera_zoom, h_drone_set_home_location, h_drone_set_obstacle_avoidance,
  h_drone_shoot_photo, h_drone_start_recording, h_drone_stop_recording,
}
use psdk_orangepi.Handler.Kmz.{
  kmz_path, uploaded_json, reply_upload, upload_named, h_drone_upload_kmz,
}
use psdk_orangepi.Handler.Dispatch.{
  Method, system_ping, get_telemetry, get_battery_info, get_gimbal_angle, get_camera_state,
  get_rtk_status, upload_kmz, set_rth_altitude, set_gimbal_angle, set_camera_mode, set_camera_zoom,
  set_home_location, set_obstacle_avoidance, shoot_photo, start_recording, stop_recording, run,
}

pub data Outcome (n : ℕ) {S : Type 0} (peer : Peer) (id : ℤ) (w w' : World S) : Type 0 where
  result :
      (r : Option Bytes) (start : Option Timespec) (s : S)
      → length (or_empty_object r) ≤ n
      → w' ≡ send_result peer id r (record w { start = start; ctrl = s })
      → Outcome n peer id w w'
  error :
      (m : Bytes) (s : S)
      → length m ≤ n
      → w' ≡ send_error peer id m (record w { ctrl = s })
      → Outcome n peer id w w'

pub or_empty-le : (n : ℕ) (r : Bytes) → 2 ≤ n → length r ≤ n → length (or_empty_object (some r)) ≤ n
or_empty-le n [] h k = h
or_empty-le n (c ∷ cs) h k = k

module _ (n : ℕ) (enough : 511 ≤ n) {S : Type 0} (peer : Peer) (id : ℤ) (w : World S) where
  status :
      (err : DroneError) (m : Bytes) (s : S)
      → length m ≤ n
      → Outcome n peer id w (reply_status peer id err m (record w { ctrl = s }))
  unfolding reply_status
  status ok m s h = Outcome.result none w.start s (omega arith) refl
  status _ m s h = Outcome.error m s h refl

  guarded :
      (b : Bool) (m' : Bytes) (err : DroneError) (m : Bytes) (s : S)
      → length m' ≤ n
      → length m ≤ n
      → Outcome n peer id w (
          if b then send_error peer id m' w else reply_status peer id err m (record w { ctrl = s }))
  guarded true m' err m s h k = Outcome.error m' w.ctrl h refl
  guarded false m' err m s h k = status err m s k

  read :
      (err : DroneError) (m r : Bytes) (s : S)
      → length m ≤ n
      → length r < 512
      → Outcome n peer id w (reply_read peer id err m r (record w { ctrl = s }))
  unfolding reply_read
  read ok m r s h k =
      Outcome.result (some r) w.start s (or_empty-le n r (omega arith) (omega arith)) refl
  read _ m r s h k = Outcome.error m s h refl

  uploaded :
      (name : Bytes) (err : DroneError) (s : S)
      → length (uploaded_json name (kmz_path name)) ≤ n
      → Outcome n peer id w (reply_upload peer id name err (record w { ctrl = s }))
  unfolding reply_upload
  uploaded name ok s h =
      Outcome.result (some (uploaded_json name (kmz_path name))) w.start s
        (or_empty-le n _ (omega arith) h) refl
  uploaded name _ s h = Outcome.error (codes "kmz upload failed") s (omega arith) refl

  ping : (clock : Clock) → Outcome n peer id w (h_system_ping clock peer id w)
  unfolding h_system_ping uptime_ms
  ping clock =
      Outcome.result _ _ w.ctrl
        (or_empty-le n _ (omega arith) (small_text 128 _ (omega arith) (omega arith))) refl
    where
      small_text :
          (size : ℕ) (s : Bytes) → 0 < size → size ≤ 512 → length (snprintf size s).text ≤ n
      small_text size s h k = omega (arith, length-snprintf size s h)

module _ (n : ℕ) (enough : 511 ≤ n) {fp : Floating} {S : Type 0} (ctrl : DroneCtrl fp S) where
  named :
      (peer : Peer) (id : ℤ) (name : Bytes) (w : World S)
      → length (uploaded_json name (kmz_path name)) ≤ n
      → Outcome n peer id w (upload_named ctrl peer id name w)
  unfolding upload_named
  named peer id name w h = go (has_substring (codes "..") name || has_byte b'/' name)
    where
      go :
          (b : Bool)
          → Outcome n peer id w (
              if b
              then send_error peer id (codes "invalid file name") w
              else reply_upload peer id name
                  (ctrl.upload_kmz (kmz_path name) w.ctrl).0
                  (record w { ctrl = (ctrl.upload_kmz (kmz_path name) w.ctrl).1 }))
      go true = Outcome.error _ w.ctrl (omega arith) refl
      go false = uploaded n enough peer id w name _ _ h

  kmz :
      (json : JsonC fp) (peer : Peer) (id : ℤ) (p : Option json.Json) (w : World S)
      → ((name : Bytes)
          → rpc_param_str json p (codes "file") ≡ some name
          → length (uploaded_json name (kmz_path name)) ≤ n)
      → Outcome n peer id w (h_drone_upload_kmz ctrl json peer id p w)
  kmz json peer id p w h = go (rpc_param_str json p (codes "file")) refl
    where
      missing : Outcome n peer id w (send_error peer id (codes "missing param: file") w)
      missing = Outcome.error _ w.ctrl (omega arith) refl

      go :
          (o : Option Bytes)
          → rpc_param_str json p (codes "file") ≡ o
          → Outcome n peer id w (h_drone_upload_kmz ctrl json peer id p w)
      go none e = unfold h_drone_upload_kmz in rw (e, h_drone_upload_kmz) missing
      go (some []) e = unfold h_drone_upload_kmz in rw (e, h_drone_upload_kmz) missing
      go (some (c ∷ cs)) e =
          unfold h_drone_upload_kmz in rw (e, h_drone_upload_kmz) (named peer id (c ∷ cs) w (h _ e))

  module _ (json : JsonC fp) (clock : Clock) (peer : Peer) (id : ℤ) (p : Option json.Json)
      (w : World S) where
    -- Every method ends in one reply; only that of an upload can be long.
    pub run-Outcome :
        (m : Option Method)
        → ((name : Bytes)
            → m ≡ some upload_kmz
            → rpc_param_str json p (codes "file") ≡ some name
            → length (uploaded_json name (kmz_path name)) ≤ n)
        → Outcome n peer id w (run json ctrl m clock peer id p w)
    unfolding run h_drone_get_telemetry h_drone_get_battery_info h_drone_get_gimbal_angle
        h_drone_get_camera_state h_drone_get_rtk_status h_drone_set_rth_altitude
        h_drone_set_gimbal_angle h_drone_set_camera_mode h_drone_set_camera_zoom
        h_drone_set_home_location h_drone_set_obstacle_avoidance h_drone_shoot_photo
        h_drone_start_recording h_drone_stop_recording
    run-Outcome none h = Outcome.error _ w.ctrl (omega arith) refl
    run-Outcome (some system_ping) h = ping n enough peer id w clock
    run-Outcome (some get_telemetry) h =
        read n enough peer id w _ _ _ _ (omega arith) (length-telemetry_json _)
    run-Outcome (some get_battery_info) h =
        read n enough peer id w _ _ _ _ (omega arith) (length-battery_json _)
    run-Outcome (some get_gimbal_angle) h =
        read n enough peer id w _ _ _ _ (omega arith) (length-gimbal_json _)
    run-Outcome (some get_camera_state) h =
        read n enough peer id w _ _ _ _ (omega arith) (length-camera_json _)
    run-Outcome (some get_rtk_status) h =
        read n enough peer id w _ _ _ _ (omega arith) (length-rtk_json _)
    run-Outcome (some upload_kmz) h = kmz json peer id p w (λ name. h name refl)
    run-Outcome (some set_rth_altitude) h =
        guarded n enough peer id w _ _ _ _ _ (omega arith) (omega arith)
    run-Outcome (some set_gimbal_angle) h = status n enough peer id w _ _ _ (omega arith)
    run-Outcome (some set_camera_mode) h =
        guarded n enough peer id w _ _ _ _ _ (omega arith) (omega arith)
    run-Outcome (some set_camera_zoom) h =
        guarded n enough peer id w _ _ _ _ _ (omega arith) (omega arith)
    run-Outcome (some set_home_location) h =
        guarded n enough peer id w _ _ _ _ _ (omega arith) (omega arith)
    run-Outcome (some set_obstacle_avoidance) h =
        guarded n enough peer id w _ _ _ _ _ (omega arith) (omega arith)
    run-Outcome (some shoot_photo) h = status n enough peer id w _ _ _ (omega arith)
    run-Outcome (some start_recording) h = status n enough peer id w _ _ _ (omega arith)
    run-Outcome (some stop_recording) h = status n enough peer id w _ _ _ (omega arith)
