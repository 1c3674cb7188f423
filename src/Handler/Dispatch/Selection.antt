-- ===== src/Handler/Dispatch/Selection.antt =====
-- handler.c with rpc.c: the method name that the ladder compares is cut to 63 bytes.
use psdk_orangepi.Prelude.{
  ◌<◌, ◌≡◌, refl, ap, sym, ◌∙◌, ◌↔◌, inl, inr, Bool-cases, none, some, arith, length, length-take,
  ltb, ltb→lt, ltb_false→le,
}
use psdk_orangepi.Prelude.Text.{Bytes, codes, bytes_eq, bytes_eq-eq, bytes_eq_ne}
use psdk_orangepi.Proto.{snprintf}
use psdk_orangepi.Proto.Framing.{snprintf_fits}
use psdk_orangepi.Handler.Dispatch.{
  Method, system_ping, get_telemetry, get_battery_info, get_gimbal_angle, get_camera_state,
  get_rtk_status, upload_kmz, set_rth_altitude, set_gimbal_angle, set_camera_mode, set_camera_zoom,
  set_home_location, set_obstacle_avoidance, shoot_photo, start_recording, stop_recording, select,
}

-- No method name has more than 28 bytes.
select_long : (m : Bytes) → 28 < length m → select m ≡ none
unfolding select
select_long m h =
    rw
      (
        bytes_eq_ne m (codes "system.ping") (omega arith),
        bytes_eq_ne m (codes "drone.get_telemetry") (omega arith),
        bytes_eq_ne m (codes "drone.get_battery_info") (omega arith),
        bytes_eq_ne m (codes "drone.get_gimbal_angle") (omega arith),
        bytes_eq_ne m (codes "drone.get_camera_state") (omega arith),
        bytes_eq_ne m (codes "drone.get_rtk_status") (omega arith),
        bytes_eq_ne m (codes "drone.upload_kmz") (omega arith),
        bytes_eq_ne m (codes "drone.set_rth_altitude") (omega arith),
        bytes_eq_ne m (codes "drone.set_gimbal_angle") (omega arith),
        bytes_eq_ne m (codes "drone.set_camera_mode") (omega arith),
        bytes_eq_ne m (codes "drone.set_camera_zoom") (omega arith),
        bytes_eq_ne m (codes "drone.set_home_location") (omega arith),
        bytes_eq_ne m (codes "drone.set_obstacle_avoidance") (omega arith),
        bytes_eq_ne m (codes "drone.shoot_photo") (omega arith),
        bytes_eq_ne m (codes "drone.start_recording") (omega arith),
        bytes_eq_ne m (codes "drone.stop_recording") (omega arith),
      )
      refl

-- Cutting a method name to the 64 bytes of the request does not change which method the ladder
-- selects.
pub select-snprintf : (name : Bytes) → select (snprintf 64 name).text ≡ select name
select-snprintf name = elim (Bool-cases (ltb (length name) 64)) [
  | inl short ↦ ap select (snprintf_fits 64 name (ltb→lt _ _ short))
  | inr long ↦
      select_long (snprintf 64 name).text
        (unfold snprintf in omega (arith, length-take 63 name, ltb_false→le _ _ long))
      ∙ sym (select_long name (omega (arith, ltb_false→le _ _ long)))
]

-- The name under which drone_types.h and handler.c document each method.
abbrev pub method_name : Method → Bytes
method_name system_ping = codes "system.ping"
method_name get_telemetry = codes "drone.get_telemetry"
method_name get_battery_info = codes "drone.get_battery_info"
method_name get_gimbal_angle = codes "drone.get_gimbal_angle"
method_name get_camera_state = codes "drone.get_camera_state"
method_name get_rtk_status = codes "drone.get_rtk_status"
method_name upload_kmz = codes "drone.upload_kmz"
method_name set_rth_altitude = codes "drone.set_rth_altitude"
method_name set_gimbal_angle = codes "drone.set_gimbal_angle"
method_name set_camera_mode = codes "drone.set_camera_mode"
method_name set_camera_zoom = codes "drone.set_camera_zoom"
method_name set_home_location = codes "drone.set_home_location"
method_name set_obstacle_avoidance = codes "drone.set_obstacle_avoidance"
method_name shoot_photo = codes "drone.shoot_photo"
method_name start_recording = codes "drone.start_recording"
method_name stop_recording = codes "drone.stop_recording"

select-method_name : (k : Method) → select (method_name k) ≡ some k
unfolding select bytes_eq
select-method_name system_ping = refl
select-method_name _ = refl

select_sound : (m : Bytes) (k : Method) → select m ≡ some k → m ≡ method_name k
unfolding select
select_sound m k h = ground (
  arith,
  bytes_eq-eq m (codes "system.ping"),
  bytes_eq-eq m (codes "drone.get_telemetry"),
  bytes_eq-eq m (codes "drone.get_battery_info"),
  bytes_eq-eq m (codes "drone.get_gimbal_angle"),
  bytes_eq-eq m (codes "drone.get_camera_state"),
  bytes_eq-eq m (codes "drone.get_rtk_status"),
  bytes_eq-eq m (codes "drone.upload_kmz"),
  bytes_eq-eq m (codes "drone.set_rth_altitude"),
  bytes_eq-eq m (codes "drone.set_gimbal_angle"),
  bytes_eq-eq m (codes "drone.set_camera_mode"),
  bytes_eq-eq m (codes "drone.set_camera_zoom"),
  bytes_eq-eq m (codes "drone.set_home_location"),
  bytes_eq-eq m (codes "drone.set_obstacle_avoidance"),
  bytes_eq-eq m (codes "drone.shoot_photo"),
  bytes_eq-eq m (codes "drone.start_recording"),
  bytes_eq-eq m (codes "drone.stop_recording"),
)

-- The ladder of comparisons selects a method exactly where the name is the documented name of that
-- method.
pub select_iff : (m : Bytes) (k : Method) → (select m ≡ some k) ↔ (m ≡ method_name k)
select_iff m k = (select_sound m k, λ e. rw e (select-method_name k))
