-- ===== src/Handler/Dispatch/Required.antt =====
-- handler.c: a request that lacks a required parameter does not reach the drone control layer.
use psdk_orangepi.Prelude.{
  ◌≤◌, ◌≡◌, refl, ◌⊎◌, inl, inr, Bool, true, ◌||◌, Option, none, some, [], ◌∷◌, ◌++◌, arith, ◌∙◌,
  length,
}
use psdk_orangepi.Prelude.Int.{ℤ, pos, negsuc}
use psdk_orangepi.Prelude.Text.{Bytes, codes}
use psdk_orangepi.Floating.{Floating}
use psdk_orangepi.Ctrl.{DroneCtrl}
use psdk_orangepi.Proto.{JsonC, rpc_param_int, rpc_param_double, rpc_param_str, error_text}
use psdk_orangepi.Server.Udp.{Peer, datagram}
use psdk_orangepi.Handler.{World, Clock, send_error}
use psdk_orangepi.Handler.Sending.{send_error_fits}
use psdk_orangepi.Handler.Writes.{
  h_drone_set_rth_altitude, h_drone_set_camera_mode, h_drone_set_camera_zoom,
  h_drone_set_home_location, h_drone_set_obstacle_avoidance,
}
use psdk_orangepi.Handler.Kmz.{h_drone_upload_kmz}
use psdk_orangepi.Handler.Dispatch.{
  Method, upload_kmz, set_rth_altitude, set_camera_mode, set_camera_zoom, set_home_location,
  set_obstacle_avoidance, run,
}

-- The parameters that a method requires, with the complaint about each.
pub data Requires : Method → Bytes → Bytes → Type 0 where
  altitude : Requires set_rth_altitude (codes "altitude_m") (codes "missing param: altitude_m")
  camera : Requires set_camera_mode (codes "mode") (codes "missing param: mode (0=photo, 1=video)")
  zoom :
      Requires set_camera_zoom
        (codes "zoom_factor")
        (codes "missing or invalid param: zoom_factor (>= 1.0)")
  lat : Requires set_home_location (codes "lat") (codes "missing or invalid params: lat, lon")
  lon : Requires set_home_location (codes "lon") (codes "missing or invalid params: lat, lon")
  obstacle :
      Requires set_obstacle_avoidance
        (codes "mode")
        (codes "missing param: mode (0=off, 1=on, 2=brake)")
  file : Requires upload_kmz (codes "file") (codes "missing param: file")

-- What the defaults of the handlers rely on: -1 < 0, -1 < 1, 90 < 999 and 180 < 999.
pub record DefaultsOutside (fp : Floating) : Type 0 where
  pub below_zero : fp.lt_f (fp.narrow (fp.lit_d (negsuc 9) 1)) (fp.lit_f (pos 0) 0) ≡ true
  pub below_one : fp.lt_f (fp.narrow (fp.lit_d (negsuc 9) 1)) (fp.lit_f (pos 10) 1) ≡ true
  pub above_90 : fp.lt_d (fp.lit_d (pos 900) 1) (fp.lit_d (pos 9990) 1) ≡ true
  pub above_180 : fp.lt_d (fp.lit_d (pos 1800) 1) (fp.lit_d (pos 9990) 1) ≡ true

module _ {fp : Floating} (json : JsonC fp) {S : Type 0} (ctrl : DroneCtrl fp S) where
  open json use {Json, get_ex}

  -- There are no parameters, or none of that name.
  abbrev pub Lacks : Option Json → Bytes → Type 0
  Lacks p key = (p ≡ none) ⊎ ((j : Json) × (p ≡ some j) × (get_ex j key ≡ none))

  int-Lacks :
      (p : Option Json) (key : Bytes) (def : ℤ) → Lacks p key → rpc_param_int json p key def ≡ def
  unfolding rpc_param_int
  int-Lacks p key def (inl e) = rw e refl
  int-Lacks p key def (inr (j, e, h)) = rw e (rw (h, rpc_param_int) refl)

  double-Lacks :
      (p : Option Json) (key : Bytes) (def : fp.D)
      → Lacks p key
      → rpc_param_double json p key def ≡ def
  unfolding rpc_param_double
  double-Lacks p key def (inl e) = rw e refl
  double-Lacks p key def (inr (j, e, h)) = rw e (rw (h, rpc_param_double) refl)

  str-Lacks : (p : Option Json) (key : Bytes) → Lacks p key → rpc_param_str json p key ≡ none
  unfolding rpc_param_str
  str-Lacks p key (inl e) = rw e refl
  str-Lacks p key (inr (j, e, h)) = rw e (rw (h, rpc_param_str) refl)

  third : (a b c : Bool) → a || (b || (true || c)) ≡ true
  third a b c = ground arith

  module _ (laws : DefaultsOutside fp) (clock : Clock) (peer : Peer) (id : ℤ) (p : Option Json)
      (w : World S) where
    complains :
        (m : Method) (key msg : Bytes)
        → Requires m key msg
        → Lacks p key
        → run json ctrl (some m) clock peer id p w ≡ send_error peer id msg w
    unfolding run h_drone_set_rth_altitude h_drone_set_camera_mode h_drone_set_camera_zoom
        h_drone_set_home_location h_drone_set_obstacle_avoidance h_drone_upload_kmz
    complains m key msg altitude l = rw (double-Lacks p _ _ l) (rw laws.below_zero refl)
    complains m key msg camera l = rw (int-Lacks p _ (negsuc 0) l) refl
    complains m key msg zoom l = rw (double-Lacks p _ _ l) (rw laws.below_one refl)
    complains m key msg lat l = rw (double-Lacks p (codes "lat") _ l) (rw laws.above_90 refl)
    complains m key msg lon l =
        rw (double-Lacks p (codes "lon") _ l) (rw laws.above_180 (rw (third _ _ _) refl))
    complains m key msg obstacle l = rw (int-Lacks p _ (negsuc 0) l) refl
    complains m key msg file l = rw (str-Lacks p _ l, h_drone_upload_kmz) refl

    short : (m : Method) (key msg : Bytes) → Requires m key msg → length msg ≤ 4050
    short m key msg altitude = omega arith
    short m key msg camera = omega arith
    short m key msg zoom = omega arith
    short m key msg lat = omega arith
    short m key msg lon = omega arith
    short m key msg obstacle = omega arith
    short m key msg file = omega arith

    -- Where -1 is below 0 and below 1, 999 above 90 and above 180 in floating point, a method
    -- whose required parameter is missing sends the complaint about it as one datagram and changes
    -- nothing else, so the drone control layer is not reached.
    pub run-Lacks :
        (m : Method) (key msg : Bytes)
        → Requires m key msg
        → Lacks p key
        → run json ctrl (some m) clock peer id p w
          ≡ record w { sent = w.sent ++ datagram w.server.fd peer (error_text id msg) ∷ [] }
    run-Lacks m key msg r l =
        complains m key msg r l ∙ send_error_fits peer id w msg (short m key msg r)
