-- ===== src/Ctrl/Real/Steady.antt =====
-- drone_ctrl.c, PSDK_REAL: what the operations of the layer leave alone. They read the samples and do
-- not write them, make calls and take none back, and hold no file or buffer longer than they run.
pub mod Operations
use psdk_orangepi.Prelude.{
  ◌≡◌, refl, sym, ap, ◌∙◌, Bool, true, false, List, [], ◌∷◌, ◌++◌, append-nil, append_assoc, arith,
  ltb, if◌then◌else◌,
}
use psdk_orangepi.Prelude.Int.{pos, pos_part}
use psdk_orangepi.Prelude.Text.{Bytes}
use psdk_orangepi.Floating.{Floating}
use psdk_orangepi.Types.{
  DroneError, ok, err_psdk, err_param, err_unknown, ObstacleAvoidMode, DroneCameraState,
}
use psdk_orangepi.Ctrl.Real.{
  Sdk, SdkCall, ReturnCode, success, failure, FileIo, waypoint_init, waypoint_reg_mission_state,
  waypoint_reg_action_state, set_horizontal_avoidance, set_upwards_avoidance, camera_get_mode,
  camera_get_recording_state, camera_get_optical_zoom,
}
use psdk_orangepi.Ctrl.Real.Topics.{Real, make_call}
use psdk_orangepi.Ctrl.Real.Reads.{succeeded, camera_rest, get_camera_state}
use psdk_orangepi.Ctrl.Real.Writes.{
  is_zero, command, after_horizontal, set_rth_altitude, set_gimbal_angle, set_camera_mode,
  set_camera_zoom, set_home_location, set_obstacle_avoidance, shoot_photo, start_recording,
  stop_recording,
}
use psdk_orangepi.Ctrl.Real.Waypoint.{
  Op, continue, open_file, or_close, allocate, read_file, send_file, set_inited, upload_file,
  upload_kmz, ensure_waypoint_v3_ready,
}
use psdk_orangepi.Ctrl.Real.Waypoint.Steps.{then-Each}
use psdk_orangepi.Ctrl.Real.Waypoint.Upload.{SameHeld, upload_kmz-SameHeld}

-- The samples of the nine topics, as those of another state.
pub record SameSamples (fp : Floating) (r r' : Real fp) : Type 0 where
  pub pos : r'.pos ≡ r.pos
  pub vel : r'.vel ≡ r.vel
  pub quat : r'.quat ≡ r.quat
  pub gps : r'.gps ≡ r.gps
  pub flight : r'.flight ≡ r.flight
  pub battery : r'.battery ≡ r.battery
  pub single_1 : r'.single_1 ≡ r.single_1
  pub single_2 : r'.single_2 ≡ r.single_2
  pub gimbal : r'.gimbal ≡ r.gimbal

-- The calls made before stand before those made since.
pub record Extends (fp : Floating) (r r' : Real fp) : Type 0 where
  pub more : List (SdkCall fp)
  pub calls : r'.calls ≡ r.calls ++ more

pub record Steady (fp : Floating) (r r' : Real fp) : Type 0 where
  pub samples : SameSamples fp r r'
  pub extends : Extends fp r r'

pub record Serves (fp : Floating) (r r' : Real fp) : Type 0 where
  pub steady : Steady fp r r'
  pub held : SameHeld fp r r'

module _ {fp : Floating} where
  pub SameSamples-same : (r : Real fp) → SameSamples fp r r
  SameSamples-same r = record {
    pos = refl;
    vel = refl;
    quat = refl;
    gps = refl;
    flight = refl;
    battery = refl;
    single_1 = refl;
    single_2 = refl;
    gimbal = refl;
  }

  pub SameSamples-trans :
      (a b c : Real fp) → SameSamples fp a b → SameSamples fp b c → SameSamples fp a c
  SameSamples-trans a b c p q = record {
    pos = q.pos ∙ p.pos;
    vel = q.vel ∙ p.vel;
    quat = q.quat ∙ p.quat;
    gps = q.gps ∙ p.gps;
    flight = q.flight ∙ p.flight;
    battery = q.battery ∙ p.battery;
    single_1 = q.single_1 ∙ p.single_1;
    single_2 = q.single_2 ∙ p.single_2;
    gimbal = q.gimbal ∙ p.gimbal;
  }

  pub Extends-trans : (a b c : Real fp) → Extends fp a b → Extends fp b c → Extends fp a c
  Extends-trans a b c p q = record {
    more = p.more ++ q.more;
    calls = q.calls ∙ ap (λ s. s ++ q.more) p.calls ∙ append_assoc a.calls p.more q.more;
  }

  Steady-same : (r : Real fp) → Steady fp r r
  Steady-same r = record {
    samples = SameSamples-same r;
    extends = record { more = []; calls = sym (append-nil r.calls) };
  }

  Steady-trans : (a b c : Real fp) → Steady fp a b → Steady fp b c → Steady fp a c
  Steady-trans a b c p q = record {
    samples = SameSamples-trans a b c p.samples q.samples;
    extends = Extends-trans a b c p.extends q.extends;
  }

  pub Serves-trans : (a b c : Real fp) → Serves fp a b → Serves fp b c → Serves fp a c
  Serves-trans a b c p q = record {
    steady = Steady-trans a b c p.steady q.steady;
    held = record { files = q.held.files ∙ p.held.files; memory = q.held.memory ∙ p.held.memory };
  }

  pub Serves-same : (r : Real fp) → Serves fp r r
  Serves-same r = record { steady = Steady-same r; held = record { files = refl; memory = refl } }

  -- A step of an upload, and one step behind another.
  abbrev IsSteady : Op fp → Type 0
  IsSteady m = (r : Real fp) → Steady fp r (m r).1

  then-IsSteady :
      (m k : Op fp) → IsSteady m → IsSteady k → IsSteady (λ r. continue (m r).0 (m r).1 k)
  then-IsSteady = then-Each (Steady fp) Steady-trans

  local-Steady : (r r' : Real fp) → SameSamples fp r r' → r'.calls ≡ r.calls → Steady fp r r'
  local-Steady r r' s e = record {
    samples = s;
    extends = record { more = []; calls = e ∙ sym (append-nil r.calls) };
  }

  open_file-IsSteady : (io : FileIo) → IsSteady (open_file io)
  unfolding open_file
  open_file-IsSteady io r = local-Steady r _ (ground arith) (ground arith)

  or_close-IsSteady : (good : Bool) (err : DroneError) → IsSteady (or_close good err)
  unfolding or_close
  or_close-IsSteady good err r = local-Steady r _ (ground arith) (ground arith)

  allocate-IsSteady : (io : FileIo) → IsSteady (allocate io)
  unfolding allocate
  allocate-IsSteady io r = local-Steady r _ (ground arith) (ground arith)

  read_file-IsSteady : (io : FileIo) → IsSteady (read_file io)
  unfolding read_file
  read_file-IsSteady io r = local-Steady r _ (ground arith) (ground arith)

  set_inited-IsSteady : IsSteady set_inited
  unfolding set_inited
  set_inited-IsSteady r = local-Steady r _ (ground arith) refl
