-- ===== src/App/Samples.antt =====
-- app/main.c over the real layer: rounds of the poll loop with the SDK's callbacks between them, in any
-- order. The SDK calls the callbacks from a thread of its own; each is one step here, so that a request
-- does not see a sample that is written in part.
use psdk_orangepi.Prelude.{ℕ, ◌≡◌, refl, sym, ap, ◌∙◌, List, [], ◌∷◌, ◌++◌, append-nil, arith}
use psdk_orangepi.Floating.{Floating}
use psdk_orangepi.Types.{Timespec}
use psdk_orangepi.Proto.{JsonC}
use psdk_orangepi.Server.Udp.{udp_server_poll}
use psdk_orangepi.Handler.{World}
use psdk_orangepi.Handler.Dispatch.{handle_rpc}
use psdk_orangepi.Handler.Dispatch.Reaches.{udp_server_poll-Reaches}
use psdk_orangepi.Ctrl.Real.{
  Sdk, PositionFused, Vector3, Quaternion, GpsDetails, WholeBattery, SingleBattery,
}
use psdk_orangepi.Ctrl.Real.Topics.{
  Real, cb_pos, cb_vel, cb_quat, cb_gps, cb_flight_status, cb_battery, cb_battery_single_1,
  cb_battery_single_2, cb_gimbal,
}
use psdk_orangepi.Ctrl.Real.Waypoint.Upload.{SameHeld}
use psdk_orangepi.Ctrl.Real.Steady.{
  SameSamples, Extends, Serves, SameSamples-same, SameSamples-trans, Extends-trans, Serves-same,
  Serves-trans,
}
use psdk_orangepi.Ctrl.Real.Steady.Operations.{make_call-Serves, upload_kmz-Serves}
use psdk_orangepi.Ctrl.Real.Build.{real_ctrl}
use psdk_orangepi.App.{Poll}
use psdk_orangepi.App.Permitted.{Carries, real_ctrl-Respects}

-- A call of one of the callbacks: the size of the sample's type, the length of the data, and the
-- sample that `memcpy` copies where that is long enough.
pub data Sample (fp : Floating) : Type 0 where
  pos_sample : ℕ → ℕ → PositionFused fp → Sample fp
  vel_sample gimbal_sample : ℕ → ℕ → Vector3 fp.F → Sample fp
  quat_sample : ℕ → ℕ → Quaternion fp.F → Sample fp
  gps_sample : ℕ → ℕ → GpsDetails → Sample fp
  flight_sample : ℕ → ℕ → ℕ → Sample fp
  battery_sample : ℕ → ℕ → WholeBattery → Sample fp
  single_1_sample single_2_sample : ℕ → ℕ → SingleBattery → Sample fp

pub data RunEvent (fp : Floating) : Type 0 where
  calls_back : Sample fp → Timespec → RunEvent fp
  polls : Poll → RunEvent fp

module _ {fp : Floating} where
  abbrev pub call_back : Sample fp → Timespec → Real fp → Real fp
  call_back (pos_sample size len x) now r = cb_pos size len x now r
  call_back (vel_sample size len x) now r = cb_vel size len x now r
  call_back (quat_sample size len x) now r = cb_quat size len x now r
  call_back (gps_sample size len x) now r = cb_gps size len x now r
  call_back (flight_sample size len x) now r = cb_flight_status size len x now r
  call_back (battery_sample size len x) now r = cb_battery size len x now r
  call_back (single_1_sample size len x) now r = cb_battery_single_1 size len x now r
  call_back (single_2_sample size len x) now r = cb_battery_single_2 size len x now r
  call_back (gimbal_sample size len x) now r = cb_gimbal size len x now r

  -- The callbacks among the events, on a layer that serves nobody.
  abbrev pub call_back_all : List (RunEvent fp) → Real fp → Real fp
  call_back_all [] r = r
  call_back_all (calls_back x now ∷ es) r = call_back_all es (call_back x now r)
  call_back_all (polls p ∷ es) r = call_back_all es r

  call_back-SameSamples :
      (x : Sample fp) (now : Timespec) (a b : Real fp)
      → SameSamples fp a b
      → SameSamples fp (call_back x now a) (call_back x now b)
  unfolding cb_pos cb_vel cb_quat cb_gps cb_flight_status cb_battery cb_battery_single_1
      cb_battery_single_2 cb_gimbal
  call_back-SameSamples (pos_sample size len x) now a b h = ground arith
  call_back-SameSamples (vel_sample size len x) now a b h = ground arith
  call_back-SameSamples (quat_sample size len x) now a b h = ground arith
  call_back-SameSamples (gps_sample size len x) now a b h = ground arith
  call_back-SameSamples (flight_sample size len x) now a b h = ground arith
  call_back-SameSamples (battery_sample size len x) now a b h = ground arith
  call_back-SameSamples (single_1_sample size len x) now a b h = ground arith
  call_back-SameSamples (single_2_sample size len x) now a b h = ground arith
  call_back-SameSamples (gimbal_sample size len x) now a b h = ground arith

  -- A callback makes no call and holds nothing.
  call_back-quiet :
      (x : Sample fp) (now : Timespec) (r : Real fp)
      → ((call_back x now r).calls ≡ r.calls) × SameHeld fp r (call_back x now r)
  unfolding cb_pos cb_vel cb_quat cb_gps cb_flight_status cb_battery cb_battery_single_1
      cb_battery_single_2 cb_gimbal
  call_back-quiet (pos_sample size len x) now r = ground arith
  call_back-quiet (vel_sample size len x) now r = ground arith
  call_back-quiet (quat_sample size len x) now r = ground arith
  call_back-quiet (gps_sample size len x) now r = ground arith
  call_back-quiet (flight_sample size len x) now r = ground arith
  call_back-quiet (battery_sample size len x) now r = ground arith
  call_back-quiet (single_1_sample size len x) now r = ground arith
  call_back-quiet (single_2_sample size len x) now r = ground arith
  call_back-quiet (gimbal_sample size len x) now r = ground arith

  call_back_all-SameSamples :
      (es : List (RunEvent fp)) (a b : Real fp)
      → SameSamples fp a b
      → SameSamples fp (call_back_all es a) (call_back_all es b)
  call_back_all-SameSamples [] a b h = h
  call_back_all-SameSamples (calls_back x now ∷ es) a b h =
      call_back_all-SameSamples es _ _ (call_back-SameSamples x now a b h)
  call_back_all-SameSamples (polls p ∷ es) a b h = call_back_all-SameSamples es a b h

module _ {fp : Floating} (sdk : Sdk fp) where
  Serves-Carries : Carries sdk (Serves fp)
  Serves-Carries = record {
    same = Serves-same;
    trans = Serves-trans;
    call = λ c r h. make_call-Serves sdk c r;
    upload = λ path r h. upload_kmz-Serves sdk path r;
  }

  module _ (json : JsonC fp) where
    abbrev pub happen : RunEvent fp → World (Real fp) → World (Real fp)
    happen (calls_back x now) w = record w { ctrl = call_back x now w.ctrl }
    happen (polls p) w =
        udp_server_poll (handle_rpc json (real_ctrl sdk) p.clock) p.ready p.received w

    abbrev pub happen_all : List (RunEvent fp) → World (Real fp) → World (Real fp)
    happen_all [] w = w
    happen_all (e ∷ es) w = happen_all es (happen e w)

    -- What a run of the daemon does to the layer.
    pub record Runs (es : List (RunEvent fp)) (r r' : Real fp) : Type 0 where
      pub samples : SameSamples fp (call_back_all es r) r'
      pub extends : Extends fp r r'
      pub held : SameHeld fp r r'

    round-Serves : (p : Poll) (w : World (Real fp)) → Serves fp w.ctrl (happen (polls p) w).ctrl
    round-Serves p w =
        udp_server_poll-Reaches (Serves fp) (real_ctrl sdk)
          (real_ctrl-Respects sdk (Serves fp) Serves-Carries) json p.clock p.ready p.received w

    -- Over the real layer, behind any rounds of the poll loop with callbacks of the SDK between
    -- them: the samples and their ages are those that the callbacks alone would have left, in
    -- whatever order requests came between; the SDK calls made before stand first among all calls;
    -- and as many files are open and as many buffers allocated as before.
    pub happen_all-Runs :
        (es : List (RunEvent fp)) (w : World (Real fp)) → Runs es w.ctrl (happen_all es w).ctrl
    happen_all-Runs [] w = record {
      samples = SameSamples-same w.ctrl;
      extends = record { more = []; calls = sym (append-nil w.ctrl.calls) };
      held = record { files = refl; memory = refl };
    }
    happen_all-Runs (calls_back x now ∷ es) w =
        let rest = happen_all-Runs es (happen (calls_back x now) w) in
        let quiet = call_back-quiet x now w.ctrl in
        record {
          samples = rest.samples;
          extends = record {
            more = rest.extends.more;
            calls = rest.extends.calls ∙ ap (λ s. s ++ rest.extends.more) quiet.0;
          };
          held = record {
            files = rest.held.files ∙ quiet.1.files;
            memory = rest.held.memory ∙ quiet.1.memory;
          };
        }
    happen_all-Runs (polls p ∷ es) w =
        let rest = happen_all-Runs es (happen (polls p) w) in
        let now = round-Serves p w in
        record {
          samples =
              SameSamples-trans _ _ _ (call_back_all-SameSamples es w.ctrl _ now.steady.samples)
                rest.samples;
          extends = Extends-trans _ _ _ now.steady.extends rest.extends;
          held = record {
            files = rest.held.files ∙ now.held.files;
            memory = rest.held.memory ∙ now.held.memory;
          };
        }
