-- ===== src/Session/Telemetry.antt =====
-- core/handler/handler.c, bsp/drone_ctrl.c and app/main.c: what a request for a reading is answered
-- behind any run of the daemon.
use psdk_orangepi.Prelude.{◌≡◌, refl, ap, some, List, [], ◌∷◌, ◌++◌, ◌<◌, arith, length}
use psdk_orangepi.Prelude.Int.{ℤ}
use psdk_orangepi.Prelude.Text.{Bytes}
use psdk_orangepi.Floating.{Floating}
use psdk_orangepi.Types.{Timespec}
use psdk_orangepi.Proto.{JsonC, result_text, or_empty_object}
use psdk_orangepi.Server.Udp.{Peer, datagram}
use psdk_orangepi.Handler.{World, Clock, send_result}
use psdk_orangepi.Handler.Sending.{send_result_fits}
use psdk_orangepi.Handler.Reads.{
  telemetry_json, battery_json, gimbal_json, reply_read, h_drone_get_telemetry,
  h_drone_get_battery_info, h_drone_get_gimbal_angle,
}
use psdk_orangepi.Handler.Reads.Bounds.{
  length-telemetry_json, length-battery_json, length-gimbal_json,
}
use psdk_orangepi.Handler.Dispatch.Outcome.{or_empty-le}
use psdk_orangepi.Ctrl.Real.{Sdk}
use psdk_orangepi.Ctrl.Real.Topics.{Real}
use psdk_orangepi.Ctrl.Real.Reads.{get_telemetry, get_battery_info, get_gimbal_angle}
use psdk_orangepi.Ctrl.Real.Steady.{SameSamples}
use psdk_orangepi.Ctrl.Real.Build.{real_ctrl}
use psdk_orangepi.App.Samples.{RunEvent, call_back_all, happen_all, happen_all-Runs}

-- One datagram more, which carries a text as the result.
abbrev pub IsShown : {S : Type 0} → Peer → ℤ → Bytes → World S → World S → Type 0
IsShown peer id text w w' =
    w'.sent
    ≡ w.sent ++ datagram w.server.fd peer (result_text id (or_empty_object (some text))) ∷ []

-- The text is sent whole.
shown :
    {S : Type 0} (peer : Peer) (id : ℤ) (text : Bytes) (w : World S)
    → length text < 512
    → IsShown peer id text w (send_result peer id (some text) w)
shown peer id text w h =
    ap (λ v. v.sent)
      (send_result_fits peer id w (some text) (or_empty-le 4050 _ (omega arith) (omega arith)))

module _ {fp : Floating} where
  -- A layer with the samples of another one.
  with_samples :
      (a b : Real fp)
      → SameSamples fp a b
      → b ≡ record a {
        waypoint_v3_inited = b.waypoint_v3_inited;
        calls = b.calls;
        open_files = b.open_files;
        buffers = b.buffers;
        overrun = b.overrun;
      }
  with_samples a b h = λ i. record {
    pos = h.pos i;
    vel = h.vel i;
    quat = h.quat i;
    gps = h.gps i;
    flight = h.flight i;
    battery = h.battery i;
    single_1 = h.single_1 i;
    single_2 = h.single_2 i;
    gimbal = h.gimbal i;
    waypoint_v3_inited = b.waypoint_v3_inited;
    calls = b.calls;
    open_files = b.open_files;
    buffers = b.buffers;
    overrun = b.overrun;
  }

  telemetry-SameSamples :
      (t : Timespec) (a b : Real fp)
      → SameSamples fp a b
      → (get_telemetry t b).1 ≡ (get_telemetry t a).1
  unfolding get_telemetry
  telemetry-SameSamples t a b h = ap (λ r. (get_telemetry t r).1) (with_samples a b h)

  battery-SameSamples :
      (t : Timespec) (a b : Real fp)
      → SameSamples fp a b
      → (get_battery_info t b).1 ≡ (get_battery_info t a).1
  unfolding get_battery_info
  battery-SameSamples t a b h = ap (λ r. (get_battery_info t r).1) (with_samples a b h)

  gimbal-SameSamples :
      (a b : Real fp) → SameSamples fp a b → (get_gimbal_angle b).1 ≡ (get_gimbal_angle a).1
  unfolding get_gimbal_angle
  gimbal-SameSamples a b h = ap (λ r. (get_gimbal_angle r).1) (with_samples a b h)

  module _ (sdk : Sdk fp) (clock : Clock) (peer : Peer) (id : ℤ) (w : World (Real fp)) where
    telemetry_reply :
        h_drone_get_telemetry (real_ctrl sdk) clock peer id w
        ≡ send_result peer id (some (telemetry_json (get_telemetry clock.now w.ctrl).1)) w
    unfolding h_drone_get_telemetry reply_read get_telemetry
    telemetry_reply = refl

    battery_reply :
        h_drone_get_battery_info (real_ctrl sdk) clock peer id w
        ≡ send_result peer id (some (battery_json (get_battery_info clock.now w.ctrl).1)) w
    unfolding h_drone_get_battery_info reply_read get_battery_info
    battery_reply = refl

    gimbal_reply :
        h_drone_get_gimbal_angle (real_ctrl sdk) peer id w
        ≡ send_result peer id (some (gimbal_json (get_gimbal_angle w.ctrl).1)) w
    unfolding h_drone_get_gimbal_angle reply_read get_gimbal_angle
    gimbal_reply = refl

  module _ (sdk : Sdk fp) (json : JsonC fp) (es : List (RunEvent fp)) (w : World (Real fp)) where
    abbrev behind : World (Real fp)
    behind = happen_all sdk json es w

    abbrev heard : Real fp
    heard = call_back_all es w.ctrl

    -- Over the real layer, behind any rounds of the poll loop with callbacks of the SDK between
    -- them, a request for the telemetry, for the battery or for the gimbal angle is answered by
    -- the record that the samples of these callbacks alone give, whatever requests came before.
    pub readings-IsShown :
        (clock : Clock) (peer : Peer) (id : ℤ)
        → IsShown peer id
            (telemetry_json (get_telemetry clock.now heard).1)
            behind
            (h_drone_get_telemetry (real_ctrl sdk) clock peer id behind)
          × IsShown peer id
              (battery_json (get_battery_info clock.now heard).1)
              behind
              (h_drone_get_battery_info (real_ctrl sdk) clock peer id behind)
          × IsShown peer id
              (gimbal_json (get_gimbal_angle heard).1)
              behind
              (h_drone_get_gimbal_angle (real_ctrl sdk) peer id behind)
    readings-IsShown clock peer id =
        let same = (happen_all-Runs sdk json es w).samples in
        (
          rw
              (
                telemetry_reply sdk clock peer id behind,
                telemetry-SameSamples clock.now heard behind.ctrl same,
              )
              (shown peer id _ behind (length-telemetry_json _)),
          rw
              (
                battery_reply sdk clock peer id behind,
                battery-SameSamples clock.now heard behind.ctrl same,
              )
              (shown peer id _ behind (length-battery_json _)),
          rw (gimbal_reply sdk clock peer id behind, gimbal-SameSamples heard behind.ctrl same)
              (shown peer id _ behind (length-gimbal_json _)),
        )
