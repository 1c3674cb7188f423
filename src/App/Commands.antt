-- ===== src/App/Commands.antt =====
-- app/main.c with handler.c: what a run of the poll loop does to the drone control layer, as a list of
-- commands, each an operation of drone_ctrl.h with its argument.
use psdk_orangepi.Prelude.{
  ◌≤◌, ◌≡◌, refl, sym, ap, ◌∙◌, ◌⊎◌, inl, inr, List, [], ◌∷◌, ◌++◌, arith, All, All-append, length,
  length-append,
}
use psdk_orangepi.Prelude.Int.{ℤ}
use psdk_orangepi.Prelude.Text.{Bytes}
use psdk_orangepi.Floating.{Floating}
use psdk_orangepi.Types.{
  Timespec, CameraMode, ObstacleAvoidMode, DroneGimbalAngle, DroneHomeLocation,
}
use psdk_orangepi.Ctrl.{DroneCtrl}
use psdk_orangepi.Proto.{JsonC}
use psdk_orangepi.Server.Udp.{Peer}
use psdk_orangepi.Handler.{World, Clock}
use psdk_orangepi.Handler.Kmz.Confined.{IsConfined}
use psdk_orangepi.Handler.Dispatch.{handle_rpc}
use psdk_orangepi.Handler.Dispatch.Guarded.{AltitudeOk, ZoomOk, HomeOk, ModeOk, Respects}
use psdk_orangepi.Handler.Dispatch.Reaches.{handle_rpc-Reaches}
use psdk_orangepi.Handler.Dispatch.Replies.{handle_rpc_ignores}
use psdk_orangepi.App.{Poll, poll_all}
use psdk_orangepi.App.Requests.{asked, requests, asked-cases, poll_all-Always}

-- An operation with its argument; `Timespec` is the reading of the clock that a read makes.
pub data Command (fp : Floating) : Type 0 where
  reads_telemetry reads_battery : Timespec → Command fp
  reads_gimbal reads_camera reads_rtk shoots starts stops : Command fp
  sets_altitude sets_zoom : fp.F → Command fp
  sets_gimbal : DroneGimbalAngle fp → Command fp
  sets_mode : CameraMode → Command fp
  sets_home : DroneHomeLocation fp → Command fp
  sets_avoidance : ObstacleAvoidMode → Command fp
  uploads : Bytes → Command fp

module _ {fp : Floating} where
  -- The argument is one that the handler lets pass.
  abbrev pub IsAllowed : Command fp → Type 0
  IsAllowed (sets_altitude x) = AltitudeOk fp x
  IsAllowed (sets_zoom x) = ZoomOk fp x
  IsAllowed (sets_mode m) = ModeOk m
  IsAllowed (sets_home l) = HomeOk fp l
  IsAllowed (sets_avoidance m) = ModeOk m
  IsAllowed (uploads path) = IsConfined path
  IsAllowed (reads_telemetry t) = Unit
  IsAllowed (reads_battery t) = Unit
  IsAllowed reads_gimbal = Unit
  IsAllowed reads_camera = Unit
  IsAllowed reads_rtk = Unit
  IsAllowed (sets_gimbal a) = Unit
  IsAllowed shoots = Unit
  IsAllowed starts = Unit
  IsAllowed stops = Unit

  module _ {S : Type 0} (ctrl : DroneCtrl fp S) where
    abbrev pub carry_out : Command fp → S → S
    carry_out (reads_telemetry t) s = (ctrl.get_telemetry t s).2
    carry_out (reads_battery t) s = (ctrl.get_battery_info t s).2
    carry_out reads_gimbal s = (ctrl.get_gimbal_angle s).2
    carry_out reads_camera s = (ctrl.get_camera_state s).2
    carry_out reads_rtk s = (ctrl.get_rtk_status s).2
    carry_out (sets_altitude x) s = (ctrl.set_rth_altitude x s).1
    carry_out (sets_gimbal a) s = (ctrl.set_gimbal_angle a s).1
    carry_out (sets_mode m) s = (ctrl.set_camera_mode m s).1
    carry_out (sets_zoom x) s = (ctrl.set_camera_zoom x s).1
    carry_out (sets_home l) s = (ctrl.set_home_location l s).1
    carry_out (sets_avoidance m) s = (ctrl.set_obstacle_avoidance m s).1
    carry_out shoots s = (ctrl.shoot_photo s).1
    carry_out starts s = (ctrl.start_recording s).1
    carry_out stops s = (ctrl.stop_recording s).1
    carry_out (uploads path) s = (ctrl.upload_kmz path s).1

    abbrev pub carry_out_all : List (Command fp) → S → S
    carry_out_all [] s = s
    carry_out_all (c ∷ cs) s = carry_out_all cs (carry_out c s)

    -- The layer is left alone, or an allowed command is carried out.
    abbrev Once : S → S → Type 0
    Once s s' = (s' ≡ s) ⊎ ((c : Command fp) × IsAllowed c × (s' ≡ carry_out c s))

    once : (c : Command fp) (s : S) → IsAllowed c → Once s (carry_out c s)
    once c s h = inr (c, h, refl)

    Once-Respects : Respects Once ctrl
    Once-Respects = record {
      stays = λ s. inl refl;
      get_telemetry = λ t s. once (reads_telemetry t) s tt;
      get_battery_info = λ t s. once (reads_battery t) s tt;
      get_gimbal_angle = λ s. once reads_gimbal s tt;
      get_camera_state = λ s. once reads_camera s tt;
      get_rtk_status = λ s. once reads_rtk s tt;
      set_rth_altitude = λ x. once (sets_altitude x);
      set_gimbal_angle = λ a s. once (sets_gimbal a) s tt;
      set_camera_mode = λ m. once (sets_mode m);
      set_camera_zoom = λ x. once (sets_zoom x);
      set_home_location = λ l. once (sets_home l);
      set_obstacle_avoidance = λ m. once (sets_avoidance m);
      shoot_photo = λ s. once shoots s tt;
      start_recording = λ s. once starts s tt;
      stop_recording = λ s. once stops s tt;
      upload_kmz = λ path. once (uploads path);
    }

    -- What some requests do to the layer: allowed commands, at most one for each.
    pub record Commanded (qs : List (Peer × ℤ)) (w w' : World S) : Type 0 where
      pub commands : List (Command fp)
      pub allowed : All IsAllowed commands
      pub few : length commands ≤ length qs
      pub effect : w'.ctrl ≡ carry_out_all commands w.ctrl

    Commanded-same : (w : World S) → Commanded [] w w
    Commanded-same w = record { commands = []; allowed = tt; few = omega arith; effect = refl }

    Commanded-Once : (q : Peer × ℤ) (w w' : World S) → Once w.ctrl w'.ctrl → Commanded (q ∷ []) w w'
    Commanded-Once q w w' (inl e) = record {
      commands = [];
      allowed = tt;
      few = omega arith;
      effect = e;
    }
    Commanded-Once q w w' (inr (c, h, e)) = record {
      commands = c ∷ [];
      allowed = (h, tt);
      few = omega arith;
      effect = e;
    }

    pub carry_out_all-append :
        (cs ds : List (Command fp)) (s : S)
        → carry_out_all (cs ++ ds) s ≡ carry_out_all ds (carry_out_all cs s)
    carry_out_all-append [] ds s = refl
    carry_out_all-append (c ∷ cs) ds s = carry_out_all-append cs ds (carry_out c s)

    Commanded-step :
        (qs qs' : List (Peer × ℤ)) (w w' w'' : World S)
        → Commanded qs w w'
        → Commanded qs' w' w''
        → Commanded (qs ++ qs') w w''
    Commanded-step qs qs' w w' w'' a b = record {
      commands = a.commands ++ b.commands;
      allowed = All-append IsAllowed a.commands b.commands a.allowed b.allowed;
      few = omega (arith, a.few, b.few, length-append a.commands b.commands, length-append qs qs');
      effect =
          b.effect
          ∙ ap (carry_out_all b.commands) a.effect
          ∙ sym (carry_out_all-append a.commands b.commands w.ctrl);
    }

    module _ (json : JsonC fp) where
      handle_rpc-Commanded :
          (clock : Clock) (peer : Peer) (line : Bytes) (w : World S)
          → Commanded (asked json (peer, line)) w (handle_rpc json ctrl clock peer line w)
      handle_rpc-Commanded clock peer line w = elim (asked-cases json peer line) [
        | inl (h, e) ↦
            rw (e, handle_rpc_ignores json ctrl clock peer line w h)
              (record { commands = []; allowed = tt; few = omega arith; effect = refl })
        | inr (q, e) ↦ rw e (
            Commanded-Once _ w _
              (handle_rpc-Reaches Once ctrl Once-Respects json clock peer line w))
      ]

      -- Whatever arrives in a run of the poll loop, what the run does to the drone control layer
      -- is what a list of operations of its interface does, one behind the other: at most as many
      -- as requests arrive, where a request is a datagram whose text is a JSON object with a
      -- member "method", and each with an argument that passes the test of its handler: an
      -- altitude that is not less than 0, a zoom factor that is not less than 1, a home location
      -- whose latitude and longitude are not beyond 90 and 180 degrees, a mode that is not
      -- negative, and for an upload the path of a file directly in the KMZ directory.
      pub poll_all-Commanded :
          (polls : List Poll) (w : World S)
          → Commanded (requests json polls) w (poll_all json ctrl polls w)
      poll_all-Commanded =
          poll_all-Always json ctrl (λ clock. asked json) Commanded
            (record { same = Commanded-same; step = Commanded-step }) handle_rpc-Commanded
