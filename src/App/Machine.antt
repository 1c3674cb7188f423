-- ===== src/App/Machine.antt =====
-- app/main.c in the build with PSDK_REAL: the interface of the drone control layer on the state of
-- App/Build.antt, the calls of the SDK's core beside the layer.
pub mod Life
use psdk_orangepi.Prelude.{ℕ, ◌≡◌, refl, sym, ◌∙◌, ap, List, [], ◌∷◌, arith}
use psdk_orangepi.Floating.{Floating}
use psdk_orangepi.Types.{DroneError}
use psdk_orangepi.Proto.{JsonC}
use psdk_orangepi.Ctrl.{DroneCtrl}
use psdk_orangepi.Ctrl.Real.{Sdk}
use psdk_orangepi.Ctrl.Real.Topics.{Real}
use psdk_orangepi.Ctrl.Real.Build.{real_ctrl}
use psdk_orangepi.Handler.{World}
use psdk_orangepi.Handler.Dispatch.{handle_rpc}
use psdk_orangepi.Handler.Dispatch.Reaches.{udp_server_poll-Reaches}
use psdk_orangepi.Handler.Dispatch.Guarded.{Respects}
use psdk_orangepi.Server.Udp.{udp_server_poll}
use psdk_orangepi.App.{Poll, poll_all}
use psdk_orangepi.App.Build.{Machine}
use psdk_orangepi.App.Permitted.{real_ctrl-Respects}
use psdk_orangepi.App.Permitted.Adds.{Adds, Adds-same, Adds-trans, Adds-Carries}

module _ {fp : Floating} where
  -- An operation of the layer, on the whole state.
  abbrev pub on_layer {ℓ} : {A : Type ℓ} → (Real fp → A × Real fp) → Machine fp → A × Machine fp
  on_layer op m = let (a, r) = op m.layer in (a, record m { layer = r })

  abbrev pub read_layer {ℓ} :
      {A : Type ℓ} → (Real fp → DroneError × A × Real fp) → Machine fp → DroneError × A × Machine fp
  read_layer op m = let (e, a, r) = op m.layer in (e, a, record m { layer = r })

  abbrev pub machine_ctrl : Sdk fp → DroneCtrl fp (Machine fp)
  machine_ctrl sdk =
      let real = real_ctrl sdk in
      record {
        get_telemetry = λ t. read_layer (real.get_telemetry t);
        get_battery_info = λ t. read_layer (real.get_battery_info t);
        get_gimbal_angle = read_layer real.get_gimbal_angle;
        get_camera_state = read_layer real.get_camera_state;
        get_rtk_status = read_layer real.get_rtk_status;
        set_rth_altitude = λ x. on_layer (real.set_rth_altitude x);
        set_gimbal_angle = λ a. on_layer (real.set_gimbal_angle a);
        set_camera_mode = λ m. on_layer (real.set_camera_mode m);
        set_camera_zoom = λ x. on_layer (real.set_camera_zoom x);
        set_home_location = λ l. on_layer (real.set_home_location l);
        set_obstacle_avoidance = λ m. on_layer (real.set_obstacle_avoidance m);
        shoot_photo = on_layer real.shoot_photo;
        start_recording = on_layer real.start_recording;
        stop_recording = on_layer real.stop_recording;
        upload_kmz = λ path. on_layer (real.upload_kmz path);
      }

  module _ (sdk : Sdk fp) where
    -- The calls of the core are left alone, and the layer adds permitted calls.
    pub record MachineServes (m m' : Machine fp) : Type 0 where
      pub core : m'.core_calls ≡ m.core_calls
      pub layer : Adds sdk m.layer m'.layer

    machine_ctrl-Respects : Respects MachineServes (machine_ctrl sdk)
    machine_ctrl-Respects =
        let real = real_ctrl-Respects sdk (Adds sdk) (Adds-Carries sdk) in
        record {
          stays = λ m. record { core = refl; layer = real.stays m.layer };
          get_telemetry = λ t m. record { core = refl; layer = real.get_telemetry t m.layer };
          get_battery_info = λ t m. record { core = refl; layer = real.get_battery_info t m.layer };
          get_gimbal_angle = λ m. record { core = refl; layer = real.get_gimbal_angle m.layer };
          get_camera_state = λ m. record { core = refl; layer = real.get_camera_state m.layer };
          get_rtk_status = λ m. record { core = refl; layer = real.get_rtk_status m.layer };
          set_rth_altitude =
              λ x m h. record { core = refl; layer = real.set_rth_altitude x m.layer h };
          set_gimbal_angle = λ a m. record { core = refl; layer = real.set_gimbal_angle a m.layer };
          set_camera_mode =
              λ k m h. record { core = refl; layer = real.set_camera_mode k m.layer h };
          set_camera_zoom =
              λ x m h. record { core = refl; layer = real.set_camera_zoom x m.layer h };
          set_home_location =
              λ l m h. record { core = refl; layer = real.set_home_location l m.layer h };
          set_obstacle_avoidance =
              λ k m h. record { core = refl; layer = real.set_obstacle_avoidance k m.layer h };
          shoot_photo = λ m. record { core = refl; layer = real.shoot_photo m.layer };
          start_recording = λ m. record { core = refl; layer = real.start_recording m.layer };
          stop_recording = λ m. record { core = refl; layer = real.stop_recording m.layer };
          upload_kmz = λ path m h. record { core = refl; layer = real.upload_kmz path m.layer h };
        }

    pub poll_all-MachineServes :
        (json : JsonC fp) (polls : List Poll) (w : World (Machine fp))
        → MachineServes w.ctrl (poll_all json (machine_ctrl sdk) polls w).ctrl
    unfolding poll_all
    poll_all-MachineServes json [] w = record { core = refl; layer = Adds-same sdk w.ctrl.layer }
    poll_all-MachineServes json (p ∷ ps) w =
        let w' =
          udp_server_poll (handle_rpc json (machine_ctrl sdk) p.clock) p.ready p.received w in
        let one =
          udp_server_poll-Reaches MachineServes (machine_ctrl sdk) machine_ctrl-Respects json
            p.clock p.ready p.received w in
        let rest = poll_all-MachineServes json ps w' in
        record {
          core = rest.core ∙ one.core;
          layer = Adds-trans sdk w.ctrl.layer w'.ctrl.layer _ one.layer rest.layer;
        }
