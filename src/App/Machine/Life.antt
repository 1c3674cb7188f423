-- ===== src/App/Machine/Life.antt =====
-- app/main.c in the build with PSDK_REAL: the SDK calls of a whole run of the daemon, by its exit code.
use psdk_orangepi.Prelude.{
  ◌≡◌, refl, ap, subst, ◌∙◌, ◌⊎◌, inl, inr, Bool, true, false, ◌≢◌, Option, none, some, List, [],
  ◌∷◌, ◌++◌, append_assoc, if◌then◌else◌,
}
use psdk_orangepi.Prelude.Int.{ℤ, pos}
use psdk_orangepi.Prelude.Text.{Bytes}
use psdk_orangepi.Floating.{Floating}
use psdk_orangepi.Proto.{JsonC}
use psdk_orangepi.Ctrl.Real.{
  Sdk, SdkCall, success, subscription_init, subscription_deinit, camera_deinit, gimbal_deinit,
  waypoint_deinit,
}
use psdk_orangepi.Ctrl.Real.Waypoint.{subscriptions, drone_ctrl_deinit}
use psdk_orangepi.Ctrl.Real.Waypoint.Lifecycle.{drone_ctrl_init_lem, drone_ctrl_deinit_lem}
use psdk_orangepi.Boot.{CoreCall, Core, core_deinit, hardware_connection, status}
use psdk_orangepi.Boot
use psdk_orangepi.Boot.Order.{
  Starts, completes, stops, Accepted, goes_on, start_order, psdk_init-Starts,
}
use psdk_orangepi.Server.Calls.{Syscall}
use psdk_orangepi.Server.Udp.{UdpServer}
use psdk_orangepi.Server.Setup.{Answers}
use psdk_orangepi.Handler.{World, handler_set_server}
use psdk_orangepi.App.{Poll, Daemon, end_psdk, end_ctrl, serve_until_stopped, run_daemon, main}
use psdk_orangepi.App.Args.{
  Options, default_options, Command, starts, shows_usage, refuses, parse_args,
}
use psdk_orangepi.App.Build.{Machine, real_parts}
use psdk_orangepi.App.Permitted.Adds.{ArePermitted}
use psdk_orangepi.App.Machine.{machine_ctrl, MachineServes, poll_all-MachineServes}

module _ {fp : Floating} (core : Core) (sdk : Sdk fp) where
  abbrev pub core_order : List CoreCall
  core_order = start_order core hardware_connection

  abbrev pub layer_start : List (SdkCall fp)
  layer_start = subscription_init ∷ subscriptions sdk

  abbrev pub waypoint_end : Bool → List (SdkCall fp)
  waypoint_end ends = if ends then waypoint_deinit ∷ [] else []

  abbrev pub layer_end : List (SdkCall fp)
  layer_end = gimbal_deinit ∷ camera_deinit ∷ subscription_deinit ∷ []

  -- The calls of a run, by the exit code.
  pub data Lived (code : ℤ) (m : Machine fp) : Type 0 where
    idle : (code ≡ pos 0) ⊎ (code ≡ pos 1) → m.core_calls ≡ [] → m.layer.calls ≡ [] → Lived code m
    core_failed :
        code ≡ pos 2
        → (before later : List CoreCall) (c : CoreCall) → before ++ c ∷ later ≡ core_order
        → Accepted core [] before
        → goes_on core before c ≡ false
        → m.core_calls ≡ before ++ c ∷ []
        → m.layer.calls ≡ []
        → Lived code m
    layer_failed :
        code ≡ pos 3
        → Accepted core [] core_order
        → sdk.answer [] subscription_init ≢ success
        → m.core_calls ≡ core_order ++ core_deinit ∷ []
        → m.layer.calls ≡ subscription_init ∷ []
        → Lived code m
    served :
        (code ≡ pos 0) ⊎ (code ≡ pos 4)
        → Accepted core [] core_order
        → sdk.answer [] subscription_init ≡ success
        → m.core_calls ≡ core_order ++ core_deinit ∷ []
        → (asked : List (SdkCall fp)) → ArePermitted sdk layer_start asked
        → (ends : Bool) → m.layer.calls ≡ layer_start ++ asked ++ waypoint_end ends ++ layer_end
        → Lived code m

  -- The end of a machine that has served.
  ended :
      (code : ℤ) (m m' : Machine fp)
      → (code ≡ pos 0) ⊎ (code ≡ pos 4)
      → MachineServes sdk m m'
      → Accepted core [] core_order
      → sdk.answer [] subscription_init ≡ success
      → m.core_calls ≡ core_order
      → m.layer.calls ≡ layer_start
      → Lived code (record {
        core_calls = Boot.psdk_deinit m'.core_calls;
        layer = drone_ctrl_deinit sdk m'.layer;
      })
  unfolding Boot.psdk_deinit
  ended code m m' exit serves good begins started begun =
      let more = serves.layer.more in
      let stopped = waypoint_end m'.layer.waypoint_v3_inited in
      Lived.served exit good begins (ap (λ s. s ++ core_deinit ∷ []) (serves.core ∙ started)) more
        (subst (λ s. ArePermitted sdk s more) begun serves.layer.permitted)
        m'.layer.waypoint_v3_inited
        ((drone_ctrl_deinit_lem sdk m'.layer).1
          ∙ ap (λ s. (s ++ stopped) ++ layer_end) (serves.layer.calls ∙ ap (λ s. s ++ more) begun)
          ∙ simp append_assoc)

  module _ (json : JsonC fp) where
    served-Lived :
        (polls : List Poll) (r : Option UdpServer × List Syscall) (d : Daemon (Machine fp))
        → Accepted core [] core_order
        → sdk.answer [] subscription_init ≡ success
        → d.world.ctrl.core_calls ≡ core_order
        → d.world.ctrl.layer.calls ≡ layer_start
        → let (code, d') =
            serve_until_stopped json (machine_ctrl sdk) (real_parts core sdk) polls r d in
          Lived code d'.world.ctrl
    unfolding serve_until_stopped end_ctrl end_psdk handler_set_server
    served-Lived polls (none, calls) d good begins started begun =
        ended (pos 4) d.world.ctrl d.world.ctrl (inr refl)
          (poll_all-MachineServes sdk json [] d.world) good begins started begun
    served-Lived polls (some srv, calls) d good begins started begun =
        ended (pos 0) d.world.ctrl _ (inl refl)
          (poll_all-MachineServes sdk json polls (handler_set_server srv d.world)) good begins
          started begun

    module _ (o : Options) (answers : Answers) (polls : List Poll) (w : World (Machine fp))
        (no_core : w.ctrl.core_calls ≡ []) (no_layer : w.ctrl.layer.calls ≡ []) where
      abbrev up : Bool × List CoreCall
      up = Boot.psdk_init core hardware_connection w.ctrl.core_calls

      calls_made : Starts core core_order [] up
      calls_made =
          subst (λ m. Starts core core_order m up) no_core
            (psdk_init-Starts core hardware_connection w.ctrl.core_calls)

      run_daemon-Lived :
          let d : Daemon (Machine fp) = record { world = w; net = []; life = [] } in
          let (code, d') =
            run_daemon json (machine_ctrl sdk) (real_parts core sdk) o answers polls d in
          Lived code d'.world.ctrl
      unfolding run_daemon end_psdk Boot.psdk_deinit
      run_daemon-Lived = elim calls_made [
        | stops before later c split good refused e ↦
            let failed : up.0 ≡ false = ap (λ u. u.0) e in
            rw (failed, run_daemon)
              (Lived.core_failed refl before later c split good refused (ap (λ u. u.1) e) no_layer)
        | completes good e ↦
            let ready : up.0 ≡ true = ap (λ u. u.0) e in
            let whole : up.1 ≡ core_order = ap (λ u. u.1) e in
            elim (drone_ctrl_init_lem sdk w.ctrl.layer) [
              | inl (f, accepted, g) ↦
                  rw (ready, f, run_daemon)
                    (served-Lived polls _ _ good
                      (subst (λ m. sdk.answer m subscription_init ≡ success) no_layer accepted)
                      whole
                      (g ∙ ap (λ s. (s ++ subscription_init ∷ []) ++ subscriptions sdk) no_layer))
              | inr (f, refused, g) ↦
                  rw (ready, f, run_daemon)
                    (Lived.layer_failed refl good
                      (subst (λ m. sdk.answer m subscription_init ≢ success) no_layer refused)
                      (ap (λ s. s ++ core_deinit ∷ []) whole)
                      (g ∙ ap (λ s. s ++ subscription_init ∷ []) no_layer))
            ]
      ]

    module _ (answers : Answers) (polls : List Poll) (w : World (Machine fp))
        (no_core : w.ctrl.core_calls ≡ []) (no_layer : w.ctrl.layer.calls ≡ []) where
      command-Lived :
          (c : Command)
          → let d : Daemon (Machine fp) = record { world = w; net = []; life = [] } in
            let r : ℤ × Daemon (Machine fp) = elim c as (λ _. ℤ × Daemon (Machine fp)) [
              | starts o ↦
                  run_daemon json (machine_ctrl sdk) (real_parts core sdk) o answers polls d
              | shows_usage ↦ (pos 0, d)
              | refuses option ↦ (pos 1, d)
            ] in
            Lived r.0 r.1.world.ctrl
      command-Lived (starts o) = run_daemon-Lived o answers polls w no_core no_layer
      command-Lived shows_usage = Lived.idle (inl refl) no_core no_layer
      command-Lived (refuses option) = Lived.idle (inr refl) no_core no_layer

      -- Where no call has been made before, a whole run of the daemon in the build with PSDK_REAL
      -- makes these SDK calls, whatever the arguments, the requests and the answers. With the exit
      -- code 2 the core's calls are the first ones of psdk_init's list, up to the first one that
      -- fails and whose failure is not only logged, and the drone control layer makes none. With
      -- 3, the whole list, no such call failing, and then DjiCore_DeInit, and of the layer
      -- DjiFcSubscription_Init alone, which fails. With 4, and with 0 behind the poll loop, the
      -- whole list, no such call failing, and then DjiCore_DeInit, and of the layer all calls of
      -- its start first, DjiFcSubscription_Init succeeding, then the calls that the requests lead
      -- to, then at most the call that ends the waypoint module, and the calls that end the
      -- gimbal, the camera and the subscriptions last. A call that a request leads to ends no
      -- module, starts none but the waypoint module and subscribes to nothing; a home location has
      -- neither a latitude beyond 90 degrees nor a longitude beyond 180, a zoom factor is not less
      -- than 1, an altitude comes from one that is not less than 0, a gimbal rotation takes 0.5
      -- seconds, and an upload sends what is read, behind the calls before it, from a file
      -- directly in the KMZ directory, cut to the number of bytes that its size is as a uint32_t.
      -- Otherwise, with 0 for the usage text and 1 for an unknown option, none.
      pub main-Lived :
          (args : List Bytes)
          → let r = main json (machine_ctrl sdk) (real_parts core sdk) args answers polls w in
            Lived r.0 r.1.world.ctrl
      unfolding main
      main-Lived args = command-Lived (parse_args args default_options)
