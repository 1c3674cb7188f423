-- ===== src/App/Shutdown.antt =====
-- app/main.c: whatever was started is ended, the last first.
use psdk_orangepi.Prelude.{
  ◌≡◌, refl, Bool, true, false, Option, some, List, [], ◌∷◌, if◌then◌else◌, Bool-cases, inl, inr,
}
use psdk_orangepi.Prelude.Int.{ℤ, pos, eq_ℤ}
use psdk_orangepi.Prelude.Text.{Bytes}
use psdk_orangepi.Floating.{Floating}
use psdk_orangepi.Proto.{JsonC}
use psdk_orangepi.Ctrl.{DroneCtrl}
use psdk_orangepi.Server.Calls.{Syscall, IsReleased}
use psdk_orangepi.Server.Udp.{UdpServer}
use psdk_orangepi.Server.Setup.{Answers}
use psdk_orangepi.Server.Setup.Released.{
  UdpOutcome, not_created, created, udp_server_create-UdpOutcome, released,
}
use psdk_orangepi.Handler.{World}
use psdk_orangepi.App.{
  Parts, Poll, Life, psdk_started, ctrl_started, server_started, psdk_ended, ctrl_ended,
  server_ended, Daemon, end_psdk, end_ctrl, serve_until_stopped, run_daemon, main,
}
use psdk_orangepi.App.Args.{
  Options, default_options, Command, starts, shows_usage, refuses, parse_args,
}

pub data Component : Type 0 where
  psdk ctrl_layer server : Component

-- The parts that run at the end of the calls, from those that run before; none where a part is ended
-- that is not the last one started.
abbrev pub nested : List Life → List Component → Bool
nested [] [] = true
nested [] (c ∷ cs) = false
nested (psdk_started good ∷ ls) cs = nested ls (if good then psdk ∷ cs else cs)
nested (ctrl_started good ∷ ls) cs = nested ls (if good then ctrl_layer ∷ cs else cs)
nested (server_started good ∷ ls) cs = nested ls (if good then server ∷ cs else cs)
nested (psdk_ended ∷ ls) (psdk ∷ cs) = nested ls cs
nested (psdk_ended ∷ ls) _ = false
nested (ctrl_ended ∷ ls) (ctrl_layer ∷ cs) = nested ls cs
nested (ctrl_ended ∷ ls) _ = false
nested (server_ended ∷ ls) (server ∷ cs) = nested ls cs
nested (server_ended ∷ ls) _ = false

-- Nothing runs any more, and nothing is held.
pub record IsDown {S : Type 0} (d : Daemon S) : Type 0 where
  pub in_order : nested d.life [] ≡ true
  pub net : IsReleased d.net

module _ {fp : Floating} (json : JsonC fp) {S : Type 0} (ctrl : DroneCtrl fp S)
    (parts : Parts S) where
  served-IsDown :
      (polls : List Poll) (r : Option UdpServer × List Syscall) (d : Daemon S)
      → UdpOutcome r
      → d.life ≡ psdk_started true ∷ ctrl_started true ∷ []
      → IsDown (serve_until_stopped json ctrl parts polls r d).1
  unfolding serve_until_stopped end_ctrl end_psdk
  served-IsDown polls _ d (not_created h) e = record { in_order = rw e refl; net = h }
  served-IsDown polls _ d (created srv h m) e = record {
    in_order = rw e refl;
    net = released _ (created srv h m);
  }

  run_daemon-IsDown :
      (o : Options) (answers : Answers) (polls : List Poll) (w : World S)
      → IsDown
          (run_daemon json ctrl parts o answers polls (record { world = w; net = []; life = [] })).1
  unfolding run_daemon end_psdk
  run_daemon-IsDown o answers polls w =
      elim (Bool-cases (eq_ℤ (parts.psdk_init w.ctrl).0 (pos 0))) [
        | inr e ↦
            rw (e, run_daemon)
              (record { in_order = refl; net = record { descriptors = λ n. refl; memory = refl } })
        | inl e ↦
            elim (Bool-cases (eq_ℤ (parts.drone_ctrl_init (parts.psdk_init w.ctrl).1).0 (pos 0))) [
              | inr f ↦
                  rw (e, f, run_daemon)
                    (record {
                      in_order = refl;
                      net = record { descriptors = λ n. refl; memory = refl };
                    })
              | inl f ↦
                  rw (e, f, run_daemon)
                    (served-IsDown polls _ _
                      (udp_server_create-UdpOutcome (some o.bind_ip) o.port answers) refl)
            ]
      ]

  command-IsDown :
      (c : Command) (answers : Answers) (polls : List Poll) (w : World S)
      → let d : Daemon S = record { world = w; net = []; life = [] } in
        IsDown
          (elim c as (λ _. ℤ × Daemon S) [
            | starts o ↦ run_daemon json ctrl parts o answers polls d
            | shows_usage ↦ (pos 0, d)
            | refuses option ↦ (pos 1, d)
          ]).1
  command-IsDown (starts o) answers polls w = run_daemon-IsDown o answers polls w
  command-IsDown shows_usage answers polls w = record {
    in_order = refl;
    net = record { descriptors = λ n. refl; memory = refl };
  }
  command-IsDown (refuses option) answers polls w = record {
    in_order = refl;
    net = record { descriptors = λ n. refl; memory = refl };
  }

  -- On every path of main, whatever the arguments and the answers, each part that was started is
  -- ended, the last one started first, and at the exit every descriptor that the datagram server
  -- opened is closed and its record is freed.
  pub main-IsDown :
      (args : List Bytes) (answers : Answers) (polls : List Poll) (w : World S)
      → IsDown (main json ctrl parts args answers polls w).1
  unfolding main
  main-IsDown args answers polls w =
      command-IsDown (parse_args args default_options) answers polls w
