-- ===== src/App.antt =====
-- app/main.c: the command line, the start of the parts, the poll loop and the shutdown. The rounds that
-- are given are those that the loop makes until `g_running` is cleared, which Loop.antt models.
pub mod Args
pub mod Shutdown
pub mod Service
pub mod Build
pub mod Answered
pub mod Requests
pub mod Commands
pub mod Decoded
pub mod Permitted
pub mod Loop
pub mod Usage
pub mod Samples
pub mod Machine
use psdk_orangepi.Prelude.{
  ℕ, Bool, true, false, Option, none, some, List, [], ◌∷◌, ◌++◌, if◌then◌else◌,
}
use psdk_orangepi.Prelude.Int.{ℤ, pos, eq_ℤ}
use psdk_orangepi.Prelude.Text.{Bytes}
use psdk_orangepi.Floating.{Floating}
use psdk_orangepi.Proto.{JsonC}
use psdk_orangepi.Ctrl.{DroneCtrl}
use psdk_orangepi.Server.Calls.{Syscall}
use psdk_orangepi.Server.Udp.{Peer, UdpServer, udp_server_poll}
use psdk_orangepi.Server.Setup.{Answers, udp_server_create, udp_server_destroy}
use psdk_orangepi.Handler.{World, Clock, handler_set_server}
use psdk_orangepi.Handler.Dispatch.{handle_rpc}
use psdk_orangepi.App.Args.{
  Options, default_options, Command, starts, shows_usage, refuses, parse_args,
}

-- The parts that bsp/psdk_init.h and bsp/drone_ctrl.h start and end, on the state of the layer.
pub record Parts (S : Type 0) : Type 0 where
  pub psdk_init : S → ℤ × S
  pub psdk_deinit : S → S
  pub drone_ctrl_init : S → ℤ × S
  pub drone_ctrl_deinit : S → S

-- One round of the loop: what `poll` and `recvfrom` give, and the clock for the request.
pub record Poll : Type 0 where
  pub ready : Bool
  pub received : Option (Peer × Bytes)
  pub clock : Clock

-- The calls that `main` makes to start and end the parts, with whether a start succeeded.
pub data Life : Type 0 where
  psdk_started ctrl_started server_started : Bool → Life
  psdk_ended ctrl_ended server_ended : Life

pub record Daemon (S : Type 0) : Type 0 where
  pub world : World S
  pub net : List Syscall
  pub life : List Life

module _ {fp : Floating} (json : JsonC fp) {S : Type 0} (ctrl : DroneCtrl fp S) where
  -- `while (g_running) udp_server_poll(srv, 500)`
  unfoldable pub poll_all : List Poll → World S → World S
  unfolding udp_server_poll handle_rpc
  poll_all [] w = w
  poll_all (p ∷ ps) w =
      poll_all ps (udp_server_poll (handle_rpc json ctrl p.clock) p.ready p.received w)

module _ {fp : Floating} (json : JsonC fp) {S : Type 0} (ctrl : DroneCtrl fp S)
    (parts : Parts S) where
  unfoldable pub end_psdk : Daemon S → Daemon S
  end_psdk d = record d {
    world = record d.world { ctrl = parts.psdk_deinit d.world.ctrl };
    life = d.life ++ psdk_ended ∷ [];
  }

  unfoldable pub end_ctrl : Daemon S → Daemon S
  end_ctrl d = record d {
    world = record d.world { ctrl = parts.drone_ctrl_deinit d.world.ctrl };
    life = d.life ++ ctrl_ended ∷ [];
  }

  -- The part of `main` from `udp_server_create` on, from what that returned.
  unfoldable pub serve_until_stopped :
      List Poll → Option UdpServer × List Syscall → Daemon S → ℤ × Daemon S
  unfolding poll_all end_psdk end_ctrl udp_server_destroy handler_set_server
  serve_until_stopped polls (none, calls) d = (
    pos 4,
    end_psdk (end_ctrl (record d { net = calls; life = d.life ++ server_started false ∷ [] })),
  )
  serve_until_stopped polls (some srv, calls) d = (
    pos 0,
    end_psdk (
        end_ctrl (record {
          world = poll_all json ctrl polls (handler_set_server srv d.world);
          net = udp_server_destroy (some srv) calls;
          life = d.life ++ server_started true ∷ server_ended ∷ [];
        })),
  )

  -- The part of `main` behind the options.
  unfoldable pub run_daemon : Options → Answers → List Poll → Daemon S → ℤ × Daemon S
  unfolding serve_until_stopped udp_server_create end_psdk
  run_daemon o answers polls d =
      let (rc, s) = parts.psdk_init d.world.ctrl in
      let up = eq_ℤ rc (pos 0) in
      let d1 : Daemon S = record d {
        world = record d.world { ctrl = s };
        life = d.life ++ psdk_started up ∷ [];
      } in
      let (rc2, s2) = parts.drone_ctrl_init s in
      let up2 = eq_ℤ rc2 (pos 0) in
      let d2 : Daemon S = record d1 {
        world = record d1.world { ctrl = s2 };
        life = d1.life ++ ctrl_started up2 ∷ [];
      } in
      if up
      then (if up2
          then serve_until_stopped polls (udp_server_create (some o.bind_ip) o.port answers) d2
          else (pos 3, end_psdk d2))
      else (pos 2, d1)

  -- The exit code and what is left.
  unfoldable pub main : List Bytes → Answers → List Poll → World S → ℤ × Daemon S
  unfolding run_daemon parse_args
  main args answers polls w =
      let d : Daemon S = record { world = w; net = []; life = [] } in
      elim (parse_args args default_options) [
        | starts o ↦ run_daemon o answers polls d
        | shows_usage ↦ (pos 0, d)
        | refuses option ↦ (pos 1, d)
      ]
