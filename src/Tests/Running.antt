-- ===== src/Tests/Running.antt =====
-- Runs of the daemon over the real layer, with callbacks between the rounds.
use psdk_orangepi.Prelude.{none, refl, true, some, List, [], ◌∷◌, ◌++◌}
use psdk_orangepi.Prelude.Int.{pos, negsuc}
use psdk_orangepi.Prelude.Text.{codes}
use psdk_orangepi.Types.{Timespec}
use psdk_orangepi.Handler.Reads.{
  telemetry_json, battery_json, gimbal_json, h_drone_get_telemetry, h_drone_get_battery_info,
  h_drone_get_gimbal_angle,
}
use psdk_orangepi.Ctrl.Real.Reads.{get_telemetry, get_battery_info, get_gimbal_angle}
use psdk_orangepi.Ctrl.Real.Build.{real_ctrl}
use psdk_orangepi.App.Samples.{
  RunEvent, calls_back, polls, battery_sample, gimbal_sample, call_back_all, happen_all, Runs,
  happen_all-Runs,
}
use psdk_orangepi.Session.Telemetry.{IsShown, readings-IsShown}
use psdk_orangepi.Tests.Fixtures.{fixed, toy, peer, clock, world, willing, singles}
use psdk_orangepi.Tests.Sessions.{real_world}
use psdk_orangepi.Session.Mock.{Shows, poll_all-Shows}
use psdk_orangepi.Ctrl.Stub.{stub_ctrl}
use psdk_orangepi.App.{Poll, poll_all}
use psdk_orangepi.App.Requests.{gather}
use psdk_orangepi.App.Decoded.{decode_line}
use psdk_orangepi.Tests.Daemon.{answers, busy_rounds}
use psdk_orangepi.Boot.{Core}
use psdk_orangepi.Handler.{World}
use psdk_orangepi.App.{main}
use psdk_orangepi.App.Build.{Machine, real_parts}
use psdk_orangepi.App.Machine.{machine_ctrl}
use psdk_orangepi.App.Machine.Life.{Lived, main-Lived}

abbrev second_eleven : Timespec
second_eleven = record { sec = 11; nsec = 0 }

-- A ping between the samples of the battery and of the gimbal.
abbrev events : List (RunEvent fixed)
events =
    calls_back
      (battery_sample 9 9 (record { voltage = pos 14800; current = negsuc 899; percentage = 80 }))
      second_eleven
    ∷ polls (record { ready = true; received = some (peer, codes "ping"); clock = clock })
    ∷ calls_back (gimbal_sample 12 12 (record { x = negsuc 9999; y = pos 0; z = pos 5000 }))
        second_eleven
    ∷ []

happen_all-Runs_example :
    Runs willing toy events real_world.ctrl (happen_all willing toy events real_world).ctrl
happen_all-Runs_example = happen_all-Runs willing toy events real_world

readings-IsShown_example :
    IsShown peer
      (pos 3)
      (telemetry_json (get_telemetry clock.now (call_back_all events real_world.ctrl)).1)
      (happen_all willing toy events real_world)
      (h_drone_get_telemetry
        (real_ctrl willing)
        clock
        peer
        (pos 3)
        (happen_all willing toy events real_world))
    × IsShown peer
        (pos 3)
        (battery_json (get_battery_info clock.now (call_back_all events real_world.ctrl)).1)
        (happen_all willing toy events real_world)
        (h_drone_get_battery_info
          (real_ctrl willing)
          clock
          peer
          (pos 3)
          (happen_all willing toy events real_world))
    × IsShown peer
        (pos 3)
        (gimbal_json (get_gimbal_angle (call_back_all events real_world.ctrl)).1)
        (happen_all willing toy events real_world)
        (h_drone_get_gimbal_angle
          (real_ctrl willing)
          peer
          (pos 3)
          (happen_all willing toy events real_world))
readings-IsShown_example = readings-IsShown willing toy events real_world clock peer (pos 3)

-- A core that accepts every call.
abbrev ready_core : Core
ready_core made c = true

abbrev machine : World (Machine fixed)
machine = record {
  server = record { fd = 3 };
  start = none;
  refs = record { created = 0; released = 0 };
  ctrl = record { core_calls = []; layer = singles };
  sent = [];
}

main-Lived_example :
    Lived ready_core willing
      (main toy
        (machine_ctrl willing)
        (real_parts ready_core willing)
        []
        answers
        busy_rounds
        machine).0
      (main toy
        (machine_ctrl willing)
        (real_parts ready_core willing)
        []
        answers
        busy_rounds
        machine).1.world.ctrl
main-Lived_example = main-Lived ready_core willing toy answers busy_rounds machine refl refl []

-- A zoom by 2 behind the other rounds.
abbrev zoom_rounds : List Poll
zoom_rounds =
    busy_rounds ++ record { ready = true; received = some (peer, codes "zoom"); clock = clock } ∷ []

poll_all-Shows_example :
    Shows
      (gather (decode_line toy) zoom_rounds)
      world.ctrl
      (poll_all toy (stub_ctrl fixed) zoom_rounds world).ctrl
poll_all-Shows_example = poll_all-Shows toy zoom_rounds world
