-- ===== src/App/Build.antt =====
-- bsp/psdk_init.c and bsp/drone_ctrl.c: how the two builds fill the interface of app/main.c.
use psdk_orangepi.Prelude.{List}
use psdk_orangepi.Floating.{Floating}
use psdk_orangepi.Ctrl.Stub.{Stub}
use psdk_orangepi.Ctrl.Stub
use psdk_orangepi.Ctrl.Real.{Sdk}
use psdk_orangepi.Ctrl.Real.Topics.{Real}
use psdk_orangepi.Ctrl.Real.Waypoint.{drone_ctrl_init, drone_ctrl_deinit}
use psdk_orangepi.Boot.{CoreCall, Core, hardware_connection, status}
use psdk_orangepi.Boot
use psdk_orangepi.Boot.Stub as BootStub
use psdk_orangepi.App.{Parts}

-- Without PSDK_REAL.
abbrev pub stub_parts : {fp : Floating} → Parts (Stub fp)
stub_parts {fp} = record {
  psdk_init = BootStub.psdk_init;
  psdk_deinit = BootStub.psdk_deinit;
  drone_ctrl_init = Stub.drone_ctrl_init fp;
  drone_ctrl_deinit = Stub.drone_ctrl_deinit fp;
}

-- With PSDK_REAL: the calls of the SDK's core, beside the state of the drone control layer.
pub record Machine (fp : Floating) : Type 0 where
  pub core_calls : List CoreCall
  pub layer : Real fp

abbrev pub real_parts : {fp : Floating} → Core → Sdk fp → Parts (Machine fp)
real_parts core sdk = record {
  psdk_init = λ s.
      let (good, calls) = Boot.psdk_init core hardware_connection s.core_calls in
      (status good, record s { core_calls = calls });
  psdk_deinit = λ s. record s { core_calls = Boot.psdk_deinit s.core_calls };
  drone_ctrl_init =
      λ s. let (rc, layer) = drone_ctrl_init sdk s.layer in (rc, record s { layer = layer });
  drone_ctrl_deinit = λ s. record s { layer = drone_ctrl_deinit sdk s.layer };
}
