-- ===== src/Ctrl/Real/Waypoint/Steps.antt =====
-- drone_ctrl.c, PSDK_REAL: what each step of an operation keeps, the steps keep one behind the other.
use psdk_orangepi.Prelude.{Bool, true, false, if◌then◌else◌}
use psdk_orangepi.Floating.{Floating}
use psdk_orangepi.Types.{DroneError, ok}
use psdk_orangepi.Ctrl.Real.{
  Sdk, waypoint_init, waypoint_reg_mission_state, waypoint_reg_action_state,
}
use psdk_orangepi.Ctrl.Real.Topics.{Real}
use psdk_orangepi.Ctrl.Real.Writes.{command}
use psdk_orangepi.Ctrl.Real.Waypoint.{Op, continue, set_inited, ensure_waypoint_v3_ready}

abbrev pub Each : {fp : Floating} → (Real fp → Real fp → Type 0) → Op fp → Type 0
Each R m = (r : Real _) → R r (m r).1

module _ {fp : Floating} (R : Real fp → Real fp → Type 0)
    (trans : (a b c : Real fp) → R a b → R b c → R a c) where
  pub then-Each : (m k : Op fp) → Each R m → Each R k → Each R (λ r. continue (m r).0 (m r).1 k)
  then-Each m k p q r = go (m r).0
    where
      go : (e : DroneError) → R r (continue e (m r).1 k).1
      go ok = trans r (m r).1 _ (p r) (q (m r).1)
      go _ = p r

module _ {fp : Floating} (sdk : Sdk fp) (R : Real fp → Real fp → Type 0)
    (same : (r : Real fp) → R r r) (trans : (a b c : Real fp) → R a b → R b c → R a c) where
  -- The waypoint module is started by three calls, each only where the one before it succeeds.
  pub ready-Each :
      Each R (command sdk waypoint_init)
      → Each R (command sdk waypoint_reg_mission_state)
      → Each R (command sdk waypoint_reg_action_state)
      → Each R set_inited
      → Each R (ensure_waypoint_v3_ready sdk)
  unfolding ensure_waypoint_v3_ready
  ready-Each init mission action inited r = go r.waypoint_v3_inited
    where
      start : Op fp
      start = λ r. continue (command sdk waypoint_init r).0 (command sdk waypoint_init r).1 (λ r.
          continue (command sdk waypoint_reg_mission_state r).0
            (command sdk waypoint_reg_mission_state r).1
            (λ r.
              continue (command sdk waypoint_reg_action_state r).0
                (command sdk waypoint_reg_action_state r).1 set_inited))

      go : (b : Bool) → R r (if b then (ok, r) else start r).1
      go true = same r
      go false =
          then-Each R trans (command sdk waypoint_init) _ init
            (then-Each R trans (command sdk waypoint_reg_mission_state) _ mission
              (then-Each R trans (command sdk waypoint_reg_action_state) set_inited action inited))
            r
