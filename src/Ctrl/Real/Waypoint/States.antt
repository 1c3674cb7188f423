-- ===== src/Ctrl/Real/Waypoint/States.antt =====
-- drone_ctrl.c, PSDK_REAL: the callbacks for the states of a mission, which report them in the log.
use psdk_orangepi.Prelude.{ℕ, [], ◌∷◌}
use psdk_orangepi.Prelude.Int.{ℤ}
use psdk_orangepi.Prelude.Text.{codes, concat, print_int, print_unsigned}
use psdk_orangepi.Ctrl.Real.{ReturnCode, success}
use psdk_orangepi.Log.{Log, LocalTime, log_info}

-- The members that the callbacks print.
pub record MissionState : Type 0 where
  pub state : ℤ
  pub wayline_id : ℕ
  pub current_waypoint_index : ℕ

pub record ActionState : Type 0 where
  pub state : ℤ
  pub wayline_id : ℕ
  pub current_waypoint_index : ℕ
  pub action_group_id : ℕ
  pub action_id : ℕ

unfoldable pub waypoint_mission_state_cb : LocalTime → MissionState → Log → ReturnCode × Log
unfolding log_info
waypoint_mission_state_cb t mission_state log = (
  success,
  log_info t (codes "bsp.ctrl")
      (concat (
        codes "waypoint mission state="
        ∷ print_int mission_state.state
        ∷ codes " wayline="
        ∷ print_unsigned mission_state.wayline_id
        ∷ codes " wp="
        ∷ print_unsigned mission_state.current_waypoint_index
        ∷ []))
      log,
)

unfoldable pub waypoint_action_state_cb : LocalTime → ActionState → Log → ReturnCode × Log
unfolding log_info
waypoint_action_state_cb t action_state log = (
  success,
  log_info t (codes "bsp.ctrl")
      (concat (
        codes "waypoint action state="
        ∷ print_int action_state.state
        ∷ codes " wayline="
        ∷ print_unsigned action_state.wayline_id
        ∷ codes " wp="
        ∷ print_unsigned action_state.current_waypoint_index
        ∷ codes " group="
        ∷ print_unsigned action_state.action_group_id
        ∷ codes " action="
        ∷ print_unsigned action_state.action_id
        ∷ []))
      log,
)
