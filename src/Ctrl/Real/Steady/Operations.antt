-- ===== src/Ctrl/Real/Steady/Operations.antt =====
-- drone_ctrl.c, PSDK_REAL: the operations leave the samples alone, take back no call and hold nothing.
use psdk_orangepi.Prelude.{refl, [], ◌∷◌, arith, ltb}
use psdk_orangepi.Prelude.Int.{pos_part}
use psdk_orangepi.Prelude.Text.{Bytes}
use psdk_orangepi.Floating.{Floating}
use psdk_orangepi.Types.{err_psdk, err_param, err_unknown}
use psdk_orangepi.Ctrl.Real.{
  Sdk, SdkCall, FileIo, waypoint_init, waypoint_reg_mission_state, waypoint_reg_action_state,
}
use psdk_orangepi.Ctrl.Real.Topics.{Real, make_call}
use psdk_orangepi.Ctrl.Real.Writes.{command}
use psdk_orangepi.Ctrl.Real.Waypoint.{
  open_file, or_close, allocate, read_file, send_file, upload_file, upload_kmz,
  ensure_waypoint_v3_ready,
}
use psdk_orangepi.Ctrl.Real.Waypoint.Upload.{upload_kmz-SameHeld}
use psdk_orangepi.Ctrl.Real.Waypoint.Steps.{ready-Each}
use psdk_orangepi.Ctrl.Real.Steady.{
  Steady, Serves, Steady-same, Steady-trans, Serves-same, IsSteady, then-IsSteady,
  open_file-IsSteady, or_close-IsSteady, allocate-IsSteady, read_file-IsSteady, set_inited-IsSteady,
}

module _ {fp : Floating} (sdk : Sdk fp) where
  pub make_call-Serves : (c : SdkCall fp) (r : Real fp) → Serves fp r (make_call sdk c r).1
  unfolding make_call
  make_call-Serves c r = record {
    steady = record { samples = ground arith; extends = record { more = c ∷ []; calls = refl } };
    held = record { files = refl; memory = refl };
  }

  command-IsSteady : (c : SdkCall fp) → IsSteady (command sdk c)
  unfolding command
  command-IsSteady c r = (make_call-Serves c r).steady

  send_file-IsSteady : (io : FileIo) → IsSteady (send_file sdk io)
  unfolding send_file command make_call
  send_file-IsSteady io r = record {
    samples = ground arith;
    extends = record { more = _; calls = refl };
  }

  upload_file-IsSteady : (io : FileIo) → IsSteady (upload_file sdk io)
  unfolding upload_file
  upload_file-IsSteady io = then-IsSteady (open_file io) _ (open_file-IsSteady io) (
      then-IsSteady (or_close io.seeks_end err_unknown) _ (or_close-IsSteady _ _) (
        then-IsSteady (or_close (ltb 0 (pos_part io.tells)) err_param) _ (or_close-IsSteady _ _) (
          then-IsSteady (or_close io.seeks_set err_unknown) _ (or_close-IsSteady _ _) (
            then-IsSteady (or_close io.has_osal err_psdk) _ (or_close-IsSteady _ _) (
              then-IsSteady (allocate io) _ (allocate-IsSteady io) (
                then-IsSteady (read_file io) (send_file sdk io) (read_file-IsSteady io)
                  (send_file-IsSteady io)))))))

  ready-IsSteady : IsSteady (ensure_waypoint_v3_ready sdk)
  ready-IsSteady =
      ready-Each sdk (Steady fp) Steady-same Steady-trans (command-IsSteady waypoint_init)
        (command-IsSteady waypoint_reg_mission_state) (command-IsSteady waypoint_reg_action_state)
        set_inited-IsSteady

  pub upload_kmz-Serves : (path : Bytes) (r : Real fp) → Serves fp r (upload_kmz sdk path r).1
  unfolding upload_kmz
  upload_kmz-Serves [] r = Serves-same r
  upload_kmz-Serves (c ∷ cs) r = record {
    steady =
        then-IsSteady (ensure_waypoint_v3_ready sdk)
          (λ u. upload_file sdk (sdk.file_io (c ∷ cs) u.calls) u) ready-IsSteady
          (λ u. upload_file-IsSteady (sdk.file_io (c ∷ cs) u.calls) u) r;
    held = upload_kmz-SameHeld sdk (c ∷ cs) r;
  }
