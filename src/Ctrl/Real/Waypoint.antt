-- ===== src/Ctrl/Real/Waypoint.antt =====
-- drone_ctrl.c, PSDK_REAL: the waypoint module, the upload of a KMZ file, and the start and end of the
-- layer.
pub mod Upload
pub mod Lifecycle
pub mod States
pub mod Steps
use psdk_orangepi.Prelude.{
  ℕ, suc, pred, ◌+◌, ◌-◌, Bool, true, false, not, Option, none, some, List, [], ◌∷◌, ◌==◌, length,
  take, ltb, if◌then◌else◌,
}
use psdk_orangepi.Prelude.Int.{ℤ, pos, negsuc, pos_part}
use psdk_orangepi.Prelude.Words.{to_u32}
use psdk_orangepi.Prelude.Text.{Bytes}
use psdk_orangepi.Floating.{Floating}
use psdk_orangepi.Types.{DroneError, ok, err_psdk, err_param, err_state, err_timeout, err_unknown}
use psdk_orangepi.Ctrl.Real.{
  ReturnCode, success, failure, Sdk, SdkCall, Topic, FileIo, status_of, position_fused, velocity,
  quaternion, gps_details, status_flight, battery_info, battery_single_1, battery_single_2,
  gimbal_angles, waypoint_init, waypoint_reg_mission_state, waypoint_reg_action_state,
  waypoint_deinit, waypoint_upload_kmz, subscription_init, subscription_deinit, subscribe_topic,
  camera_init, camera_deinit, gimbal_init, gimbal_deinit,
}
use psdk_orangepi.Ctrl.Real.Topics.{Real, make_call}
use psdk_orangepi.Ctrl.Real.Writes.{command}

-- The bytes that `fread` stores.
abbrev pub read_bytes : FileIo → Bytes
read_bytes io = take (pos_part io.tells) io.content

-- The bytes that `DjiWaypointV3_UploadKmzFile` is given: `(uint32_t) file_size` of them.
abbrev pub sent_bytes : FileIo → Bytes
sent_bytes io = take (to_u32 io.tells) (read_bytes io)

-- An operation of the layer. `m >> k` goes on to `k` only where `m` gave `DRONE_OK`: the early returns.
abbrev pub Op : Floating → Type 0
Op fp = Real fp → DroneError × Real fp

module _ {fp : Floating} where
  abbrev pub continue : DroneError → Real fp → Op fp → DroneError × Real fp
  continue ok r k = k r
  continue err_psdk r k = (err_psdk, r)
  continue err_param r k = (err_param, r)
  continue err_state r k = (err_state, r)
  continue err_timeout r k = (err_timeout, r)
  continue err_unknown r k = (err_unknown, r)

  infixl 5 ◌>>◌
  abbrev pub ◌>>◌ : Op fp → Op fp → Op fp
  ◌>>◌ m k r = let (e, r') = m r in continue e r' k

  -- `fclose(fp)` and `osal->Free(buf)`
  abbrev pub close : Real fp → Real fp
  close r = record r { open_files = pred r.open_files }

  abbrev pub free : Real fp → Real fp
  free r = record r { buffers = pred r.buffers }

  unfoldable pub open_file : FileIo → Op fp
  open_file io r =
      if io.opens then (ok, record r { open_files = suc r.open_files }) else (err_param, r)

  -- `if (!good) { fclose(fp); return err; }`
  unfoldable pub or_close : Bool → DroneError → Op fp
  or_close good err r = if good then (ok, r) else (err, close r)

  -- `buf = osal->Malloc((uint32_t) file_size)`, with the return on NULL
  unfoldable pub allocate : FileIo → Op fp
  allocate io r =
      if io.allocates (to_u32 io.tells)
      then (ok, record r { buffers = suc r.buffers })
      else (err_unknown, close r)

  -- `fread`, `fclose` and the test of the count. The bytes that `fread` stores behind the end of the
  -- buffer, which `allocate` takes of `(uint32_t) file_size` bytes, are counted.
  unfoldable pub read_file : FileIo → Op fp
  read_file io r =
      let r' = record r { overrun = r.overrun + (length (read_bytes io) - to_u32 io.tells) } in
      if length (read_bytes io) == pos_part io.tells
      then (ok, close r')
      else (err_unknown, free (close r'))

  unfoldable pub set_inited : Op fp
  set_inited r = (ok, record r { waypoint_v3_inited = true })

module _ {fp : Floating} (sdk : Sdk fp) where
  unfoldable pub ensure_waypoint_v3_ready : Op fp
  unfolding command set_inited
  ensure_waypoint_v3_ready r =
      if r.waypoint_v3_inited
      then (ok, r)
      else (do
        command sdk waypoint_init
        command sdk waypoint_reg_mission_state
        command sdk waypoint_reg_action_state
        set_inited)
          r

  -- `DjiWaypointV3_UploadKmzFile`, then `osal->Free(buf)`
  unfoldable pub send_file : FileIo → Op fp
  unfolding command
  send_file io r = let (e, r') = command sdk (waypoint_upload_kmz (sent_bytes io)) r in (e, free r')

  -- `drone_upload_kmz` from `fopen` on.
  unfoldable pub upload_file : FileIo → Op fp
  unfolding open_file or_close allocate read_file send_file
  upload_file io = do
    open_file io
    or_close io.seeks_end err_unknown
    or_close (ltb 0 (pos_part io.tells)) err_param
    or_close io.seeks_set err_unknown
    or_close io.has_osal err_psdk
    allocate io
    read_file io
    send_file io

  unfoldable pub upload_kmz : Bytes → Op fp
  unfolding ensure_waypoint_v3_ready upload_file
  upload_kmz [] r = (err_param, r)
  upload_kmz (c ∷ cs) r =
      (do ensure_waypoint_v3_ready; λ r'. upload_file (sdk.file_io (c ∷ cs) r'.calls) r') r

  -- A call whose failure is only logged.
  unfoldable pub attempt : SdkCall fp → Real fp → Real fp
  unfolding make_call
  attempt c r = (make_call sdk c r).1

  unfoldable pub attempt_all : List (SdkCall fp) → Real fp → Real fp
  unfolding attempt
  attempt_all [] r = r
  attempt_all (c ∷ cs) r = attempt_all cs (attempt c r)

  -- The calls of `drone_ctrl_init` behind `DjiFcSubscription_Init`, with the rates in hertz.
  abbrev pub subscriptions : List (SdkCall fp)
  subscriptions =
      subscribe_topic position_fused 10
      ∷ subscribe_topic velocity 10
      ∷ subscribe_topic quaternion 10
      ∷ subscribe_topic gps_details 1
      ∷ subscribe_topic status_flight 1
      ∷ subscribe_topic battery_info 1
      ∷ subscribe_topic battery_single_1 1
      ∷ subscribe_topic battery_single_2 1
      ∷ subscribe_topic gimbal_angles 10
      ∷ camera_init
      ∷ gimbal_init
      ∷ []

  unfoldable pub drone_ctrl_init : Real fp → ℤ × Real fp
  unfolding make_call attempt_all
  drone_ctrl_init r =
      let (rc, r') = make_call sdk subscription_init r in
      elim rc [ success ↦ (pos 0, attempt_all subscriptions r') | failure n ↦ (negsuc 0, r') ]

  unfoldable pub drone_ctrl_deinit : Real fp → Real fp
  unfolding attempt attempt_all
  drone_ctrl_deinit r =
      let stopped =
        if r.waypoint_v3_inited
        then record (attempt waypoint_deinit r) { waypoint_v3_inited = false }
        else r in
      attempt_all (gimbal_deinit ∷ camera_deinit ∷ subscription_deinit ∷ []) stopped
