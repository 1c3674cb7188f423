-- ===== src/Ctrl/Real/Reads.antt =====
-- drone_ctrl.c, PSDK_REAL: what the read operations make of the cached samples.
pub mod Battery
pub mod BatteryInfo
use psdk_orangepi.Prelude.{
  ℕ, suc, ◌+◌, ◌-◌, ◌*◌, ◌/◌, ◌%◌, ◌^◌, Bool, true, false, ◌&&◌, ◌||◌, not, ltb, ◌==◌,
  if◌then◌else◌,
}
use psdk_orangepi.Prelude.Int.{ℤ, pos, negsuc, ◌+ℤ◌, ltb_ℤ}
use psdk_orangepi.Prelude.Words.{to_u32, add_i32}
use psdk_orangepi.Floating.{Floating}
use psdk_orangepi.Types.{
  DroneError, ok, err_psdk, Timespec, DroneTelemetry, DroneBatteryInfo, DroneGimbalAngle,
  DroneCameraState, DroneRtkStatus, camera_mode_photo, camera_mode_video,
}
use psdk_orangepi.Ctrl.Real.{
  ReturnCode, success, failure, Sdk, Quaternion, SingleBattery, camera_get_mode,
  camera_get_recording_state, camera_get_optical_zoom,
}
use psdk_orangepi.Ctrl.Real.Topics.{Cell, Real, topic_is_fresh, make_call}

-- `stats.last_update_ms` as a condition.
abbrev pub received : {A : Type 0} → Cell A → Bool
received c = not (c.stats.last_update_ms == 0)

-- The locals of the fall-back on the single batteries.
pub record Sums : Type 0 where
  pub pct_sum : ℕ
  pub pct_count : ℕ
  pub voltage_mv : ℕ

-- The block that adds one single battery in `drone_get_telemetry`.
unfoldable pub add_single : Cell SingleBattery → Sums → Sums
add_single c s =
    if received c
    then record {
      pct_sum = (s.pct_sum + c.value.battery_capacity_percent) % 2 ^ 32;
      pct_count = s.pct_count + 1;
      voltage_mv =
          if ltb s.voltage_mv (to_u32 c.value.current_voltage)
          then to_u32 c.value.current_voltage
          else s.voltage_mv;
    }
    else s

-- The block that adds one single battery in `drone_get_battery_info`: the reply and the two sums.
-- The first block takes its voltage and temperature, the second only a larger one.
unfoldable pub add_first : Cell SingleBattery → DroneBatteryInfo × ℕ × ℕ → DroneBatteryInfo × ℕ × ℕ
unfolding add_i32
add_first c (out, pct_sum, pct_count) =
    if received c
    then (
      record out {
        voltage_mv = to_u32 c.value.current_voltage;
        current_ma = add_i32 out.current_ma c.value.current_electric;
        temperature_dc = c.value.battery_temperature;
      },
      (pct_sum + c.value.battery_capacity_percent) % 2 ^ 32,
      pct_count + 1,
    )
    else (out, pct_sum, pct_count)

unfoldable pub add_second : Cell SingleBattery → DroneBatteryInfo × ℕ × ℕ → DroneBatteryInfo × ℕ × ℕ
unfolding add_i32
add_second c (out, pct_sum, pct_count) =
    let voltage_mv = to_u32 c.value.current_voltage in
    if received c
    then (
      record out {
        voltage_mv = if ltb out.voltage_mv voltage_mv then voltage_mv else out.voltage_mv;
        current_ma = add_i32 out.current_ma c.value.current_electric;
        temperature_dc =
            if ltb_ℤ out.temperature_dc c.value.battery_temperature
            then c.value.battery_temperature
            else out.temperature_dc;
      },
      (pct_sum + c.value.battery_capacity_percent) % 2 ^ 32,
      pct_count + 1,
    )
    else (out, pct_sum, pct_count)

-- `if (pct_count > 0) out->remaining_pct = (uint8_t) (pct_sum / pct_count)`
unfoldable pub set_mean : DroneBatteryInfo × ℕ × ℕ → DroneBatteryInfo
set_mean (out, pct_sum, pct_count) =
    if ltb 0 pct_count then record out { remaining_pct = (pct_sum / pct_count) % 256 } else out

-- `rc == DJI_ERROR_SYSTEM_MODULE_CODE_SUCCESS`
abbrev pub succeeded : ReturnCode → Bool
succeeded success = true
succeeded (failure n) = false

module _ (fp : Floating) where
  open fp use {F, D, lit_f, lit_d, lt_f, add_f, sub_f, mul_f, div_f, mul_d, div_d, atan2f}

  unfoldable pub quat_to_heading : Quaternion F → F
  quat_to_heading q =
      let yaw = atan2f (mul_f (lit_f (pos 20) 1) (add_f (mul_f q.q0 q.q3) (mul_f q.q1 q.q2))) (
        sub_f (lit_f (pos 10) 1)
          (mul_f (lit_f (pos 20) 1) (add_f (mul_f q.q2 q.q2) (mul_f q.q3 q.q3)))) in
      let deg = div_f (mul_f yaw (lit_f (pos 1800) 1)) (lit_f (pos 314159265) 8) in
      if lt_f deg (lit_f (pos 0) 0) then add_f deg (lit_f (pos 3600) 1) else deg

  -- `x * 180.0 / 3.14159265358979`
  abbrev degrees : D → D
  degrees x = div_d (mul_d x (lit_d (pos 1800) 1)) (lit_d (pos 314159265358979) 14)

module _ {fp : Floating} where
  open fp use {lit_f, lit_d, lt_f}

  -- The fall-back of `drone_get_telemetry`, where the whole battery's sample is not fresh.
  unfoldable pub telemetry_fallback : Real fp → DroneTelemetry fp → DroneTelemetry fp
  unfolding add_single
  telemetry_fallback r out =
      let sums =
        add_single r.single_2
          (add_single r.single_1 (record { pct_sum = 0; pct_count = 0; voltage_mv = 0 })) in
      if received r.single_1 || received r.single_2
      then record out {
        battery_pct =
            if ltb 0 sums.pct_count then (sums.pct_sum / sums.pct_count) % 256 else out.battery_pct;
        battery_mv = sums.voltage_mv;
      }
      else out

  unfoldable pub get_telemetry : Timespec → Real fp → DroneError × DroneTelemetry fp × Real fp
  unfolding telemetry_fallback quat_to_heading
  get_telemetry now r =
      let sats_from_pos = r.pos.value.visible_satellite_number in
      let sats_from_gps = r.gps.value.gps_satellite_number_used in
      let out : DroneTelemetry fp = record {
        lat = degrees fp r.pos.value.latitude;
        lon = degrees fp r.pos.value.longitude;
        alt_msl_m = r.pos.value.altitude;
        alt_rel_m = r.pos.value.altitude;
        vx_ms = r.vel.value.x;
        vy_ms = r.vel.value.y;
        vz_ms = r.vel.value.z;
        heading_deg = quat_to_heading fp r.quat.value;
        battery_pct = r.battery.value.percentage;
        battery_mv = to_u32 r.battery.value.voltage;
        gps_sats = (if ltb sats_from_pos sats_from_gps then sats_from_gps else sats_from_pos) % 256;
        gps_fix = r.gps.value.fix_state % 256;
        flight_status = r.flight.value;
        motors_on = ltb 0 r.flight.value;
      } in
      (ok, (if topic_is_fresh now r.battery.stats 5000 then out else telemetry_fallback r out), r)

  unfoldable pub get_battery_info : Timespec → Real fp → DroneError × DroneBatteryInfo × Real fp
  unfolding add_first add_second set_mean
  get_battery_info now r =
      let out : DroneBatteryInfo = record {
        voltage_mv = to_u32 r.battery.value.voltage;
        current_ma = r.battery.value.current;
        remaining_pct = r.battery.value.percentage;
        temperature_dc = pos 0;
        cycle_count = 0;
      } in
      (
        ok,
        if topic_is_fresh now r.battery.stats 5000
            then out
            else set_mean (add_second r.single_2 (add_first r.single_1 (out, 0, 0))),
        r,
      )

  unfoldable pub get_gimbal_angle : Real fp → DroneError × DroneGimbalAngle fp × Real fp
  get_gimbal_angle r =
      (ok, record { pitch = r.gimbal.value.x; roll = r.gimbal.value.y; yaw = r.gimbal.value.z }, r)

  -- `memset` clears the record; no RTK topic is subscribed.
  unfoldable pub get_rtk_status : Real fp → DroneError × DroneRtkStatus fp × Real fp
  get_rtk_status r = (
    ok,
    record {
      enabled = false;
      fix_type = 0;
      satellites = 0;
      lat = lit_d (pos 0) 0;
      lon = lit_d (pos 0) 0;
      alt_m = lit_f (pos 0) 0;
    },
    r,
  )

  -- The part of `drone_get_camera_state` behind the first return, from what `GetMode` gave.
  unfoldable pub camera_rest : Sdk fp → Bool → Real fp → DroneCameraState fp × Real fp
  unfolding make_call
  camera_rest sdk photo r =
      let (rc_rec, r') = make_call sdk camera_get_recording_state r in
      let (rc_zoom, r'') = make_call sdk camera_get_optical_zoom r' in
      (
        record {
          mode = if photo then camera_mode_photo else camera_mode_video;
          is_recording = succeeded rc_rec && sdk.records r.calls;
          zoom_factor =
              if succeeded rc_zoom && lt_f (lit_f (pos 0) 1) (sdk.optical_zoom r'.calls)
              then sdk.optical_zoom r'.calls
              else lit_f (pos 10) 1;
        },
        r'',
      )

  -- The record is not filled on failure; the caller does not read it then.
  unfoldable pub get_camera_state : Sdk fp → Real fp → DroneError × DroneCameraState fp × Real fp
  unfolding make_call camera_rest
  get_camera_state sdk r =
      let (rc, r') = make_call sdk camera_get_mode r in
      let (state, r'') = camera_rest sdk (sdk.shoots_photo r.calls) r' in
      let unset : DroneCameraState fp = record {
        mode = pos 0;
        is_recording = false;
        zoom_factor = lit_f (pos 0) 0;
      } in
      if succeeded rc then (ok, state, r'') else (err_psdk, unset, r')
