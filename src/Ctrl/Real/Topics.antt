-- ===== src/Ctrl/Real/Topics.antt =====
-- drone_ctrl.c: the samples and their statistics, the callbacks that fill them, and their age.
pub mod Freshness
use psdk_orangepi.Prelude.{
  ℕ, zero, suc, ◌+◌, ◌-◌, ◌*◌, ◌/◌, ◌%◌, ◌^◌, Bool, true, false, ◌&&◌, List, [], ◌∷◌, ◌++◌, leb,
  ◌==◌, if◌then◌else◌,
}
use psdk_orangepi.Floating.{Floating}
use psdk_orangepi.Types.{Timespec}
use psdk_orangepi.Ctrl.Real.{
  Vector3, Quaternion, PositionFused, GpsDetails, WholeBattery, SingleBattery, SdkCall, Sdk,
  ReturnCode,
}

pub record TopicStats : Type 0 where
  pub count : ℕ
  pub last_update_ms : ℕ
  pub logged : Bool

-- A cached sample beside its statistics.
pub record Cell (A : Type 0) : Type 0 where
  pub value : A
  pub stats : TopicStats

-- The static variables of the file, the calls made of the SDK, the files and buffers that an upload
-- holds, and how many bytes uploads have stored behind the end of their buffers.
pub record Real (fp : Floating) : Type 0 where
  pub pos : Cell (PositionFused fp)
  pub vel : Cell (Vector3 fp.F)
  pub quat : Cell (Quaternion fp.F)
  pub gps : Cell GpsDetails
  pub flight : Cell ℕ
  pub battery : Cell WholeBattery
  pub single_1 : Cell SingleBattery
  pub single_2 : Cell SingleBattery
  pub gimbal : Cell (Vector3 fp.F)
  pub waypoint_v3_inited : Bool
  pub calls : List (SdkCall fp)
  pub open_files : ℕ
  pub buffers : ℕ
  pub overrun : ℕ

unfoldable pub monotonic_ms : Timespec → ℕ
monotonic_ms ts = (ts.sec * 1000 + ts.nsec / 1_000_000) % 2 ^ 64

unfoldable pub mark_topic_rx : Timespec → TopicStats → TopicStats
mark_topic_rx now stats = record {
  count = (stats.count + 1) % 2 ^ 32;
  last_update_ms = monotonic_ms now;
  logged = true;
}

unfoldable pub topic_is_fresh : Timespec → TopicStats → ℕ → Bool
topic_is_fresh now stats max_age_ms =
    if stats.last_update_ms == 0
    then false
    else leb stats.last_update_ms (monotonic_ms now)
      && leb (monotonic_ms now - stats.last_update_ms) max_age_ms

module _ {A : Type 0} where
  -- The body of every callback, for a sample type of `size` bytes: `sample` is what `memcpy` copies.
  unfoldable pub receive : ℕ → ℕ → A → Timespec → Cell A → Cell A
  unfolding mark_topic_rx
  receive size len sample now c =
      if leb size len then record { value = sample; stats = mark_topic_rx now c.stats } else c

module _ {fp : Floating} where
  unfoldable pub cb_pos : ℕ → ℕ → PositionFused fp → Timespec → Real fp → Real fp
  unfolding receive
  cb_pos size len sample now r = record r { pos = receive size len sample now r.pos }

  unfoldable pub cb_vel : ℕ → ℕ → Vector3 fp.F → Timespec → Real fp → Real fp
  unfolding receive
  cb_vel size len sample now r = record r { vel = receive size len sample now r.vel }

  unfoldable pub cb_quat : ℕ → ℕ → Quaternion fp.F → Timespec → Real fp → Real fp
  unfolding receive
  cb_quat size len sample now r = record r { quat = receive size len sample now r.quat }

  unfoldable pub cb_gps : ℕ → ℕ → GpsDetails → Timespec → Real fp → Real fp
  unfolding receive
  cb_gps size len sample now r = record r { gps = receive size len sample now r.gps }

  unfoldable pub cb_flight_status : ℕ → ℕ → ℕ → Timespec → Real fp → Real fp
  unfolding receive
  cb_flight_status size len sample now r = record r {
    flight = receive size len sample now r.flight;
  }

  unfoldable pub cb_battery : ℕ → ℕ → WholeBattery → Timespec → Real fp → Real fp
  unfolding receive
  cb_battery size len sample now r = record r { battery = receive size len sample now r.battery }

  unfoldable pub cb_battery_single_1 : ℕ → ℕ → SingleBattery → Timespec → Real fp → Real fp
  unfolding receive
  cb_battery_single_1 size len sample now r = record r {
    single_1 = receive size len sample now r.single_1;
  }

  unfoldable pub cb_battery_single_2 : ℕ → ℕ → SingleBattery → Timespec → Real fp → Real fp
  unfolding receive
  cb_battery_single_2 size len sample now r = record r {
    single_2 = receive size len sample now r.single_2;
  }

  unfoldable pub cb_gimbal : ℕ → ℕ → Vector3 fp.F → Timespec → Real fp → Real fp
  unfolding receive
  cb_gimbal size len sample now r = record r { gimbal = receive size len sample now r.gimbal }

  -- A call of the SDK, which is noted behind the calls before it.
  unfoldable pub make_call : Sdk fp → SdkCall fp → Real fp → ReturnCode × Real fp
  make_call sdk c r = (sdk.answer r.calls c, record r { calls = r.calls ++ c ∷ [] })
