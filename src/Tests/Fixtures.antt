-- ===== src/Tests/Fixtures.antt =====
-- Concrete parameters: numbers in thousandths for the floating-point types, a table of lines for the
-- JSON parser, and an SDK that answers as it is told.
use psdk_orangepi.Prelude.{
  ℕ, suc, ◌+◌, ◌*◌, ◌/◌, ◌^◌, Bool, true, false, Option, none, some, [], ◌∷◌, String, if◌then◌else◌,
  leb,
}
use psdk_orangepi.Prelude.Int.{ℤ, pos, negsuc, pos_part, neg_part, sub_ℕ, ltb_ℤ, ◌+ℤ◌}
use psdk_orangepi.Prelude.Text.{Bytes, codes, bytes_eq, print_int}
use psdk_orangepi.Floating.{Floating}
use psdk_orangepi.Types.{Timespec}
use psdk_orangepi.Proto.{JsonC}
use psdk_orangepi.Server.Udp.{Peer}
use psdk_orangepi.Handler.{World, Clock}
use psdk_orangepi.Ctrl.Stub.{Stub, stub_start}
use psdk_orangepi.Ctrl.Real.{Sdk, success, SingleBattery, Vector3}
use psdk_orangepi.Ctrl.Real.Topics.{TopicStats, Cell, Real}

-- m * 10^-k in thousandths.
abbrev pub thousandths : ℤ → ℕ → ℤ
thousandths (pos n) k = pos (n * 1000 / 10 ^ k)
thousandths (negsuc n) k = sub_ℕ 0 (suc n * 1000 / 10 ^ k)

abbrev pub fixed : Floating
fixed = record {
  F = ℤ;
  D = ℤ;
  lit_f = thousandths;
  lit_d = thousandths;
  narrow = λ x. x;
  widen = λ x. x;
  to_u16 = λ x. pos_part x / 1000;
  of_int = λ x. thousandths x 0;
  lt_f = ltb_ℤ;
  le_f = λ x y. leb (pos_part x + neg_part y) (pos_part y + neg_part x);
  lt_d = ltb_ℤ;
  add_f = ◌+ℤ◌;
  sub_f = λ x y. sub_ℕ (pos_part x + neg_part y) (pos_part y + neg_part x);
  mul_f = λ x y. x;
  div_f = λ x y. x;
  add_d = ◌+ℤ◌;
  mul_d = λ x y. x;
  div_d = λ x y. x;
  atan2f = λ x y. x;
  sin = λ x. x;
  cos = λ x. x;
  fmod = λ x y. x;
  show_f = λ k x. print_int x;
  show_d = λ k x. print_int x;
}

mutual
  pub data Json : Type 0 where
    number : ℤ → Json
    text : Bytes → Json
    object : Members → Json

  pub data Members : Type 0 where
    nil : Members
    member : Bytes → Json → Members → Members

abbrev pub find : Members → Bytes → Option (Option Json)
find nil key = none
find (member name j ms) key = if bytes_eq name key then some (some j) else find ms key

abbrev pub is_object : Json → Bool
is_object (object ms) = true
is_object (number n) = false
is_object (text s) = false

abbrev pub get_ex : Json → Bytes → Option (Option Json)
get_ex (object ms) key = find ms key
get_ex (number n) key = none
get_ex (text s) key = none

abbrev pub get_int : Option Json → ℤ
get_int (some (number n)) = n
get_int (some (text s)) = pos 0
get_int (some (object ms)) = pos 0
get_int none = pos 0

abbrev pub get_string : Option Json → Option Bytes
get_string (some (text s)) = some s
get_string (some (number n)) = some (print_int n)
get_string (some (object ms)) = some (codes "{}")
get_string none = none

abbrev pub request : ℤ → String → Members → Json
request id method params = object (
    member (codes "id") (number id)
      (member (codes "method") (text (codes method)) (member (codes "params") (object params) nil)))

-- The lines that the parser of the tests knows.
abbrev pub table : Bytes → Option Json
table line =
    if bytes_eq line (codes "ping")
    then some (request (pos 7) "system.ping" nil)
    else if bytes_eq line (codes "bare zoom")
    then some (request (pos 8) "drone.set_camera_zoom" nil)
    else if bytes_eq line (codes "upload a.kmz")
    then some
        (request (pos 9) "drone.upload_kmz" (member (codes "file") (text (codes "a.kmz")) nil))
    else if bytes_eq line (codes "42")
    then some (number (pos 42))
    else if bytes_eq line (codes "zoom")
    then some (
        request (pos 10) "drone.set_camera_zoom"
          (member (codes "zoom_factor") (number (pos 2000)) nil))
    else none

abbrev pub toy : JsonC fixed
toy = record {
  Json = Json;
  parse = table;
  is_object = is_object;
  get_ex = get_ex;
  get_int = get_int;
  get_double = get_int;
  get_string = get_string;
}

abbrev pub peer : Peer
peer = record { sin_addr = 3232235876; sin_port = 40000 }

abbrev pub clock : Clock
clock = record {
  first = record { sec = 10; nsec = 0 };
  now = record { sec = 12; nsec = 5_000_000 };
}

abbrev pub world : World (Stub fixed)
world = record {
  server = record { fd = 3 };
  start = none;
  refs = record { created = 0; released = 0 };
  ctrl = stub_start fixed;
  sent = [];
}

-- Every call succeeds, and the file of every upload holds three bytes.
abbrev pub willing : Sdk fixed
willing = record {
  answer = λ before c. success;
  shoots_photo = λ before. true;
  records = λ before. false;
  optical_zoom = λ before. pos 2000;
  file_io = λ path before. record {
    opens = true;
    seeks_end = true;
    tells = pos 3;
    seeks_set = true;
    has_osal = true;
    allocates = λ size. true;
    content = 80 ∷ 75 ∷ 3 ∷ [];
  };
}

abbrev pub never : TopicStats
never = record { count = 0; last_update_ms = 0; logged = false }

abbrev pub at_ms : ℕ → TopicStats
at_ms t = record { count = 1; last_update_ms = t; logged = true }

abbrev pub battery : ℕ → ℤ → ℤ → ℤ → SingleBattery
battery percent volts amps degrees = record {
  current_voltage = volts;
  current_electric = amps;
  battery_temperature = degrees;
  battery_capacity_percent = percent;
}

abbrev pub zero_vector : Cell (Vector3 ℤ)
zero_vector = record { value = record { x = pos 0; y = pos 0; z = pos 0 }; stats = never }

-- A layer of which both single batteries, but nothing else, have been received.
abbrev pub singles : Real fixed
singles = record {
  pos = record {
    value = record {
      longitude = pos 0;
      latitude = pos 0;
      altitude = pos 0;
      visible_satellite_number = 0;
    };
    stats = never;
  };
  vel = zero_vector;
  quat = record {
    value = record { q0 = pos 0; q1 = pos 0; q2 = pos 0; q3 = pos 0 };
    stats = never;
  };
  gps = record { value = record { fix_state = 0; gps_satellite_number_used = 0 }; stats = never };
  flight = record { value = 0; stats = never };
  battery = record {
    value = record { voltage = pos 0; current = negsuc 99; percentage = 0 };
    stats = never;
  };
  single_1 = record { value = battery 40 (pos 14500) (negsuc 1999) (pos 250); stats = at_ms 900 };
  single_2 = record { value = battery 61 (pos 14588) (negsuc 2099) (negsuc 30); stats = at_ms 950 };
  gimbal = zero_vector;
  waypoint_v3_inited = false;
  calls = [];
  open_files = 0;
  buffers = 0;
  overrun = 0;
}

-- The same, with the second battery alone.
abbrev pub second_only : Real fixed
second_only = record singles {
  single_1 = record { value = battery 0 (pos 0) (pos 0) (pos 0); stats = never };
}

abbrev pub second_one : Timespec
second_one = record { sec = 1; nsec = 0 }
