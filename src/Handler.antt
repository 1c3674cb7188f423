-- ===== src/Handler.antt =====
-- core/handler/handler.c: the dispatcher. A request acts on a `World`: the static variables of the
-- file, the json-c objects created and released, the state of the drone control layer behind the
-- interface `DroneCtrl`, and the calls of `sendto`, oldest first.
pub mod Sending
pub mod Uptime
pub mod Reads
pub mod Writes
pub mod Kmz
pub mod Dispatch
use psdk_orangepi.Prelude.{
  ℕ, suc, ◌+◌, ◌-◌, ◌*◌, ◌/◌, ◌%◌, ◌^◌, ◌<◌, Bool, true, false, ◌||◌, Option, none, some, List, [],
  ◌∷◌, ◌++◌, ltb, if◌then◌else◌,
}
use psdk_orangepi.Prelude.Int.{ℤ, pos, negsuc, sub_ℕ, ◌+ℤ◌, is_neg}
use psdk_orangepi.Prelude.Text.{Bytes}
use psdk_orangepi.Types.{max_msg_len, Timespec, DroneError, ok}
use psdk_orangepi.Proto.{Printed, Refs, rpc_build_result, rpc_build_error}
use psdk_orangepi.Server.Udp.{Peer, UdpServer, Outgoing, udp_server_send}

-- `g_srv`, `g_start` with `g_started`, and what stands outside the file.
pub record World (S : Type 0) : Type 0 where
  pub server : UdpServer
  pub start : Option Timespec
  pub refs : Refs
  pub ctrl : S
  pub sent : List Outgoing

-- The readings of the monotonic clock that one request may take.
pub record Clock : Type 0 where
  pub first : Timespec
  pub now : Timespec

-- The conversion to `uint64_t`.
abbrev pub to_u64 : ℤ → ℕ
to_u64 (pos n) = n % 2 ^ 64
to_u64 (negsuc n) = 2 ^ 64 - 1 - n % 2 ^ 64

-- `uptime_ms` behind its first `if`: the difference of two readings, in milliseconds.
unfoldable pub elapsed_ms : Timespec → Timespec → ℕ
unfolding ◌+ℤ◌
elapsed_ms start now =
    let sec = sub_ℕ now.sec start.sec in
    let nsec = sub_ℕ now.nsec start.nsec in
    let sec' = if is_neg nsec then sec +ℤ negsuc 0 else sec in
    let nsec' = if is_neg nsec then nsec +ℤ pos 1_000_000_000 else nsec in
    (to_u64 sec' * 1000 + to_u64 nsec' / 1_000_000) % 2 ^ 64

abbrev pub started : Option Timespec → Timespec → Timespec
started none first = first
started (some t) first = t

module _ {S : Type 0} where
  -- `handler_set_server`
  unfoldable pub handler_set_server : UdpServer → World S → World S
  handler_set_server srv w = record w { server = srv }

  -- The value and the world in which `g_start` is set.
  unfoldable pub uptime_ms : Clock → World S → ℕ × World S
  uptime_ms clock w =
      let start = started w.start clock.first in
      (elapsed_ms start clock.now, record w { start = some start })

  -- `if (n > 0) udp_server_send(g_srv, peer, buf, (size_t)n)`
  unfoldable pub send_printed : Peer → Printed → World S → World S
  send_printed peer buf w =
      if ltb 0 buf.ret
      then record w { sent = w.sent ++ udp_server_send w.server peer max_msg_len buf ∷ [] }
      else w

  unfoldable pub send_result : Peer → ℤ → Option Bytes → World S → World S
  send_result peer id result_json w =
      send_printed peer (rpc_build_result max_msg_len id result_json) w

  unfoldable pub send_error : Peer → ℤ → Bytes → World S → World S
  send_error peer id msg w = send_printed peer (rpc_build_error max_msg_len id msg) w

  -- `if (err != DRONE_OK) send_error(peer, id, msg); else send_result(peer, id, NULL);`
  unfoldable pub reply_status : Peer → ℤ → DroneError → Bytes → World S → World S
  reply_status peer id ok msg w = send_result peer id none w
  reply_status peer id _ msg w = send_error peer id msg w
