-- ===== src/Server/Udp.antt =====
-- core/server/udp_server.c: the datagram server. What the kernel returns is an argument; the callback
-- acts on a state `W` of its own.
pub mod Strip
pub mod Cases
use psdk_orangepi.Prelude.{
  ℕ, zero, suc, ◌-◌, Bool, true, false, ◌||◌, Option, none, some, List, [], ◌∷◌, ◌++◌, length, take,
  get_or, ltb, ◌==◌, if◌then◌else◌,
}
use psdk_orangepi.Prelude.Text.{Bytes}
use psdk_orangepi.Prelude.Trim.{trim_len}
use psdk_orangepi.Types.{max_msg_len}
use psdk_orangepi.Proto.{Printed}

-- `struct sockaddr_in`
pub record Peer : Type 0 where
  pub sin_addr : ℕ
  pub sin_port : ℕ

-- The descriptor; the callback and the receive buffer are arguments of the poll.
pub record UdpServer : Type 0 where
  pub fd : ℕ

-- A call of `sendto`: the bytes that it is handed, or a count that passes the end of the buffer.
pub data Outgoing : Type 0 where
  datagram : ℕ → Peer → Bytes → Outgoing
  overrun : ℕ → Peer → ℕ → Outgoing

-- `udp_server_send(srv, peer, buf, n)` for a buffer of `size` bytes that `snprintf` has filled and
-- the count that it returned. Behind the text stands its NUL.
unfoldable pub udp_server_send : UdpServer → Peer → ℕ → Printed → Outgoing
udp_server_send srv peer size buf =
    if ltb size buf.ret
    then overrun srv.fd peer buf.ret
    else datagram srv.fd peer (take buf.ret (buf.text ++ 0 ∷ []))

abbrev pub is_trailing : ℕ → Bool
is_trailing c = (c == 10) || ((c == 13) || (c == 32))

-- The loop that shortens `len` over trailing newlines, carriage returns and spaces.
unfoldable pub strip_len : Bytes → ℕ → ℕ
unfolding trim_len
strip_len = trim_len is_trailing

module _ {W : Type 0} (on_message : Peer → Bytes → W → W) where
  -- The part of `udp_server_poll` behind a successful `recvfrom`.
  unfoldable pub deliver : Peer → Bytes → W → W
  deliver peer buf w =
      let len = strip_len buf (length buf) in
      if len == 0 then w else on_message peer (take len buf) w

  -- `ready` is `poll(...) > 0`; `received` is what `recvfrom` returns, none for an error. A datagram
  -- longer than the buffer is cut by the kernel.
  unfoldable pub udp_server_poll : Bool → Option (Peer × Bytes) → W → W
  unfolding deliver
  udp_server_poll false received w = w
  udp_server_poll true none w = w
  udp_server_poll true (some (peer, data_in)) w = deliver peer (take (max_msg_len - 1) data_in) w
