-- ===== src/Server/Setup/Session.antt =====
-- core/server/tcp_server.c: the life of a stream server, from its creation through any calls of its
-- operations to its end.
use psdk_orangepi.Prelude.{ℕ, ◌≡◌, subst, Bool, true, false, Option, some, List, arith}
use psdk_orangepi.Prelude.Int.{ℤ, pos}
use psdk_orangepi.Prelude.Text.{Bytes}
use psdk_orangepi.Server.Calls.{Syscall, IsReleased}
use psdk_orangepi.Server.Tcp.{
  TcpServer, tcp_server_send, tcp_server_close_client, tcp_server_destroy,
}
use psdk_orangepi.Server.Tcp.Invariant.{IsValid}
use psdk_orangepi.Server.Tcp.Receive.{Event, tcp_server_poll}
use psdk_orangepi.Server.Tcp.Receive.Preserved.{
  tcp_server_poll-IsValid, tcp_server_close_client-IsValid,
}
use psdk_orangepi.Server.Setup.{Answers, tcp_server_create}
use psdk_orangepi.Server.Setup.Released.{
  TcpOutcome, running, tcp_server_create-TcpOutcome, tcp_server_destroy-IsReleased,
}

module _ {W : Type 0} (on_message : ℤ → Bytes → W → Bool × W) where
  -- The servers that calls of the operations lead to; a descriptor that is handed in is not negative.
  pub data Reachable : TcpServer → Type 0 where
    created :
        (bind_ip : Option Bytes) (port : ℕ) (a : Answers) {srv : TcpServer} {calls : List Syscall}
        → tcp_server_create bind_ip port a ≡ (some srv, calls)
        → Reachable srv
    polled :
        (es : List Event) (w : W) {srv : TcpServer}
        → Reachable srv
        → Reachable (tcp_server_poll on_message es (srv, w)).0
    sent :
        (written : Bool × Bool) (fd : ℕ) (msg : Bytes) {srv : TcpServer}
        → Reachable srv
        → Reachable (tcp_server_send written (pos fd) msg srv).1
    client_closed :
        (fd : ℕ) {srv : TcpServer}
        → Reachable srv
        → Reachable (tcp_server_close_client (pos fd) srv)

  created-IsValid :
      {srv : TcpServer} {calls : List Syscall} → TcpOutcome (some srv, calls) → IsValid srv
  created-IsValid (running srv v n) = v

  pub sent-IsValid :
      (written : Bool × Bool) (fd : ℕ) (msg : Bytes) (srv : TcpServer)
      → IsValid srv
      → IsValid (tcp_server_send written (pos fd) msg srv).1
  unfolding tcp_server_send
  sent-IsValid (false, second) fd msg srv v = record {
    slots = v.slots;
    count = v.count;
    partial = v.partial;
    accounted = λ n. omega (arith, v.accounted n);
    memory = omega (arith, v.memory);
  }
  sent-IsValid (true, second) fd msg srv v = record {
    slots = v.slots;
    count = v.count;
    partial = v.partial;
    accounted = λ n. omega (arith, v.accounted n);
    memory = omega (arith, v.memory);
  }

  -- A stream server that any calls of tcp_server_poll, tcp_server_send and tcp_server_close_client
  -- lead to from tcp_server_create is valid: it has all its slots, client_count is the number of
  -- those in use, each buffer is a partial line that leaves room for the NUL, the times that a
  -- descriptor was opened are those that it was closed, and its places in the table and as the
  -- listening or the epoll descriptor, and one server record is allocated.
  pub Reachable-IsValid : {srv : TcpServer} → Reachable srv → IsValid srv
  Reachable-IsValid (created bind_ip port a e) =
      created-IsValid (subst TcpOutcome e (tcp_server_create-TcpOutcome bind_ip port a))
  Reachable-IsValid (polled es w r) =
      tcp_server_poll-IsValid on_message es _ w (Reachable-IsValid r)
  Reachable-IsValid (sent written fd msg r) = sent-IsValid written fd msg _ (Reachable-IsValid r)
  Reachable-IsValid (client_closed fd r) =
      tcp_server_close_client-IsValid fd _ (Reachable-IsValid r)

  -- tcp_server_destroy of a stream server that any calls of its operations lead to leaves every
  -- descriptor closed as often as it was opened, and the record freed.
  pub tcp_server_destroy-Reachable :
      (srv : TcpServer) → Reachable srv → IsReleased (tcp_server_destroy srv)
  tcp_server_destroy-Reachable srv r = tcp_server_destroy-IsReleased srv (Reachable-IsValid r)
