-- ===== src/Tests/Servers.antt =====
-- The two servers on concrete inputs.
use psdk_orangepi.Prelude.{
  ◌≡◌, refl, Bool, true, false, none, some, List, [], ◌∷◌, ◌++◌, ◌⊎◌, take, arith, replicate, All,
}
use psdk_orangepi.Prelude.Int.{ℤ, pos, ◌+ℤ◌}
use psdk_orangepi.Prelude.Text.{Bytes, codes, has_byte}
use psdk_orangepi.Server.Calls.{IsReleased, opens, allocates, binds, listens, watches}
use psdk_orangepi.Server.Udp.{Peer, is_trailing, udp_server_poll}
use psdk_orangepi.Server.Udp.Strip.{EndsInText}
use psdk_orangepi.Server.Udp.Cases.{udp_server_poll_lem}
use psdk_orangepi.Server.Tcp.{
  free_slot, TcpServer, first_free, find_client, alloc_client, free_client, watch_client,
  accept_client, tcp_server_destroy,
}
use psdk_orangepi.Server.Tcp.Invariant.{IsValid}
use psdk_orangepi.Server.Tcp.Receive.{
  got, would_block, Event, fill, split_lines, strip_cr, serve_line, serve, serve_buffer,
  recv_client, handle_event, tcp_server_poll,
}
use psdk_orangepi.Server.Tcp.Receive.Stream.{Fits, fits_nil, fits_cons, arrive, arrive-frames}
use psdk_orangepi.Server.Tcp.Receive.Lines.{deliver_all, IsMessage}
use psdk_orangepi.Server.Tcp.Receive.HangUp.{gots, recv_client-hang_up}
use psdk_orangepi.Server.Setup.{Answers, resolve, is_any_address, listen_on, tcp_server_create}
use psdk_orangepi.Server.Setup.Released.{TcpOutcome, tcp_server_create-TcpOutcome}
use psdk_orangepi.Server.Setup.Session.{
  Reachable, created, polled, Reachable-IsValid, tcp_server_destroy-Reachable,
}

-- A callback that keeps the lines that it gets.
abbrev pub keep_line : ℤ → Bytes → List Bytes → Bool × List Bytes
keep_line fd line w = (false, w ++ line ∷ [])

abbrev client : Peer
client = record { sin_addr = 1; sin_port = 40000 }

abbrev keep_datagram : Peer → Bytes → List Bytes → List Bytes
keep_datagram peer line w = w ++ line ∷ []

abbrev pub all_good : Answers
all_good = record {
  has_memory = true;
  socket = some 3;
  parses = true;
  bound = true;
  listening = true;
  epoll = some 4;
}

abbrev no_address : Answers
no_address = record all_good { parses = false }

-- A server that has just been created.
abbrev pub started : TcpServer
started = record {
  listen_fd = 3;
  epoll_fd = 4;
  clients = replicate 8 free_slot;
  client_count = pos 0;
  calls = watches (pos 3) ∷ opens 4 ∷ listens 3 4 ∷ binds 3 none 5555 ∷ opens 3 ∷ allocates ∷ [];
}

begun : Reachable keep_line started
unfolding tcp_server_create resolve is_any_address listen_on
begun = created none 5555 all_good refl

abbrev pub connect : Event
connect = record { fd = 3; accepted = some 5; added = true; reads = [] }

abbrev pub talk : Event
talk = record {
  fd = 5;
  accepted = none;
  added = true;
  reads = got (codes "ab\ncd") ∷ would_block ∷ [];
}

-- The client connects and sends a line and a half.
abbrev pub events : List Event
events = connect ∷ talk ∷ []

lines_run : (tcp_server_poll keep_line events (started, [])).1 ≡ codes "ab" ∷ []
unfolding tcp_server_poll handle_event accept_client alloc_client watch_client first_free
    find_client recv_client serve_buffer fill split_lines serve serve_line strip_cr ◌+ℤ◌
lines_run = refl

Reachable-IsValid_example : IsValid (tcp_server_poll keep_line events (started, [])).0
Reachable-IsValid_example = Reachable-IsValid keep_line (polled events [] begun)

tcp_server_destroy-Reachable_example :
    IsReleased (tcp_server_destroy (tcp_server_poll keep_line events (started, [])).0)
tcp_server_destroy-Reachable_example =
    tcp_server_destroy-Reachable keep_line (tcp_server_poll keep_line events (started, [])).0
      (polled events [] begun)

tcp_server_create-TcpOutcome_example :
    TcpOutcome (tcp_server_create (some (codes "mesh0")) 5555 no_address)
tcp_server_create-TcpOutcome_example =
    tcp_server_create-TcpOutcome (some (codes "mesh0")) 5555 no_address

-- A server with one client in its first slot.
abbrev with_client : TcpServer
with_client = record started {
  clients = record { fd = pos 5; buf = [] } ∷ replicate 7 free_slot;
  client_count = pos 1;
  calls = watches (pos 5) ∷ opens 5 ∷ started.calls;
}

-- Two messages, cut in the middle of the second.
abbrev pieces : List Bytes
pieces = codes "ab\nc" ∷ codes "d\n" ∷ []

abbrev messages : List Bytes
messages = codes "ab" ∷ codes "cd" ∷ []

pieces-Fits : Fits [] pieces
unfolding split_lines
pieces-Fits = fits_cons (omega arith) (fits_cons (omega arith) fits_nil)

messages-IsMessage : All IsMessage messages
unfolding has_byte
messages-IsMessage = (
  record { some_text = omega arith; no_newline = refl; no_return = refl },
  (record { some_text = omega arith; no_newline = refl; no_return = refl }, tt),
)

arrive-frames_example :
    arrive keep_line 0 pieces (with_client, [])
    ≡ (with_client, deliver_all keep_line (pos 5) messages [])
arrive-frames_example =
    arrive-frames keep_line 0 (λ fd l w. refl) pieces messages (pos 5) with_client [] (omega arith)
      refl pieces-Fits messages-IsMessage refl

recv_client-hang_up_example :
    recv_client keep_line 0 (gots pieces ++ got [] ∷ []) with_client []
    ≡ (free_client 0 with_client, [])
recv_client-hang_up_example = recv_client-hang_up keep_line 0 pieces with_client []

-- A datagram with a line end behind its text.
abbrev ping_line : Bytes
ping_line = codes "ping\r\n"

udp_server_poll_lem_example :
    (body ws : Bytes) × (take 4095 ping_line ≡ body ++ ws)
    × All (λ c. is_trailing c ≡ true) ws
    × (((body ≡ []) × (udp_server_poll keep_datagram true (some (client, ping_line)) [] ≡ []))
        ⊎ (EndsInText body
            × (udp_server_poll keep_datagram true (some (client, ping_line)) []
                ≡ keep_datagram client body [])))
udp_server_poll_lem_example = udp_server_poll_lem keep_datagram client [] ping_line
