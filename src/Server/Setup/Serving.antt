-- ===== src/Server/Setup/Serving.antt =====
-- core/server/tcp_server.c: a stream server from its creation on, against the service that it offers.
use psdk_orangepi.Prelude.{
  ℕ, zero, suc, ◌≤◌, ◌≡◌, refl, sym, ap, subst, ◌∙◌, Bool, true, false, Option, none, some, List,
  [], ◌∷◌, arith, sum, replicate, Option-cases, inl, inr,
}
use psdk_orangepi.Prelude.Int.{ℤ, pos}
use psdk_orangepi.Prelude.Text.{Bytes}
use psdk_orangepi.Types.{max_clients}
use psdk_orangepi.Server.Calls.{Syscall}
use psdk_orangepi.Server.Tcp.{
  free_slot, TcpServer, find_client, tcp_server_send, tcp_server_close_client,
}
use psdk_orangepi.Server.Tcp.Table.{used, holds}
use psdk_orangepi.Server.Tcp.Receive.{Event, tcp_server_poll}
use psdk_orangepi.Server.Tcp.Service.{Service, nobody, disconnect, happen, AreFresh}
use psdk_orangepi.Server.Tcp.Service.View.{view, line_at, view-find_client}
use psdk_orangepi.Server.Tcp.Service.Refines.{Refines, disconnected}
use psdk_orangepi.Server.Tcp.Service.Refinement.{tcp_server_poll-Refines}
use psdk_orangepi.Server.Setup.{Answers, tcp_server_create}
use psdk_orangepi.Server.Setup.Released.{TcpOutcome, running, tcp_server_create-TcpOutcome}
use psdk_orangepi.Server.Setup.Session.{sent-IsValid}

-- A call of the server's interface, with what the kernel answers.
pub data Call : Type 0 where
  polls : List Event → Call
  sends : Bool × Bool → ℕ → Bytes → Call
  closes_client : ℕ → Call

module _ {W : Type 0} (on_message : ℤ → Bytes → W → Bool × W) where
  abbrev pub serve_call : Call → TcpServer × W → TcpServer × W
  serve_call (polls es) s = tcp_server_poll on_message es s
  serve_call (sends written fd msg) (srv, w) = ((tcp_server_send written (pos fd) msg srv).1, w)
  serve_call (closes_client fd) (srv, w) = (tcp_server_close_client (pos fd) srv, w)

  abbrev pub serve_calls : List Call → TcpServer × W → TcpServer × W
  serve_calls [] s = s
  serve_calls (c ∷ cs) s = serve_calls cs (serve_call c s)

  -- What a call is to the service: sending changes nothing.
  abbrev pub close_line : ℕ → Option Bytes → Service W → Service W
  close_line fd none a = a
  close_line fd (some line) a = disconnect fd a

  module _ (listen_fd : ℕ) where
    abbrev pub offer : Call → Service W → Service W
    offer (polls es) a = happen on_message listen_fd es a
    offer (sends written fd msg) a = a
    offer (closes_client fd) a = close_line fd (a.lines fd) a

    abbrev pub offers : List Call → Service W → Service W
    offers [] a = a
    offers (c ∷ cs) a = offers cs (offer c a)

    abbrev pub IsFreshCall : Call → Service W → Type 0
    IsFreshCall (polls es) a = AreFresh on_message listen_fd es a
    IsFreshCall (sends written fd msg) a = Unit
    IsFreshCall (closes_client fd) a = Unit

    abbrev pub AreFreshCalls : List Call → Service W → Type 0
    AreFreshCalls [] a = Unit
    AreFreshCalls (c ∷ cs) a = IsFreshCall c a × AreFreshCalls cs (offer c a)

    sent-Refines :
        (written : Bool × Bool) (fd : ℕ) (msg : Bytes) (srv : TcpServer) (w : W) (a : Service W)
        → Refines listen_fd (srv, w) a
        → Refines listen_fd ((tcp_server_send written (pos fd) msg srv).1, w) a
    unfolding tcp_server_send
    sent-Refines (false, second) fd msg srv w a r = record {
      listens = r.listens;
      lines = r.lines;
      connected = r.connected;
      state = r.state;
      distinct = r.distinct;
      valid = sent-IsValid on_message (false, second) fd msg srv r.valid;
    }
    sent-Refines (true, second) fd msg srv w a r = record {
      listens = r.listens;
      lines = r.lines;
      connected = r.connected;
      state = r.state;
      distinct = r.distinct;
      valid = sent-IsValid on_message (true, second) fd msg srv r.valid;
    }

    closed-Refines :
        (fd : ℕ) (srv : TcpServer) (w : W) (a : Service W)
        → Refines listen_fd (srv, w) a
        → Refines listen_fd (tcp_server_close_client (pos fd) srv, w) (close_line fd (a.lines fd) a)
    unfolding tcp_server_close_client
    closed-Refines fd srv w a r = elim (Option-cases (find_client srv.clients (pos fd))) [
      | inl f ↦ rw (f, gone none f, tcp_server_close_client) r
      | inr (i, f) ↦
          rw (f, gone (some i) f, r.state, tcp_server_close_client)
            (disconnected listen_fd srv w a.state a r fd i f)
    ]
      where
        gone :
            (o : Option ℕ)
            → find_client srv.clients (pos fd) ≡ o
            → a.lines fd ≡ line_at srv.clients o
        gone o f = sym (r.lines fd) ∙ view-find_client srv.clients fd ∙ ap (line_at srv.clients) f

    serve_call-Refines :
        (c : Call) (srv : TcpServer) (w : W) (a : Service W)
        → Refines listen_fd (srv, w) a
        → IsFreshCall c a
        → Refines listen_fd (serve_call c (srv, w)) (offer c a)
    serve_call-Refines (polls es) srv w a r fresh =
        tcp_server_poll-Refines on_message listen_fd es srv w a r fresh
    serve_call-Refines (sends written fd msg) srv w a r fresh =
        sent-Refines written fd msg srv w a r
    serve_call-Refines (closes_client fd) srv w a r fresh = closed-Refines fd srv w a r

    serve_calls-Refines :
        (cs : List Call) (srv : TcpServer) (w : W) (a : Service W)
        → Refines listen_fd (srv, w) a
        → AreFreshCalls cs a
        → Refines listen_fd (serve_calls cs (srv, w)) (offers cs a)
    serve_calls-Refines [] srv w a r fresh = r
    serve_calls-Refines (c ∷ cs) srv w a r fresh =
        let (srv', w') = serve_call c (srv, w) in
        serve_calls-Refines cs srv' w' (offer c a) (serve_call-Refines c srv w a r fresh.0) fresh.1

  abbrev pub opening : W → Service W
  opening w = record { lines = nobody; connected = 0; state = w }

  view-replicate : (k n : ℕ) → view (replicate k free_slot) n ≡ none
  view-replicate zero n = refl
  view-replicate (suc k) n = ground (arith, view-replicate k n)

  holds-replicate : (k n : ℕ) → sum (holds n) (replicate k free_slot) ≤ 1
  holds-replicate zero n = omega arith
  holds-replicate (suc k) n = omega (arith, holds-replicate k n)

  created-Refines :
      {srv : TcpServer} {calls : List Syscall}
      → TcpOutcome (some srv, calls)
      → (w : W) → Refines srv.listen_fd (srv, w) (opening w)
  created-Refines (running srv v none_yet) w = record {
    listens = refl;
    lines = λ n. rw none_yet (view-replicate max_clients n);
    connected = v.count ∙ ap (λ cs. pos (sum used cs)) none_yet;
    state = refl;
    distinct = λ n. rw none_yet (holds-replicate max_clients n);
    valid = v;
  }

  -- From its creation on, and through any calls of tcp_server_poll, tcp_server_send and
  -- tcp_server_close_client, where accept gives no descriptor of a connection that is open, a
  -- stream server shows the service that begins with no connection: after the calls its table
  -- holds the same connections with the same partial lines, client_count is their number, and the
  -- callback has come to the same state.
  pub tcp_server_create-Refines :
      (bind_ip : Option Bytes) (port : ℕ) (answers : Answers) (srv : TcpServer)
      (made : List Syscall) (cs : List Call) (w : W)
      → tcp_server_create bind_ip port answers ≡ (some srv, made)
      → AreFreshCalls srv.listen_fd cs (opening w)
      → Refines srv.listen_fd (serve_calls cs (srv, w)) (offers srv.listen_fd cs (opening w))
  tcp_server_create-Refines bind_ip port answers srv made cs w e fresh =
      serve_calls-Refines srv.listen_fd cs srv w (opening w)
        (created-Refines (subst TcpOutcome e (tcp_server_create-TcpOutcome bind_ip port answers)) w)
        fresh
