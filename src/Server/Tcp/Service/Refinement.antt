-- ===== src/Server/Tcp/Service/Refinement.antt =====
-- tcp_server.c: the events of a stream server against those of a service.
use psdk_orangepi.Prelude.{
  ℕ, ◌≡◌, refl, sym, ap, ◌∙◌, Bool, true, false, Option, none, some, List, [], ◌∷◌, ltb, ◌==◌,
  Bool-cases, inl, inr,
}
use psdk_orangepi.Prelude.Int.{ℤ, pos}
use psdk_orangepi.Prelude.Text.{Bytes}
use psdk_orangepi.Types.{max_clients}
use psdk_orangepi.Server.Tcp.{TcpServer, find_client, accept_client}
use psdk_orangepi.Server.Tcp.Receive.{ReadResult, Event, recv_client, handle_event, tcp_server_poll}
use psdk_orangepi.Server.Tcp.Service.{
  Service, connect, listen_to, happens, happen, IsFresh, AreFresh,
}
use psdk_orangepi.Server.Tcp.Service.View.{line_at, view-find_client}
use psdk_orangepi.Server.Tcp.Service.Refines.{Refines}
use psdk_orangepi.Server.Tcp.Service.Receiving.{received}
use psdk_orangepi.Server.Tcp.Service.Accepting.{accepted_with}

module _ {W : Type 0} (on_message : ℤ → Bytes → W → Bool × W) (listen_fd : ℕ) where
  accepted :
      (srv : TcpServer) (w : W) (a : Service W) (o : Option ℕ) (added : Bool)
      → Refines listen_fd (srv, w) a
      → ((n : ℕ) → o ≡ some n → a.lines n ≡ none)
      → Refines listen_fd (accept_client o added srv, w) (connect o added a)
  unfolding accept_client
  accepted srv w a none added r fresh = r
  accepted srv w a (some n) added r fresh =
      accepted_with listen_fd srv w a r n (fresh n refl) added (ltb a.connected max_clients) refl

  heard_from :
      (srv : TcpServer) (w : W) (a : Service W) (n : ℕ) (reads : List ReadResult) (o : Option ℕ)
      → Refines listen_fd (srv, w) a
      → find_client srv.clients (pos n) ≡ o
      → Refines listen_fd
          (elim o as (λ _. TcpServer × W) [
            | none ↦ (srv, w)
            | some i ↦ recv_client on_message i reads srv w
          ])
          (listen_to on_message listen_fd n (a.lines n) reads a)
  heard_from srv w a n reads none r at =
      let nobody_there : a.lines n ≡ none =
        sym (r.lines n) ∙ view-find_client srv.clients n ∙ ap (line_at srv.clients) at in
      rw nobody_there r
  heard_from srv w a n reads (some i) r at = received on_message listen_fd srv w a r n i at reads

  handle_event-Refines :
      (e : Event) (srv : TcpServer) (w : W) (a : Service W)
      → Refines listen_fd (srv, w) a
      → IsFresh on_message listen_fd e a
      → Refines listen_fd (handle_event on_message e (srv, w)) (happens on_message listen_fd e a)
  unfolding handle_event
  handle_event-Refines e srv w a r fresh = elim (Bool-cases (e.fd == listen_fd)) [
    | inl q ↦
        let k : (e.fd == srv.listen_fd) ≡ true = ap (λ l. e.fd == l) r.listens ∙ q in
        rw (k, q) (accepted srv w a e.accepted e.added r (λ n. fresh n q))
    | inr q ↦
        let k : (e.fd == srv.listen_fd) ≡ false = ap (λ l. e.fd == l) r.listens ∙ q in
        rw (k, q) (heard_from srv w a e.fd e.reads _ r refl)
  ]

  -- Where a server shows a service, and accept gives no descriptor of a connection that the service
  -- has, the server behind any events shows the service behind them: the same connections with the
  -- same partial lines and the same number of them, and the callback in the same state.
  pub tcp_server_poll-Refines :
      (es : List Event) (srv : TcpServer) (w : W) (a : Service W)
      → Refines listen_fd (srv, w) a
      → AreFresh on_message listen_fd es a
      → Refines listen_fd
          (tcp_server_poll on_message es (srv, w))
          (happen on_message listen_fd es a)
  unfolding tcp_server_poll
  tcp_server_poll-Refines [] srv w a r fresh = r
  tcp_server_poll-Refines (e ∷ es) srv w a r fresh =
      let (srv', w') = handle_event on_message e (srv, w) in
      tcp_server_poll-Refines es srv' w' (happens on_message listen_fd e a)
        (handle_event-Refines e srv w a r fresh.0) fresh.1
