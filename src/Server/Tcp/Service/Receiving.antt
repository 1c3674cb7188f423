-- ===== src/Server/Tcp/Service/Receiving.antt =====
-- tcp_server.c: `recv_client` does to its slot what hearing a connection does to it.
use psdk_orangepi.Prelude.{
  ℕ, ◌≡◌, refl, sym, ap, subst, ◌∙◌, Bool, true, false, none, some, List, arith, get_or, get_or-All,
  set_at, if◌then◌else◌, Option-cases, inl, inr,
}
use psdk_orangepi.Prelude.Int.{ℤ, pos}
use psdk_orangepi.Prelude.Text.{Bytes}
use psdk_orangepi.Server.Tcp.{Client, free_slot, TcpServer, find_client, free_client}
use psdk_orangepi.Server.Tcp.Table.{find_client-Found}
use psdk_orangepi.Server.Tcp.Invariant.{IsPartial}
use psdk_orangepi.Server.Tcp.Receive.{
  ReadResult, fill, split_lines, serve, serve_buffer, recv_client,
}
use psdk_orangepi.Server.Tcp.Receive.Preserved.{
  length-split_lines, has_byte-split_lines, length-fill,
}
use psdk_orangepi.Server.Tcp.Service.{with_line, Service, heard, disconnect, speak, listen_to}
use psdk_orangepi.Server.Tcp.Service.Reading.{fill-heard}
use psdk_orangepi.Server.Tcp.Service.View.{line_at, view-find_client}
use psdk_orangepi.Server.Tcp.Service.Refines.{Refines, disconnected, stored}

module _ {W : Type 0} (on_message : ℤ → Bytes → W → Bool × W) (listen_fd : ℕ) where
  module _ (srv : TcpServer) (w : W) (a : Service W) (r : Refines listen_fd (srv, w) a) (n i : ℕ)
      (at : find_client srv.clients (pos n) ≡ some i) where
    abbrev slot : Client
    slot = get_or srv.clients i free_slot

    answered :
        (buf rest : Bytes) (d : Bool × W)
        → IsPartial rest
        → Refines listen_fd
            (
              if d.0 then free_client i srv else record srv {
                clients =
                    set_at i
                      (record { fd = (get_or srv.clients i free_slot).fd; buf = rest })
                      srv.clients;
              },
              d.1,
            )
            (if d.0
              then disconnect n (record a { state = d.1 })
              else record a { lines = with_line n rest a.lines; state = d.1 })
    answered buf rest (true, w') p = disconnected listen_fd srv w w' a r n i at
    answered buf rest (false, w') p = stored listen_fd srv w w' a r n i at rest p

    spoken :
        (buf : Bytes)
        → IsPartial (split_lines buf).1
        → Refines listen_fd (serve_buffer on_message i buf srv w) (speak on_message n buf a)
    unfolding serve_buffer
    spoken buf p =
        let same : serve on_message (get_or srv.clients i free_slot).fd (split_lines buf).0 w
            ≡ serve on_message (pos n) (split_lines buf).0 a.state =
          rw (r.state, (find_client-Found srv.clients n i at).at) refl in
        subst
          (λ (d : Bool × W). Refines listen_fd (serve_buffer on_message i buf srv w) (
            if d.0
            then disconnect n (record a { state = d.1 })
            else record a { lines = with_line n (split_lines buf).1 a.lines; state = d.1 }))
          same (answered buf (split_lines buf).1 _ p)

    line_of : a.lines n ≡ some slot.buf
    line_of = sym (r.lines n) ∙ view-find_client srv.clients n ∙ ap (line_at srv.clients) at

    short : IsPartial slot.buf
    short =
        get_or-All (λ (c : Client). IsPartial c.buf) i free_slot srv.clients
          (find_client-Found srv.clients n i at).inside r.valid.partial

    pub received :
        (reads : List ReadResult)
        → Refines listen_fd
            (recv_client on_message i reads srv w)
            (listen_to on_message listen_fd n (a.lines n) reads a)
    unfolding recv_client
    received reads = elim (Option-cases (fill slot.buf reads)) [
      | inl e ↦
          let f : heard slot.buf reads ≡ none = sym (fill-heard reads slot.buf short.short) ∙ e in
          rw (line_of, e, f, r.state, recv_client) (disconnected listen_fd srv w a.state a r n i at)
      | inr (buf, e) ↦
          let f : heard slot.buf reads ≡ some buf =
            sym (fill-heard reads slot.buf short.short) ∙ e in
          rw (line_of, e, f, recv_client)
            (spoken buf (record {
              short =
                  omega
                    (arith, length-split_lines buf, length-fill reads slot.buf buf short.short e);
              no_line = has_byte-split_lines buf;
            }))
    ]
