-- ===== src/Server/Tcp/Receive.antt =====
-- core/server/tcp_server.c: reading, the splitting into lines, and the events. The callback acts on a
-- state `W` of its own, closes no client itself, as tcp_server.h asks, and returns whether to close
-- this one.
pub mod Preserved
pub mod Lines
pub mod Stream
pub mod HangUp
use psdk_orangepi.Prelude.{
  ℕ, ◌+◌, ◌-◌, ◌%◌, ◌^◌, Bool, true, false, ◌&&◌, Option, none, some, List, [], ◌∷◌, ◌++◌, length,
  take, get_or, set_at, ltb, ◌==◌, if◌then◌else◌,
}
use psdk_orangepi.Prelude.Int.{ℤ, pos}
use psdk_orangepi.Prelude.Text.{Bytes}
use psdk_orangepi.Types.{recv_buf_len}
use psdk_orangepi.Server.Tcp.{Client, free_slot, TcpServer, find_client, free_client, accept_client}

-- What one `read` gives: bytes, of which it stores no more than it was asked for and which are none at
-- the end of the stream, or an error.
pub data ReadResult : Type 0 where
  got : Bytes → ReadResult
  would_block read_error : ReadResult

-- An event of `epoll_wait`, with the answers to the calls made for it: `accept`, `epoll_ctl`, `read`.
pub record Event : Type 0 where
  pub fd : ℕ
  pub accepted : Option ℕ
  pub added : Bool
  pub reads : List ReadResult

-- `DRONE_RECV_BUF_LEN - c->buf_len - 1`, of type `size_t`
abbrev pub space : Bytes → ℕ
space buf = (recv_buf_len + 2 ^ 64 - length buf - 1) % 2 ^ 64

-- The loop that reads until the kernel has no more: the buffer, or none where the client is closed.
unfoldable pub fill : Bytes → List ReadResult → Option Bytes
fill buf [] = if space buf == 0 then none else some buf
fill buf (would_block ∷ rs) = if space buf == 0 then none else some buf
fill buf (read_error ∷ rs) = none
fill buf (got [] ∷ rs) = none
fill buf (got (c ∷ cs) ∷ rs) =
    let rest = fill (buf ++ take (space buf) (c ∷ cs)) rs in if space buf == 0 then none else rest

abbrev pub cons_first : ℕ → List Bytes × Bytes → List Bytes × Bytes
cons_first c ([], rest) = ([], c ∷ rest)
cons_first c (l ∷ ls, rest) = ((c ∷ l) ∷ ls, rest)

-- The lines that `memchr` finds one after the other, and what stands behind the last newline.
unfoldable pub split_lines : Bytes → List Bytes × Bytes
split_lines [] = ([], [])
split_lines (c ∷ cs) = let r = split_lines cs in if c == 10 then ([] ∷ r.0, r.1) else cons_first c r

-- `if (line_len > 0 && start[line_len - 1] == '\r') start[--line_len] = '\0'`
unfoldable pub strip_cr : Bytes → Bytes
strip_cr line =
    if ltb 0 (length line) && (get_or line (length line - 1) 0 == 13)
    then take (length line - 1) line
    else line

module _ {W : Type 0} (on_message : ℤ → Bytes → W → Bool × W) where
  -- `if (line_len > 0) close_after = srv->on_message(...)`
  unfoldable pub serve_line : ℤ → Bytes → W → Bool × W
  serve_line fd [] w = (false, w)
  serve_line fd (c ∷ cs) w = on_message fd (c ∷ cs) w

  -- The loop over the lines: whether the callback has asked to close, which ends it, and its state.
  unfoldable pub serve : ℤ → List Bytes → W → Bool × W
  unfolding strip_cr serve_line
  serve fd [] w = (false, w)
  serve fd (l ∷ ls) w =
      let (close_after, w') = serve_line fd (strip_cr l) w in
      elim close_after [ true ↦ (true, w') | false ↦ serve fd ls w' ]

  -- The part of `recv_client` behind the reads.
  unfoldable pub serve_buffer : ℕ → Bytes → TcpServer → W → TcpServer × W
  unfolding free_client
  serve_buffer i buf srv w =
      let fd = (get_or srv.clients i free_slot).fd in
      let (lines, rest) = split_lines buf in
      let (close_after, w') = serve fd lines w in
      (
        if close_after
            then free_client i srv
            else record srv { clients = set_at i (record { fd = fd; buf = rest }) srv.clients },
        w',
      )

  unfoldable pub recv_client : ℕ → List ReadResult → TcpServer → W → TcpServer × W
  unfolding free_client serve_buffer
  recv_client i reads srv w = elim (fill (get_or srv.clients i free_slot).buf reads) [
    | none ↦ (free_client i srv, w)
    | some buf ↦ serve_buffer i buf srv w
  ]

  -- The body of the loop of `tcp_server_poll`.
  unfoldable pub handle_event : Event → TcpServer × W → TcpServer × W
  unfolding accept_client recv_client
  handle_event e (srv, w) =
      if e.fd == srv.listen_fd
      then (accept_client e.accepted e.added srv, w)
      else elim (find_client srv.clients (pos e.fd)) [
        | none ↦ (srv, w)
        | some i ↦ recv_client i e.reads srv w
      ]

  -- The events are those that `epoll_wait` reports, none on an error.
  unfoldable pub tcp_server_poll : List Event → TcpServer × W → TcpServer × W
  unfolding handle_event
  tcp_server_poll [] s = s
  tcp_server_poll (e ∷ es) s = tcp_server_poll es (handle_event e s)
