-- ===== src/Server/Tcp/Receive/Stream.antt =====
-- tcp_server.c: what a client's stream comes to, however the kernel cuts it into reads.
use psdk_orangepi.Prelude.{
  ℕ, ◌+◌, ◌<◌, ◌≡◌, refl, sym, ap, ◌∙◌, Bool, false, some, List, [], ◌∷◌, ◌++◌, append-nil,
  append_assoc, arith, length, take, take_all, get_or, get_or-set_at, set_at, set_at-get_or,
  set_at_again, length-set_at, All, ◌==◌, length-append,
}
use psdk_orangepi.Prelude.Int.{ℤ}
use psdk_orangepi.Prelude.Text.{Bytes, concat, has_byte}
use psdk_orangepi.Types.{recv_buf_len}
use psdk_orangepi.Server.Tcp.{Client, free_slot, TcpServer}
use psdk_orangepi.Server.Tcp.Receive.{
  got, space, fill, split_lines, serve, serve_buffer, recv_client,
}
use psdk_orangepi.Server.Tcp.Receive.Preserved.{space_lem, has_byte-split_lines}
use psdk_orangepi.Server.Tcp.Receive.Lines.{
  split_lines-append, split_lines_none, split_lines-frames, frames, NeverCloses, serve-open,
  serve-append, deliver_all, IsMessage, serve-messages,
}

-- Every piece is not empty and leaves room in the buffer behind the partial line before it.
pub data Fits : Bytes → List Bytes → Type 0 where
  fits_nil : {buf : Bytes} → Fits buf []
  fits_cons :
      {buf : Bytes} {c : ℕ} {cs : Bytes} {ds : List Bytes}
      → length buf + length (c ∷ cs) < 8191
      → Fits (split_lines (buf ++ (c ∷ cs))).1 ds
      → Fits buf ((c ∷ cs) ∷ ds)

fill_one :
    (buf : Bytes) (c : ℕ) (cs : Bytes)
    → length buf + length (c ∷ cs) < 8191
    → fill buf (got (c ∷ cs) ∷ []) ≡ some (buf ++ (c ∷ cs))
unfolding fill
fill_one buf c cs h = rw (open_before, taken, open_after, fill) refl
  where
    short : length buf < recv_buf_len
    short = omega arith

    open_before : (space buf == 0) ≡ false
    open_before = ground (arith, space_lem buf short)

    taken : take (space buf) (c ∷ cs) ≡ c ∷ cs
    taken = take_all (space buf) (c ∷ cs) (omega (arith, space_lem buf short))

    open_after : (space (buf ++ c ∷ cs) == 0) ≡ false
    open_after = ground (arith, space_lem (buf ++ c ∷ cs), length-append buf (c ∷ cs))

All-no_newline : (ms : List Bytes) → All IsMessage ms → All (λ m. has_byte 10 m ≡ false) ms
All-no_newline [] h = h
All-no_newline (m ∷ ms) h = (h.0.no_newline, All-no_newline ms h.1)

set_at_same :
    (i : ℕ) (k : Client) (cs : List Client) → get_or cs i free_slot ≡ k → set_at i k cs ≡ cs
set_at_same i k cs e = ap (λ k. set_at i k cs) (sym e) ∙ set_at-get_or i free_slot cs

module _ {W : Type 0} (on_message : ℤ → Bytes → W → Bool × W) (i : ℕ) where
  -- The pieces arrive one after the other, each in an event of its own.
  abbrev pub arrive : List Bytes → TcpServer × W → TcpServer × W
  arrive [] s = s
  arrive (d ∷ ds) (srv, w) = arrive ds (recv_client on_message i (got d ∷ []) srv w)

  -- The slot with a new buffer.
  abbrev pub with_buf : ℤ → Bytes → TcpServer → TcpServer
  with_buf fd buf srv = record srv {
    clients = set_at i (record { fd = fd; buf = buf }) srv.clients;
  }

  module _ (never : NeverCloses on_message) where
    recv_one :
        (k : Client) (c : ℕ) (cs : Bytes) (srv : TcpServer) (w : W)
        → get_or srv.clients i free_slot ≡ k
        → length k.buf + length (c ∷ cs) < 8191
        → let (lines, rest) = split_lines (k.buf ++ (c ∷ cs)) in
          recv_client on_message i (got (c ∷ cs) ∷ []) srv w
          ≡ (with_buf k.fd rest srv, (serve on_message k.fd lines w).1)
    unfolding recv_client serve_buffer
    recv_one k c cs srv w e h =
        rw (e, fill_one k.buf c cs h, recv_client)
          (rw
            (
              e,
              serve-open on_message never k.fd (split_lines (k.buf ++ (c ∷ cs))).0 w,
              serve_buffer,
            )
            refl)

    -- What the pieces come to: the lines of the whole are served, and its rest is kept.
    pub arrive_lem :
        (ds : List Bytes) (k : Client) (srv : TcpServer) (w : W)
        → i < length srv.clients
        → get_or srv.clients i free_slot ≡ k
        → has_byte 10 k.buf ≡ false
        → Fits k.buf ds
        → let (lines, rest) = split_lines (k.buf ++ concat ds) in
          arrive ds (srv, w) ≡ (with_buf k.fd rest srv, (serve on_message k.fd lines w).1)
    unfolding serve
    arrive_lem [] k srv w inside e partial fits =
        rw (append-nil k.buf, split_lines_none k.buf partial)
          (ap (λ cs. (record srv { clients = cs }, w)) (sym (set_at_same i k srv.clients e)))
    arrive_lem ([] ∷ ds) k srv w inside e partial fits = elim fits [ ]
    arrive_lem ((c ∷ cs) ∷ ds) k srv w inside e partial (fits_cons short fits) =
        let now = split_lines (k.buf ++ (c ∷ cs)) in
        let w' = (serve on_message k.fd now.0 w).1 in
        let k' : Client = record { fd = k.fd; buf = now.1 } in
        ap (arrive ds) (recv_one k c cs srv w e short)
        ∙ arrive_lem ds k' (with_buf k.fd now.1 srv) w'
            (omega (arith, length-set_at i k' srv.clients))
            (get_or-set_at i k' free_slot srv.clients inside)
            (has_byte-split_lines (k.buf ++ (c ∷ cs))) fits
        ∙ rw
            (
              ap split_lines (sym (append_assoc k.buf (c ∷ cs) (concat ds)))
                  ∙ split_lines-append (k.buf ++ (c ∷ cs)) (concat ds),
              serve-append on_message never k.fd now.0 (split_lines (now.1 ++ concat ds)).0 w,
              set_at_again i k' (record { fd = k.fd; buf = (split_lines (now.1 ++ concat ds)).1 })
                  srv.clients,
            )
            refl

    -- Where the callback never asks to close, a stream of messages with a newline each, none of
    -- them empty, with a newline inside or ending in a carriage return, that reaches a client with
    -- an empty buffer in pieces that are not empty and fit the buffer, gives the callback exactly
    -- these messages in their order, however the stream is cut; the server is then as before.
    pub arrive-frames :
        (ds ms : List Bytes) (fd : ℤ) (srv : TcpServer) (w : W)
        → i < length srv.clients
        → get_or srv.clients i free_slot ≡ record { fd = fd; buf = [] }
        → Fits [] ds
        → All IsMessage ms
        → concat ds ≡ frames ms
        → arrive ds (srv, w) ≡ (srv, deliver_all on_message fd ms w)
    arrive-frames ds ms fd srv w inside e fits messages whole =
        arrive_lem ds (record { fd = fd; buf = [] }) srv w inside e (unfold has_byte in refl) fits
        ∙ rw
            (
              whole,
              split_lines-frames ms (All-no_newline ms messages),
              serve-messages on_message never fd ms w messages,
              set_at_same i (record { fd = fd; buf = [] }) srv.clients e,
            )
            refl
