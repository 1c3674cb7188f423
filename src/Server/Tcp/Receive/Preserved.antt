-- ===== src/Server/Tcp/Receive/Preserved.antt =====
-- tcp_server.c: the invariant of the stream server under its events.
use psdk_orangepi.Prelude.{
  ℕ, suc, ◌-◌, ◌≤◌, ◌<◌, ◌≡◌, refl, subst, Bool, true, false, Option, none, some, List, [], ◌∷◌,
  ◌++◌, arith, length, length-append, length-take, take, get_or, get_or-All, ◌==◌, if◌then◌else◌,
  Bool-cases, inl, inr, Option-cases,
}
use psdk_orangepi.Prelude.Int.{ℤ, pos}
use psdk_orangepi.Prelude.Text.{Bytes, has_byte}
use psdk_orangepi.Types.{recv_buf_len}
use psdk_orangepi.Server.Tcp.{Client, free_slot, TcpServer, find_client, tcp_server_close_client}
use psdk_orangepi.Server.Tcp.Table.{Found, find_client-Found}
use psdk_orangepi.Server.Tcp.Invariant.{
  IsPartial, IsValid, IsValid-if, store-IsValid, free_client-IsValid, accept_client-IsValid,
}
use psdk_orangepi.Server.Tcp.Receive.{
  ReadResult, got, would_block, read_error, Event, space, fill, cons_first, split_lines,
  serve_buffer, recv_client, handle_event, tcp_server_poll,
}

-- Below the end of the buffer the subtraction does not wrap.
pub space_lem :
    (buf : Bytes) → length buf < recv_buf_len → space buf ≡ recv_buf_len - length buf - 1
space_lem buf h = omega arith

if_none :
    (b : Bool) (o : Option Bytes) (out : Bytes)
    → (if b then none else o) ≡ some out
    → (b ≡ false) × (o ≡ some out)
if_none true o out e = absurd (cc)
if_none false o out e = (refl, e)

kept :
    (b : Bool) (buf out : Bytes)
    → (if b then none else some buf) ≡ some out
    → length buf < recv_buf_len
    → length out < recv_buf_len
kept true buf out e h = absurd (cc)
kept false buf out e h =
    let k : buf ≡ out = cc in subst (λ (b : Bytes). length b < recv_buf_len) k h

pub length-fill :
    (rs : List ReadResult) (buf out : Bytes)
    → length buf < recv_buf_len
    → fill buf rs ≡ some out
    → length out < recv_buf_len
unfolding fill
length-fill [] buf out h e = kept (space buf == 0) buf out e h
length-fill (would_block ∷ rs) buf out h e = kept (space buf == 0) buf out e h
length-fill (read_error ∷ rs) buf out h e = absurd (cc)
length-fill (got [] ∷ rs) buf out h e = absurd (cc)
length-fill (got (c ∷ cs) ∷ rs) buf out h e =
    length-fill rs (buf ++ take (space buf) (c ∷ cs)) out
      (omega (
        arith,
        space_lem buf h,
        length-append buf (take (space buf) (c ∷ cs)),
        length-take (space buf) (c ∷ cs),
      ))
      (if_none _ _ out e).1

length-step :
    (b : Bool) (c n : ℕ) (r : List Bytes × Bytes)
    → length r.1 ≤ n
    → length (if b then ([] ∷ r.0, r.1) else cons_first c r).1 ≤ suc n
length-step true c n r h = omega arith
length-step false c n ([], rest) h = omega arith
length-step false c n (l ∷ ls, rest) h = omega arith

pub length-split_lines : (buf : Bytes) → length (split_lines buf).1 ≤ length buf
unfolding split_lines
length-split_lines [] = omega arith
length-split_lines (c ∷ cs) =
    length-step (c == 10) c (length cs) (split_lines cs) (length-split_lines cs)

has_byte-step :
    (b : Bool) (c : ℕ) (r : List Bytes × Bytes)
    → (c == 10) ≡ b
    → has_byte 10 r.1 ≡ false
    → has_byte 10 (if b then ([] ∷ r.0, r.1) else cons_first c r).1 ≡ false
unfolding has_byte
has_byte-step true c r e h = h
has_byte-step false c ([], rest) e h = rw (e, h) refl
has_byte-step false c (l ∷ ls, rest) e h = h

pub has_byte-split_lines : (buf : Bytes) → has_byte 10 (split_lines buf).1 ≡ false
unfolding split_lines has_byte
has_byte-split_lines [] = refl
has_byte-split_lines (c ∷ cs) =
    has_byte-step (c == 10) c (split_lines cs) refl (has_byte-split_lines cs)

module _ {W : Type 0} (on_message : ℤ → Bytes → W → Bool × W) where
  serve_buffer-IsValid :
      (srv : TcpServer) (i n : ℕ) (buf : Bytes) (w : W)
      → IsValid srv
      → Found (λ c. c.fd ≡ pos n) srv.clients i
      → length buf < recv_buf_len
      → IsValid (serve_buffer on_message i buf srv w).0
  unfolding serve_buffer
  serve_buffer-IsValid srv i n buf w v f h = IsValid-if _ _ _ (free_client-IsValid srv i n v f) (
      store-IsValid srv i n (split_lines buf).1 v f (record {
        short = omega (arith, length-split_lines buf);
        no_line = has_byte-split_lines buf;
      }))

  recv_client-IsValid :
      (srv : TcpServer) (i n : ℕ) (reads : List ReadResult) (w : W)
      → IsValid srv
      → Found (λ c. c.fd ≡ pos n) srv.clients i
      → IsValid (recv_client on_message i reads srv w).0
  unfolding recv_client
  recv_client-IsValid srv i n reads w v f =
      elim (Option-cases (fill (get_or srv.clients i free_slot).buf reads)) [
        | inl e ↦ rw (e, recv_client) (free_client-IsValid srv i n v f)
        | inr (buf, e) ↦
            rw (e, recv_client)
              (serve_buffer-IsValid srv i n buf w v f (
                length-fill reads (get_or srv.clients i free_slot).buf buf
                  (get_or-All (λ (c : Client). IsPartial c.buf) i free_slot srv.clients f.inside
                    v.partial).short
                  e))
      ]

  handle_event-IsValid :
      (e : Event) (srv : TcpServer) (w : W)
      → IsValid srv
      → IsValid (handle_event on_message e (srv, w)).0
  unfolding handle_event
  handle_event-IsValid e srv w v = elim (Bool-cases (e.fd == srv.listen_fd)) [
    | inl q ↦ rw q (accept_client-IsValid e.accepted e.added srv v)
    | inr q ↦ elim (Option-cases (find_client srv.clients (pos e.fd))) [
      | inl f ↦ rw (q, f) v
      | inr (i, f) ↦
          rw (q, f)
            (recv_client-IsValid srv i e.fd e.reads w v (find_client-Found srv.clients e.fd i f))
    ]
  ]

  pub tcp_server_poll-IsValid :
      (es : List Event) (srv : TcpServer) (w : W)
      → IsValid srv
      → IsValid (tcp_server_poll on_message es (srv, w)).0
  unfolding tcp_server_poll
  tcp_server_poll-IsValid [] srv w v = v
  tcp_server_poll-IsValid (e ∷ es) srv w v =
      let (srv', w') = handle_event on_message e (srv, w) in
      tcp_server_poll-IsValid es srv' w' (handle_event-IsValid e srv w v)

pub tcp_server_close_client-IsValid :
    (n : ℕ) (srv : TcpServer) → IsValid srv → IsValid (tcp_server_close_client (pos n) srv)
unfolding tcp_server_close_client
tcp_server_close_client-IsValid n srv v = elim (Option-cases (find_client srv.clients (pos n))) [
  | inl f ↦ rw (f, tcp_server_close_client) v
  | inr (i, f) ↦
      rw (f, tcp_server_close_client)
        (free_client-IsValid srv i n v (find_client-Found srv.clients n i f))
]
