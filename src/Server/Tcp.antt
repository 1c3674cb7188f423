-- ===== src/Server/Tcp.antt =====
-- core/server/tcp_server.c: the stream server. A slot of the client table is free where its descriptor
-- is negative. What the kernel answers is an argument.
pub mod Receive
pub mod Table
pub mod Invariant
pub mod Service
use psdk_orangepi.Prelude.{
  ℕ, zero, suc, ◌+◌, ◌-◌, ◌%◌, ◌^◌, Bool, true, false, not, ◌&&◌, Option, none, some, List, [], ◌∷◌,
  ◌++◌, length, take, get_or, set_at, ltb, ◌==◌, if◌then◌else◌,
}
use psdk_orangepi.Prelude.Int.{ℤ, pos, negsuc, ◌+ℤ◌, eq_ℤ, ltb_ℤ, is_neg}
use psdk_orangepi.Prelude.Text.{Bytes}
use psdk_orangepi.Types.{recv_buf_len, max_clients}
use psdk_orangepi.Server.Calls.{Syscall, opens, closes, watches, unwatches, writes, frees}

-- `buf` is the part of the array below `buf_len`.
pub record Client : Type 0 where
  pub fd : ℤ
  pub buf : Bytes

abbrev pub free_slot : Client
free_slot = record { fd = negsuc 0; buf = [] }

-- The record, and the calls that the server has made.
pub record TcpServer : Type 0 where
  pub listen_fd : ℕ
  pub epoll_fd : ℕ
  pub clients : List Client
  pub client_count : ℤ
  pub calls : List Syscall

-- The index of the slot, which stands for the pointer.
unfoldable pub find_client : List Client → ℤ → Option ℕ
find_client [] fd = none
find_client (c ∷ cs) fd =
    let rest = find_client cs fd in
    if eq_ℤ c.fd fd then some 0 else elim rest [ none ↦ none | some i ↦ some (suc i) ]

unfoldable pub first_free : List Client → Option ℕ
first_free [] = none
first_free (c ∷ cs) =
    let rest = first_free cs in
    if is_neg c.fd then some 0 else elim rest [ none ↦ none | some i ↦ some (suc i) ]

unfoldable pub alloc_client : ℤ → TcpServer → Option ℕ × TcpServer
unfolding ◌+ℤ◌
alloc_client fd srv = elim (first_free srv.clients) [
  | none ↦ (none, srv)
  | some i ↦ (
    some i,
    record srv {
      clients = set_at i (record { fd = fd; buf = [] }) srv.clients;
      client_count = srv.client_count +ℤ pos 1;
    },
  )
]

unfoldable pub free_client : ℕ → TcpServer → TcpServer
unfolding ◌+ℤ◌
free_client i srv =
    let fd = (get_or srv.clients i free_slot).fd in
    record srv {
      clients = set_at i free_slot srv.clients;
      client_count = srv.client_count +ℤ negsuc 0;
      calls = closes fd ∷ unwatches fd ∷ srv.calls;
    }

abbrev pub note : Syscall → TcpServer → TcpServer
note call srv = record srv { calls = call ∷ srv.calls }

-- The part of `accept_client` behind `alloc_client`, from its result; `added` is whether `epoll_ctl`
-- succeeds.
unfoldable pub watch_client : ℕ → Bool → Option ℕ × TcpServer → TcpServer
unfolding free_client
watch_client cfd added (none, srv) = note (closes (pos cfd)) srv
watch_client cfd added (some i, srv) =
    let watched = note (watches (pos cfd)) srv in if added then watched else free_client i watched

-- `accepted` is what `accept` gives, none for an error.
unfoldable pub accept_client : Option ℕ → Bool → TcpServer → TcpServer
unfolding alloc_client watch_client
accept_client none added srv = srv
accept_client (some cfd) added srv =
    let taken = note (opens cfd) srv in
    if not (ltb_ℤ taken.client_count (pos max_clients))
    then note (closes (pos cfd)) taken
    else watch_client cfd added (alloc_client (pos cfd) taken)

-- `written` says whether each of the two `write` calls succeeds.
unfoldable pub tcp_server_send : Bool × Bool → ℤ → Bytes → TcpServer → ℤ × TcpServer
tcp_server_send (false, second) fd msg srv = (negsuc 0, note (writes fd msg) srv)
tcp_server_send (true, second) fd msg srv =
    (if second then pos 0 else negsuc 0, note (writes fd (10 ∷ [])) (note (writes fd msg) srv))

unfoldable pub tcp_server_close_client : ℤ → TcpServer → TcpServer
unfolding free_client
tcp_server_close_client fd srv = elim (find_client srv.clients fd) [
  | none ↦ srv
  | some i ↦ free_client i srv
]

-- The loop of `tcp_server_destroy` over the clients.
unfoldable pub close_all : List Client → List Syscall → List Syscall
close_all [] calls = calls
close_all (c ∷ cs) calls = close_all cs (if is_neg c.fd then calls else closes c.fd ∷ calls)

-- The calls, the record being gone.
unfoldable pub tcp_server_destroy : TcpServer → List Syscall
unfolding close_all
tcp_server_destroy srv =
    frees ∷ closes (pos srv.listen_fd) ∷ closes (pos srv.epoll_fd) ∷ close_all srv.clients srv.calls
