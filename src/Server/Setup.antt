-- ===== src/Server/Setup.antt =====
-- core/server: how the two servers are created and how the datagram server ends, as traces of system
-- calls with the newest call first. What the calls answer is an argument.
pub mod Released
pub mod Session
pub mod Serving
use psdk_orangepi.Prelude.{
  ℕ, Bool, true, false, not, ◌||◌, Option, none, some, List, [], ◌∷◌, replicate, if◌then◌else◌,
}
use psdk_orangepi.Prelude.Int.{ℤ, pos}
use psdk_orangepi.Prelude.Text.{Bytes, codes, bytes_eq}
use psdk_orangepi.Types.{max_clients, rpc_backlog}
use psdk_orangepi.Server.Calls.{Syscall, opens, closes, allocates, frees, binds, listens, watches}
use psdk_orangepi.Server.Udp.{UdpServer}
use psdk_orangepi.Server.Tcp.{Client, free_slot, TcpServer}

-- The answers of `calloc`, `socket`, `inet_pton`, `bind`, `listen` and `epoll_create1`.
pub record Answers : Type 0 where
  pub has_memory : Bool
  pub socket : Option ℕ
  pub parses : Bool
  pub bound : Bool
  pub listening : Bool
  pub epoll : Option ℕ

-- `!bind_ip || !strcmp(bind_ip, "0.0.0.0") || !strcmp(bind_ip, "")`
unfoldable pub is_any_address : Option Bytes → Bool
is_any_address none = true
is_any_address (some ip) = bytes_eq ip (codes "0.0.0.0") || bytes_eq ip (codes "")

-- The address to bind to, none inside for INADDR_ANY; none for a text that is no address.
unfoldable pub resolve : Option Bytes → Bool → Option (Option Bytes)
unfolding is_any_address
resolve bind_ip parses =
    if is_any_address bind_ip then some none else if parses then some bind_ip else none

-- The early returns behind `socket`: `close(fd); free(srv); return NULL;`
abbrev pub give_up {ℓ} : {S : Type ℓ} → ℕ → List Syscall → Option S × List Syscall
give_up fd calls = (none, frees ∷ closes (pos fd) ∷ calls)

-- The part of `tcp_server_create` behind `bind`.
unfoldable pub listen_on : ℕ → Answers → List Syscall → Option TcpServer × List Syscall
listen_on fd a calls =
    if not a.listening then give_up fd (listens fd rpc_backlog ∷ calls) else elim a.epoll [
      | none ↦ give_up fd (listens fd rpc_backlog ∷ calls)
      | some efd ↦
          let made = watches (pos fd) ∷ opens efd ∷ listens fd rpc_backlog ∷ calls in
          (
            some (record {
              listen_fd = fd;
              epoll_fd = efd;
              clients = replicate max_clients free_slot;
              client_count = pos 0;
              calls = made;
            }),
            made,
          )
    ]

-- The record where it is not NULL, and the calls made.
unfoldable pub tcp_server_create : Option Bytes → ℕ → Answers → Option TcpServer × List Syscall
unfolding resolve listen_on
tcp_server_create bind_ip port a = if not a.has_memory then (none, []) else elim a.socket [
  | none ↦ (none, frees ∷ allocates ∷ [])
  | some fd ↦ elim (resolve bind_ip a.parses) [
    | none ↦ give_up fd (opens fd ∷ allocates ∷ [])
    | some address ↦
        if not a.bound
        then give_up fd (binds fd address port ∷ opens fd ∷ allocates ∷ [])
        else listen_on fd a (binds fd address port ∷ opens fd ∷ allocates ∷ [])
  ]
]

unfoldable pub udp_server_create : Option Bytes → ℕ → Answers → Option UdpServer × List Syscall
unfolding resolve
udp_server_create bind_ip port a = if not a.has_memory then (none, []) else elim a.socket [
  | none ↦ (none, frees ∷ allocates ∷ [])
  | some fd ↦ elim (resolve bind_ip a.parses) [
    | none ↦ give_up fd (opens fd ∷ allocates ∷ [])
    | some address ↦
        if not a.bound
        then give_up fd (binds fd address port ∷ opens fd ∷ allocates ∷ [])
        else (some (record { fd = fd }), binds fd address port ∷ opens fd ∷ allocates ∷ [])
  ]
]

-- `calls` are those before it; `if (!srv) return;` is the case none.
unfoldable pub udp_server_destroy : Option UdpServer → List Syscall → List Syscall
udp_server_destroy none calls = calls
udp_server_destroy (some srv) calls = frees ∷ closes (pos srv.fd) ∷ calls
