-- ===== src/Server/Setup/Released.antt =====
-- core/server: what a server that could not be created, or that has been destroyed, has left behind.
use psdk_orangepi.Prelude.{
  ℕ, suc, ◌+◌, ◌≡◌, refl, inl, inr, Option, none, some, List, [], ◌∷◌, arith, sum, replicate,
  All-replicate, Bool-cases, Option-cases, ◌==◌, if◌then◌else◌,
}
use psdk_orangepi.Prelude.Int.{ℤ, pos, negsuc, is_neg}
use psdk_orangepi.Prelude.Text.{Bytes}
use psdk_orangepi.Types.{max_clients}
use psdk_orangepi.Server.Calls.{
  Syscall, opens, closes, allocates, binds, opened, closed, allocated, freed, IsReleased, bit,
}
use psdk_orangepi.Server.Udp.{UdpServer}
use psdk_orangepi.Server.Tcp.{Client, free_slot, TcpServer, close_all, tcp_server_destroy}
use psdk_orangepi.Server.Tcp.Table.{holds}
use psdk_orangepi.Server.Tcp.Invariant.{IsValid, IsPartial, IsPartial-nil}
use psdk_orangepi.Server.Setup.{
  Answers, resolve, listen_on, tcp_server_create, udp_server_create, udp_server_destroy,
}

-- What creating a stream server gives: nothing that it holds, or a server with its invariant and
-- without a client.
pub data TcpOutcome : Option TcpServer × List Syscall → Type 0 where
  refused : {calls : List Syscall} → IsReleased calls → TcpOutcome (none, calls)
  running :
      (srv : TcpServer)
      → IsValid srv
      → srv.clients ≡ replicate max_clients free_slot
      → TcpOutcome (some srv, srv.calls)

listen_on-TcpOutcome :
    (fd port : ℕ) (address : Option Bytes) (a : Answers)
    → TcpOutcome (listen_on fd a (binds fd address port ∷ opens fd ∷ allocates ∷ []))
unfolding listen_on
listen_on-TcpOutcome fd port address a = elim (Bool-cases a.listening) [
  | inr e ↦ rw (e, listen_on) (refused (record { descriptors = λ n. omega arith; memory = refl }))
  | inl e ↦ elim (Option-cases a.epoll) [
    | inl f ↦
        rw (e, f, listen_on) (refused (record { descriptors = λ n. omega arith; memory = refl }))
    | inr (efd, f) ↦
        rw (e, f, listen_on)
          (running _
            (record {
              slots = refl;
              count = refl;
              partial = All-replicate (λ c. IsPartial c.buf) 8 free_slot IsPartial-nil;
              accounted = λ n. omega arith;
              memory = refl;
            })
            refl)
  ]
]

-- Whatever the system calls answer, tcp_server_create either returns NULL with everything closed
-- and freed that it took, or returns a valid server without a client.
pub tcp_server_create-TcpOutcome :
    (bind_ip : Option Bytes) (port : ℕ) (a : Answers)
    → TcpOutcome (tcp_server_create bind_ip port a)
unfolding tcp_server_create
tcp_server_create-TcpOutcome bind_ip port a = elim (Bool-cases a.has_memory) [
  | inr e ↦ rw (e, tcp_server_create) (refused (record { descriptors = λ n. refl; memory = refl }))
  | inl e ↦ elim (Option-cases a.socket) [
    | inl f ↦
        rw (e, f, tcp_server_create) (refused (record { descriptors = λ n. refl; memory = refl }))
    | inr (fd, f) ↦ elim (Option-cases (resolve bind_ip a.parses)) [
      | inl g ↦
          rw (e, f, g, tcp_server_create)
            (refused (record { descriptors = λ n. omega arith; memory = refl }))
      | inr (address, g) ↦ elim (Bool-cases a.bound) [
        | inr h ↦
            rw (e, f, g, h, tcp_server_create)
              (refused (record { descriptors = λ n. omega arith; memory = refl }))
        | inl h ↦ rw (e, f, g, h, tcp_server_create) (listen_on-TcpOutcome fd port address a)
      ]
    ]
  ]
]

abbrev Closes : List Client → List Syscall → ℕ → List Syscall → Type 0
Closes cs calls fd done =
    (opened fd done ≡ opened fd calls)
    × (closed fd done ≡ closed fd calls + sum (holds fd) cs)
    × (allocated done ≡ allocated calls)
    × (freed done ≡ freed calls)

close_one :
    (a : ℤ) (b : Bytes) (cs : List Client) (calls : List Syscall) (fd : ℕ)
    → ((made : List Syscall) → Closes cs made fd (close_all cs made))
    → Closes
        (record { fd = a; buf = b } ∷ cs)
        calls
        fd
        (close_all cs (if is_neg a then calls else closes a ∷ calls))
close_one (pos n) b cs calls fd rest =
    let (o, c, a, f) = rest (closes (pos n) ∷ calls) in
    (omega (arith, o), omega (arith, c), omega (arith, a), omega (arith, f))
close_one (negsuc n) b cs calls fd rest =
    let (o, c, a, f) = rest calls in (o, omega (arith, c), a, f)

close_all_lem :
    (cs : List Client) (calls : List Syscall) (fd : ℕ) → Closes cs calls fd (close_all cs calls)
unfolding close_all
close_all_lem [] calls fd = (refl, omega arith, refl, refl)
close_all_lem (c ∷ cs) calls fd =
    close_one c.fd c.buf cs calls fd (λ made. close_all_lem cs made fd)

pub tcp_server_destroy-IsReleased :
    (srv : TcpServer) → IsValid srv → IsReleased (tcp_server_destroy srv)
unfolding tcp_server_destroy
tcp_server_destroy-IsReleased srv v = record {
  descriptors = λ fd.
      let (o, c, a, f) = close_all_lem srv.clients srv.calls fd in
      omega (arith, v.accounted fd, o, c);
  memory =
      let (o, c, a, f) = close_all_lem srv.clients srv.calls 0 in omega (arith, v.memory, a, f);
}

-- The same for the datagram server: a server that runs holds its descriptor and its record.
pub data UdpOutcome : Option UdpServer × List Syscall → Type 0 where
  not_created : {calls : List Syscall} → IsReleased calls → UdpOutcome (none, calls)
  created :
      {calls : List Syscall} (srv : UdpServer)
      → ((fd : ℕ) → opened fd calls ≡ closed fd calls + bit (srv.fd == fd))
      → allocated calls ≡ suc (freed calls)
      → UdpOutcome (some srv, calls)

pub udp_server_create-UdpOutcome :
    (bind_ip : Option Bytes) (port : ℕ) (a : Answers)
    → UdpOutcome (udp_server_create bind_ip port a)
unfolding udp_server_create
udp_server_create-UdpOutcome bind_ip port a = elim (Bool-cases a.has_memory) [
  | inr e ↦
      rw (e, udp_server_create) (not_created (record { descriptors = λ n. refl; memory = refl }))
  | inl e ↦ elim (Option-cases a.socket) [
    | inl f ↦
        rw (e, f, udp_server_create)
          (not_created (record { descriptors = λ n. refl; memory = refl }))
    | inr (fd, f) ↦ elim (Option-cases (resolve bind_ip a.parses)) [
      | inl g ↦
          rw (e, f, g, udp_server_create)
            (not_created (record { descriptors = λ n. omega arith; memory = refl }))
      | inr (address, g) ↦ elim (Bool-cases a.bound) [
        | inr h ↦
            rw (e, f, g, h, udp_server_create)
              (not_created (record { descriptors = λ n. omega arith; memory = refl }))
        | inl h ↦
            rw (e, f, g, h, udp_server_create)
              (created (record { fd = fd }) (λ n. omega arith) refl)
      ]
    ]
  ]
]

pub released :
    (r : Option UdpServer × List Syscall) → UdpOutcome r → IsReleased (udp_server_destroy r.0 r.1)
unfolding udp_server_destroy
released _ (not_created h) = h
released _ (created srv d m) = record {
  descriptors = λ fd. omega (arith, d fd);
  memory = omega (arith, m);
}

-- Whatever the system calls answer, udp_server_create followed by udp_server_destroy of what it
-- returned leaves every descriptor closed as often as it was opened, and no record allocated.
pub udp_server_destroy-IsReleased :
    (bind_ip : Option Bytes) (port : ℕ) (a : Answers)
    → let (srv, calls) = udp_server_create bind_ip port a in
      IsReleased (udp_server_destroy srv calls)
udp_server_destroy-IsReleased bind_ip port a =
    released (udp_server_create bind_ip port a) (udp_server_create-UdpOutcome bind_ip port a)
