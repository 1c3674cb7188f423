-- ===== src/Tests/Serving.antt =====
-- A stream server and the service that it shows, on concrete inputs.
use psdk_orangepi.Prelude.{ℕ, ◌≡◌, sym, some, refl, true, none, List, [], ◌∷◌, arith}
use psdk_orangepi.Prelude.Int.{◌+ℤ◌}
use psdk_orangepi.Prelude.Text.{Bytes, codes, has_byte}
use psdk_orangepi.Server.Tcp.Service.Refines.{Refines}
use psdk_orangepi.Server.Tcp.{TcpServer, first_free, alloc_client, watch_client, accept_client}
use psdk_orangepi.Server.Tcp.Service.{AreFresh}
use psdk_orangepi.Server.Tcp.Service.View.{view}
use psdk_orangepi.Server.Tcp.Service.Said.{
  Said, note_line, said_by, IsPolite, polite_nil, polite_other, polite_own,
}
use psdk_orangepi.Server.Tcp.Service.Isolated.{said_by-tcp_server_poll}
use psdk_orangepi.Server.Tcp.Receive.{
  got, would_block, Event, split_lines, serve, serve_line, strip_cr, handle_event, tcp_server_poll,
}
use psdk_orangepi.Server.Setup.{resolve, is_any_address, listen_on, tcp_server_create}
use psdk_orangepi.Server.Setup.Serving.{
  Call, polls, sends, closes_client, serve_calls, offers, opening, AreFreshCalls,
  tcp_server_create-Refines,
}
use psdk_orangepi.Tests.Servers.{keep_line, all_good, started, connect, events}

-- Two events, a message to the client, and its end.
abbrev session : List Call
session = polls events ∷ sends (true, true) 5 (codes "ok") ∷ closes_client 5 ∷ []

session-AreFreshCalls : AreFreshCalls keep_line 3 session (opening keep_line [])
unfolding split_lines serve serve_line strip_cr
session-AreFreshCalls = (((λ n q e. refl), ((λ n q e. absurd (ground arith)), tt)), (tt, (tt, tt)))

tcp_server_create-Refines_example :
    Refines 3
      (serve_calls keep_line session (started, []))
      (offers keep_line 3 session (opening keep_line []))
unfolding tcp_server_create resolve is_any_address listen_on
tcp_server_create-Refines_example =
    tcp_server_create-Refines keep_line none 5555 all_good started started.calls session [] refl
      session-AreFreshCalls

-- The server behind the first connection, with a callback that notes its calls.
abbrev met : TcpServer × Said
met = tcp_server_poll note_line (connect ∷ []) (started, [])

abbrev first_met : List Call
first_met = polls (connect ∷ []) ∷ []

met-Refines : Refines 3 met (offers note_line 3 first_met (opening note_line []))
unfolding tcp_server_create resolve is_any_address listen_on
met-Refines =
    tcp_server_create-Refines note_line none 5555 all_good started started.calls first_met [] refl
      ((((λ n q e. refl), tt)), tt)

abbrev speaks : ℕ → Bytes → Event
speaks fd s = record { fd = fd; accepted = none; added = true; reads = got s ∷ would_block ∷ [] }

-- Two clients in turn; the second one connects in between.
abbrev turns : List Event
turns =
    speaks 5 (codes "ab\r\ncd")
    ∷ record { fd = 3; accepted = some 6; added = true; reads = [] }
    ∷ speaks 6 (codes "x\n")
    ∷ speaks 5 (codes "ef\n")
    ∷ []

turns-AreFresh : AreFresh note_line 3 turns (offers note_line 3 first_met (opening note_line []))
unfolding split_lines serve serve_line strip_cr
turns-AreFresh = (
  (λ n q e. absurd (ground arith)),
  (
    (λ n q e. let k : 6 ≡ n = ground arith in rw (sym k) refl),
    ((λ n q e. absurd (ground arith)), ((λ n q e. absurd (ground arith)), tt)),
  ),
)

turns-IsPolite : IsPolite 5 [] turns
unfolding split_lines
turns-IsPolite =
    polite_own refl refl (omega arith)
      (polite_other refl (polite_other refl (polite_own refl refl (omega arith) polite_nil)))

said_by-tcp_server_poll_example :
    (said_by 5 (tcp_server_poll note_line turns met).1 ≡ codes "ab" ∷ codes "cdef" ∷ [])
    × (view (tcp_server_poll note_line turns met).0.clients 5 ≡ some [])
unfolding has_byte split_lines strip_cr tcp_server_poll handle_event accept_client alloc_client
    watch_client first_free ◌+ℤ◌
said_by-tcp_server_poll_example =
    said_by-tcp_server_poll 5 3 refl [] turns met.0 met.1
      (offers note_line 3 first_met (opening note_line [])) (codes "ab\r" ∷ codes "cdef" ∷ []) []
      met-Refines turns-AreFresh turns-IsPolite refl refl (refl, (refl, tt)) refl
