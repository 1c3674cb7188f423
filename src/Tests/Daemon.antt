-- ===== src/Tests/Daemon.antt =====
-- The daemon on concrete inputs.
use psdk_orangepi.Prelude.{
  ℕ, ◌≡◌, refl, sym, ap, subst, true, false, All, ltb, lt→ltb, if◌then◌else◌, none, some, List, [],
  ◌∷◌, ◌++◌, arith,
}
use psdk_orangepi.Prelude.Int.{ℤ, pos}
use psdk_orangepi.Prelude.Text.{
  codes, print_unsigned, c_string, bytes_eq, has_byte, has_substring, starts_with,
}
use psdk_orangepi.Prelude.Trim.{trim_len}
use psdk_orangepi.Proto.{
  RpcRequest, Refs, rpc_parse, parse_members, snprintf, rpc_param_str, rpc_param_double,
}
use psdk_orangepi.Server.Udp.{deliver, strip_len, udp_server_poll}
use psdk_orangepi.Handler.Dispatch.{upload_kmz, select}
use psdk_orangepi.Handler.Dispatch.Replies.{ShortName}
use psdk_orangepi.App.Requests.{requests, gather}
use psdk_orangepi.App.Decoded.{decode_line}
use psdk_orangepi.App.Decoded.Runs.{ctrl-poll_all}
use psdk_orangepi.Tests.Layer.{a_kmz}
use psdk_orangepi.Handler.Kmz.{kmz_path}
use psdk_orangepi.App.Commands.{Commanded, poll_all-Commanded, uploads, carry_out_all}
use psdk_orangepi.App.Answered.{AreShort, IsAnswered, poll_all-IsAnswered}
use psdk_orangepi.App.Loop.{Round, EndsWith, while_running_lem}
use psdk_orangepi.Boot.{Core, uart_and_usb_bulk_device, core_init, psdk_init}
use psdk_orangepi.Boot.Order.{Starts, start_order, psdk_init-Starts}
use psdk_orangepi.Ctrl.Stub.{stub_ctrl}
use psdk_orangepi.Server.Setup.{Answers}
use psdk_orangepi.App.{Poll, main, poll_all}
use psdk_orangepi.App.Args.{default_options, starts, parse_args}
use psdk_orangepi.App.Args.Line.{parse_args-print_unsigned}
use psdk_orangepi.App.Service.{Sound, poll_all-Sound}
use psdk_orangepi.App.Shutdown.{IsDown, main-IsDown}
use psdk_orangepi.App.Build.{stub_parts}
use psdk_orangepi.Tests.Fixtures.{fixed, toy, peer, clock, world}

abbrev pub answers : Answers
answers = record {
  has_memory = true;
  socket = some 3;
  parses = true;
  bound = true;
  listening = true;
  epoll = none;
}

-- A core in which `DjiCore_Init` fails.
abbrev broken : Core
broken made core_init = false
broken made _ = true

psdk_init-Starts_example :
    Starts broken
      (start_order broken uart_and_usb_bulk_device)
      []
      (psdk_init broken uart_and_usb_bulk_device [])
psdk_init-Starts_example = psdk_init-Starts broken uart_and_usb_bulk_device []

parse_args-print_unsigned_example :
    parse_args
      (codes "--port"
        ∷ print_unsigned 6000
        ∷ codes "--bind-ip"
        ∷ codes "10.0.0.1"
        ∷ codes "--debug"
        ∷ [])
      default_options
    ≡ starts (record { port = 6000; bind_ip = codes "10.0.0.1"; debug = true })
parse_args-print_unsigned_example = parse_args-print_unsigned 6000 (codes "10.0.0.1") (omega arith)

-- A ping, a round without a datagram, and a line that is no request.
abbrev pub rounds : List Poll
rounds =
    record { ready = true; received = some (peer, codes "ping"); clock = clock }
    ∷ record { ready = false; received = none; clock = clock }
    ∷ record { ready = true; received = some (peer, codes "42"); clock = clock }
    ∷ []

poll_all-Sound_example : Sound 3 world (poll_all toy (stub_ctrl fixed) rounds world)
poll_all-Sound_example = poll_all-Sound toy (stub_ctrl fixed) rounds world

main-IsDown_example :
    IsDown (main toy (stub_ctrl fixed) stub_parts (codes "--debug" ∷ []) answers rounds world).1
main-IsDown_example =
    main-IsDown toy (stub_ctrl fixed) stub_parts (codes "--debug" ∷ []) answers rounds world

ping_asked : requests toy rounds ≡ (peer, pos 7) ∷ []
unfolding udp_server_poll deliver strip_len trim_len c_string bytes_eq
ping_asked = refl

no_upload :
    (req : RpcRequest toy) (refs refs' : Refs)
    → rpc_parse toy (codes "ping") refs ≡ (pos 0, req, refs')
    → ShortName toy (stub_ctrl fixed) req
unfolding rpc_parse parse_members snprintf c_string bytes_eq select
no_upload req refs refs' e name m found =
    let named : codes "system.ping" ≡ req.method =
      ap (λ (r : ℤ × RpcRequest toy × Refs). r.1.method) e in
    let k : select (codes "system.ping") ≡ some upload_kmz =
      subst (λ s. select s ≡ some upload_kmz) (sym named) m in
    absurd (cc)

no_request :
    (req : RpcRequest toy) (refs refs' : Refs)
    → rpc_parse toy (codes "42") refs ≡ (pos 0, req, refs')
    → ShortName toy (stub_ctrl fixed) req
unfolding rpc_parse c_string bytes_eq
no_request req refs refs' e name m found = absurd (cc)

rounds-AreShort : All (AreShort toy (stub_ctrl fixed)) rounds
unfolding udp_server_poll deliver strip_len trim_len
rounds-AreShort = ((no_upload, tt), (tt, ((no_request, tt), tt)))

poll_all-IsAnswered_example :
    IsAnswered (requests toy rounds) world (poll_all toy (stub_ctrl fixed) rounds world)
poll_all-IsAnswered_example = poll_all-IsAnswered toy (stub_ctrl fixed) rounds world rounds-AreShort

-- An upload behind the rounds above, and a zoom without a factor.
abbrev pub busy_rounds : List Poll
busy_rounds =
    rounds
    ++ record { ready = true; received = some (peer, codes "upload a.kmz"); clock = clock }
      ∷ record { ready = true; received = some (peer, codes "bare zoom"); clock = clock }
      ∷ []

poll_all-Commanded_example :
    Commanded
      (stub_ctrl fixed)
      (requests toy busy_rounds)
      world
      (poll_all toy (stub_ctrl fixed) busy_rounds world)
poll_all-Commanded_example = poll_all-Commanded (stub_ctrl fixed) toy busy_rounds world

uploads_a : gather (decode_line toy) busy_rounds ≡ uploads a_kmz ∷ []
unfolding udp_server_poll deliver strip_len trim_len c_string bytes_eq select rpc_param_str kmz_path
    snprintf has_byte has_substring starts_with rpc_param_double
uploads_a = refl

ctrl-poll_all_example :
    (poll_all toy (stub_ctrl fixed) busy_rounds world).ctrl
    ≡ carry_out_all (stub_ctrl fixed) (gather (decode_line toy) busy_rounds) world.ctrl
ctrl-poll_all_example = ctrl-poll_all toy (stub_ctrl fixed) busy_rounds world

-- Quiet rounds, then SIGTERM in the third one and in each behind it.
abbrev stream : ℕ → Round
stream n = record {
  poll = record { ready = true; received = some (peer, codes "ping"); clock = clock };
  signals = if ltb n 2 then [] else pos 15 ∷ [];
}

while_running_lem_example : EndsWith toy (stub_ctrl fixed) 2 stream world
while_running_lem_example =
    while_running_lem toy (stub_ctrl fixed) 2 stream world (λ k h. rw (lt→ltb k 2 h) refl)
      (λ e. absurd (cc))
