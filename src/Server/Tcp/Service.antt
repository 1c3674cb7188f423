-- ===== src/Server/Tcp/Service.antt =====
-- core/server/tcp_server.c seen from outside: a service that keeps, for each connection, the line that
-- is not complete yet. There are no slots, no order of them, and no buffer that is filled.
pub mod View
pub mod Reading
pub mod Refines
pub mod Receiving
pub mod Accepting
pub mod Refinement
pub mod Said
pub mod Isolated
use psdk_orangepi.Prelude.{
  ℕ, suc, pred, ◌+◌, ◌-◌, ◌≡◌, Bool, true, false, ◌&&◌, ◌||◌, Option, none, some, List, [], ◌∷◌,
  ◌++◌, length, ltb, leb, ◌==◌, if◌then◌else◌,
}
use psdk_orangepi.Prelude.Int.{ℤ, pos}
use psdk_orangepi.Prelude.Text.{Bytes}
use psdk_orangepi.Types.{recv_buf_len, max_clients}
use psdk_orangepi.Server.Tcp.Receive.{
  ReadResult, got, would_block, read_error, Event, split_lines, serve,
}

-- The connections, each with its partial line.
abbrev pub Connections : Type 0
Connections = ℕ → Option Bytes

abbrev pub nobody : Connections
nobody n = none

abbrev pub with_line : ℕ → Bytes → Connections → Connections
with_line fd line t n = if n == fd then some line else t n

abbrev pub without : ℕ → Connections → Connections
without fd t n = if n == fd then none else t n

-- `state` is that of the callback.
pub record Service (W : Type 0) : Type 0 where
  pub lines : Connections
  pub connected : ℕ
  pub state : W

abbrev pub add_data : Bytes → Bytes × Bool → Bytes × Bool
add_data s r = (s ++ r.0, r.1)

-- The bytes that the reads of one event give, and whether they end in a hang-up or an error.
abbrev pub drained : List ReadResult → Bytes × Bool
drained [] = ([], false)
drained (would_block ∷ rs) = ([], false)
drained (read_error ∷ rs) = ([], true)
drained (got [] ∷ rs) = ([], true)
drained (got (c ∷ cs) ∷ rs) = add_data (c ∷ cs) (drained rs)

-- What there is to be served behind the reads; none for a connection to be closed, which has hung up
-- or has sent more than the limit.
abbrev pub heard : Bytes → List ReadResult → Option Bytes
heard line reads =
    let (stream, over) = drained reads in
    if over || leb (recv_buf_len - 1) (length line + length stream)
    then none
    else some (line ++ stream)

module _ {W : Type 0} where
  abbrev pub connect : Option ℕ → Bool → Service W → Service W
  connect none added s = s
  connect (some n) added s =
      if ltb s.connected max_clients && added
      then record s { lines = with_line n [] s.lines; connected = suc s.connected }
      else s

  abbrev pub disconnect : ℕ → Service W → Service W
  disconnect fd s = record s { lines = without fd s.lines; connected = pred s.connected }

  -- The complete lines are served until the callback asks to close; the rest is kept.
  abbrev pub speak : (ℤ → Bytes → W → Bool × W) → ℕ → Bytes → Service W → Service W
  speak on_message fd stream s =
      let (complete, rest) = split_lines stream in
      let (close_after, w') = serve on_message (pos fd) complete s.state in
      if close_after
      then disconnect fd (record s { state = w' })
      else record s { lines = with_line fd rest s.lines; state = w' }

  module _ (on_message : ℤ → Bytes → W → Bool × W) (listen_fd : ℕ) where
    abbrev pub hear : ℕ → Option Bytes → Service W → Service W
    hear fd none s = disconnect fd s
    hear fd (some stream) s = speak on_message fd stream s

    abbrev pub listen_to : ℕ → Option Bytes → List ReadResult → Service W → Service W
    listen_to fd none reads s = s
    listen_to fd (some line) reads s = hear fd (heard line reads) s

    abbrev pub happens : Event → Service W → Service W
    happens e s =
        if e.fd == listen_fd
        then connect e.accepted e.added s
        else listen_to e.fd (s.lines e.fd) e.reads s

    abbrev pub happen : List Event → Service W → Service W
    happen [] s = s
    happen (e ∷ es) s = happen es (happens e s)

    -- `accept` gives no descriptor that is open already.
    abbrev pub IsFresh : Event → Service W → Type 0
    IsFresh e s = (n : ℕ) → (e.fd == listen_fd) ≡ true → e.accepted ≡ some n → s.lines n ≡ none

    abbrev pub AreFresh : List Event → Service W → Type 0
    AreFresh [] s = Unit
    AreFresh (e ∷ es) s = IsFresh e s × AreFresh es (happens e s)
