-- ===== src/Server/Tcp/Service/Isolated.antt =====
-- tcp_server.c: what one connection says reaches the callback whole and in order, whatever the other
-- connections do in between.
use psdk_orangepi.Prelude.{
  All, ℕ, suc, ◌+◌, ◌<◌, ◌≡◌, refl, sym, ap, subst, ◌∙◌, Bool, true, false, ◌&&◌, Option, none,
  some, List, [], ◌∷◌, ◌++◌, append-nil, append_assoc, arith, length, ltb, ◌==◌, ==_iff,
  if◌then◌else◌, Bool-cases, inl, inr,
}
use psdk_orangepi.Prelude.Int.{pos}
use psdk_orangepi.Prelude.Text.{Bytes, has_byte}
use psdk_orangepi.Types.{max_clients}
use psdk_orangepi.Server.Tcp.{TcpServer}
use psdk_orangepi.Server.Tcp.Receive.{ReadResult, Event, split_lines, tcp_server_poll}
use psdk_orangepi.Server.Tcp.Receive.Preserved.{has_byte-split_lines}
use psdk_orangepi.Server.Tcp.Receive.Lines.{
  frames, split_lines-frames, split_lines-append, split_lines_none,
}
use psdk_orangepi.Server.Tcp.Service.{
  Service, drained, heard, connect, speak, hear, listen_to, happens, happen, with_line, IsFresh,
  AreFresh,
}
use psdk_orangepi.Server.Tcp.Service.View.{view}
use psdk_orangepi.Server.Tcp.Service.Refines.{Refines, view-IsPartial}
use psdk_orangepi.Server.Tcp.Service.Refinement.{tcp_server_poll-Refines}
use psdk_orangepi.Server.Tcp.Service.Said.{
  Said, note_line, said_by, cleaned, stream, IsPolite, polite_nil, polite_other, polite_own, tagged,
  serve-note_line, said_by-append, said_by-tagged, cleaned-append,
}

-- A connection that an event of another one leaves alone.
record Untouched (fd : ℕ) (a b : Service Said) : Type 0 where
  lines : b.lines fd ≡ a.lines fd
  said : said_by fd b.state ≡ said_by fd a.state

same-Untouched : (fd : ℕ) (a : Service Said) → Untouched fd a a
same-Untouched fd a = record { lines = refl; said = refl }

speak_lem :
    (g : ℕ) (s : Bytes) (a : Service Said)
    → speak note_line g s a ≡ record a {
      lines = with_line g (split_lines s).1 a.lines;
      state = a.state ++ tagged (pos g) (cleaned (split_lines s).0);
    }
speak_lem g s a = rw (serve-note_line (pos g) (split_lines s).0 a.state) refl

flip : (a b : ℕ) → (a == b) ≡ false → (b == a) ≡ false
flip a b h = ground arith

module _ (fd g : ℕ) (apart : (g == fd) ≡ false) (a : Service Said) where
  hear-Untouched : (o : Option Bytes) → Untouched fd a (hear note_line 0 g o a)
  hear-Untouched none = record { lines = rw (flip g fd apart) refl; said = refl }
  hear-Untouched (some s) = rw (speak_lem g s a) (record {
    lines = rw (flip g fd apart) refl;
    said =
        said_by-append fd a.state (tagged (pos g) (cleaned (split_lines s).0))
        ∙ ap (λ t. said_by fd a.state ++ t)
            (said_by-tagged fd g (cleaned (split_lines s).0) ∙ rw apart refl)
        ∙ append-nil (said_by fd a.state);
  })

  listen_to-Untouched :
      (listen_fd : ℕ) (o : Option Bytes) (reads : List ReadResult)
      → Untouched fd a (listen_to note_line listen_fd g o reads a)
  listen_to-Untouched listen_fd none reads = same-Untouched fd a
  listen_to-Untouched listen_fd (some line) reads = hear-Untouched (heard line reads)

connect-Untouched :
    (fd : ℕ) (line : Bytes) (o : Option ℕ) (added : Bool) (a : Service Said)
    → a.lines fd ≡ some line
    → ((n : ℕ) → o ≡ some n → a.lines n ≡ none)
    → Untouched fd a (connect o added a)
connect-Untouched fd line none added a there fresh = same-Untouched fd a
connect-Untouched fd line (some n) added a there fresh =
    either (ltb a.connected max_clients && added)
  where
    apart : (fd == n) ≡ false
    apart = elim (Bool-cases (fd == n)) [
      | inl e ↦
          let k : a.lines fd ≡ none =
            subst (λ m. a.lines m ≡ none) (sym ((==_iff fd n).0 e)) (fresh n refl) in
          absurd (cc)
      | inr e ↦ e
    ]

    either :
        (b : Bool)
        → Untouched fd a (
            if b
            then record a { lines = with_line n [] a.lines; connected = suc a.connected }
            else a)
    either true = record { lines = rw apart refl; said = refl }
    either false = same-Untouched fd a

module _ (fd listen_fd : ℕ) (client : (fd == listen_fd) ≡ false) where
  other-Untouched :
      (e : Event) (line : Bytes) (a : Service Said)
      → (e.fd == fd) ≡ false
      → a.lines fd ≡ some line
      → IsFresh note_line listen_fd e a
      → Untouched fd a (happens note_line listen_fd e a)
  other-Untouched e line a apart there fresh = elim (Bool-cases (e.fd == listen_fd)) [
    | inl q ↦ rw q (connect-Untouched fd line e.accepted e.added a there (λ n. fresh n q))
    | inr q ↦ rw q (listen_to-Untouched fd e.fd apart a listen_fd (a.lines e.fd) e.reads)
  ]

  heard_polite :
      (line : Bytes) (reads : List ReadResult)
      → (drained reads).1 ≡ false
      → length line + length (drained reads).0 < 8191
      → heard line reads ≡ some (line ++ (drained reads).0)
  heard_polite line reads stays fits = rw stays (ground arith)

  own :
      (e : Event) (line : Bytes) (a : Service Said)
      → (e.fd == fd) ≡ true
      → a.lines fd ≡ some line
      → (drained e.reads).1 ≡ false
      → length line + length (drained e.reads).0 < 8191
      → let s = split_lines (line ++ (drained e.reads).0) in
        happens note_line listen_fd e a ≡ record a {
          lines = with_line fd s.1 a.lines;
          state = a.state ++ tagged (pos fd) (cleaned s.0);
        }
  own e line a mine there stays fits =
      let g : e.fd ≡ fd = (==_iff e.fd fd).0 mine in
      rw (g, client, there, heard_polite line e.reads stays fits)
        (speak_lem fd (line ++ (drained e.reads).0) a)

  -- What the events have brought for the connection, behind its partial line.
  pub record Brings (line data_in : Bytes) (a b : Service Said) : Type 0 where
    pub said : said_by fd b.state ≡ said_by fd a.state ++ cleaned (split_lines (line ++ data_in)).0
    pub lines : b.lines fd ≡ some (split_lines (line ++ data_in)).1

  Brings-nothing :
      (line : Bytes) (a : Service Said)
      → a.lines fd ≡ some line
      → has_byte 10 line ≡ false
      → Brings line [] a a
  Brings-nothing line a there partial =
      let e : split_lines (line ++ []) ≡ ([], line) =
        ap split_lines (append-nil line) ∙ split_lines_none line partial in
      record { said = rw e (sym (append-nil (said_by fd a.state))); lines = rw e there }

  same_fd : (fd == fd) ≡ true
  same_fd = ground arith

  own_lines : (ls : List Bytes) → said_by fd (tagged (pos fd) ls) ≡ ls
  own_lines ls = said_by-tagged fd fd ls ∙ rw same_fd refl

  Brings-more :
      (line d rest : Bytes) (a b : Service Said)
      → let s = split_lines (line ++ d) in
        Brings s.1 rest
          (record a {
            lines = with_line fd s.1 a.lines;
            state = a.state ++ tagged (pos fd) (cleaned s.0);
          })
          b
        → Brings line (d ++ rest) a b
  Brings-more line d rest a b h =
      let s = split_lines (line ++ d) in
      let t = split_lines (s.1 ++ rest) in
      let e : split_lines (line ++ (d ++ rest)) ≡ (s.0 ++ t.0, t.1) =
        ap split_lines (sym (append_assoc line d rest)) ∙ split_lines-append (line ++ d) rest in
      record {
        said =
            rw (e, cleaned-append s.0 t.0)
              (h.said
                ∙ ap (λ x. x ++ cleaned t.0)
                    (said_by-append fd a.state (tagged (pos fd) (cleaned s.0))
                      ∙ ap (λ x. said_by fd a.state ++ x) (own_lines (cleaned s.0)))
                ∙ append_assoc (said_by fd a.state) (cleaned s.0) (cleaned t.0));
        lines = rw e h.lines;
      }

  happen-Brings :
      (line : Bytes) (es : List Event) (a : Service Said)
      → IsPolite fd line es
      → a.lines fd ≡ some line
      → has_byte 10 line ≡ false
      → AreFresh note_line listen_fd es a
      → Brings line (stream fd es) a (happen note_line listen_fd es a)
  happen-Brings line [] a polite_nil there partial fresh = Brings-nothing line a there partial
  happen-Brings line (e ∷ es) a (polite_other apart p) there partial fresh =
      let u = other-Untouched e line a apart there fresh.0 in
      let r =
        happen-Brings line es (happens note_line listen_fd e a) p (u.lines ∙ there) partial
          fresh.1 in
      rw apart (record {
        said = r.said ∙ ap (λ s. s ++ cleaned (split_lines (line ++ stream fd es)).0) u.said;
        lines = r.lines;
      })
  happen-Brings line (e ∷ es) a (polite_own mine stays fits p) there partial fresh =
      let s = split_lines (line ++ (drained e.reads).0) in
      let step = own e line a mine there stays fits in
      let here : (happens note_line listen_fd e a).lines fd ≡ some s.1 =
        ap (λ (b : Service Said). b.lines fd) step ∙ rw same_fd refl in
      let r =
        happen-Brings s.1 es (happens note_line listen_fd e a) p here
          (has_byte-split_lines (line ++ (drained e.reads).0)) fresh.1 in
      rw mine (
        Brings-more line (drained e.reads).0 (stream fd es) a
          (happen note_line listen_fd es (happens note_line listen_fd e a))
          (subst
            (λ (b : Service Said).
              Brings s.1 (stream fd es) b
                (happen note_line listen_fd es (happens note_line listen_fd e a)))
            step r))

  split_lines_lem :
      (ms : List Bytes) (rest : Bytes)
      → All (λ m. has_byte 10 m ≡ false) ms
      → has_byte 10 rest ≡ false
      → split_lines (frames ms ++ rest) ≡ (ms, rest)
  split_lines_lem ms rest h k =
      split_lines-append (frames ms) rest
      ∙ rw (split_lines-frames ms h, split_lines_none rest k)
          (ap (λ ls. (ls, rest)) (append-nil ms))

  -- A stream server that shows a service, in events in which accept gives no descriptor that is
  -- open already, and in which one connection, on a descriptor other than the listening one, does
  -- not hang up and leaves room in the buffer behind its partial line: where the partial line and
  -- all that the connection sends are messages with a newline behind each and a rest, none of them
  -- with a newline inside, a callback that notes its calls and closes no client is called for that
  -- connection with exactly these messages, in their order, without a carriage return at the end
  -- and without those that are then empty, and the rest is the new partial line, whatever other
  -- connections do in between.
  pub said_by-tcp_server_poll :
      (line : Bytes) (es : List Event) (srv : TcpServer) (w : Said) (a : Service Said)
      (ms : List Bytes) (rest : Bytes)
      → Refines listen_fd (srv, w) a
      → AreFresh note_line listen_fd es a
      → IsPolite fd line es
      → view srv.clients fd ≡ some line
      → line ++ stream fd es ≡ frames ms ++ rest
      → All (λ m. has_byte 10 m ≡ false) ms
      → has_byte 10 rest ≡ false
      → let (srv', w') = tcp_server_poll note_line es (srv, w) in
        (said_by fd w' ≡ said_by fd w ++ cleaned ms) × (view srv'.clients fd ≡ some rest)
  said_by-tcp_server_poll line es srv w a ms rest r fresh polite there whole h k =
      let after = tcp_server_poll-Refines note_line listen_fd es srv w a r fresh in
      let partial = (view-IsPartial (srv, w) a fd line r there).no_line in
      let b = happen-Brings line es a polite (sym (r.lines fd) ∙ there) partial fresh in
      let split : split_lines (line ++ stream fd es) ≡ (ms, rest) =
        ap split_lines whole ∙ split_lines_lem ms rest h k in
      (
        ap (said_by fd) after.state
            ∙ b.said
            ∙ ap (λ x. said_by fd x ++ cleaned (split_lines (line ++ stream fd es)).0) (sym r.state)
            ∙ ap (λ (x : List Bytes × Bytes). said_by fd w ++ cleaned x.0) split,
        after.lines fd ∙ b.lines ∙ ap (λ (x : List Bytes × Bytes). some x.1) split,
      )
