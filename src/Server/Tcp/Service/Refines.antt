-- ===== src/Server/Tcp/Service/Refines.antt =====
-- tcp_server.c: when a server shows a service, and the changes of a slot in use.
use psdk_orangepi.Prelude.{
  ℕ, pred, ◌≡◌, refl, sym, ap, subst, ◌∙◌, Option, none, some, List, All, arith, get_or, get_or-All,
  set_at, sum, sum-set_at, ◌==◌, if◌then◌else◌,
}
use psdk_orangepi.Prelude.Int.{pos, ◌+ℤ◌}
use psdk_orangepi.Prelude.Text.{Bytes}
use psdk_orangepi.Server.Tcp.{Client, free_slot, TcpServer, find_client, free_client}
use psdk_orangepi.Server.Tcp.Table.{used, holds, Found, find_client-Found}
use psdk_orangepi.Server.Tcp.Invariant.{IsPartial, IsValid, store-IsValid, free_client-IsValid}
use psdk_orangepi.Server.Tcp.Service.{with_line, Service, disconnect}
use psdk_orangepi.Server.Tcp.Service.View.{
  view, AreDistinct, view_stored, view_freed, view-find_client, line_at,
}

-- A server and the state of its callback show a service.
pub record Refines {W : Type 0} (listen_fd : ℕ) (s : TcpServer × W) (a : Service W) : Type 0 where
  pub listens : s.0.listen_fd ≡ listen_fd
  pub lines : (n : ℕ) → view s.0.clients n ≡ a.lines n
  pub connected : s.0.client_count ≡ pos a.connected
  pub state : s.1 ≡ a.state
  pub distinct : AreDistinct s.0.clients
  pub valid : IsValid s.0

pos_eq : (a b : ℕ) → pos a ≡ pos b → a ≡ b
pos_eq a b e = ground arith

module _ {W : Type 0} (listen_fd : ℕ) (srv : TcpServer) (w w' : W) (a : Service W)
    (r : Refines listen_fd (srv, w) a) (n i : ℕ)
    (at : find_client srv.clients (pos n) ≡ some i) where
  found : Found (λ c. c.fd ≡ pos n) srv.clients i
  found = find_client-Found srv.clients n i at

  many : a.connected ≡ sum used srv.clients
  many = pos_eq _ _ (sym r.connected ∙ r.valid.count)

  one : used (get_or srv.clients i free_slot) ≡ 1
  one = rw found.at refl

  one_less : sum used (set_at i free_slot srv.clients) ≡ pred a.connected
  one_less =
      omega (arith, many, one, sum-set_at used i free_slot free_slot srv.clients found.inside)

  pub disconnected :
      Refines listen_fd (free_client i srv, w') (disconnect n (record a { state = w' }))
  unfolding free_client ◌+ℤ◌
  disconnected = record {
    listens = r.listens;
    lines = λ m.
        view_freed n m srv.clients i (r.distinct n) at
        ∙ ap (λ o. if m == n then none else o) (r.lines m);
    connected = (free_client-IsValid srv i n r.valid found).count ∙ ap pos one_less;
    state = refl;
    distinct = λ m.
        omega (
          arith,
          r.distinct m,
          sum-set_at (holds m) i free_slot free_slot srv.clients found.inside,
        );
    valid = free_client-IsValid srv i n r.valid found;
  }

  pub stored :
      (buf : Bytes)
      → IsPartial buf
      → Refines listen_fd
          (
            record srv {
              clients =
                  set_at i
                    (record { fd = (get_or srv.clients i free_slot).fd; buf = buf })
                    srv.clients;
            },
            w',
          )
          (record a { lines = with_line n buf a.lines; state = w' })
  stored buf p = record {
    listens = r.listens;
    lines = λ m.
        rw found.at (view_stored n m buf srv.clients i at)
        ∙ ap (λ o. if m == n then some buf else o) (r.lines m);
    connected = r.connected;
    state = refl;
    distinct = λ m. omega (
      arith,
      r.distinct m,
      sum-set_at (holds m) i (record { fd = (get_or srv.clients i free_slot).fd; buf = buf })
          free_slot srv.clients found.inside,
    );
    valid = store-IsValid srv i n buf r.valid found p;
  }

line-IsPartial :
    (cs : List Client) (n : ℕ) (line : Bytes) (o : Option ℕ)
    → All (λ (c : Client). IsPartial c.buf) cs
    → find_client cs (pos n) ≡ o
    → view cs n ≡ some line
    → IsPartial line
line-IsPartial cs n line none v f there =
    let k = view-find_client cs n ∙ ap (line_at cs) f in absurd (cc)
line-IsPartial cs n line (some i) v f there =
    let k = view-find_client cs n ∙ ap (line_at cs) f in
    let same : (get_or cs i free_slot).buf ≡ line = cc in
    subst IsPartial same (
      get_or-All (λ (c : Client). IsPartial c.buf) i free_slot cs
        (find_client-Found cs n i f).inside v)

-- The line of a connection is partial.
pub view-IsPartial :
    {W : Type 0} {listen_fd : ℕ} (s : TcpServer × W) (a : Service W) (n : ℕ) (line : Bytes)
    → Refines listen_fd s a
    → view s.0.clients n ≡ some line
    → IsPartial line
view-IsPartial s a n line r there = line-IsPartial s.0.clients n line _ r.valid.partial refl there
