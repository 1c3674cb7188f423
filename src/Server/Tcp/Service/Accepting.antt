-- ===== src/Server/Tcp/Service/Accepting.antt =====
-- tcp_server.c: `accept_client` is a new connection, or none.
use psdk_orangepi.Prelude.{
  ℕ, suc, ◌+◌, ◌≡◌, refl, sym, ap, subst, ◌∙◌, Bool, true, false, none, some, List, [], arith,
  get_or, set_at, sum, sum-set_at, ltb, ◌==◌, ==_iff, if◌then◌else◌, Bool-cases, inl, inr,
}
use psdk_orangepi.Prelude.Int.{pos, ◌+ℤ◌, is_neg, ltb_ℤ}
use psdk_orangepi.Types.{max_clients}
use psdk_orangepi.Server.Calls.{Syscall, bit, opens, closes}
use psdk_orangepi.Server.Tcp.{
  free_slot, TcpServer, find_client, first_free, free_client, watch_client, accept_client, note,
}
use psdk_orangepi.Server.Tcp.Table.{holds, holds_free, Found, first_free-Found, first_free-some}
use psdk_orangepi.Server.Tcp.Invariant.{
  IsValid, turned_away-IsValid, with_fresh, with_fresh-IsValid, alloc_some, few,
}
use psdk_orangepi.Server.Tcp.Service.{with_line, Service, connect}
use psdk_orangepi.Server.Tcp.Service.View.{view, holds-none, view_placed, find_client_placed}
use psdk_orangepi.Server.Tcp.Service.Refines.{Refines, disconnected}

module _ {W : Type 0} (listen_fd : ℕ) (srv : TcpServer) (w : W) (a : Service W)
    (r : Refines listen_fd (srv, w) a) (n : ℕ) (fresh : a.lines n ≡ none) where
  -- Calls that change no slot.
  noted :
      (calls : List Syscall)
      → IsValid (record srv { calls = calls })
      → Refines listen_fd (record srv { calls = calls }, w) a
  noted calls v = record {
    listens = r.listens;
    lines = r.lines;
    connected = r.connected;
    state = r.state;
    distinct = r.distinct;
    valid = v;
  }

  turned_away : Refines listen_fd (note (closes (pos n)) (note (opens n) srv), w) a
  turned_away = noted _ (turned_away-IsValid srv n r.valid)

  module _ (i : ℕ) (at : first_free srv.clients ≡ some i) where
    f : Found (λ c. is_neg c.fd ≡ true) srv.clients i
    f = first_free-Found srv.clients i at

    nowhere : view srv.clients n ≡ none
    nowhere = r.lines n ∙ fresh

    added :
        (m : ℕ)
        → sum (holds m) (set_at i (record { fd = pos n; buf = [] }) srv.clients)
          ≡ sum (holds m) srv.clients + bit (n == m)
    added m = omega (
      arith,
      holds_free m (get_or srv.clients i free_slot).fd f.at,
      sum-set_at (holds m) i (record { fd = pos n; buf = [] }) free_slot srv.clients f.inside,
    )

    joined :
        Refines listen_fd
          (with_fresh srv i n r.valid f, w)
          (record a { lines = with_line n [] a.lines; connected = suc a.connected })
    unfolding ◌+ℤ◌
    joined = record {
      listens = r.listens;
      lines = λ m.
          view_placed n m srv.clients i nowhere at
          ∙ ap (λ o. if m == n then some [] else o) (r.lines m);
      connected = rw r.connected (ground arith);
      state = r.state;
      distinct = λ m. elim (Bool-cases (n == m)) [
        | inl e ↦
            let none_m : sum (holds m) srv.clients ≡ 0 =
              subst (λ k. sum (holds k) srv.clients ≡ 0) ((==_iff n m).0 e)
                (holds-none srv.clients n nowhere) in
            ground (arith, none_m, e, added m)
        | inr e ↦ ground (arith, r.distinct m, e, added m)
      ];
      valid = with_fresh-IsValid srv i n r.valid f;
    }

    joined_found : find_client (with_fresh srv i n r.valid f).clients (pos n) ≡ some i
    joined_found = find_client_placed n srv.clients i nowhere at

    undone : Refines listen_fd (free_client i (with_fresh srv i n r.valid f), w) a
    undone =
        let u =
          disconnected listen_fd (with_fresh srv i n r.valid f) w a.state
            (record a { lines = with_line n [] a.lines; connected = suc a.connected }) joined n i
            joined_found in
        record {
          listens = u.listens;
          lines = λ m. u.lines m ∙ elim (Bool-cases (m == n)) [
            | inl e ↦ rw e (sym (subst (λ k. a.lines k ≡ none) (sym ((==_iff m n).0 e)) fresh))
            | inr e ↦ rw e refl
          ];
          connected = u.connected;
          state = r.state;
          distinct = u.distinct;
          valid = u.valid;
        }

    watched :
        (added : Bool)
        → Refines listen_fd
            (
              if added
                  then with_fresh srv i n r.valid f
                  else free_client i (with_fresh srv i n r.valid f),
              w,
            )
            (if added
              then record a { lines = with_line n [] a.lines; connected = suc a.connected }
              else a)
    watched true = joined
    watched false = undone

  pub accepted_with :
      (added : Bool) (b : Bool)
      → ltb a.connected max_clients ≡ b
      → Refines listen_fd (accept_client (some n) added srv, w) (connect (some n) added a)
  unfolding accept_client watch_client
  accepted_with added false e =
      let k : ltb_ℤ srv.client_count (pos max_clients) ≡ false = rw r.connected (ground arith) in
      rw (e, k, accept_client) turned_away
  accepted_with added true e =
      let k : ltb_ℤ srv.client_count (pos max_clients) ≡ true = rw r.connected (ground arith) in
      let (i, at) = first_free-some srv.clients (few srv r.valid k) in
      rw (e, k, alloc_some (pos n) i (note (opens n) srv) at) (watched i at added)
