-- ===== src/Server/Tcp/Invariant.antt =====
-- tcp_server.c: the invariant of the client table and of the descriptors, under each change of a slot.
use psdk_orangepi.Prelude.{
  ℕ, suc, ◌+◌, ◌<◌, ◌≡◌, refl, ap, subst, ◌∙◌, Bool, true, false, Option, none, some, [], ◌∷◌,
  arith, length, length-set_at, get_or, get_or-set_at, set_at, sum, sum-set_at, All, All-set_at,
  ◌==◌, if◌then◌else◌,
}
use psdk_orangepi.Prelude.Int.{ℤ, pos, negsuc, ◌+ℤ◌, is_neg, ltb_ℤ}
use psdk_orangepi.Prelude.Text.{Bytes, has_byte}
use psdk_orangepi.Types.{recv_buf_len, max_clients}
use psdk_orangepi.Server.Calls.{opens, closes, watches, bit, opened, closed, allocated, freed}
use psdk_orangepi.Server.Tcp.{
  Client, free_slot, TcpServer, first_free, alloc_client, free_client, note, watch_client,
  accept_client,
}
use psdk_orangepi.Server.Tcp.Table.{
  used, holds, used_free, holds_free, Found, first_free-Found, first_free-some,
}

-- A partial line: below the end of the buffer, which leaves a byte for the NUL, and without a newline.
pub record IsPartial (buf : Bytes) : Type 0 where
  pub short : length buf < recv_buf_len
  pub no_line : has_byte 10 buf ≡ false

-- Each descriptor has been opened as often as it was closed, as it stands in the table, and as it is
-- one of the server's own two.
abbrev pub Accounted : TcpServer → Type 0
Accounted srv =
    (fd : ℕ)
    → opened fd srv.calls
      ≡ closed fd srv.calls
        + sum (holds fd) srv.clients
        + (bit (srv.listen_fd == fd) + bit (srv.epoll_fd == fd))

pub record IsValid (srv : TcpServer) : Type 0 where
  pub slots : length srv.clients ≡ max_clients
  pub count : srv.client_count ≡ pos (sum used srv.clients)
  pub partial : All (λ c. IsPartial c.buf) srv.clients
  pub accounted : Accounted srv
  pub memory : allocated srv.calls ≡ suc (freed srv.calls)

pub IsPartial-nil : IsPartial []
unfolding has_byte
IsPartial-nil = record { short = omega arith; no_line = refl }

-- A slot in use whose buffer is replaced.
pub store-IsValid :
    (srv : TcpServer) (i : ℕ) (n : ℕ) (buf : Bytes)
    → IsValid srv
    → Found (λ c. c.fd ≡ pos n) srv.clients i
    → IsPartial buf
    → IsValid (record srv {
      clients =
          set_at i (record { fd = (get_or srv.clients i free_slot).fd; buf = buf }) srv.clients;
    })
store-IsValid srv i n buf v f p = record {
  slots = length-set_at i _ srv.clients ∙ v.slots;
  count = v.count ∙ ap pos (omega (arith, sum-set_at used i _ free_slot srv.clients f.inside));
  partial = All-set_at (λ c. IsPartial c.buf) i _ srv.clients p v.partial;
  accounted =
      λ fd. omega (arith, v.accounted fd, sum-set_at (holds fd) i _ free_slot srv.clients f.inside);
  memory = v.memory;
}

less : (a : ℤ) (n : ℕ) → a ≡ pos (suc n) → a +ℤ negsuc 0 ≡ pos n
unfolding ◌+ℤ◌
less a n e = rw e (ground arith)

more : (a : ℤ) (n : ℕ) → a ≡ pos n → a +ℤ pos 1 ≡ pos (suc n)
unfolding ◌+ℤ◌
more a n e = rw e (ground arith)

module _ (srv : TcpServer) (i n : ℕ) (v : IsValid srv)
    (f : Found (λ c. c.fd ≡ pos n) srv.clients i) where
  changed :
      (g : Client → ℕ)
      → sum g (set_at i free_slot srv.clients) + g (get_or srv.clients i free_slot)
        ≡ sum g srv.clients + g free_slot
  changed g = sum-set_at g i free_slot free_slot srv.clients f.inside

  one : used (get_or srv.clients i free_slot) ≡ 1
  one = rw f.at refl

  held : (fd : ℕ) → holds fd (get_or srv.clients i free_slot) ≡ bit (n == fd)
  held fd = rw (f.at, holds) refl

  pub free_client-IsValid : IsValid (free_client i srv)
  unfolding free_client ◌+ℤ◌
  free_client-IsValid = record {
    slots = length-set_at i free_slot srv.clients ∙ v.slots;
    count = less srv.client_count _ (v.count ∙ ap pos (omega (arith, changed used, one)));
    partial = All-set_at (λ c. IsPartial c.buf) i free_slot srv.clients IsPartial-nil v.partial;
    accounted = λ fd. rw f.at (omega (arith, v.accounted fd, changed (holds fd), held fd));
    memory = omega (arith, v.memory);
  }

-- The table behind the first part of `accept_client`, where it has found the slot `i`.
module _ (srv : TcpServer) (i n : ℕ) (v : IsValid srv)
    (f : Found (λ c. is_neg c.fd ≡ true) srv.clients i) where
  abbrev fresh : Client
  fresh = record { fd = pos n; buf = [] }

  abbrev pub with_fresh : TcpServer
  with_fresh = record srv {
    clients = set_at i fresh srv.clients;
    client_count = srv.client_count +ℤ pos 1;
    calls = watches (pos n) ∷ opens n ∷ srv.calls;
  }

  changed_fresh :
      (g : Client → ℕ)
      → sum g (set_at i fresh srv.clients) + g (get_or srv.clients i free_slot)
        ≡ sum g srv.clients + g fresh
  changed_fresh g = sum-set_at g i fresh free_slot srv.clients f.inside

  pub with_fresh-IsValid : IsValid with_fresh
  with_fresh-IsValid = record {
    slots = length-set_at i fresh srv.clients ∙ v.slots;
    count =
        more srv.client_count _ v.count
        ∙ ap pos (omega (arith, changed_fresh used, used_free _ f.at));
    partial = All-set_at (λ c. IsPartial c.buf) i fresh srv.clients IsPartial-nil v.partial;
    accounted = λ fd. omega (arith, v.accounted fd, changed_fresh (holds fd), holds_free fd _ f.at);
    memory = omega (arith, v.memory);
  }

  pub with_fresh-Found : Found (λ c. c.fd ≡ pos n) with_fresh.clients i
  with_fresh-Found = record {
    inside = omega (arith, f.inside, length-set_at i fresh srv.clients);
    at = ap (λ (c : Client). c.fd) (get_or-set_at i fresh free_slot srv.clients f.inside);
  }

-- A connection that is closed at once.
pub turned_away-IsValid :
    (srv : TcpServer) (n : ℕ)
    → IsValid srv
    → IsValid (record srv { calls = closes (pos n) ∷ opens n ∷ srv.calls })
turned_away-IsValid srv n v = record {
  slots = v.slots;
  count = v.count;
  partial = v.partial;
  accounted = λ fd. omega (arith, v.accounted fd);
  memory = omega (arith, v.memory);
}

pub IsValid-if : (b : Bool) (x y : TcpServer) → IsValid x → IsValid y → IsValid (if b then x else y)
IsValid-if true x y p q = p
IsValid-if false x y p q = q

alloc_none :
    (fd : ℤ) (srv : TcpServer) → first_free srv.clients ≡ none → alloc_client fd srv ≡ (none, srv)
unfolding alloc_client
alloc_none fd srv e = rw (e, alloc_client) refl

pub alloc_some :
    (fd : ℤ) (i : ℕ) (srv : TcpServer)
    → first_free srv.clients ≡ some i
    → alloc_client fd srv ≡ (
      some i,
      record srv {
        clients = set_at i (record { fd = fd; buf = [] }) srv.clients;
        client_count = srv.client_count +ℤ pos 1;
      },
    )
unfolding alloc_client ◌+ℤ◌
alloc_some fd i srv e = rw (e, alloc_client) refl

placed-IsValid :
    (srv : TcpServer) (n : ℕ) (added : Bool) (o : Option ℕ)
    → first_free srv.clients ≡ o
    → IsValid srv
    → IsValid (accept_client (some n) added srv)
unfolding accept_client watch_client
placed-IsValid srv n added none e v =
    rw (alloc_none (pos n) (note (opens n) srv) e)
      (IsValid-if _ _ _ (turned_away-IsValid srv n v) (turned_away-IsValid srv n v))
placed-IsValid srv n added (some i) e v =
    let f = first_free-Found srv.clients i e in
    let w = with_fresh-IsValid srv i n v f in
    rw (alloc_some (pos n) i (note (opens n) srv) e) (
      IsValid-if _ _ _ (turned_away-IsValid srv n v) (
        IsValid-if added _ _ w
          (free_client-IsValid (with_fresh srv i n v f) i n w (with_fresh-Found srv i n v f))))

pub accept_client-IsValid :
    (accepted : Option ℕ) (added : Bool) (srv : TcpServer)
    → IsValid srv
    → IsValid (accept_client accepted added srv)
unfolding accept_client
accept_client-IsValid none added srv v = v
accept_client-IsValid (some n) added srv v =
    placed-IsValid srv n added (first_free srv.clients) refl v

below : (a : ℤ) (n : ℕ) → a ≡ pos n → ltb_ℤ a (pos max_clients) ≡ true → n < max_clients
below a n e h =
    let k : ltb_ℤ (pos n) (pos max_clients) ≡ true =
      subst (λ b. ltb_ℤ b (pos max_clients) ≡ true) e h in
    ground arith

module _ (srv : TcpServer) (v : IsValid srv)
    (room : ltb_ℤ srv.client_count (pos max_clients) ≡ true) where
  pub few : sum used srv.clients < length srv.clients
  few = ground (arith, v.slots, below srv.client_count (sum used srv.clients) v.count room)

  -- In a valid server whose client_count is below the limit, alloc_client finds a slot.
  pub alloc_client-some : (fd : ℤ) → (i : ℕ) × ((alloc_client fd srv).0 ≡ some i)
  unfolding alloc_client
  alloc_client-some fd =
      let (i, e) = first_free-some srv.clients few in (i, rw (e, alloc_client) refl)
