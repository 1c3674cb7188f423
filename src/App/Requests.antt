-- ===== src/App/Requests.antt =====
-- app/main.c with udp_server.c and rpc.c: which datagrams of a run of the poll loop are requests, and
-- how what one request comes to carries over to a run.
use psdk_orangepi.Prelude.{
  ◌≡◌, refl, sym, subst, ◌⊎◌, inl, inr, Bool, true, false, Option, none, some, List, [], ◌∷◌, ◌++◌,
  append-nil, arith, All, All-each, if◌then◌else◌, Bool-cases, Option-cases,
}
use psdk_orangepi.Prelude.Int.{ℤ}
use psdk_orangepi.Prelude.Text.{Bytes, codes, c_string}
use psdk_orangepi.Floating.{Floating}
use psdk_orangepi.Ctrl.{DroneCtrl}
use psdk_orangepi.Proto.{JsonC}
use psdk_orangepi.Proto.Parsing.{IsRequest, request_id}
use psdk_orangepi.Server.Udp.{Peer, deliver, udp_server_poll}
use psdk_orangepi.Handler.{World, Clock}
use psdk_orangepi.Handler.Dispatch.{handle_rpc}
use psdk_orangepi.App.{Poll, poll_all}

abbrev note_call : Peer → Bytes → List (Peer × Bytes) → List (Peer × Bytes)
note_call peer line calls = (peer, line) ∷ calls

-- The call of the callback that a round makes, none for a round without a text.
abbrev pub callbacks : Poll → List (Peer × Bytes)
callbacks p = udp_server_poll note_call p.ready p.received []

-- What the calls of the callback in a run are to a reading of them.
module _ {Q : Type 0} (reading : Clock → Peer × Bytes → List Q) where
  abbrev pub gather_in : Clock → List (Peer × Bytes) → List Q
  gather_in clock [] = []
  gather_in clock (c ∷ cs) = reading clock c ++ gather_in clock cs

  abbrev pub gather : List Poll → List Q
  gather [] = []
  gather (p ∷ ps) = gather_in p.clock (callbacks p) ++ gather ps

module _ {fp : Floating} (json : JsonC fp) where
  open json use {Json, parse, is_object, get_ex}

  -- The request that a line is: a JSON object with a member "method".
  abbrev pub asked_of : Peer → Json → Bool → Option (Option Json) → List (Peer × ℤ)
  asked_of peer root true (some name) = (peer, request_id json root) ∷ []
  asked_of peer root true none = []
  asked_of peer root false name = []

  abbrev pub asked : Peer × Bytes → List (Peer × ℤ)
  asked (peer, line) = elim (parse (c_string line)) [
    | none ↦ []
    | some root ↦ asked_of peer root (is_object root) (get_ex root (codes "method"))
  ]

  abbrev pub requests : List Poll → List (Peer × ℤ)
  requests = gather (λ clock. asked)

  pub asked-cases :
      (peer : Peer) (line : Bytes)
      → ((¬ IsRequest json line) × (asked (peer, line) ≡ []))
        ⊎ ((q : IsRequest json line) × (asked (peer, line) ≡ (peer, request_id json q.root) ∷ []))
  asked-cases peer line = elim (Option-cases (parse (c_string line))) [
    | inl e ↦ inl ((λ r. ground (arith, r.parsed)), rw (e, asked) refl)
    | inr (root, e) ↦ elim (Bool-cases (is_object root)) [
      | inr f ↦ inl ((λ r. ground (arith, r.parsed, r.object)), rw (e, f, asked) refl)
      | inl f ↦ elim (Option-cases (get_ex root (codes "method"))) [
        | inl g ↦ inl ((λ r. ground (arith, r.parsed, r.has_method)), rw (e, f, g, asked) refl)
        | inr (name, g) ↦ inr (
          record { root = root; name = name; parsed = e; object = f; has_method = g },
          rw (e, f, g, asked) refl,
        )
      ]
    ]
  ]

-- A relation between the worlds before and behind what was read, which holds of nothing and of one
-- reading behind another.
pub record Composes {Q S : Type 0} (P : List Q → World S → World S → Type 0) : Type 0 where
  pub same : (w : World S) → P [] w w
  pub step : (qs qs' : List Q) (w w' w'' : World S) → P qs w w' → P qs' w' w'' → P (qs ++ qs') w w''

module _ {fp : Floating} (json : JsonC fp) {S : Type 0} (ctrl : DroneCtrl fp S) {Q : Type 0}
    (reading : Clock → Peer × Bytes → List Q) (P : List Q → World S → World S → Type 0)
    (composes : Composes P) (Ok : Peer × Bytes → Type 0)
    (call : (clock : Clock) (peer : Peer) (line : Bytes) (w : World S)
      → Ok (peer, line)
      → P (reading clock (peer, line)) w (handle_rpc json ctrl clock peer line w)) where
  called_if :
      (b : Bool) (clock : Clock) (peer : Peer) (line : Bytes) (w : World S)
      → All Ok (if b then [] else (peer, line) ∷ [])
      → P
          (gather_in reading clock (if b then [] else (peer, line) ∷ []))
          w
          (if b then w else handle_rpc json ctrl clock peer line w)
  called_if true clock peer line w h = composes.same w
  called_if false clock peer line w h =
      subst (λ qs. P qs w (handle_rpc json ctrl clock peer line w))
        (sym (append-nil (reading clock (peer, line)))) (call clock peer line w h.0)

  round :
      (clock : Clock) (ready : Bool) (received : Option (Peer × Bytes)) (w : World S)
      → All Ok (udp_server_poll note_call ready received [])
      → P
          (gather_in reading clock (udp_server_poll note_call ready received []))
          w
          (udp_server_poll (handle_rpc json ctrl clock) ready received w)
  unfolding udp_server_poll deliver
  round clock false received w h = composes.same w
  round clock true none w h = composes.same w
  round clock true (some (peer, data_in)) w h = called_if _ clock peer _ w h

  -- What holds of each call of the callback holds of a run of the poll loop.
  pub poll_all-Composes :
      (polls : List Poll) (w : World S)
      → All (λ p. All Ok (callbacks p)) polls
      → P (gather reading polls) w (poll_all json ctrl polls w)
  unfolding poll_all
  poll_all-Composes [] w h = composes.same w
  poll_all-Composes (p ∷ ps) w h =
      composes.step (gather_in reading p.clock (callbacks p)) (gather reading ps) w _ _
        (round p.clock p.ready p.received w h.0) (poll_all-Composes ps _ h.1)

module _ {fp : Floating} (json : JsonC fp) {S : Type 0} (ctrl : DroneCtrl fp S) {Q : Type 0}
    (reading : Clock → Peer × Bytes → List Q) (P : List Q → World S → World S → Type 0)
    (composes : Composes P) where
  -- The same, of what holds of every call.
  pub poll_all-Always :
      ((clock : Clock) (peer : Peer) (line : Bytes) (w : World S)
        → P (reading clock (peer, line)) w (handle_rpc json ctrl clock peer line w))
      → (polls : List Poll) (w : World S) → P (gather reading polls) w (poll_all json ctrl polls w)
  poll_all-Always call polls w =
      poll_all-Composes json ctrl reading P composes (λ c. Unit)
        (λ clock peer line w h. call clock peer line w) polls w
        (All-each (λ p. All (λ c. Unit) (callbacks p))
          (λ p. All-each (λ c. Unit) (λ c. tt) (callbacks p)) polls)
