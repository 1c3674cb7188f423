-- ===== src/App/Answered.antt =====
-- app/main.c with udp_server.c, rpc.c and handler.c: which datagrams of a run of the poll loop are
-- answered, and in which order.
use psdk_orangepi.Prelude.{
  ℕ, ◌≡◌, refl, sym, ap, subst, ◌∙◌, List, [], ◌∷◌, ◌++◌, append-nil, append_assoc, All, inl, inr,
}
use psdk_orangepi.Prelude.Int.{ℤ, pos}
use psdk_orangepi.Prelude.Text.{Bytes}
use psdk_orangepi.Floating.{Floating}
use psdk_orangepi.Ctrl.{DroneCtrl}
use psdk_orangepi.Proto.{JsonC, RpcRequest, Refs, rpc_parse}
use psdk_orangepi.Proto.Parsing.{IsRequest, request_id, rpc_parse-Accepted}
use psdk_orangepi.Server.Udp.{Peer, UdpServer, Outgoing}
use psdk_orangepi.Handler.{World, Clock}
use psdk_orangepi.Handler.Sending.{IsReply}
use psdk_orangepi.Handler.Dispatch.{handle_rpc}
use psdk_orangepi.Handler.Dispatch.Replies.{
  ShortName, handle_rpc-Answers, handle_rpc_ignores, handle_rpc-server,
}
use psdk_orangepi.App.{Poll, poll_all}
use psdk_orangepi.App.Requests.{callbacks, asked, requests, asked-cases, poll_all-Composes}

-- One reply for each request: to its peer and for its id, in the order of the requests.
pub data InOrder (fd : ℕ) : List (Peer × ℤ) → List Outgoing → Type 0 where
  in_order_nil : InOrder fd [] []
  in_order_cons :
      {peer : Peer} {id : ℤ} {o : Outgoing} {qs : List (Peer × ℤ)} {os : List Outgoing}
      → IsReply fd peer id o
      → InOrder fd qs os
      → InOrder fd ((peer, id) ∷ qs) (o ∷ os)

InOrder-append :
    {fd : ℕ} {qs qs' : List (Peer × ℤ)} {os os' : List Outgoing}
    → InOrder fd qs os
    → InOrder fd qs' os'
    → InOrder fd (qs ++ qs') (os ++ os')
InOrder-append in_order_nil r = r
InOrder-append (in_order_cons h q) r = in_order_cons h (InOrder-append q r)

-- The world behind it has the replies to the requests more.
pub record IsAnswered {S : Type 0} (qs : List (Peer × ℤ)) (w w' : World S) : Type 0 where
  pub replies : List Outgoing
  pub sent : w'.sent ≡ w.sent ++ replies
  pub in_order : InOrder w.server.fd qs replies
  pub server : w'.server ≡ w.server

same-IsAnswered :
    {S : Type 0} (w w' : World S) → w'.sent ≡ w.sent → w'.server ≡ w.server → IsAnswered [] w w'
same-IsAnswered w w' e f = record {
  replies = [];
  sent = e ∙ sym (append-nil w.sent);
  in_order = in_order_nil;
  server = f;
}

then-IsAnswered :
    {S : Type 0} (qs qs' : List (Peer × ℤ)) (w w' w'' : World S)
    → IsAnswered qs w w'
    → IsAnswered qs' w' w''
    → IsAnswered (qs ++ qs') w w''
then-IsAnswered qs qs' w w' w'' a b = record {
  replies = a.replies ++ b.replies;
  sent = b.sent ∙ ap (λ s. s ++ b.replies) a.sent ∙ append_assoc w.sent a.replies b.replies;
  in_order =
      InOrder-append a.in_order
        (subst (λ (s : UdpServer). InOrder s.fd qs' b.replies) a.server b.in_order);
  server = b.server ∙ a.server;
}

module _ {fp : Floating} (json : JsonC fp) {S : Type 0} (ctrl : DroneCtrl fp S) where
  -- A line names no file of more than 1990 bytes for drone.upload_kmz.
  abbrev pub IsShort : Peer × Bytes → Type 0
  IsShort c =
      (req : RpcRequest json) (refs refs' : Refs)
      → rpc_parse json c.1 refs ≡ (pos 0, req, refs')
      → ShortName json ctrl req

  -- The calls of the callback in a round.
  abbrev pub AreShort : Poll → Type 0
  AreShort p = All IsShort (callbacks p)

  ignored :
      (clock : Clock) (peer : Peer) (line : Bytes) (w : World S)
      → ¬ IsRequest json line
      → IsAnswered [] w (handle_rpc json ctrl clock peer line w)
  ignored clock peer line w h =
      rw (handle_rpc_ignores json ctrl clock peer line w h) (same-IsAnswered w _ refl refl)

  served :
      (clock : Clock) (peer : Peer) (line : Bytes) (w : World S) (q : IsRequest json line)
      → IsShort (peer, line)
      → IsAnswered ((peer, request_id json q.root) ∷ []) w (handle_rpc json ctrl clock peer line w)
  served clock peer line w q short =
      let k = rpc_parse-Accepted json line w.refs q in
      let (o, reply, sent) =
        handle_rpc-Answers json ctrl clock peer line w k.req k.refs_after k.returned
          (short k.req w.refs k.refs_after k.returned) in
      record {
        replies = o ∷ [];
        sent = sent;
        in_order =
            in_order_cons (subst (λ id. IsReply w.server.fd peer id o) k.id reply) in_order_nil;
        server = handle_rpc-server json ctrl clock peer line w;
      }

  handle_rpc-IsAnswered :
      (clock : Clock) (peer : Peer) (line : Bytes) (w : World S)
      → IsShort (peer, line)
      → IsAnswered (asked json (peer, line)) w (handle_rpc json ctrl clock peer line w)
  handle_rpc-IsAnswered clock peer line w short = elim (asked-cases json peer line) [
    | inl (h, e) ↦ rw e (ignored clock peer line w h)
    | inr (q, e) ↦ rw e (served clock peer line w q short)
  ]

  -- In any run of the poll loop in which no request names a file of more than 1990 bytes for
  -- drone.upload_kmz, the datagrams sent are, one for each, the replies to the requests received,
  -- in their order: to the peer of the request, with the result text or the error text for its id,
  -- where a request is a datagram whose text is a JSON object with a member "method".
  pub poll_all-IsAnswered :
      (polls : List Poll) (w : World S)
      → All AreShort polls
      → IsAnswered (requests json polls) w (poll_all json ctrl polls w)
  poll_all-IsAnswered =
      poll_all-Composes json ctrl (λ clock. asked json) IsAnswered
        (record { same = λ w. same-IsAnswered w w refl refl; step = then-IsAnswered }) IsShort
        handle_rpc-IsAnswered
