-- ===== src/Handler/Dispatch/Echo.antt =====
-- handler.c with rpc.c: the id in a reply.
use psdk_orangepi.Prelude.{ℕ, ◌≤◌, ◌≡◌, refl, ap, ◌∙◌, [], ◌∷◌, ◌++◌, arith, drop}
use psdk_orangepi.Prelude.Int.{ℤ, pos, pos_part, neg_part}
use psdk_orangepi.Prelude.Text.{Bytes}
use psdk_orangepi.Prelude.Decimal.{atoi, atoi-print_int}
use psdk_orangepi.Floating.{Floating}
use psdk_orangepi.Ctrl.{DroneCtrl}
use psdk_orangepi.Proto.{JsonC, RpcRequest, Refs, rpc_parse, result_text, error_text}
use psdk_orangepi.Server.Udp.{Peer, Outgoing, datagram}
use psdk_orangepi.Handler.{World, Clock}
use psdk_orangepi.Handler.Sending.{IsReply}
use psdk_orangepi.Handler.Dispatch.{handle_rpc}
use psdk_orangepi.Handler.Dispatch.Replies.{ShortName, handle_rpc-Answers}

-- A value of the C type `int`.
pub record IsInt (n : ℤ) : Type 0 where
  pub low : neg_part n ≤ 2_147_483_648
  pub high : pos_part n ≤ 2_147_483_647

-- The number behind `{"id":`, as a client reads it.
abbrev pub id_in : Bytes → ℤ
id_in text = atoi (drop 6 text)

result_id : (id : ℤ) (r : Bytes) → IsInt id → id_in (result_text id r) ≡ id
result_id id r h = atoi-print_int id 44 _ (omega (arith, h.high)) (omega (arith, h.low)) refl

error_id : (id : ℤ) (m : Bytes) → IsInt id → id_in (error_text id m) ≡ id
error_id id m h = atoi-print_int id 44 _ (omega (arith, h.high)) (omega (arith, h.low)) refl

IsReply-id :
    {fd : ℕ} {peer : Peer} (id : ℤ) (o : Outgoing)
    → IsInt id
    → IsReply fd peer id o
    → (text : Bytes) × (o ≡ datagram fd peer text) × (id_in text ≡ id)
IsReply-id id o h (IsReply.result r e) = (result_text id r, e, result_id id r h)
IsReply-id id o h (IsReply.error m e) = (error_text id m, e, error_id id m h)

module _ {fp : Floating} (json : JsonC fp) {S : Type 0} (ctrl : DroneCtrl fp S) where
  -- The datagram that answers a request whose id is a C int, and that does not name a file of more
  -- than 1990 bytes for drone.upload_kmz, has the id behind its first six bytes in a form that
  -- atoi reads back.
  pub handle_rpc-echoes :
      (clock : Clock) (peer : Peer) (line : Bytes) (w : World S) (req : RpcRequest json)
      (refs : Refs)
      → rpc_parse json line w.refs ≡ (pos 0, req, refs)
      → ShortName json ctrl req
      → IsInt req.id
      → (text : Bytes) × ((handle_rpc json ctrl clock peer line w).sent
          ≡ w.sent ++ datagram w.server.fd peer text ∷ [])
        × (id_in text ≡ req.id)
  handle_rpc-echoes clock peer line w req refs parsed short int =
      let (o, reply, sent) = handle_rpc-Answers json ctrl clock peer line w req refs parsed short in
      let (text, e, id) = IsReply-id req.id o int reply in
      (text, sent ∙ ap (λ o. w.sent ++ o ∷ []) e, id)
