-- ===== src/Handler/Dispatch/Replies.antt =====
-- handler.c: what `handle_rpc` sends, and what it leaves as it was.
use psdk_orangepi.Prelude.{ℕ, zero, suc, ◌+◌, ◌≤◌, ◌≡◌, refl, ap, Option, some, arith, length}
use psdk_orangepi.Prelude.Int.{ℤ, pos, negsuc}
use psdk_orangepi.Prelude.Text.{Bytes, codes}
use psdk_orangepi.Floating.{Floating}
use psdk_orangepi.Ctrl.{DroneCtrl}
use psdk_orangepi.Proto.{
  JsonC, RpcRequest, Refs, rpc_parse, rpc_param_str, rpc_request_free, put_one,
}
use psdk_orangepi.Proto.Parsing.{IsRequest, Parsed, rpc_parse-Parsed, refs-rpc_request_free}
use psdk_orangepi.Server.Udp.{Peer}
use psdk_orangepi.Handler.{World, Clock}
use psdk_orangepi.Handler.Sending.{
  Answers, send_result-Answers, send_error-Answers, send_result-Keeps, send_error-Keeps,
}
use psdk_orangepi.Handler.Kmz.Size.{length-uploaded_json}
use psdk_orangepi.Handler.Dispatch.{Method, upload_kmz, select, run, dispatch, handle_rpc}
use psdk_orangepi.Handler.Dispatch.Outcome.{Outcome, run-Outcome}

module _ {n : ℕ} {S : Type 0} {peer : Peer} {id : ℤ} {w w' : World S} where
  server-Outcome : Outcome n peer id w w' → w'.server ≡ w.server
  server-Outcome (Outcome.result r start s h e) =
      rw e ((send_result-Keeps peer id (record w { start = start; ctrl = s }) r).server)
  server-Outcome (Outcome.error m s h e) =
      rw e ((send_error-Keeps peer id (record w { ctrl = s }) m).server)

  refs-Outcome : Outcome n peer id w w' → w'.refs ≡ w.refs
  refs-Outcome (Outcome.result r start s h e) =
      rw e ((send_result-Keeps peer id (record w { start = start; ctrl = s }) r).refs)
  refs-Outcome (Outcome.error m s h e) =
      rw e ((send_error-Keeps peer id (record w { ctrl = s }) m).refs)

  Answers-Outcome : n ≤ 4050 → Outcome n peer id w w' → Answers peer id w w'
  Answers-Outcome k (Outcome.result r start s h e) =
      rw e (send_result-Answers peer id (record w { start = start; ctrl = s }) r (omega arith))
  Answers-Outcome k (Outcome.error m s h e) =
      rw e (send_error-Answers peer id (record w { ctrl = s }) m (omega arith))

-- The root objects that a world has created and not yet released stay as many.
abbrev pub SameLive : Refs → Refs → Type 0
SameLive a b = b.created + a.released ≡ a.created + b.released

module _ {fp : Floating} (json : JsonC fp) {S : Type 0} (ctrl : DroneCtrl fp S) where
  -- An upload names a file of at most 1990 bytes.
  abbrev pub ShortName : RpcRequest json → Type 0
  ShortName req =
      (name : Bytes)
      → select req.method ≡ some upload_kmz
      → rpc_param_str json req.params (codes "file") ≡ some name
      → length name ≤ 1990

  -- A datagram that rpc_parse accepts, and that does not name a file of more than 1990 bytes for
  -- drone.upload_kmz, is answered by one call of sendto more than before and no other: a whole
  -- datagram to the peer, which is the result text or the error text for the id of the request.
  pub handle_rpc-Answers :
      (clock : Clock) (peer : Peer) (line : Bytes) (w : World S) (req : RpcRequest json)
      (refs : Refs)
      → rpc_parse json line w.refs ≡ (pos 0, req, refs)
      → ShortName req
      → Answers peer req.id w (handle_rpc json ctrl clock peer line w)
  unfolding handle_rpc dispatch
  handle_rpc-Answers clock peer line w req refs parsed short =
      rw (parsed, handle_rpc)
        (Answers-Outcome (omega arith) (
          run-Outcome 4050 (omega arith) ctrl json clock peer req.id req.params
            (record w { refs = refs }) (select req.method)
            (λ name e found. omega (arith, length-uploaded_json name, short name e found))))

  refs-run :
      (m : Option Method) (clock : Clock) (peer : Peer) (id : ℤ) (p : Option json.Json)
      (w : World S)
      → (run json ctrl m clock peer id p w).refs ≡ w.refs
  refs-run m clock peer id p w = refs-Outcome (
      run-Outcome 4159 (omega arith) ctrl json clock peer id p w m
        (λ name e found. omega (arith, length-uploaded_json name)))

  server-dispatch :
      (clock : Clock) (peer : Peer) (rc : ℤ) (req : RpcRequest json) (w : World S)
      → (dispatch json ctrl clock peer rc req w).server ≡ w.server
  unfolding dispatch
  server-dispatch clock peer (negsuc n) req w = refl
  server-dispatch clock peer (pos (suc n)) req w = refl
  server-dispatch clock peer (pos zero) req w = server-Outcome (
      run-Outcome 4159 (omega arith) ctrl json clock peer req.id req.params w (select req.method)
        (λ name e found. omega (arith, length-uploaded_json name)))

  pub handle_rpc-server :
      (clock : Clock) (peer : Peer) (line : Bytes) (w : World S)
      → (handle_rpc json ctrl clock peer line w).server ≡ w.server
  unfolding handle_rpc
  handle_rpc-server clock peer line w = server-dispatch clock peer _ _ _

  dispatch-ne :
      (clock : Clock) (peer : Peer) (rc : ℤ) (req : RpcRequest json) (w : World S)
      → rc ≡ negsuc 0
      → dispatch json ctrl clock peer rc req w ≡ w
  unfolding dispatch
  dispatch-ne clock peer rc req w h = rw h refl

  refused-rc :
      (line : Bytes) (refs : Refs) → ¬ IsRequest json line → (rpc_parse json line refs).0 ≡ negsuc 0
  refused-rc line refs h = go (rpc_parse-Parsed json line refs)
    where
      go :
          Parsed json line refs (rpc_parse json line refs) → (rpc_parse json line refs).0 ≡ negsuc 0
      go (Parsed.accepted q _ _ _ _) = absurd (h q)
      go (Parsed.refused _ e _) = e

  -- A line that is not a JSON object with a member "method" is dropped: handle_rpc keeps the world
  -- but for the counts of root objects that rpc_parse leaves, so nothing is sent and the drone
  -- control layer is not reached.
  pub handle_rpc_ignores :
      (clock : Clock) (peer : Peer) (line : Bytes) (w : World S)
      → ¬ IsRequest json line
      → handle_rpc json ctrl clock peer line w ≡ record w { refs = (rpc_parse json line w.refs).2 }
  unfolding handle_rpc
  handle_rpc_ignores clock peer line w h = dispatch-ne clock peer _ _ _ (refused-rc line w.refs h)

  dispatch-SameLive :
      (clock : Clock) (peer : Peer) (line : Bytes) (w : World S) (r : ℤ × RpcRequest json × Refs)
      → Parsed json line w.refs r
      → SameLive w.refs (dispatch json ctrl clock peer r.0 r.1 (record w { refs = r.2 })).refs
  unfolding dispatch rpc_request_free
  dispatch-SameLive clock peer line w r (Parsed.accepted q rc root _ refs) = rw rc (
      omega (
        arith,
        ap (λ (u : Refs). u.created) freed,
        ap (λ (u : Refs). u.released) freed,
        ap (λ (u : Refs). u.created) kept,
        ap (λ (u : Refs). u.released) kept,
        ap (λ (u : Refs). u.created) refs,
        ap (λ (u : Refs). u.released) refs,
      ))
    where
      done : World S
      done =
          run json ctrl (select r.1.method) clock peer r.1.id r.1.params (record w { refs = r.2 })

      kept : done.refs ≡ r.2
      kept = refs-run (select r.1.method) clock peer r.1.id r.1.params (record w { refs = r.2 })

      freed : (rpc_request_free json r.1 done.refs).1 ≡ put_one json done.refs
      freed = refs-rpc_request_free json r.1 q.root done.refs root
  dispatch-SameLive clock peer line w r (Parsed.refused _ rc live) = rw rc live

  -- Whatever the line, handle_rpc releases with json_object_put as many root objects as it
  -- created: the number of those created and not released is the same after it.
  pub handle_rpc-SameLive :
      (clock : Clock) (peer : Peer) (line : Bytes) (w : World S)
      → SameLive w.refs (handle_rpc json ctrl clock peer line w).refs
  unfolding handle_rpc
  handle_rpc-SameLive clock peer line w =
      dispatch-SameLive clock peer line w _ (rpc_parse-Parsed json line w.refs)
