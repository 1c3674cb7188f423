-- ===== src/App/Service.antt =====
-- app/main.c with handler.c: what a whole run of the poll loop sends and keeps.
use psdk_orangepi.Prelude.{
  ℕ, zero, suc, ◌≤◌, ◌<◌, ◌≡◌, refl, sym, ap, ◌∙◌, ◌++◌, append-nil, append_assoc, Bool, true,
  false, Option, none, some, List, [], ◌∷◌, arith, length, length-append, lt→ltb, if◌then◌else◌,
}
use psdk_orangepi.Prelude.Int.{ℤ, pos, negsuc}
use psdk_orangepi.Prelude.Text.{Bytes}
use psdk_orangepi.Floating.{Floating}
use psdk_orangepi.Proto.{
  JsonC, RpcRequest, Printed, snprintf, or_empty_object, rpc_build_result, rpc_build_error,
}
use psdk_orangepi.Proto.Framing.{length-result_text, length-error_text}
use psdk_orangepi.Ctrl.{DroneCtrl}
use psdk_orangepi.Server.Udp.{Peer, Outgoing, deliver, udp_server_poll}
use psdk_orangepi.Handler.{World, Clock, send_printed, send_result, send_error}
use psdk_orangepi.Handler.Kmz.Size.{length-uploaded_json}
use psdk_orangepi.Handler.Dispatch.{select, dispatch, handle_rpc}
use psdk_orangepi.Handler.Dispatch.Outcome.{Outcome, run-Outcome}
use psdk_orangepi.Handler.Dispatch.Replies.{SameLive, handle_rpc-SameLive}
use psdk_orangepi.App.{Poll, poll_all}

module _ {S : Type 0} (peer : Peer) (id : ℤ) (w : World S) where
  -- One datagram more, behind those before it.
  abbrev SentOne : World S → Type 0
  SentOne w' = (o : Outgoing) × (w'.sent ≡ w.sent ++ o ∷ [])

  printed_one : (buf : Printed) → 0 < buf.ret → SentOne (send_printed peer buf w)
  unfolding send_printed
  printed_one buf h = rw (lt→ltb 0 buf.ret h) (_, refl)

  result_one : (r : Option Bytes) → SentOne (send_result peer id r w)
  unfolding send_result rpc_build_result snprintf
  result_one r = printed_one _ (omega (arith, length-result_text id (or_empty_object r)))

  error_one : (m : Bytes) → SentOne (send_error peer id m w)
  unfolding send_error rpc_build_error snprintf
  error_one m = printed_one _ (omega (arith, length-error_text id m))

sent-Outcome :
    {n : ℕ} {S : Type 0} {peer : Peer} {id : ℤ} {w w' : World S}
    → Outcome n peer id w w'
    → (o : Outgoing) × (w'.sent ≡ w.sent ++ o ∷ [])
sent-Outcome {peer = peer} {id = id} {w = w} (Outcome.result r start s h e) =
    rw e (result_one peer id (record w { start = start; ctrl = s }) r)
sent-Outcome {peer = peer} {id = id} {w = w} (Outcome.error m s h e) =
    rw e (error_one peer id (record w { ctrl = s }) m)

-- At most so many replies more, behind all that were sent before, and as many root objects that are not
-- released.
pub record Sound {S : Type 0} (most : ℕ) (w w' : World S) : Type 0 where
  pub new : List Outgoing
  pub sent : w'.sent ≡ w.sent ++ new
  pub few : length new ≤ most
  pub live : SameLive w.refs w'.refs

module _ {fp : Floating} (json : JsonC fp) {S : Type 0} (ctrl : DroneCtrl fp S) where
  dispatch_one :
      (clock : Clock) (peer : Peer) (rc : ℤ) (req : RpcRequest json) (w : World S)
      → (new : List Outgoing) × ((dispatch json ctrl clock peer rc req w).sent ≡ w.sent ++ new)
        × (length new ≤ 1)
  unfolding dispatch
  dispatch_one clock peer (negsuc n) req w = ([], sym (append-nil w.sent), omega arith)
  dispatch_one clock peer (pos (suc n)) req w = ([], sym (append-nil w.sent), omega arith)
  dispatch_one clock peer (pos zero) req w =
      let (o, e) = sent-Outcome (
        run-Outcome 4159 (omega arith) ctrl json clock peer req.id req.params w (select req.method)
          (λ name e found. omega (arith, length-uploaded_json name))) in
      (o ∷ [], e, omega arith)

  handle_rpc-Sound :
      (clock : Clock) (peer : Peer) (line : Bytes) (w : World S)
      → Sound 1 w (handle_rpc json ctrl clock peer line w)
  unfolding handle_rpc
  handle_rpc-Sound clock peer line w =
      let (new, e, few) = dispatch_one clock peer _ _ _ in
      record {
        new = new;
        sent = e;
        few = few;
        live = handle_rpc-SameLive json ctrl clock peer line w;
      }

  same-Sound : (n : ℕ) (w : World S) → Sound n w w
  same-Sound n w = record {
    new = [];
    sent = sym (append-nil w.sent);
    few = omega arith;
    live = omega arith;
  }

  Sound-if : (b : Bool) (w w' : World S) → Sound 1 w w' → Sound 1 w (if b then w else w')
  Sound-if true w w' h = same-Sound 1 w
  Sound-if false w w' h = h

  udp_server_poll-Sound :
      (clock : Clock) (ready : Bool) (received : Option (Peer × Bytes)) (w : World S)
      → Sound 1 w (udp_server_poll (handle_rpc json ctrl clock) ready received w)
  unfolding udp_server_poll deliver
  udp_server_poll-Sound clock false received w = same-Sound 1 w
  udp_server_poll-Sound clock true none w = same-Sound 1 w
  udp_server_poll-Sound clock true (some (peer, data_in)) w =
      Sound-if _ w _ (handle_rpc-Sound clock peer _ w)

  -- Any run of the poll loop sends at most one reply for each round, behind all that was sent
  -- before, which stays as it is, and leaves as many root objects that are created and not
  -- released as before.
  pub poll_all-Sound :
      (polls : List Poll) (w : World S) → Sound (length polls) w (poll_all json ctrl polls w)
  unfolding poll_all
  poll_all-Sound [] w = same-Sound 0 w
  poll_all-Sound (p ∷ ps) w =
      let w' = udp_server_poll (handle_rpc json ctrl p.clock) p.ready p.received w in
      let one = udp_server_poll-Sound p.clock p.ready p.received w in
      let rest = poll_all-Sound ps w' in
      record {
        new = one.new ++ rest.new;
        sent = rest.sent ∙ ap (λ s. s ++ rest.new) one.sent ∙ append_assoc w.sent one.new rest.new;
        few = omega (arith, one.few, rest.few, length-append one.new rest.new);
        live = omega (arith, one.live, rest.live);
      }
