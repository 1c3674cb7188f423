-- ===== src/Handler/Sending.antt =====
-- handler.c: `send_result`, `send_error` and the two tails that most handlers end in.
use psdk_orangepi.Prelude.{
  ℕ, ◌-◌, ◌≤◌, ◌<◌, ◌≡◌, refl, ap, Option, none, [], ◌∷◌, ◌++◌, arith, length, take_all,
  take-append, lt→ltb, le→ltb_false,
}
use psdk_orangepi.Prelude.Int.{ℤ}
use psdk_orangepi.Prelude.Text.{Bytes, length-print_int}
use psdk_orangepi.Types.{DroneError, ok, max_msg_len}
use psdk_orangepi.Proto.{
  snprintf, rpc_build_result, rpc_build_error, or_empty_object, result_text, error_text,
}
use psdk_orangepi.Proto.Framing.{length-result_text, length-error_text}
use psdk_orangepi.Server.Udp.{Peer, UdpServer, Outgoing, datagram, overrun, udp_server_send}
use psdk_orangepi.Handler.{World, send_printed, send_result, send_error, reply_status}

-- One datagram to the peer that carries the whole text of a result or of an error for the id.
pub data IsReply (fd : ℕ) (peer : Peer) (id : ℤ) (o : Outgoing) : Type 0 where
  result : (r : Bytes) → o ≡ datagram fd peer (result_text id r) → IsReply fd peer id o
  error : (m : Bytes) → o ≡ datagram fd peer (error_text id m) → IsReply fd peer id o

-- The world `w'` has sent one reply more than `w`, and nothing else.
abbrev pub Answers : {S : Type 0} → Peer → ℤ → World S → World S → Type 0
Answers peer id w w' = (o : Outgoing) × IsReply w.server.fd peer id o × (w'.sent ≡ w.sent ++ o ∷ [])

pub udp_server_send_fits :
    (srv : UdpServer) (peer : Peer) (size : ℕ) (s : Bytes)
    → length s < size
    → udp_server_send srv peer size (snprintf size s) ≡ datagram srv.fd peer s
unfolding udp_server_send snprintf
udp_server_send_fits srv peer size s h =
    rw (le→ltb_false size (length s) (omega arith), take_all (size - 1) s (omega arith))
      (ap (datagram srv.fd peer) (take-append s (0 ∷ [])))

module _ {S : Type 0} (peer : Peer) (id : ℤ) (w : World S) where
  -- A printed text that is not empty and fits is sent whole.
  pub send_printed_fits :
      (s : Bytes)
      → 0 < length s
      → length s < max_msg_len
      → send_printed peer (snprintf max_msg_len s) w
        ≡ record w { sent = w.sent ++ datagram w.server.fd peer s ∷ [] }
  unfolding send_printed snprintf
  send_printed_fits s pos fits = rw (lt→ltb 0 (length s) pos) (
      ap (λ o. record w { sent = w.sent ++ o ∷ [] })
        (udp_server_send_fits w.server peer max_msg_len s fits))

  -- A longer text than the buffer is sent with its whole length.
  pub send_printed_overruns :
      (s : Bytes)
      → max_msg_len < length s
      → send_printed peer (snprintf max_msg_len s) w
        ≡ record w { sent = w.sent ++ overrun w.server.fd peer (length s) ∷ [] }
  unfolding send_printed snprintf udp_server_send
  send_printed_overruns s h =
      rw (lt→ltb 0 (length s) (omega arith)) (rw (lt→ltb max_msg_len (length s) h) refl)

  pub send_result_fits :
      (r : Option Bytes)
      → length (or_empty_object r) ≤ 4050
      → send_result peer id r w ≡ record w {
        sent = w.sent ++ datagram w.server.fd peer (result_text id (or_empty_object r)) ∷ [];
      }
  unfolding send_result rpc_build_result
  send_result_fits r h =
      send_printed_fits (result_text id (or_empty_object r)) (omega arith)
        (omega (arith, length-result_text id (or_empty_object r), length-print_int id))

  pub send_result_overruns :
      (r : Option Bytes)
      → max_msg_len < length (result_text id (or_empty_object r))
      → send_result peer id r w ≡ record w {
        sent =
            w.sent ++ overrun w.server.fd peer (length (result_text id (or_empty_object r))) ∷ [];
      }
  unfolding send_result rpc_build_result
  send_result_overruns r h = send_printed_overruns (result_text id (or_empty_object r)) h

  pub send_error_fits :
      (m : Bytes)
      → length m ≤ 4050
      → send_error peer id m w
        ≡ record w { sent = w.sent ++ datagram w.server.fd peer (error_text id m) ∷ [] }
  unfolding send_error rpc_build_error
  send_error_fits m h =
      send_printed_fits (error_text id m) (omega arith)
        (omega (arith, length-error_text id m, length-print_int id))

  pub send_result-Answers :
      (r : Option Bytes)
      → length (or_empty_object r) ≤ 4050
      → Answers peer id w (send_result peer id r w)
  send_result-Answers r h =
      rw (send_result_fits r h) (
        datagram w.server.fd peer (result_text id (or_empty_object r)),
        IsReply.result _ refl,
        refl,
      )

  pub send_error-Answers :
      (m : Bytes) → length m ≤ 4050 → Answers peer id w (send_error peer id m w)
  send_error-Answers m h =
      rw (send_error_fits m h)
        (datagram w.server.fd peer (error_text id m), IsReply.error m refl, refl)

  pub reply_status-Answers :
      (err : DroneError) (m : Bytes)
      → length m ≤ 4050
      → Answers peer id w (reply_status peer id err m w)
  unfolding reply_status
  reply_status-Answers ok m h = send_result-Answers none (omega arith)
  reply_status-Answers _ m h = send_error-Answers m h

-- What every sending leaves alone.
pub record Keeps (S : Type 0) (w w' : World S) : Type 0 where
  pub server : w'.server ≡ w.server
  pub start : w'.start ≡ w.start
  pub refs : w'.refs ≡ w.refs
  pub ctrl : w'.ctrl ≡ w.ctrl

module _ {S : Type 0} (peer : Peer) (id : ℤ) (w : World S) where
  pub send_result-Keeps : (r : Option Bytes) → Keeps S w (send_result peer id r w)
  unfolding send_result send_printed
  send_result-Keeps r = ground arith

  pub send_error-Keeps : (m : Bytes) → Keeps S w (send_error peer id m w)
  unfolding send_error send_printed
  send_error-Keeps m = ground arith

  pub reply_status-Keeps : (err : DroneError) (m : Bytes) → Keeps S w (reply_status peer id err m w)
  unfolding reply_status
  reply_status-Keeps ok m = send_result-Keeps none
  reply_status-Keeps _ m = send_error-Keeps m
