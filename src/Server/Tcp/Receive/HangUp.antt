-- ===== src/Server/Tcp/Receive/HangUp.antt =====
-- tcp_server.c: a client that closes its side of the connection.
use psdk_orangepi.Prelude.{
  ℕ, ◌≡◌, refl, Bool, true, false, Option, none, List, [], ◌∷◌, ◌++◌, take, get_or, ◌==◌,
  if◌then◌else◌,
}
use psdk_orangepi.Prelude.Int.{ℤ}
use psdk_orangepi.Prelude.Text.{Bytes}
use psdk_orangepi.Server.Tcp.{free_slot, TcpServer, free_client}
use psdk_orangepi.Server.Tcp.Receive.{ReadResult, got, space, fill, recv_client}

-- Reads of data, one after the other.
abbrev pub gots : List Bytes → List ReadResult
gots [] = []
gots (d ∷ ds) = got d ∷ gots ds

if_same : (b : Bool) (o : Option Bytes) → (if b then o else o) ≡ o
if_same true o = refl
if_same false o = refl

fill_end : (ds : List Bytes) (buf : Bytes) → fill buf (gots ds ++ got [] ∷ []) ≡ none
unfolding fill
fill_end [] buf = refl
fill_end ([] ∷ ds) buf = refl
fill_end ((c ∷ cs) ∷ ds) buf =
    rw (fill_end ds (buf ++ take (space buf) (c ∷ cs)), fill) (if_same (space buf == 0) none)

module _ {W : Type 0} (on_message : ℤ → Bytes → W → Bool × W) where
  -- Where reads of any data are followed by the end of the stream, recv_client closes the client
  -- and the callback has not been called for any line of that data.
  pub recv_client-hang_up :
      (i : ℕ) (ds : List Bytes) (srv : TcpServer) (w : W)
      → recv_client on_message i (gots ds ++ got [] ∷ []) srv w ≡ (free_client i srv, w)
  unfolding recv_client
  recv_client-hang_up i ds srv w =
      rw (fill_end ds (get_or srv.clients i free_slot).buf, recv_client) refl
