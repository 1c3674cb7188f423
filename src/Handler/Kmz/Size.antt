-- ===== src/Handler/Kmz/Size.antt =====
-- handler.c: how long the reply to an upload is, beside the buffer of `send_result`.
use psdk_orangepi.Prelude.{
  ℕ, ◌+◌, ◌≤◌, ◌<◌, ◌≡◌, ap, min, false, Option, some, [], ◌∷◌, ◌++◌, arith, length, length-append,
  length-take,
}
use psdk_orangepi.Prelude.Int.{ℤ}
use psdk_orangepi.Prelude.Text.{Bytes, codes, has_byte, has_substring, length-print_int_pos}
use psdk_orangepi.Types.{max_msg_len, ok}
use psdk_orangepi.Proto.{JsonC, snprintf, rpc_param_str, or_empty_object, result_text}
use psdk_orangepi.Proto.Framing.{length-result_text}
use psdk_orangepi.Floating.{Floating}
use psdk_orangepi.Ctrl.{DroneCtrl}
use psdk_orangepi.Server.Udp.{Peer, overrun}
use psdk_orangepi.Handler.{World}
use psdk_orangepi.Handler.Sending.{send_result_overruns}
use psdk_orangepi.Handler.Kmz.{
  kmz_base_dir, kmz_path, uploaded_json, reply_upload, upload_named, h_drone_upload_kmz,
}

pub length-kmz_path : (name : Bytes) → length (kmz_path name) ≡ min 4095 (29 + length name)
unfolding kmz_path snprintf
length-kmz_path name = omega (arith, length-take 4095 (kmz_base_dir ++ b'/' ∷ name))

uploaded_length :
    (name path : Bytes)
    → length (uploaded_json name path) ≡ min 4159 (37 + length name + length path)
unfolding uploaded_json snprintf
uploaded_length name path = omega (
  arith,
  length-take 4134 (name ++ (codes "\",\"path\":\"" ++ (path ++ (codes "\"}" ++ [])))),
  length-append name (codes "\",\"path\":\"" ++ (path ++ (codes "\"}" ++ []))),
  length-append path (codes "\"}" ++ []),
)

-- The text of the reply to an upload, by the length of the name.
pub length-uploaded_json :
    (name : Bytes)
    → length (uploaded_json name (kmz_path name))
      ≡ min 4159 (37 + length name + min 4095 (29 + length name))
length-uploaded_json name =
    omega (arith, uploaded_length name (kmz_path name), length-kmz_path name)

-- Whether a name passes the handler's tests.
abbrev pub IsPlain : Bytes → Type 0
IsPlain name = (has_substring (codes "..") name ≡ false) × (has_byte b'/' name ≡ false)

or_empty-le : (r : Bytes) → length r ≤ length (or_empty_object (some r))
or_empty-le [] = omega arith
or_empty-le (c ∷ cs) = omega arith

module _ {fp : Floating} (json : JsonC fp) {S : Type 0} (ctrl : DroneCtrl fp S) where
  -- Where an upload of an allowed name of at least 2010 bytes succeeds, the handler calls sendto
  -- with a count greater than the buffer of send_result.
  pub upload_overruns :
      (peer : Peer) (id : ℤ) (p : Option json.Json) (w : World S) (c : ℕ) (cs : Bytes) (s : S)
      → rpc_param_str json p (codes "file") ≡ some (c ∷ cs)
      → IsPlain (c ∷ cs)
      → ctrl.upload_kmz (kmz_path (c ∷ cs)) w.ctrl ≡ (ok, s)
      → 2010 ≤ length (c ∷ cs)
      → (n : ℕ) × (max_msg_len < n)
        × ((h_drone_upload_kmz ctrl json peer id p w).sent
            ≡ w.sent ++ overrun w.server.fd peer n ∷ [])
  unfolding h_drone_upload_kmz upload_named reply_upload
  upload_overruns peer id p w c cs s found plain done long = (
    length whole,
    too_long,
    rw (found, h_drone_upload_kmz)
        (rw (plain.0, plain.1, done)
          (ap (λ v. v.sent)
            (send_result_overruns peer id (record w { ctrl = s }) (some text) too_long))),
  )
    where
      text : Bytes
      text = uploaded_json (c ∷ cs) (kmz_path (c ∷ cs))

      whole : Bytes
      whole = result_text id (or_empty_object (some text))

      too_long : max_msg_len < length whole
      too_long = omega (
        arith,
        length-result_text id (or_empty_object (some text)),
        length-print_int_pos id,
        or_empty-le text,
        length-uploaded_json (c ∷ cs),
      )
