-- ===== src/Session/Upload.antt =====
-- core/handler/handler.c and bsp/drone_ctrl.c: the upload of a KMZ file over the real layer, from the
-- file name to the reply.
use psdk_orangepi.Prelude.{
  ℕ, ◌≡◌, ◌≢◌, ◌↔◌, ◌≤◌, ◌⊎◌, inl, inr, refl, ap, Option, some, [], ◌∷◌, ◌++◌, arith, length,
}
use psdk_orangepi.Prelude.Int.{ℤ}
use psdk_orangepi.Prelude.Text.{Bytes, codes}
use psdk_orangepi.Floating.{Floating}
use psdk_orangepi.Types.{DroneError, ok}
use psdk_orangepi.Proto.{JsonC, rpc_param_str, result_text, error_text, or_empty_object}
use psdk_orangepi.Server.Udp.{Peer, datagram}
use psdk_orangepi.Handler.{World}
use psdk_orangepi.Handler.Sending.{send_result_fits, send_error_fits}
use psdk_orangepi.Handler.Dispatch.Outcome.{or_empty-le}
use psdk_orangepi.Handler.Kmz.{
  kmz_path, uploaded_json, reply_upload, upload_named, h_drone_upload_kmz,
}
use psdk_orangepi.Handler.Kmz.Size.{IsPlain, length-kmz_path, length-uploaded_json}
use psdk_orangepi.Ctrl.Real.{Sdk, success, waypoint_upload_kmz}
use psdk_orangepi.Ctrl.Real.Topics.{Real}
use psdk_orangepi.Ctrl.Real.Waypoint.{read_bytes, ensure_waypoint_v3_ready, upload_kmz}
use psdk_orangepi.Ctrl.Real.Waypoint.Upload.{Readable, IsSmall, upload_kmz-ok}
use psdk_orangepi.Ctrl.Real.Build.{real_ctrl}

-- What an upload of a path needs: the module ready, the file readable whole, its bytes accepted.
abbrev pub Uploads : {fp : Floating} → Sdk fp → Real fp → Bytes → Type 0
Uploads sdk r path =
    let ready = ensure_waypoint_v3_ready sdk r in
    let io = sdk.file_io path ready.1.calls in
    (ready.0 ≡ ok)
    × Readable io
    × (sdk.answer ready.1.calls (waypoint_upload_kmz (read_bytes io)) ≡ success)

-- The file that it opens has a size that is a uint32_t.
abbrev pub OpensSmall : {fp : Floating} → Sdk fp → Real fp → Bytes → Type 0
OpensSmall sdk r path = IsSmall (sdk.file_io path (ensure_waypoint_v3_ready sdk r).1.calls)

replied :
    {S : Type 0} (peer : Peer) (id : ℤ) (name : Bytes) (err : DroneError) (w : World S)
    → length name ≤ 1990
    → ((err ≡ ok)
        × ((reply_upload peer id name err w).sent
            ≡ w.sent
              ++ datagram w.server.fd peer
                  (result_text id (or_empty_object (some (uploaded_json name (kmz_path name)))))
                ∷ []))
      ⊎ ((err ≢ ok)
          × ((reply_upload peer id name err w).sent
              ≡ w.sent
                ++ datagram w.server.fd peer (error_text id (codes "kmz upload failed")) ∷ []))
unfolding reply_upload
replied peer id name ok w h = inl (
  refl,
  ap (λ v. v.sent)
      (send_result_fits peer id w _
        (or_empty-le 4050 _ (omega arith) (omega (arith, length-uploaded_json name)))),
)
replied peer id name _ w h =
    inr ((λ e. cc), ap (λ v. v.sent) (send_error_fits peer id w _ (omega arith)))

module _ {fp : Floating} (json : JsonC fp) (sdk : Sdk fp) where
  some_ok :
      (s : Bytes) (r : Real fp)
      → s ≢ []
      → OpensSmall sdk r s
      → ((upload_kmz sdk s r).0 ≡ ok) ↔ Uploads sdk r s
  some_ok [] r h small = absurd (h refl)
  some_ok (c ∷ cs) r h small = upload_kmz-ok sdk c cs r small

  path_ok :
      (name : Bytes) (r : Real fp)
      → OpensSmall sdk r (kmz_path name)
      → ((upload_kmz sdk (kmz_path name) r).0 ≡ ok) ↔ Uploads sdk r (kmz_path name)
  path_ok name r small =
      some_ok (kmz_path name) r (λ e. omega (arith, length-kmz_path name, ap length e)) small

  -- Over the real layer, a request to upload a file of an allowed name of at most 1990 bytes and
  -- of a size of less than 2^32 bytes is answered by the result with the name and the path exactly
  -- where the waypoint module is ready, a buffer is given and the file in the KMZ directory can be
  -- read whole, and the aircraft accepts the bytes that were read; otherwise by the error text.
  pub upload_answered :
      (peer : Peer) (id : ℤ) (p : Option json.Json) (w : World (Real fp)) (c : ℕ) (cs : Bytes)
      → rpc_param_str json p (codes "file") ≡ some (c ∷ cs)
      → IsPlain (c ∷ cs)
      → length (c ∷ cs) ≤ 1990
      → OpensSmall sdk w.ctrl (kmz_path (c ∷ cs))
      → let name = c ∷ cs in
        let after = h_drone_upload_kmz (real_ctrl sdk) json peer id p w in
        (Uploads sdk w.ctrl (kmz_path name)
          × (after.sent
              ≡ w.sent
                ++ datagram w.server.fd peer
                    (result_text id (or_empty_object (some (uploaded_json name (kmz_path name)))))
                  ∷ []))
        ⊎ (¬ Uploads sdk w.ctrl (kmz_path name)
            × (after.sent
                ≡ w.sent
                  ++ datagram w.server.fd peer (error_text id (codes "kmz upload failed")) ∷ []))
  unfolding h_drone_upload_kmz upload_named
  upload_answered peer id p w c cs found plain short small =
      let name = c ∷ cs in
      let (err, r) = upload_kmz sdk (kmz_path name) w.ctrl in
      let both = path_ok name w.ctrl small in
      rw (found, h_drone_upload_kmz)
        (rw (plain.0, plain.1)
          (elim (replied peer id name err (record w { ctrl = r }) short) [
            | inl (e, sent) ↦ inl (both.0 e, sent)
            | inr (e, sent) ↦ inr ((λ u. e (both.1 u)), sent)
          ]))
