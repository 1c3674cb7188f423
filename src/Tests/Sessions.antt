-- ===== src/Tests/Sessions.antt =====
-- Requests over the two builds of the drone control layer.
use psdk_orangepi.Prelude.{◌⊎◌, ◌≡◌, refl, some, [], ◌∷◌, ◌++◌, arith, length, ◌≤◌}
use psdk_orangepi.Prelude.Int.{pos}
use psdk_orangepi.Prelude.Text.{
  Bytes, codes, bytes_eq, c_string, has_byte, has_substring, starts_with,
}
use psdk_orangepi.Proto.{
  rpc_parse, parse_members, snprintf, result_text, error_text, or_empty_object, RpcRequest,
  rpc_param_str,
}
use psdk_orangepi.Server.Udp.{datagram}
use psdk_orangepi.Handler.{World}
use psdk_orangepi.Handler.Dispatch.{handle_rpc}
use psdk_orangepi.Handler.Dispatch.Echo.{id_in, handle_rpc-echoes}
use psdk_orangepi.Ctrl.Stub.{stub_ctrl}
use psdk_orangepi.Ctrl.Real.Topics.{Real}
use psdk_orangepi.Ctrl.Real.Build.{real_ctrl}
use psdk_orangepi.Handler.Kmz.{kmz_path, uploaded_json, h_drone_upload_kmz}
use psdk_orangepi.Session.Upload.{Uploads, upload_answered}
use psdk_orangepi.Tests.Fixtures.{
  fixed, toy, Json, object, member, text, nil, request, peer, clock, world, willing, singles,
}

abbrev pub real_world : World (Real fixed)
real_world = record {
  server = world.server;
  start = world.start;
  refs = world.refs;
  ctrl = singles;
  sent = [];
}

abbrev ping_request : RpcRequest toy
ping_request = record {
  id = pos 7;
  method = codes "system.ping";
  params = some (object nil);
  root = some (request (pos 7) "system.ping" nil);
}

no_file :
    (name : Bytes)
    → rpc_param_str toy ping_request.params (codes "file") ≡ some name
    → length name ≤ 1990
unfolding rpc_param_str bytes_eq
no_file name found = absurd (cc)

handle_rpc-echoes_example :
    (text : Bytes) × ((handle_rpc toy (stub_ctrl fixed) clock peer (codes "ping") world).sent
      ≡ [] ++ datagram 3 peer text ∷ [])
    × (id_in text ≡ pos 7)
unfolding rpc_parse parse_members snprintf c_string bytes_eq
handle_rpc-echoes_example =
    handle_rpc-echoes toy (stub_ctrl fixed) clock peer (codes "ping") world ping_request
      (record { created = 1; released = 0 }) refl (λ name e found. no_file name found)
      (record { low = omega arith; high = omega arith })

abbrev file_params : Json
file_params = object (member (codes "file") (text (codes "a.kmz")) nil)

upload_answered_example :
    let after =
      h_drone_upload_kmz (real_ctrl willing) toy peer (pos 9) (some file_params) real_world in
    (Uploads willing singles (kmz_path (codes "a.kmz"))
      × (after.sent
          ≡ datagram 3 peer (
              result_text
                (pos 9)
                (or_empty_object (some (uploaded_json (codes "a.kmz") (kmz_path (codes "a.kmz"))))))
            ∷ []))
    ⊎ (¬ Uploads willing singles (kmz_path (codes "a.kmz"))
        × (after.sent ≡ datagram 3 peer (error_text (pos 9) (codes "kmz upload failed")) ∷ []))
unfolding rpc_param_str bytes_eq has_byte has_substring starts_with
upload_answered_example =
    upload_answered toy willing peer (pos 9) (some file_params) real_world b'a' (codes ".kmz") refl
      (refl, refl) (omega arith) (omega arith)
