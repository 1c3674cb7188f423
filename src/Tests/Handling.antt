-- ===== src/Tests/Handling.antt =====
-- The dispatcher, the protocol and the datagram server on small inputs.
use psdk_orangepi.Prelude.{
  ℕ, zero, suc, ◌<◌, ◌≤◌, ◌≡◌, ◌↔◌, refl, inr, some, [], ◌∷◌, ◌++◌, arith, length,
}
use psdk_orangepi.Prelude.Int.{pos}
use psdk_orangepi.Prelude.Text.{
  Bytes, codes, bytes_eq, c_string, print_int, has_byte, has_substring,
}
use psdk_orangepi.Proto.{
  rpc_parse, parse_members, snprintf, error_text, rpc_request_free, rpc_param_str, rpc_param_double,
  rpc_build_result, rpc_build_error, RpcRequest,
}
use psdk_orangepi.Proto.Parsing.{IsRequest, Parsed, rpc_parse-Parsed}
use psdk_orangepi.Server.Udp.{Peer, datagram, overrun, udp_server_send}
use psdk_orangepi.Server.Udp.Strip.{EndsInText}
use psdk_orangepi.Handler.{uptime_ms, elapsed_ms, send_printed, send_result, send_error}
use psdk_orangepi.Handler.Uptime.{elapsed_ms_lem}
use psdk_orangepi.Handler.Sending.{Answers}
use psdk_orangepi.Handler.Reads.{h_system_ping}
use psdk_orangepi.Handler.Writes.{h_drone_set_camera_zoom}
use psdk_orangepi.Handler.Kmz.{kmz_path, h_drone_upload_kmz}
use psdk_orangepi.Handler.Kmz.Size.{upload_overruns}
use psdk_orangepi.Handler.Dispatch.{set_camera_zoom, system_ping, select, run, dispatch, handle_rpc}
use psdk_orangepi.Handler.Dispatch.Replies.{
  SameLive, handle_rpc-Answers, handle_rpc_ignores, handle_rpc-SameLive,
}
use psdk_orangepi.Handler.Dispatch.Selection.{select_iff, method_name}
use psdk_orangepi.Handler.Dispatch.Required.{DefaultsOutside, Requires, run-Lacks}
use psdk_orangepi.Ctrl.Stub.{stub_ctrl, stub_start, upload_kmz}
use psdk_orangepi.Tests.Fixtures.{
  fixed, toy, Json, request, nil, member, object, peer, clock, world,
}

-- The reply to a ping, from the first request on.
ping_reply :
    (handle_rpc toy (stub_ctrl fixed) clock peer (codes "ping") world).sent
    ≡ datagram 3 peer (codes "{\"id\":7,\"result\":{\"pong\":true,\"uptime_ms\":2005}}") ∷ []
unfolding handle_rpc dispatch rpc_parse c_string bytes_eq select run h_system_ping uptime_ms
    elapsed_ms send_result send_printed udp_server_send rpc_build_result rpc_request_free print_int
ping_reply = refl

-- The reply to a request that lacks its parameter.
bare_zoom_reply :
    (handle_rpc toy (stub_ctrl fixed) clock peer (codes "bare zoom") world).sent
    ≡ datagram 3 peer
        (codes "{\"id\":8,\"error\":\"missing or invalid param: zoom_factor (>= 1.0)\"}")
      ∷ []
unfolding handle_rpc dispatch rpc_parse c_string bytes_eq select run h_drone_set_camera_zoom
    rpc_param_double send_error send_printed udp_server_send rpc_build_error rpc_request_free
    print_int
bare_zoom_reply = refl

abbrev upload_line : Bytes
upload_line = codes "upload a.kmz"

abbrev upload_request : RpcRequest toy
upload_request = record {
  id = pos 9;
  method = codes "drone.upload_kmz";
  params = some (object (member (codes "file") (Json.text (codes "a.kmz")) nil));
  root =
      some (
        request (pos 9) "drone.upload_kmz" (member (codes "file") (Json.text (codes "a.kmz")) nil));
}

short_name :
    (name : Bytes)
    → rpc_param_str toy upload_request.params (codes "file") ≡ some name
    → length name ≤ 1990
unfolding rpc_param_str bytes_eq
short_name name found = ground arith

handle_rpc-Answers_example :
    Answers peer (pos 9) world (handle_rpc toy (stub_ctrl fixed) clock peer upload_line world)
unfolding rpc_parse parse_members snprintf c_string bytes_eq
handle_rpc-Answers_example =
    handle_rpc-Answers toy (stub_ctrl fixed) clock peer upload_line world upload_request
      (record { created = 1; released = 0 }) refl (λ name e found. short_name name found)

no-IsRequest : ¬ IsRequest toy (codes "42")
unfolding c_string bytes_eq
no-IsRequest r = ground (arith, r.parsed, r.object)

handle_rpc_ignores_example :
    handle_rpc toy (stub_ctrl fixed) clock peer (codes "42") world
    ≡ record world { refs = (rpc_parse toy (codes "42") world.refs).2 }
handle_rpc_ignores_example =
    handle_rpc_ignores toy (stub_ctrl fixed) clock peer (codes "42") world no-IsRequest

handle_rpc-SameLive_example :
    SameLive world.refs (handle_rpc toy (stub_ctrl fixed) clock peer upload_line world).refs
handle_rpc-SameLive_example = handle_rpc-SameLive toy (stub_ctrl fixed) clock peer upload_line world

rpc_parse-Parsed_example : Parsed toy upload_line world.refs (rpc_parse toy upload_line world.refs)
rpc_parse-Parsed_example = rpc_parse-Parsed toy upload_line world.refs

fixed_defaults : DefaultsOutside fixed
fixed_defaults = record { below_zero = refl; below_one = refl; above_90 = refl; above_180 = refl }

run-Lacks_example :
    run toy (stub_ctrl fixed) (some set_camera_zoom) clock peer (pos 8) (some (object nil)) world
    ≡ record world {
      sent =
          datagram 3 peer
            (error_text (pos 8) (codes "missing or invalid param: zoom_factor (>= 1.0)"))
          ∷ [];
    }
run-Lacks_example =
    run-Lacks toy (stub_ctrl fixed) fixed_defaults clock peer (pos 8) (some (object nil)) world
      set_camera_zoom (codes "zoom_factor") (codes "missing or invalid param: zoom_factor (>= 1.0)")
      Requires.zoom (inr (object nil, refl, refl))

select_iff_example :
    (select (codes "system.ping") ≡ some system_ping)
    ↔ (codes "system.ping" ≡ method_name system_ping)
select_iff_example = select_iff (codes "system.ping") system_ping

-- The callback of the tests notes the bytes.
abbrev note : Peer → Bytes → Bytes → Bytes
note p line w = w ++ line

ends_in_text : EndsInText (codes "ping")
ends_in_text = ((λ e. cc), refl)

elapsed_ms_lem_example :
    elapsed_ms (record { sec = 10; nsec = 999_999_999 }) (record { sec = 12; nsec = 5_000_000 })
    ≡ 1005
elapsed_ms_lem_example =
    elapsed_ms_lem (record { sec = 10; nsec = 999_999_999 }) (record { sec = 12; nsec = 5_000_000 })
      (omega arith) (omega arith) (omega arith)

-- A name of 2100 bytes.
abbrev long_name : ℕ → Bytes
long_name zero = []
long_name (suc n) = b'a' ∷ long_name n

abbrev long_params : Json
long_params = object (member (codes "file") (Json.text (long_name 2100)) nil)

upload_overruns_example :
    (n : ℕ) × (4096 < n)
    × ((h_drone_upload_kmz (stub_ctrl fixed) toy peer (pos 9) (some long_params) world).sent
        ≡ overrun 3 peer n ∷ [])
unfolding rpc_param_str bytes_eq has_byte has_substring upload_kmz kmz_path snprintf
upload_overruns_example =
    upload_overruns toy (stub_ctrl fixed) peer (pos 9) (some long_params) world b'a'
      (long_name 2099) (stub_start fixed) refl (refl, refl) refl (omega arith)
