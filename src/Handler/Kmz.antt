-- ===== src/Handler/Kmz.antt =====
-- handler.c: `drone.upload_kmz`, which checks the file name and builds the path.
pub mod Confined
pub mod Size
use psdk_orangepi.Prelude.{ℕ, ◌+◌, ◌||◌, Option, none, some, [], ◌∷◌, ◌++◌, if◌then◌else◌}
use psdk_orangepi.Prelude.Int.{ℤ}
use psdk_orangepi.Prelude.Text.{Bytes, codes, concat, has_byte, has_substring}
use psdk_orangepi.Floating.{Floating}
use psdk_orangepi.Types.{DroneError, ok}
use psdk_orangepi.Ctrl.{DroneCtrl}
use psdk_orangepi.Proto.{JsonC, snprintf, rpc_param_str}
use psdk_orangepi.Server.Udp.{Peer}
use psdk_orangepi.Handler.{World, send_result, send_error}

abbrev pub path_max : ℕ
path_max = 4096

abbrev pub kmz_base_dir : Bytes
kmz_base_dir = codes "/home/orangepi/PSDK/kmz_data"

-- `snprintf(path, sizeof(path), "%s/%s", KMZ_BASE_DIR, name)`
unfoldable pub kmz_path : Bytes → Bytes
kmz_path name = (snprintf path_max (kmz_base_dir ++ b'/' ∷ name)).text

unfoldable pub uploaded_json : Bytes → Bytes → Bytes
uploaded_json name path =
    (snprintf (path_max + 64) (
      concat (
        codes "{\"uploaded\":true,\"file\":\""
        ∷ name
        ∷ codes "\",\"path\":\""
        ∷ path
        ∷ codes "\"}"
        ∷ []))).text

module _ {S : Type 0} where
  -- The part of the handler behind `drone_upload_kmz`.
  unfoldable pub reply_upload : Peer → ℤ → Bytes → DroneError → World S → World S
  reply_upload peer id name ok w = send_result peer id (some (uploaded_json name (kmz_path name))) w
  reply_upload peer id name _ w = send_error peer id (codes "kmz upload failed") w

module _ {fp : Floating} {S : Type 0} (ctrl : DroneCtrl fp S) where
  -- The part of the handler behind the test for a missing name.
  unfoldable pub upload_named : Peer → ℤ → Bytes → World S → World S
  upload_named peer id name w =
      if has_substring (codes "..") name || has_byte b'/' name
      then send_error peer id (codes "invalid file name") w
      else let (err, s) = ctrl.upload_kmz (kmz_path name) w.ctrl in
        reply_upload peer id name err (record w { ctrl = s })

  unfoldable pub h_drone_upload_kmz :
      (json : JsonC fp) → Peer → ℤ → Option json.Json → World S → World S
  h_drone_upload_kmz json peer id params w = elim (rpc_param_str json params (codes "file")) [
    | none ↦ send_error peer id (codes "missing param: file") w
    | some [] ↦ send_error peer id (codes "missing param: file") w
    | some (c ∷ cs) ↦ upload_named peer id (c ∷ cs) w
  ]
