-- ===== src/Handler/Kmz/Confined.antt =====
-- handler.c: where the path of an upload points.
use psdk_orangepi.Prelude.{
  ℕ, zero, suc, ◌≡◌, refl, ◌⊎◌, inl, inr, false, ◌||◌, Option, none, some, [], ◌∷◌, ◌++◌, arith,
  take, length, ◌<◌, Bool-cases,
}
use psdk_orangepi.Prelude.Int.{ℤ}
use psdk_orangepi.Prelude.Text.{Bytes, codes, has_byte, has_substring, starts_with}
use psdk_orangepi.Floating.{Floating}
use psdk_orangepi.Types.{DroneError, ok}
use psdk_orangepi.Ctrl.{DroneCtrl}
use psdk_orangepi.Proto.{JsonC, snprintf, rpc_param_str}
use psdk_orangepi.Server.Udp.{Peer}
use psdk_orangepi.Handler.{World, send_error}
use psdk_orangepi.Handler.Sending.{send_error-Keeps, send_result-Keeps}
use psdk_orangepi.Handler.Kmz.{
  kmz_base_dir, kmz_path, reply_upload, upload_named, h_drone_upload_kmz,
}

-- A file of the directory itself: no component of its name leads elsewhere.
pub record IsConfined (path : Bytes) : Type 0 where
  pub file : Bytes
  pub not_empty : 0 < length file
  pub in_dir : path ≡ kmz_base_dir ++ b'/' ∷ file
  pub no_slash : has_byte b'/' file ≡ false
  pub no_dots : has_substring (codes "..") file ≡ false

has_byte-take : (c n : ℕ) (s : Bytes) → has_byte c s ≡ false → has_byte c (take n s) ≡ false
unfolding has_byte
has_byte-take c zero s h = refl
has_byte-take c (suc n) [] h = refl
has_byte-take c (suc n) (x ∷ xs) h = ground (arith, has_byte-take c n xs)

starts_with-take :
    (p s : Bytes) (n : ℕ) → starts_with p s ≡ false → starts_with p (take n s) ≡ false
unfolding starts_with
starts_with-take [] s n h = h
starts_with-take (p ∷ ps) [] zero h = refl
starts_with-take (p ∷ ps) [] (suc n) h = refl
starts_with-take (p ∷ ps) (x ∷ xs) zero h = refl
starts_with-take (p ∷ ps) (x ∷ xs) (suc n) h = ground (arith, starts_with-take ps xs n)

has_substring-take :
    (p : Bytes) (n : ℕ) (s : Bytes) → has_substring p s ≡ false → has_substring p (take n s) ≡ false
unfolding has_substring
has_substring-take p zero [] h = h
has_substring-take p (suc n) [] h = h
has_substring-take p zero (x ∷ xs) h = ground (arith, starts_with-take p (x ∷ xs) 0)
has_substring-take p (suc n) (x ∷ xs) h =
    ground (arith, starts_with-take p (x ∷ xs) (suc n), has_substring-take p n xs)

pub kmz_path-IsConfined :
    (c : ℕ) (cs : Bytes)
    → has_byte b'/' (c ∷ cs) ≡ false
    → has_substring (codes "..") (c ∷ cs) ≡ false
    → IsConfined (kmz_path (c ∷ cs))
unfolding kmz_path snprintf
kmz_path-IsConfined c cs h k = record {
  file = c ∷ take 4065 cs;
  not_empty = omega arith;
  in_dir = refl;
  no_slash = has_byte-take b'/' 4066 (c ∷ cs) h;
  no_dots = has_substring-take (codes "..") 4066 (c ∷ cs) k;
}

-- The layer is left alone, or it uploads a file of the directory.
abbrev pub UploadsConfined : {fp : Floating} {S : Type 0} → DroneCtrl fp S → S → S → Type 0
UploadsConfined ctrl s s' =
    (s' ≡ s) ⊎ ((path : Bytes) × IsConfined path × (s' ≡ (ctrl.upload_kmz path s).1))

module _ {fp : Floating} {S : Type 0} (ctrl : DroneCtrl fp S) where
  ctrl-reply_upload :
      (peer : Peer) (id : ℤ) (name : Bytes) (err : DroneError) (w : World S)
      → (reply_upload peer id name err w).ctrl ≡ w.ctrl
  unfolding reply_upload
  ctrl-reply_upload peer id name ok w = (send_result-Keeps peer id w (some _)).ctrl
  ctrl-reply_upload peer id name _ w = (send_error-Keeps peer id w _).ctrl

  upload_named_confined :
      (peer : Peer) (id : ℤ) (c : ℕ) (cs : Bytes) (w : World S)
      → UploadsConfined ctrl w.ctrl (upload_named ctrl peer id (c ∷ cs) w).ctrl
  unfolding upload_named
  upload_named_confined peer id c cs w =
      elim (Bool-cases (has_substring (codes "..") (c ∷ cs) || has_byte b'/' (c ∷ cs))) [
        | inl bad ↦ rw (bad) (inl ((send_error-Keeps peer id w (codes "invalid file name")).ctrl))
        | inr good ↦ rw (good) (
            inr (
              kmz_path (c ∷ cs),
              kmz_path-IsConfined c cs (ground arith) (ground arith),
              ctrl-reply_upload peer id (c ∷ cs) _ _,
            ))
      ]

  -- Whatever the parameters, h_drone_upload_kmz either leaves the drone control layer as it was or
  -- hands it the path of a file directly in the KMZ directory: a name that is not empty, has no
  -- slash and no two dots in a row, behind the directory and one slash.
  pub upload_confined :
      (json : JsonC fp) (peer : Peer) (id : ℤ) (p : Option json.Json) (w : World S)
      → UploadsConfined ctrl w.ctrl (h_drone_upload_kmz ctrl json peer id p w).ctrl
  unfolding h_drone_upload_kmz
  upload_confined json peer id p w = go (rpc_param_str json p (codes "file"))
    where
      missing : (send_error peer id (codes "missing param: file") w).ctrl ≡ w.ctrl
      missing = (send_error-Keeps peer id w (codes "missing param: file")).ctrl

      go :
          (o : Option Bytes)
          → UploadsConfined ctrl w.ctrl
              (elim o as (λ _. World S) [
                | none ↦ send_error peer id (codes "missing param: file") w
                | some [] ↦ send_error peer id (codes "missing param: file") w
                | some (c ∷ cs) ↦ upload_named ctrl peer id (c ∷ cs) w
              ]).ctrl
      go none = inl missing
      go (some []) = inl missing
      go (some (c ∷ cs)) = upload_named_confined peer id c cs w
