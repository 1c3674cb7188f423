-- ===== src/Ctrl/Real/Waypoint/Upload.antt =====
-- drone_ctrl.c, PSDK_REAL: what an upload holds, when it succeeds and what it sends.
use psdk_orangepi.Prelude.{
  ℕ, zero, suc, ap, sym, take, ◌%◌, ◌^◌, ◌<◌, ◌≡◌, ◌↔◌, ◌⊎◌, refl, subst, true, [], ◌∷◌, ◌++◌,
  arith, length,
}
use psdk_orangepi.Prelude.Int.{ℤ, pos, negsuc, pos_part}
use psdk_orangepi.Prelude.Words.{to_u32}
use psdk_orangepi.Prelude.Text.{Bytes}
use psdk_orangepi.Floating.{Floating}
use psdk_orangepi.Types.{DroneError, ok}
use psdk_orangepi.Ctrl.Real.{Sdk, FileIo, success, waypoint_upload_kmz}
use psdk_orangepi.Ctrl.Real.Topics.{Real, make_call}
use psdk_orangepi.Ctrl.Real.Waypoint.{
  read_bytes, sent_bytes, upload_file, upload_kmz, ensure_waypoint_v3_ready, continue,
}

-- What the first steps of the upload and its last ones need.
pub record Readable (io : FileIo) : Type 0 where
  pub opened : io.opens ≡ true
  pub end_found : io.seeks_end ≡ true
  pub not_empty : 0 < pos_part io.tells
  pub start_found : io.seeks_set ≡ true
  pub osal : io.has_osal ≡ true
  pub allocated : io.allocates (to_u32 io.tells) ≡ true
  pub complete : length (read_bytes io) ≡ pos_part io.tells

-- The file is read into a buffer that is too small for the bytes that there are.
pub record StoresPast (io : FileIo) : Type 0 where
  pub opened : io.opens ≡ true
  pub end_found : io.seeks_end ≡ true
  pub not_empty : 0 < pos_part io.tells
  pub start_found : io.seeks_set ≡ true
  pub osal : io.has_osal ≡ true
  pub allocated : io.allocates (to_u32 io.tells) ≡ true
  pub too_small : to_u32 io.tells < length (read_bytes io)

-- Its size is a uint32_t.
abbrev pub IsSmall : FileIo → Type 0
IsSmall io = pos_part io.tells < 2 ^ 32

take_again : (n : ℕ) (s : Bytes) → take n (take n s) ≡ take n s
take_again zero s = refl
take_again (suc n) [] = refl
take_again (suc n) (c ∷ cs) = ap (λ s. c ∷ s) (take_again n cs)

take_nothing : (n : ℕ) (s : Bytes) → s ≡ [] → take n s ≡ s
take_nothing zero s h = sym h
take_nothing (suc n) [] h = refl
take_nothing (suc n) (c ∷ cs) h = absurd (cc)

sent_of :
    (tells : ℤ) (content : Bytes)
    → pos_part tells < 2 ^ 32
    → take (to_u32 tells) (take (pos_part tells) content) ≡ take (pos_part tells) content
unfolding to_u32
sent_of (pos n) content h =
    let e : n % 2 ^ 32 ≡ n = omega arith in
    subst (λ k. take k (take n content) ≡ take n content) (sym e) (take_again n content)
sent_of (negsuc n) content h = take_nothing _ [] refl

-- Then all that was read is sent.
sent_whole : (io : FileIo) → IsSmall io → sent_bytes io ≡ read_bytes io
sent_whole io h = sent_of io.tells io.content h

pub record SameHeld (fp : Floating) (r r' : Real fp) : Type 0 where
  pub files : r'.open_files ≡ r.open_files
  pub memory : r'.buffers ≡ r.buffers

module _ {fp : Floating} (sdk : Sdk fp) where
  SameHeld-upload_file : (io : FileIo) (r : Real fp) → SameHeld fp r (upload_file sdk io r).1
  unfolding upload_file make_call
  SameHeld-upload_file io r = ground arith

  SameHeld-ensure : (r : Real fp) → SameHeld fp r (ensure_waypoint_v3_ready sdk r).1
  unfolding ensure_waypoint_v3_ready make_call
  SameHeld-ensure r = ground arith

  upload_file-ok :
      (io : FileIo) (r : Real fp)
      → ((upload_file sdk io r).0 ≡ ok)
        ↔ (Readable io × (sdk.answer r.calls (waypoint_upload_kmz (sent_bytes io)) ≡ success))
  unfolding upload_file make_call
  upload_file-ok io r = ground arith

  -- The aircraft gets the whole file, or the upload makes no call at all.
  pub upload_file_whole :
      (io : FileIo) (r : Real fp)
      → ((upload_file sdk io r).1.calls ≡ r.calls)
        ⊎ (Readable io
            × ((upload_file sdk io r).1.calls
                ≡ r.calls ++ waypoint_upload_kmz (sent_bytes io) ∷ []))
  unfolding upload_file make_call
  upload_file_whole io r = ground arith

  SameHeld-trans : (a b c : Real fp) → SameHeld fp a b → SameHeld fp b c → SameHeld fp a c
  SameHeld-trans a b c p q = ground arith

  after_ensure :
      (e : DroneError) (c : ℕ) (cs : Bytes) (r r' : Real fp)
      → SameHeld fp r r'
      → SameHeld fp r (continue e r' (λ u. upload_file sdk (sdk.file_io (c ∷ cs) u.calls) u)).1
  after_ensure ok c cs r r' h =
      SameHeld-trans r r' _ h (SameHeld-upload_file (sdk.file_io (c ∷ cs) r'.calls) r')
  after_ensure _ c cs r r' h = h

  -- Whatever the SDK and the file system answer, drone_upload_kmz of the real layer leaves as many
  -- files open and as many buffers allocated as there were before it.
  pub upload_kmz-SameHeld : (path : Bytes) (r : Real fp) → SameHeld fp r (upload_kmz sdk path r).1
  unfolding upload_kmz
  upload_kmz-SameHeld [] r = record { files = refl; memory = refl }
  upload_kmz-SameHeld (c ∷ cs) r =
      after_ensure (ensure_waypoint_v3_ready sdk r).0 c cs r (ensure_waypoint_v3_ready sdk r).1
        (SameHeld-ensure r)

  -- ensure_waypoint_v3_ready returns DRONE_OK exactly where the waypoint module is marked as
  -- initialised after it.
  pub ensure-inited :
      (r : Real fp)
      → ((ensure_waypoint_v3_ready sdk r).0 ≡ ok)
        ↔ ((ensure_waypoint_v3_ready sdk r).1.waypoint_v3_inited ≡ true)
  unfolding ensure_waypoint_v3_ready make_call
  ensure-inited r = ground arith

  after_ready :
      (e : DroneError) (c : ℕ) (cs : Bytes) (r' : Real fp)
      → let io = sdk.file_io (c ∷ cs) r'.calls in
        ((continue e r' (λ u. upload_file sdk (sdk.file_io (c ∷ cs) u.calls) u)).0 ≡ ok) ↔ (
          (e ≡ ok)
          × Readable io
          × (sdk.answer r'.calls (waypoint_upload_kmz (sent_bytes io)) ≡ success))
  after_ready ok c cs r' =
      let both = upload_file-ok (sdk.file_io (c ∷ cs) r'.calls) r' in
      (λ h. (refl, (both.0 h).0, (both.0 h).1), λ h. both.1 (h.1, h.2))
  after_ready _ c cs r' = (λ h. cc, λ h. cc (h.0))

  upload_file-StoresPast :
      (io : FileIo) (r : Real fp) → (r.overrun < (upload_file sdk io r).1.overrun) ↔ StoresPast io
  unfolding upload_file make_call
  upload_file-StoresPast io r = ground arith

  ensure-overrun : (r : Real fp) → (ensure_waypoint_v3_ready sdk r).1.overrun ≡ r.overrun
  unfolding ensure_waypoint_v3_ready make_call
  ensure-overrun r = ground arith

  after_ready-StoresPast :
      (e : DroneError) (c : ℕ) (cs : Bytes) (r' : Real fp)
      → (r'.overrun
          < (continue e r' (λ u. upload_file sdk (sdk.file_io (c ∷ cs) u.calls) u)).1.overrun)
        ↔ ((e ≡ ok) × StoresPast (sdk.file_io (c ∷ cs) r'.calls))
  after_ready-StoresPast ok c cs r' =
      let both = upload_file-StoresPast (sdk.file_io (c ∷ cs) r'.calls) r' in
      (λ h. (refl, both.0 h), λ h. both.1 h.1)
  after_ready-StoresPast _ c cs r' = (λ h. absurd (omega arith), λ h. cc (h.0))

  -- drone_upload_kmz of the real layer, on a path that is not empty, stores bytes behind the end
  -- of its buffer exactly where the waypoint module is ready and the file, opened and measured
  -- without an error into a buffer that is given, holds more bytes, up to the size that was
  -- measured, than this size is as a uint32_t.
  pub upload_kmz-StoresPast :
      (c : ℕ) (cs : Bytes) (r : Real fp)
      → let ready = ensure_waypoint_v3_ready sdk r in
        (r.overrun < (upload_kmz sdk (c ∷ cs) r).1.overrun)
        ↔ ((ready.0 ≡ ok) × StoresPast (sdk.file_io (c ∷ cs) ready.1.calls))
  unfolding upload_kmz
  upload_kmz-StoresPast c cs r =
      let ready = ensure_waypoint_v3_ready sdk r in
      subst
        (λ n.
          (n < (upload_kmz sdk (c ∷ cs) r).1.overrun)
          ↔ ((ready.0 ≡ ok) × StoresPast (sdk.file_io (c ∷ cs) ready.1.calls)))
        (ensure-overrun r) (after_ready-StoresPast ready.0 c cs ready.1)

  -- The same of any file, in the bytes that are sent.
  upload_kmz_cut :
      (c : ℕ) (cs : Bytes) (r : Real fp)
      → let ready = ensure_waypoint_v3_ready sdk r in
        let io = sdk.file_io (c ∷ cs) ready.1.calls in
        ((upload_kmz sdk (c ∷ cs) r).0 ≡ ok) ↔ (
          (ready.0 ≡ ok)
          × Readable io
          × (sdk.answer ready.1.calls (waypoint_upload_kmz (sent_bytes io)) ≡ success))
  unfolding upload_kmz
  upload_kmz_cut c cs r =
      after_ready (ensure_waypoint_v3_ready sdk r).0 c cs (ensure_waypoint_v3_ready sdk r).1

  -- drone_upload_kmz of the real layer succeeds on a path that is not empty and leads to a file of
  -- less than 2^32 bytes exactly where the waypoint module is ready, a buffer is given and the
  -- file can be read whole, and the aircraft accepts the bytes that were read.
  pub upload_kmz-ok :
      (c : ℕ) (cs : Bytes) (r : Real fp)
      → let ready = ensure_waypoint_v3_ready sdk r in
        let io = sdk.file_io (c ∷ cs) ready.1.calls in
        IsSmall io
        → ((upload_kmz sdk (c ∷ cs) r).0 ≡ ok) ↔ (
            (ready.0 ≡ ok)
            × Readable io
            × (sdk.answer ready.1.calls (waypoint_upload_kmz (read_bytes io)) ≡ success))
  upload_kmz-ok c cs r small =
      let ready = ensure_waypoint_v3_ready sdk r in
      let io = sdk.file_io (c ∷ cs) ready.1.calls in
      subst
        (λ sent. ((upload_kmz sdk (c ∷ cs) r).0 ≡ ok) ↔ (
          (ready.0 ≡ ok)
          × Readable io
          × (sdk.answer ready.1.calls (waypoint_upload_kmz sent) ≡ success)))
        (sent_whole io small) (upload_kmz_cut c cs r)
