-- ===== src/Session/Mock.antt =====
-- app/main.c over drone_ctrl.c without PSDK_REAL: the mock drone shows what it was last told.
use psdk_orangepi.Prelude.{
  ◌≡◌, refl, ◌∙◌, Bool, true, false, Option, none, some, List, [], ◌∷◌, ◌++◌, ap, All, Option-cases,
  inl, inr, subst, sym,
}
use psdk_orangepi.Prelude.Int.{ℤ}
use psdk_orangepi.Floating.{Floating}
use psdk_orangepi.Proto.{JsonC}
use psdk_orangepi.Ctrl.Stub.{
  Stub, stub_ctrl, get_telemetry, get_battery_info, get_gimbal_angle, get_camera_state,
  get_rtk_status, set_rth_altitude, set_gimbal_angle, set_camera_mode, set_camera_zoom,
  set_home_location, set_obstacle_avoidance, shoot_photo, start_recording, stop_recording,
  upload_kmz,
}
use psdk_orangepi.Handler.{World}
use psdk_orangepi.App.{Poll, poll_all}
use psdk_orangepi.App.Requests.{gather}
use psdk_orangepi.App.Commands.{
  Command, reads_telemetry, reads_battery, reads_gimbal, reads_camera, reads_rtk, shoots, starts,
  stops, sets_altitude, sets_zoom, sets_gimbal, sets_mode, sets_home, sets_avoidance, uploads,
  carry_out, carry_out_all,
}
use psdk_orangepi.App.Decoded.{decode_line}
use psdk_orangepi.App.Decoded.Runs.{ctrl-poll_all}

-- A value that the last command that sets it sets, or the one before where none does.
pub data LastSet {C A : Type 0} (sets : C → Option A) (old : A) (cs : List C) (v : A) : Type 0 where
  never_set : All (λ c. sets c ≡ none) cs → v ≡ old → LastSet sets old cs v
  last_set :
      (before after : List C) (c : C)
      → cs ≡ before ++ c ∷ after
      → sets c ≡ some v
      → All (λ d. sets d ≡ none) after
      → LastSet sets old cs v

abbrev set_or : {A : Type 0} → Option A → A → A
set_or none old = old
set_or (some v) old = v

LastSet-behind :
    {C A : Type 0} (sets : C → Option A) (old v : A) (c : C) (cs : List C)
    → LastSet sets (set_or (sets c) old) cs v
    → LastSet sets old (c ∷ cs) v
LastSet-behind sets old v c cs (last_set before after d e f h) =
    last_set (c ∷ before) after d (ap (λ s. c ∷ s) e) f h
LastSet-behind sets old v c cs (never_set h e) = elim (Option-cases (sets c)) [
  | inl g ↦ never_set (g, h) (e ∙ ap (λ o. set_or o old) g)
  | inr (x, g) ↦ last_set [] cs c refl (g ∙ ap some (sym (e ∙ ap (λ o. set_or o old) g))) h
]

module _ {fp : Floating} where
  abbrev pub pitch_of : Command fp → Option fp.F
  pitch_of (sets_gimbal a) = some a.pitch
  pitch_of _ = none

  abbrev pub zoom_of : Command fp → Option fp.F
  zoom_of (sets_zoom x) = some x
  zoom_of _ = none

  abbrev pub mode_of : Command fp → Option ℤ
  mode_of (sets_mode m) = some m
  mode_of _ = none

  abbrev pub recording_of : Command fp → Option Bool
  recording_of starts = some true
  recording_of stops = some false
  recording_of _ = none

  module _ {A : Type 0} (sets : Command fp → Option A) (field : Stub fp → A)
      (step : (c : Command fp) (s : Stub fp)
        → field (carry_out (stub_ctrl fp) c s) ≡ set_or (sets c) (field s)) where
    field-LastSet :
        (cs : List (Command fp)) (s : Stub fp)
        → LastSet sets (field s) cs (field (carry_out_all (stub_ctrl fp) cs s))
    field-LastSet [] s = never_set tt refl
    field-LastSet (c ∷ cs) s =
        LastSet-behind sets (field s) (field (carry_out_all (stub_ctrl fp) (c ∷ cs) s)) c cs (
          subst (λ old. LastSet sets old cs (field (carry_out_all (stub_ctrl fp) (c ∷ cs) s)))
            (step c s) (field-LastSet cs (carry_out (stub_ctrl fp) c s)))

  -- What the four fields that a request can read are behind a command.
  record IsStep (c : Command fp) (s s' : Stub fp) : Type 0 where
    pitch : s'.gimbal_p ≡ set_or (pitch_of c) s.gimbal_p
    zoom : s'.zoom ≡ set_or (zoom_of c) s.zoom
    mode : s'.cam_mode ≡ set_or (mode_of c) s.cam_mode
    recording : s'.recording ≡ set_or (recording_of c) s.recording

  same-IsStep :
      (c : Command fp) (s : Stub fp)
      → pitch_of c ≡ none
      → zoom_of c ≡ none
      → mode_of c ≡ none
      → recording_of c ≡ none
      → IsStep c s s
  same-IsStep c s p z m r = record {
    pitch = sym (ap (λ o. set_or o s.gimbal_p) p);
    zoom = sym (ap (λ o. set_or o s.zoom) z);
    mode = sym (ap (λ o. set_or o s.cam_mode) m);
    recording = sym (ap (λ o. set_or o s.recording) r);
  }

  carry_out-IsStep : (c : Command fp) (s : Stub fp) → IsStep c s (carry_out (stub_ctrl fp) c s)
  unfolding get_telemetry get_battery_info get_gimbal_angle get_camera_state get_rtk_status
      set_rth_altitude set_gimbal_angle set_camera_mode set_camera_zoom set_home_location
      set_obstacle_avoidance shoot_photo start_recording stop_recording upload_kmz
  carry_out-IsStep (reads_telemetry t) s = same-IsStep (reads_telemetry t) s refl refl refl refl
  carry_out-IsStep (reads_battery t) s = same-IsStep (reads_battery t) s refl refl refl refl
  carry_out-IsStep reads_gimbal s = same-IsStep reads_gimbal s refl refl refl refl
  carry_out-IsStep reads_camera s = same-IsStep reads_camera s refl refl refl refl
  carry_out-IsStep reads_rtk s = same-IsStep reads_rtk s refl refl refl refl
  carry_out-IsStep shoots s = same-IsStep shoots s refl refl refl refl
  carry_out-IsStep (sets_home l) s = same-IsStep (sets_home l) s refl refl refl refl
  carry_out-IsStep (sets_avoidance m) s = same-IsStep (sets_avoidance m) s refl refl refl refl
  carry_out-IsStep (uploads []) s = same-IsStep (uploads []) s refl refl refl refl
  carry_out-IsStep (uploads (b ∷ bs)) s = same-IsStep (uploads (b ∷ bs)) s refl refl refl refl
  carry_out-IsStep (sets_altitude x) s = record {
    pitch = refl;
    zoom = refl;
    mode = refl;
    recording = refl;
  }
  carry_out-IsStep (sets_gimbal a) s = record {
    pitch = refl;
    zoom = refl;
    mode = refl;
    recording = refl;
  }
  carry_out-IsStep (sets_zoom x) s = record {
    pitch = refl;
    zoom = refl;
    mode = refl;
    recording = refl;
  }
  carry_out-IsStep (sets_mode m) s = record {
    pitch = refl;
    zoom = refl;
    mode = refl;
    recording = refl;
  }
  carry_out-IsStep starts s = record { pitch = refl; zoom = refl; mode = refl; recording = refl }
  carry_out-IsStep stops s = record { pitch = refl; zoom = refl; mode = refl; recording = refl }

  -- What the requests for the gimbal angle and for the camera state read.
  pub record Shows (cs : List (Command fp)) (s s' : Stub fp) : Type 0 where
    pub pitch : LastSet pitch_of s.gimbal_p cs (get_gimbal_angle fp s').1.pitch
    pub zoom : LastSet zoom_of s.zoom cs (get_camera_state fp s').1.zoom_factor
    pub mode : LastSet mode_of s.cam_mode cs (get_camera_state fp s').1.mode
    pub recording : LastSet recording_of s.recording cs (get_camera_state fp s').1.is_recording

  carry_out_all-Shows :
      (cs : List (Command fp)) (s : Stub fp) → Shows cs s (carry_out_all (stub_ctrl fp) cs s)
  unfolding get_gimbal_angle get_camera_state
  carry_out_all-Shows cs s = record {
    pitch = field-LastSet pitch_of (λ s. s.gimbal_p) (λ c s. (carry_out-IsStep c s).pitch) cs s;
    zoom = field-LastSet zoom_of (λ s. s.zoom) (λ c s. (carry_out-IsStep c s).zoom) cs s;
    mode = field-LastSet mode_of (λ s. s.cam_mode) (λ c s. (carry_out-IsStep c s).mode) cs s;
    recording =
        field-LastSet recording_of (λ s. s.recording) (λ c s. (carry_out-IsStep c s).recording) cs
          s;
  }

  -- Over the mock drone, behind any run of the poll loop, the gimbal's pitch, the zoom factor, the
  -- camera's mode and whether it records, as the operations behind the requests for the gimbal
  -- angle and the camera state give them, are each what the last command set that sets it, among
  -- the commands that the datagrams of the run stand for, and as before the run where none does.
  pub poll_all-Shows :
      (json : JsonC fp) (polls : List Poll) (w : World (Stub fp))
      → Shows (gather (decode_line json) polls) w.ctrl (poll_all json (stub_ctrl fp) polls w).ctrl
  poll_all-Shows json polls w =
      subst (Shows (gather (decode_line json) polls) w.ctrl)
        (sym (ctrl-poll_all json (stub_ctrl fp) polls w))
        (carry_out_all-Shows (gather (decode_line json) polls) w.ctrl)
