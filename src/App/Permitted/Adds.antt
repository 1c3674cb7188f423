-- ===== src/App/Permitted/Adds.antt =====
-- handler.c over drone_ctrl.c with PSDK_REAL: the operations add permitted SDK calls and no other.
use psdk_orangepi.Prelude.{
  ◌≡◌, refl, sym, ap, subst, ◌∙◌, inl, inr, List, [], ◌∷◌, ◌++◌, append-nil, append_assoc,
}
use psdk_orangepi.Prelude.Text.{Bytes}
use psdk_orangepi.Floating.{Floating}
use psdk_orangepi.Ctrl.Real.{
  Sdk, SdkCall, waypoint_init, waypoint_reg_mission_state, waypoint_reg_action_state,
}
use psdk_orangepi.Ctrl.Real.Topics.{Real, make_call}
use psdk_orangepi.Ctrl.Real.Writes.{command}
use psdk_orangepi.Ctrl.Real.Waypoint.{set_inited, upload_file, upload_kmz, ensure_waypoint_v3_ready}
use psdk_orangepi.Ctrl.Real.Waypoint.Upload.{upload_file_whole}
use psdk_orangepi.Ctrl.Real.Waypoint.Steps.{then-Each, ready-Each}
use psdk_orangepi.Handler.Kmz.Confined.{IsConfined}
use psdk_orangepi.App.Permitted.{Permitted, Carries}

module _ {fp : Floating} (sdk : Sdk fp) where
  -- Each of the calls is permitted behind those before it.
  abbrev pub ArePermitted : List (SdkCall fp) → List (SdkCall fp) → Type 0
  ArePermitted before [] = Unit
  ArePermitted before (c ∷ cs) = Permitted sdk before c × ArePermitted (before ++ c ∷ []) cs

  pub record Adds (r r' : Real fp) : Type 0 where
    pub more : List (SdkCall fp)
    pub calls : r'.calls ≡ r.calls ++ more
    pub permitted : ArePermitted r.calls more

  ArePermitted-append :
      (before cs ds : List (SdkCall fp))
      → ArePermitted before cs
      → ArePermitted (before ++ cs) ds
      → ArePermitted before (cs ++ ds)
  ArePermitted-append before [] ds p q = subst (λ b. ArePermitted b ds) (append-nil before) q
  ArePermitted-append before (c ∷ cs) ds p q = (
    p.0,
    ArePermitted-append (before ++ c ∷ []) cs ds p.1
        (subst (λ b. ArePermitted b ds) (sym (append_assoc before (c ∷ []) cs)) q),
  )

  none-Adds : (r r' : Real fp) → r'.calls ≡ r.calls → Adds r r'
  none-Adds r r' e = record { more = []; calls = e ∙ sym (append-nil r.calls); permitted = tt }

  pub Adds-same : (r : Real fp) → Adds r r
  Adds-same r = none-Adds r r refl

  pub Adds-trans : (a b c : Real fp) → Adds a b → Adds b c → Adds a c
  Adds-trans a b c p q = record {
    more = p.more ++ q.more;
    calls = q.calls ∙ ap (λ s. s ++ q.more) p.calls ∙ append_assoc a.calls p.more q.more;
    permitted =
        ArePermitted-append a.calls p.more q.more p.permitted
          (subst (λ s. ArePermitted s q.more) p.calls q.permitted);
  }

  call-Adds :
      (c : SdkCall fp) (r : Real fp) → Permitted sdk r.calls c → Adds r (make_call sdk c r).1
  unfolding make_call
  call-Adds c r h = record { more = c ∷ []; calls = refl; permitted = (h, tt) }

  command-Adds :
      (c : SdkCall fp) (r : Real fp) → Permitted sdk r.calls c → Adds r (command sdk c r).1
  unfolding command
  command-Adds c r h = call-Adds c r h

  inited-Adds : (r : Real fp) → Adds r (set_inited r).1
  unfolding set_inited
  inited-Adds r = none-Adds r _ refl

  ready-Adds : (r : Real fp) → Adds r (ensure_waypoint_v3_ready sdk r).1
  ready-Adds =
      ready-Each sdk Adds Adds-same Adds-trans (λ r. command-Adds waypoint_init r tt)
        (λ r. command-Adds waypoint_reg_mission_state r tt)
        (λ r. command-Adds waypoint_reg_action_state r tt) inited-Adds

  file-Adds :
      (path : Bytes)
      → IsConfined path
      → (r : Real fp) → Adds r (upload_file sdk (sdk.file_io path r.calls) r).1
  file-Adds path h r = elim (upload_file_whole sdk (sdk.file_io path r.calls) r) [
    | inl same ↦ none-Adds r _ same
    | inr (readable, whole) ↦ record {
      more = _;
      calls = whole;
      permitted = (record { path = path; confined = h; whole = refl }, tt);
    }
  ]

  upload-Adds : (path : Bytes) (r : Real fp) → IsConfined path → Adds r (upload_kmz sdk path r).1
  unfolding upload_kmz
  upload-Adds [] r h = Adds-same r
  upload-Adds (c ∷ cs) r h =
      then-Each Adds Adds-trans (ensure_waypoint_v3_ready sdk)
        (λ u. upload_file sdk (sdk.file_io (c ∷ cs) u.calls) u) ready-Adds (file-Adds (c ∷ cs) h) r

  pub Adds-Carries : Carries sdk Adds
  Adds-Carries = record {
    same = Adds-same;
    trans = Adds-trans;
    call = call-Adds;
    upload = upload-Adds;
  }
