-- ===== src/Ctrl/Real/Waypoint/Lifecycle.antt =====
-- drone_ctrl.c, PSDK_REAL: the calls that start and end the layer.
use psdk_orangepi.Prelude.{
  ℕ, ◌≢◌, ◌≡◌, refl, sym, ◌∙◌, ◌⊎◌, inl, inr, Bool, true, false, List, [], ◌∷◌, ◌++◌, append-nil,
  append_assoc, if◌then◌else◌,
}
use psdk_orangepi.Prelude.Int.{pos, negsuc}
use psdk_orangepi.Floating.{Floating}
use psdk_orangepi.Ctrl.Real.{
  Sdk, SdkCall, ReturnCode, success, failure, waypoint_deinit, subscription_init,
  subscription_deinit, camera_deinit, gimbal_deinit,
}
use psdk_orangepi.Ctrl.Real.Topics.{Real, make_call}
use psdk_orangepi.Ctrl.Real.Waypoint.{
  attempt, attempt_all, subscriptions, drone_ctrl_init, drone_ctrl_deinit,
}

ReturnCode-cases : (c : ReturnCode) → (c ≡ success) ⊎ ((n : ℕ) × (c ≡ failure n))
ReturnCode-cases success = inl refl
ReturnCode-cases (failure n) = inr (n, refl)

module _ {fp : Floating} (sdk : Sdk fp) where
  calls-attempt_all :
      (cs : List (SdkCall fp)) (r : Real fp) → (attempt_all sdk cs r).calls ≡ r.calls ++ cs
  unfolding attempt_all make_call
  calls-attempt_all [] r = sym (append-nil r.calls)
  calls-attempt_all (c ∷ cs) r =
      calls-attempt_all cs (attempt sdk c r) ∙ append_assoc r.calls (c ∷ []) cs

  -- drone_ctrl_init of the real layer returns 0 where the subscription module starts, and then has
  -- made every call of its list in order, whatever these returned; otherwise it returns -1 and has
  -- made the first call only.
  pub drone_ctrl_init_lem :
      (r : Real fp)
      → (((drone_ctrl_init sdk r).0 ≡ pos 0)
          × (sdk.answer r.calls subscription_init ≡ success)
          × ((drone_ctrl_init sdk r).1.calls
              ≡ (r.calls ++ subscription_init ∷ []) ++ subscriptions sdk))
        ⊎ (((drone_ctrl_init sdk r).0 ≡ negsuc 0)
            × (sdk.answer r.calls subscription_init ≢ success)
            × ((drone_ctrl_init sdk r).1.calls ≡ r.calls ++ subscription_init ∷ []))
  unfolding drone_ctrl_init
  drone_ctrl_init_lem r = elim (ReturnCode-cases (sdk.answer r.calls subscription_init)) [
    | inl e ↦
        rw (e, drone_ctrl_init)
          (inl (
            refl,
            refl,
            calls-attempt_all (subscriptions sdk) (make_call sdk subscription_init r).1,
          ))
    | inr (n, e) ↦ rw (e, drone_ctrl_init) (inr (refl, (λ h. cc), refl))
  ]

  -- drone_ctrl_deinit of the real layer ends the waypoint module where it is initialised, and then
  -- the gimbal, the camera and the subscriptions, in this order; afterwards the waypoint module is
  -- not initialised.
  pub drone_ctrl_deinit_lem :
      (r : Real fp)
      → ((drone_ctrl_deinit sdk r).waypoint_v3_inited ≡ false)
        × ((drone_ctrl_deinit sdk r).calls
            ≡ (r.calls ++ (if r.waypoint_v3_inited then waypoint_deinit ∷ [] else []))
              ++ gimbal_deinit ∷ camera_deinit ∷ subscription_deinit ∷ [])
  unfolding drone_ctrl_deinit
  drone_ctrl_deinit_lem r = go r.waypoint_v3_inited refl
    where
      managers : List (SdkCall fp)
      managers = gimbal_deinit ∷ camera_deinit ∷ subscription_deinit ∷ []

      go :
          (b : Bool)
          → r.waypoint_v3_inited ≡ b
          → let stopped =
              if b
              then record (attempt sdk waypoint_deinit r) { waypoint_v3_inited = false }
              else r in
            ((attempt_all sdk managers stopped).waypoint_v3_inited ≡ false)
            × ((attempt_all sdk managers stopped).calls
                ≡ (r.calls ++ (if b then waypoint_deinit ∷ [] else [])) ++ managers)
      go true e = (refl, simp append_assoc)
      go false e = (e, simp (append-nil, append_assoc))
