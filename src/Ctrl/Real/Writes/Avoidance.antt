-- ===== src/Ctrl/Real/Writes/Avoidance.antt =====
-- drone_ctrl.c, PSDK_REAL: which way `drone_set_obstacle_avoidance` switches.
use psdk_orangepi.Prelude.{
  ◌≡◌, ◌⊎◌, inl, inr, refl, Bool, List, [], ◌∷◌, ◌++◌, append_assoc, All, ◌≢◌,
}
use psdk_orangepi.Floating.{Floating}
use psdk_orangepi.Types.{ObstacleAvoidMode}
use psdk_orangepi.Ctrl.Real.{
  Sdk, SdkCall, ReturnCode, success, failure, set_horizontal_avoidance, set_upwards_avoidance,
}
use psdk_orangepi.Ctrl.Real.Topics.{Real, make_call}
use psdk_orangepi.Ctrl.Real.Writes.{is_zero, set_obstacle_avoidance, after_horizontal}

-- A call that switches the avoidance on (true) or off (false) in one of the two directions.
abbrev pub Switches : {fp : Floating} → Bool → SdkCall fp → Type 0
Switches b c = (c ≡ set_horizontal_avoidance b) ⊎ (c ≡ set_upwards_avoidance b)

module _ {fp : Floating} (sdk : Sdk fp) where
  switched :
      (sw : Bool) (rc : ReturnCode) (r : Real fp)
      → rc ≡ sdk.answer r.calls (set_horizontal_avoidance sw)
      → (new : List (SdkCall fp)) × ((after_horizontal sdk sw rc
            (make_call sdk (set_horizontal_avoidance sw) r).1).1.calls
          ≡ r.calls ++ new)
        × (new ≢ [])
        × All (Switches sw) new
  unfolding after_horizontal make_call
  switched sw (failure n) r e = (set_horizontal_avoidance sw ∷ [], refl, (λ k. cc), (inl refl, tt))
  switched sw success r e = (
    set_horizontal_avoidance sw ∷ set_upwards_avoidance sw ∷ [],
    append_assoc r.calls _ _,
    (λ k. cc),
    (inl refl, (inr refl, tt)),
  )

  -- Whatever the mode and the answers of the SDK, drone_set_obstacle_avoidance of the real layer
  -- makes at least one new call, and every new call switches an avoidance on where the mode is 0
  -- and off where it is not.
  pub avoidance_inverted :
      (mode : ObstacleAvoidMode) (r : Real fp)
      → (new : List (SdkCall fp)) × ((set_obstacle_avoidance sdk mode r).1.calls ≡ r.calls ++ new)
        × (new ≢ [])
        × All (Switches (is_zero mode)) new
  unfolding set_obstacle_avoidance
  avoidance_inverted mode r =
      switched (is_zero mode) (sdk.answer r.calls (set_horizontal_avoidance (is_zero mode))) r refl
