-- ===== src/Ctrl/Real/Reads/BatteryInfo.antt =====
-- drone_ctrl.c, PSDK_REAL: what `drone_get_battery_info` shows, beside a mean, a sum and two maxima over
-- the list of the single batteries that have been received.
use psdk_orangepi.Prelude.{
  ℕ, ◌≡◌, ◌≢◌, ◌⊎◌, inl, inr, refl, sym, ap, ◌∙◌, Bool, true, false, ◌/◌, max, List, [], ◌∷◌, arith,
  length, All, if◌then◌else◌, Bool-cases,
}
use psdk_orangepi.Prelude.Int.{ℤ, pos, negsuc, ◌+ℤ◌, ◌≤ℤ◌, ltb_ℤ}
use psdk_orangepi.Prelude.Words.{to_u32, add_i32, add_i32_fits}
use psdk_orangepi.Floating.{Floating}
use psdk_orangepi.Types.{Timespec, DroneBatteryInfo}
use psdk_orangepi.Ctrl.Real.{SingleBattery}
use psdk_orangepi.Ctrl.Real.Topics.{Real, topic_is_fresh}
use psdk_orangepi.Ctrl.Real.Reads.{received, add_first, add_second, set_mean, get_battery_info}
use psdk_orangepi.Ctrl.Real.Reads.Battery.{received_singles, percents, highest_voltage, IsPercent}

abbrev pub total_current : List SingleBattery → ℤ
total_current [] = pos 0
total_current (b ∷ bs) = b.current_electric +ℤ total_current bs

abbrev max_ℤ : ℤ → ℤ → ℤ
max_ℤ a b = if ltb_ℤ a b then b else a

-- The highest of a temperature and those of some batteries.
abbrev pub hottest : ℤ → List SingleBattery → ℤ
hottest t [] = t
hottest t (b ∷ bs) = hottest (max_ℤ t b.battery_temperature) bs

-- A current of at most 700,000 A in either direction, of which three fit in an `int32_t`.
abbrev pub IsModerate : ℤ → Type 0
IsModerate z = (negsuc 699_999_999 ≤ℤ z) × (z ≤ℤ pos 700_000_000)

add_two : (a b : ℤ) → IsModerate a → IsModerate b → add_i32 a b ≡ a +ℤ b
unfolding ◌+ℤ◌
add_two a b h k = add_i32_fits a b (ground arith) (ground arith) (ground arith)

add_zero : (a : ℤ) → a +ℤ pos 0 ≡ a
unfolding ◌+ℤ◌
add_zero (pos n) = ground arith
add_zero (negsuc n) = ground arith

add_one : (a b : ℤ) → IsModerate a → IsModerate b → add_i32 a b ≡ a +ℤ (b +ℤ pos 0)
add_one a b h k = add_two a b h k ∙ ap (λ c. a +ℤ c) (sym (add_zero b))

add_three :
    (a b c : ℤ)
    → IsModerate a
    → IsModerate b
    → IsModerate c
    → add_i32 (add_i32 a b) c ≡ a +ℤ (b +ℤ c)
unfolding ◌+ℤ◌
add_three a b c h k l =
    ap (λ s. add_i32 s c) (add_two a b h k)
    ∙ add_i32_fits (a +ℤ b) c (ground arith) (ground arith) (ground arith)
    ∙ ground arith

module _ {fp : Floating} (now : Timespec) (r : Real fp) where
  -- What the sample of the whole battery leaves in the reply.
  abbrev pub whole_info : DroneBatteryInfo
  whole_info = record {
    voltage_mv = to_u32 r.battery.value.voltage;
    current_ma = r.battery.value.current;
    remaining_pct = r.battery.value.percentage;
    temperature_dc = pos 0;
    cycle_count = 0;
  }

  -- What is left of it where the first single battery is missing, which the others are compared with.
  abbrev pub left_voltage : ℕ
  left_voltage = if received r.single_1 then 0 else to_u32 r.battery.value.voltage

  abbrev pub left_temperature : ℤ
  left_temperature = if received r.single_1 then r.single_1.value.battery_temperature else pos 0

  -- What the reply shows.
  pub data Shown (b : DroneBatteryInfo) : Type 0 where
    of_whole :
        (topic_is_fresh now r.battery.stats 5000 ≡ true) ⊎ (received_singles r ≡ [])
        → b ≡ whole_info
        → Shown b
    of_singles :
        topic_is_fresh now r.battery.stats 5000 ≡ false
        → received_singles r ≢ []
        → b.remaining_pct ≡ percents (received_singles r) / length (received_singles r)
        → b.current_ma ≡ r.battery.value.current +ℤ total_current (received_singles r)
        → b.voltage_mv ≡ max left_voltage (highest_voltage (received_singles r))
        → b.temperature_dc ≡ hottest left_temperature (received_singles r)
        → Shown b

  -- The reply behind the two single batteries.
  abbrev behind_singles : DroneBatteryInfo
  behind_singles = set_mean (add_second r.single_2 (add_first r.single_1 (whole_info, 0, 0)))

  none_received :
      received r.single_1 ≡ false → received r.single_2 ≡ false → behind_singles ≡ whole_info
  unfolding add_first add_second set_mean
  none_received h k = rw (h, k) refl

  some_or_none :
      ((behind_singles ≡ whole_info) × (received_singles r ≡ [])) ⊎ (received_singles r ≢ [])
  some_or_none = elim (Bool-cases (received r.single_1)) [
    | inl e ↦ inr (ground arith)
    | inr e ↦ elim (Bool-cases (received r.single_2)) [
      | inl f ↦ inr (ground arith)
      | inr f ↦ inl (none_received e f, ground arith)
    ]
  ]

  pct_behind :
      received_singles r ≢ []
      → All IsPercent (received_singles r)
      → behind_singles.remaining_pct ≡ percents (received_singles r) / length (received_singles r)
  unfolding add_first add_second set_mean
  pct_behind some_received percent = ground arith

  voltage_behind :
      behind_singles.voltage_mv ≡ max left_voltage (highest_voltage (received_singles r))
  unfolding add_first add_second set_mean
  voltage_behind = ground arith

  temperature_behind : behind_singles.temperature_dc ≡ hottest left_temperature (received_singles r)
  unfolding add_first add_second set_mean
  temperature_behind = ground arith

  -- The current, by which of the two batteries have been received.
  current_by :
      (a b c : ℤ) (first second : Bool)
      → IsModerate a
      → (first ≡ true → IsModerate b)
      → (second ≡ true → IsModerate c)
      → let behind_first = if first then add_i32 a b else a in
        (if second then add_i32 behind_first c else behind_first)
        ≡ a
          +ℤ (if first
              then b +ℤ (if second then c +ℤ pos 0 else pos 0)
              else if second
              then c +ℤ pos 0
              else pos 0)
  current_by a b c true true h k l =
      add_three a b c h (k refl) (l refl) ∙ ap (λ x. a +ℤ (b +ℤ x)) (sym (add_zero c))
  current_by a b c true false h k l = add_one a b h (k refl)
  current_by a b c false true h k l = add_one a c h (l refl)
  current_by a b c false false h k l = sym (add_zero a)

  current_behind :
      IsModerate r.battery.value.current
      → All (λ b. IsModerate b.current_electric) (received_singles r)
      → behind_singles.current_ma ≡ r.battery.value.current +ℤ total_current (received_singles r)
  unfolding add_first add_second set_mean
  current_behind h k =
      let by =
        current_by r.battery.value.current r.single_1.value.current_electric
          r.single_2.value.current_electric (received r.single_1) (received r.single_2) h
          (λ e. ground (arith, k)) (λ e. ground (arith, k)) in
      ground (arith, by)

  -- Where the samples show percentages and currents of at most 700,000 A in either direction,
  -- drone_get_battery_info of the real layer shows one of two things. Where the sample of the
  -- whole battery is fresh, or no single battery has been received, it shows that sample with the
  -- temperature 0. Otherwise it shows the mean of the charges of the single batteries received;
  -- the current of the old sample plus the sum of their currents; and their highest voltage and
  -- highest temperature, among which stand, where the first battery has not been received, the
  -- voltage of the old sample and the temperature 0.
  pub get_battery_info_lem :
      All IsPercent (received_singles r)
      → IsModerate r.battery.value.current
      → All (λ b. IsModerate b.current_electric) (received_singles r)
      → Shown (get_battery_info now r).1
  unfolding get_battery_info
  get_battery_info_lem percent whole singles =
      elim (Bool-cases (topic_is_fresh now r.battery.stats 5000)) [
        | inl e ↦ rw (e, get_battery_info) (of_whole (inl e) refl)
        | inr e ↦
            rw (e, get_battery_info)
              (elim (some_or_none) [
                | inl n ↦ of_whole (inr n.1) n.0
                | inr some_received ↦
                    of_singles e some_received (pct_behind some_received percent)
                      (current_behind whole singles) voltage_behind temperature_behind
              ])
      ]
