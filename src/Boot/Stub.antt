-- ===== src/Boot/Stub.antt =====
-- bsp/psdk_hal.c and bsp/psdk_init.c, the build without PSDK_REAL: the functions write to the log only,
-- and leave whatever state there is.
use psdk_orangepi.Prelude.Int.{ℤ, pos}

module _ {ℓ} {S : Type ℓ} where
  unfoldable pub psdk_hal_register : S → ℤ × S
  psdk_hal_register s = (pos 0, s)

  -- The value of `psdk_hal_register` is not looked at.
  unfoldable pub psdk_init : S → ℤ × S
  unfolding psdk_hal_register
  psdk_init s = let (rc, s') = psdk_hal_register s in (pos 0, s')

  unfoldable pub psdk_deinit : S → S
  psdk_deinit s = s
