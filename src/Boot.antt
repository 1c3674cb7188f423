-- ===== src/Boot.antt =====
-- bsp/psdk_hal.c and bsp/psdk_init.c: the registration of the platform handlers and the start of the
-- SDK, as the calls made of it, oldest first. The answer to a call is an argument.
pub mod Order
pub mod Console
pub mod Stub
use psdk_orangepi.Prelude.{Bool, true, false, List, [], ◌∷◌, ◌++◌}
use psdk_orangepi.Prelude.Int.{ℤ, pos, negsuc}

pub data CoreCall : Type 0 where
  reg_osal_handler reg_hal_uart_handler add_console : CoreCall
  reg_hal_usb_bulk_handler reg_hal_network_handler : CoreCall
  reg_socket_handler reg_file_system_handler : CoreCall
  core_init set_alias set_firmware_version set_serial_number : CoreCall
  application_start core_deinit : CoreCall

-- `CONFIG_HARDWARE_CONNECTION`
pub data Connection : Type 0 where
  only_uart uart_and_usb_bulk_device uart_and_network_device : Connection

-- The value of dji_sdk_config.h.
abbrev pub hardware_connection : Connection
hardware_connection = uart_and_network_device

-- Whether a call succeeds, which may depend on the calls before it.
abbrev pub Core : Type 0
Core = List CoreCall → CoreCall → Bool

-- A part of the start: whether it got to its end, and the calls so far. `m >> k` is an early return.
abbrev pub Part : Type 0
Part = List CoreCall → Bool × List CoreCall

abbrev pub continue : Bool → List CoreCall → Part → Bool × List CoreCall
continue true made k = k made
continue false made k = (false, made)

infixl 5 ◌>>◌
abbrev pub ◌>>◌ : Part → Part → Part
◌>>◌ m k made = let (good, made') = m made in continue good made' k

abbrev pub done : Part
done made = (true, made)

-- `return -1` where it is false.
abbrev pub status : Bool → ℤ
status true = pos 0
status false = negsuc 0

module _ (core : Core) where
  -- A call whose failure ends the start, and one whose failure is only logged.
  unfoldable pub required : CoreCall → Part
  required c made = (core made c, made ++ c ∷ [])

  unfoldable pub optional : CoreCall → Part
  optional c made = (true, made ++ c ∷ [])

  unfoldable pub register_transport : Connection → Part
  unfolding required
  register_transport only_uart = done
  register_transport uart_and_usb_bulk_device = required reg_hal_usb_bulk_handler
  register_transport uart_and_network_device = required reg_hal_network_handler

  unfoldable pub psdk_hal_register : Connection → Part
  unfolding required optional register_transport
  psdk_hal_register connection = do
    required reg_osal_handler
    required reg_hal_uart_handler
    optional add_console
    register_transport connection
    required reg_socket_handler
    required reg_file_system_handler

  unfoldable pub psdk_init : Connection → Part
  unfolding required optional psdk_hal_register
  psdk_init connection = do
    psdk_hal_register connection
    required core_init
    optional set_alias
    optional set_firmware_version
    optional set_serial_number
    required application_start

unfoldable pub psdk_deinit : List CoreCall → List CoreCall
psdk_deinit made = made ++ core_deinit ∷ []
