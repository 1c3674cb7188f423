-- ===== src/Boot/Order.antt =====
-- bsp/psdk_hal.c and bsp/psdk_init.c: the order of the calls of the start.
use psdk_orangepi.Prelude.{
  ◌≡◌, refl, sym, ap, subst, ◌∙◌, ◌||◌, inl, inr, Bool-cases, arith, Bool, true, false, List, [],
  ◌∷◌, ◌++◌, append-nil, append_assoc,
}
use psdk_orangepi.Boot.{
  CoreCall, Connection, only_uart, uart_and_usb_bulk_device, uart_and_network_device, Core, Part,
  continue, reg_osal_handler, reg_hal_uart_handler, add_console, reg_hal_usb_bulk_handler,
  reg_hal_network_handler, reg_socket_handler, reg_file_system_handler, core_init, set_alias,
  set_firmware_version, set_serial_number, application_start, required, optional,
  register_transport, psdk_hal_register, psdk_init,
}

-- A call whose failure is only logged.
abbrev pub may_fail : CoreCall → Bool
may_fail add_console = true
may_fail set_alias = true
may_fail set_firmware_version = true
may_fail set_serial_number = true
may_fail _ = false

-- The start goes on behind a call.
abbrev pub goes_on : Core → List CoreCall → CoreCall → Bool
goes_on core made c = may_fail c || core made c

-- It goes on behind each of the calls.
abbrev pub Accepted : Core → List CoreCall → List CoreCall → Type 0
Accepted core made [] = Unit
Accepted core made (c ∷ cs) = (goes_on core made c ≡ true) × Accepted core (made ++ c ∷ []) cs

-- A part that makes the calls of a list in order, up to the first one that ends the start.
pub data Starts (core : Core) (order made : List CoreCall) (r : Bool × List CoreCall) : Type 0 where
  completes : Accepted core made order → r ≡ (true, made ++ order) → Starts core order made r
  stops :
      (before later : List CoreCall) (c : CoreCall)
      → before ++ c ∷ later ≡ order
      → Accepted core made before
      → goes_on core (made ++ before) c ≡ false
      → r ≡ (false, made ++ before ++ c ∷ [])
      → Starts core order made r

Accepted-append :
    (core : Core) (made cs ds : List CoreCall)
    → Accepted core made cs
    → Accepted core (made ++ cs) ds
    → Accepted core made (cs ++ ds)
Accepted-append core made [] bs p q = subst (λ m. Accepted core m bs) (append-nil made) q
Accepted-append core made (c ∷ cs) bs p q = (
  p.0,
  Accepted-append core (made ++ c ∷ []) cs bs p.1
      (subst (λ m. Accepted core m bs) (sym (append_assoc made (c ∷ []) cs)) q),
)

module _ (core : Core) where
  Starts-behind :
      (a b made : List CoreCall) (r : Bool × List CoreCall)
      → Accepted core made a
      → Starts core b (made ++ a) r
      → Starts core (a ++ b) made r
  Starts-behind a b made r p (completes q e) =
      completes (Accepted-append core made a b p q)
        (e ∙ ap (λ m. (true, m)) (append_assoc made a b))
  Starts-behind a b made r p (stops before later c split q refused e) =
      stops (a ++ before) later c (append_assoc a before (c ∷ later) ∙ ap (λ m. a ++ m) split)
        (Accepted-append core made a before p q)
        (ap (λ m. goes_on core m c) (sym (append_assoc made a before)) ∙ refused)
        (e ∙ ap (λ m. (false, m)) (simp append_assoc))

  Starts-then :
      (r : Bool × List CoreCall) (k : Part) (a b made : List CoreCall)
      → Starts core a made r
      → ((made' : List CoreCall) → Starts core b made' (k made'))
      → Starts core (a ++ b) made (continue r.0 r.1 k)
  Starts-then r k a b made (completes p e) g =
      subst (λ r. Starts core (a ++ b) made (continue r.0 r.1 k)) (sym e)
        (Starts-behind a b made (k (made ++ a)) p (g (made ++ a)))
  Starts-then r k a b made (stops before later c split p refused e) g =
      subst (λ r. Starts core (a ++ b) made (continue r.0 r.1 k)) (sym e)
        (stops before (later ++ b) c
          (sym (append_assoc before (c ∷ later) b) ∙ ap (λ m. m ++ b) split) p refused refl)

  Starts-required :
      (c : CoreCall) (made : List CoreCall)
      → may_fail c ≡ false
      → Starts core (c ∷ []) made (required core c made)
  unfolding required
  Starts-required c made h = elim (Bool-cases (core made c)) [
    | inl e ↦ completes (ground (arith, h, e), tt) (ap (λ b. (b, made ++ c ∷ [])) e)
    | inr e ↦
        stops [] [] c refl tt (ap (λ m. goes_on core m c) (append-nil made) ∙ ground (arith, h, e))
          (ap (λ b. (b, made ++ c ∷ [])) e ∙ ap (λ m. (false, m ++ c ∷ [])) (sym (append-nil made)))
  ]

  Starts-optional :
      (c : CoreCall) (made : List CoreCall)
      → may_fail c ≡ true
      → Starts core (c ∷ []) made (optional core c made)
  unfolding optional
  Starts-optional c made h = completes (ground (arith, h), tt) refl

  -- The handler of the connection.
  abbrev pub transport_calls : Connection → List CoreCall
  transport_calls only_uart = []
  transport_calls uart_and_usb_bulk_device = reg_hal_usb_bulk_handler ∷ []
  transport_calls uart_and_network_device = reg_hal_network_handler ∷ []

  Starts-transport :
      (connection : Connection) (made : List CoreCall)
      → Starts core (transport_calls connection) made (register_transport core connection made)
  unfolding register_transport
  Starts-transport only_uart made = completes tt (ap (λ m. (true, m)) (sym (append-nil made)))
  Starts-transport uart_and_usb_bulk_device made =
      Starts-required reg_hal_usb_bulk_handler made refl
  Starts-transport uart_and_network_device made = Starts-required reg_hal_network_handler made refl

  abbrev pub register_order : Connection → List CoreCall
  register_order connection =
      reg_osal_handler
      ∷ reg_hal_uart_handler
      ∷ add_console
      ∷ (transport_calls connection ++ reg_socket_handler ∷ reg_file_system_handler ∷ [])

  -- The calls of a start, as the two files number them.
  abbrev pub start_order : Connection → List CoreCall
  start_order connection =
      register_order connection
      ++ core_init ∷ set_alias ∷ set_firmware_version ∷ set_serial_number ∷ application_start ∷ []

  needs :
      (c : CoreCall) (k : Part) (b : List CoreCall)
      → may_fail c ≡ false
      → ((made : List CoreCall) → Starts core b made (k made))
      → (made : List CoreCall)
      → Starts core (c ∷ b) made (continue (required core c made).0 (required core c made).1 k)
  needs c k b h g made =
      Starts-then (required core c made) k (c ∷ []) b made (Starts-required c made h) g

  tries :
      (c : CoreCall) (k : Part) (b : List CoreCall)
      → may_fail c ≡ true
      → ((made : List CoreCall) → Starts core b made (k made))
      → (made : List CoreCall)
      → Starts core (c ∷ b) made (continue (optional core c made).0 (optional core c made).1 k)
  tries c k b h g made =
      Starts-then (optional core c made) k (c ∷ []) b made (Starts-optional c made h) g

  Starts-register :
      (connection : Connection) (made : List CoreCall)
      → Starts core (register_order connection) made (psdk_hal_register core connection made)
  unfolding psdk_hal_register
  Starts-register connection = needs reg_osal_handler _ _ refl (
      needs reg_hal_uart_handler _ _ refl (
        tries add_console _ _ refl (λ made.
          Starts-then (register_transport core connection made) _ (transport_calls connection) _
            made (Starts-transport connection made)
            (needs reg_socket_handler _ _ refl
              (λ made. Starts-required reg_file_system_handler made refl)))))

  -- psdk_init of the real build makes the calls of its list in order and, whatever the core
  -- answers, does one of two things. Where each call succeeds or is one whose failure is only
  -- logged, it makes them all and returns 0. Otherwise the last call that it makes is the first
  -- one that fails and is not such a one, and it returns -1.
  pub psdk_init-Starts :
      (connection : Connection) (made : List CoreCall)
      → Starts core (start_order connection) made (psdk_init core connection made)
  unfolding psdk_init
  psdk_init-Starts connection made =
      Starts-then (psdk_hal_register core connection made) _ (register_order connection) _ made
        (Starts-register connection made)
        (needs core_init _ _ refl (
          tries set_alias _ _ refl (
            tries set_firmware_version _ _ refl (
              tries set_serial_number _ _ refl
                (λ made. Starts-required application_start made refl)))))
