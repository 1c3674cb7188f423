-- ===== src/Boot/Console.antt =====
-- bsp/psdk_hal.c: `psdk_console_cb`, through which the SDK's own log reaches that of the daemon.
use psdk_orangepi.Prelude.{
  ℕ, ◌-◌, ◌<◌, ◌≡◌, refl, Bool, true, ◌||◌, ◌⊎◌, inl, inr, [], ◌++◌, length, take, drop, All, ltb,
  lt→ltb, ◌==◌, if◌then◌else◌,
}
use psdk_orangepi.Prelude.Text.{Bytes, codes, c_string}
use psdk_orangepi.Prelude.Trim.{trim_len, EndsOther, trim_len-Trimmed}
use psdk_orangepi.Ctrl.Real.{ReturnCode, success}
use psdk_orangepi.Log.{Log, LocalTime, log_debug}

-- `sizeof(buf)`
abbrev pub console_size : ℕ
console_size = 512

abbrev pub is_line_end : ℕ → Bool
is_line_end c = (c == 10) || (c == 13)

-- `copy` behind the loop, for the bytes that `memcpy` has put into the buffer.
unfoldable pub console_len : Bytes → ℕ
unfolding trim_len
console_len buf = trim_len is_line_end buf (length buf)

-- The buffer has a NUL behind the bytes that are left, where "%s" ends if no byte before it is one.
unfoldable pub psdk_console_cb : LocalTime → Bytes → Log → ReturnCode × Log
unfolding console_len log_debug
psdk_console_cb t data_in log =
    let buf = take (console_size - 1) data_in in
    let len = console_len buf in
    (
      success,
      if ltb 0 len then log_debug t (codes "bsp.psdk") (c_string (take len buf)) log else log,
    )

logged :
    (t : LocalTime) (buf : Bytes) (n : ℕ) (log : Log)
    → ((n ≡ 0) × (take n buf ≡ [])) ⊎ ((0 < n) × EndsOther is_line_end (take n buf))
    → let log' =
        if ltb 0 n then log_debug t (codes "bsp.psdk") (c_string (take n buf)) log else log in
      ((take n buf ≡ []) × (log' ≡ log))
      ⊎ (EndsOther is_line_end (take n buf)
          × (log' ≡ log_debug t (codes "bsp.psdk") (c_string (take n buf)) log))
logged t buf n log (inl (z, nothing)) = inl (nothing, rw z refl)
logged t buf n log (inr (h, text)) = inr (text, rw (lt→ltb 0 n h) refl)

-- Whatever the SDK hands to psdk_console_cb, cut to the 511 bytes that the buffer takes, is a text
-- followed by newlines and carriage returns; where the text is empty nothing is logged, and
-- otherwise it does not end in such a byte and one debug message is, which is the text up to a NUL
-- in it.
pub psdk_console_cb_lem :
    (t : LocalTime) (data_in : Bytes) (log : Log)
    → (body ws : Bytes) × (take 511 data_in ≡ body ++ ws)
      × All (λ c. is_line_end c ≡ true) ws
      × (((body ≡ []) × (psdk_console_cb t data_in log ≡ (success, log)))
          ⊎ (EndsOther is_line_end body
              × (psdk_console_cb t data_in log
                  ≡ (success, log_debug t (codes "bsp.psdk") (c_string body) log))))
unfolding psdk_console_cb console_len
psdk_console_cb_lem t data_in log =
    let buf = take 511 data_in in
    let n = console_len buf in
    let r = trim_len-Trimmed is_line_end buf in
    (
      take n buf,
      drop n buf,
      r.split,
      r.dropped,
      elim (logged t buf n log r.kept) [
        | inl (e, q) ↦ inl (e, rw q refl)
        | inr (e, q) ↦ inr (e, rw q refl)
      ],
    )
