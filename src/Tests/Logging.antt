-- ===== src/Tests/Logging.antt =====
-- The log on concrete inputs.
use psdk_orangepi.Prelude.{◌≡◌, refl, true, ◌⊎◌, List, [], ◌∷◌, ◌++◌, arith, take, All}
use psdk_orangepi.Prelude.Text.{Bytes, codes, c_string, digits, print_unsigned}
use psdk_orangepi.Prelude.Trim.{EndsOther}
use psdk_orangepi.Ctrl.Real.{success}
use psdk_orangepi.Log.{
  level_debug, level_info, LocalTime, Log, log_start, log_set_level, log_debug, line_text,
  time_text, print_padded, level_str,
}
use psdk_orangepi.Log.Level.{IsTime}
use psdk_orangepi.Log.Run.{
  LogCall, debugs, infos, warns, run_calls, from_level, IsOnItsStream, log_set_level_lem,
}
use psdk_orangepi.Boot.Console.{is_line_end, psdk_console_cb, psdk_console_cb_lem}

abbrev morning : LocalTime
morning = record { hour = 9; minute = 5; second = 30; nsec = 7_000_000 }

morning-IsTime : IsTime morning
morning-IsTime = record {
  hour = omega arith;
  minute = omega arith;
  second = omega arith;
  nsec = omega arith;
}

printed :
    line_text morning level_info (codes "app.main") (codes "bye")
    ≡ codes "[09:05:30.007] [INF] [app.main] bye\n"
unfolding line_text time_text print_padded level_str print_unsigned digits
printed = refl

abbrev calls : List LogCall
calls =
    debugs morning (codes "bsp.psdk") (codes "tick")
    ∷ infos morning (codes "app.main") (codes "ready")
    ∷ warns morning (codes "bsp.hal") (codes "no console")
    ∷ []

log_set_level_lem_example :
    ((run_calls calls (log_set_level level_info log_start)).written
      ≡ from_level level_info (run_calls calls (log_set_level level_debug log_start)).written)
    × All IsOnItsStream (run_calls calls (log_set_level level_debug log_start)).written
log_set_level_lem_example =
    log_set_level_lem level_debug level_info (omega arith) calls log_start
      (morning-IsTime, (morning-IsTime, (morning-IsTime, tt))) refl

abbrev verbose : Log
verbose = record { g_level = level_debug; written = [] }

abbrev sdk_line : Bytes
sdk_line = codes "core up\r\n"

psdk_console_cb_lem_example :
    (body ws : Bytes) × (take 511 sdk_line ≡ body ++ ws)
    × All (λ c. is_line_end c ≡ true) ws
    × (((body ≡ []) × (psdk_console_cb morning sdk_line verbose ≡ (success, verbose)))
        ⊎ (EndsOther is_line_end body
            × (psdk_console_cb morning sdk_line verbose
                ≡ (success, log_debug morning (codes "bsp.psdk") (c_string body) verbose))))
psdk_console_cb_lem_example = psdk_console_cb_lem morning sdk_line verbose
