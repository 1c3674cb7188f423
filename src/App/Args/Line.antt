-- ===== src/App/Args/Line.antt =====
-- app/main.c: a whole command line.
use psdk_orangepi.Prelude.{ℕ, ◌^◌, ◌<◌, ◌≡◌, ap, true, [], ◌∷◌, arith}
use psdk_orangepi.Prelude.Text.{Bytes, codes, print_unsigned, bytes_eq}
use psdk_orangepi.Prelude.Decimal.{atoi-print_unsigned}
use psdk_orangepi.App.Args.{default_options, starts, flag, parse_args}

-- A port below 65536 printed in decimal after --port, an address after --bind-ip, and --debug are
-- read back as that port, that address and the debug level.
pub parse_args-print_unsigned :
    (port : ℕ) (ip : Bytes)
    → port < 2 ^ 16
    → parse_args
        (codes "--port" ∷ print_unsigned port ∷ codes "--bind-ip" ∷ ip ∷ codes "--debug" ∷ [])
        default_options
      ≡ starts (record { port = port; bind_ip = ip; debug = true })
unfolding parse_args flag bytes_eq
parse_args-print_unsigned port ip h =
    rw (atoi-print_unsigned port (omega arith), parse_args)
      (ap (λ p. starts (record { port = p; bind_ip = ip; debug = true })) (omega arith))
