-- ===== src/App/Usage.antt =====
-- app/main.c: the text of `--help` and of an unknown option, and the level of the log.
use psdk_orangepi.Prelude.{[], ◌∷◌, if◌then◌else◌}
use psdk_orangepi.Prelude.Text.{Bytes, codes, concat, print_unsigned}
use psdk_orangepi.Log.{level_debug, level_info, Log, log_set_level}
use psdk_orangepi.App.Args.{Options, server_port, Command, starts, shows_usage, refuses}

-- What is printed on stderr.
unfoldable pub usage : Bytes → Bytes
usage prog = concat (
    codes "Usage: "
    ∷ prog
    ∷ codes " [OPTIONS]\n  --port     <N>    UDP listen port       (default "
    ∷ print_unsigned server_port
    ∷ codes ")\n  --bind-ip  <IP>   IP address to bind to (default 0.0.0.0)\n"
    ∷ codes "  --debug           Enable debug log level\n"
    ∷ codes "  --help            Show this help\n"
    ∷ [])

-- What the options print before `main` returns, none where it goes on.
unfoldable pub complaint : Bytes → Command → Bytes
unfolding usage
complaint prog (starts o) = []
complaint prog shows_usage = usage prog
complaint prog (refuses option) =
    concat (codes "Unknown option: " ∷ option ∷ codes "\n" ∷ usage prog ∷ [])

-- `log_set_level(debug ? LOG_DEBUG : LOG_INFO)`
unfoldable pub set_log_level : Options → Log → Log
unfolding log_set_level
set_log_level o log = log_set_level (if o.debug then level_debug else level_info) log
