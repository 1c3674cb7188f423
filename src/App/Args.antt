-- ===== src/App/Args.antt =====
-- app/main.c: the options of the command line, without the program's name.
pub mod Line
use psdk_orangepi.Prelude.{
  ℕ, ◌+◌, ◌-◌, ◌*◌, ◌%◌, ◌^◌, Bool, true, false, ◌||◌, ◌&&◌, ◌⊎◌, inl, inr, List, [], ◌∷◌, leb,
  ◌==◌, if◌then◌else◌,
}
use psdk_orangepi.Prelude.Int.{ℤ, pos, negsuc, sub_ℕ}
use psdk_orangepi.Prelude.Text.{Bytes, codes, bytes_eq}
use psdk_orangepi.Prelude.Decimal.{atoi}

pub record Options : Type 0 where
  pub port : ℕ
  pub bind_ip : Bytes
  pub debug : Bool

-- `DRONE_SERVER_PORT`
abbrev pub server_port : ℕ
server_port = 5555

abbrev pub default_options : Options
default_options = record { port = server_port; bind_ip = codes "0.0.0.0"; debug = false }

-- What the options ask for: a start, the usage text, or an error for an unknown option.
pub data Command : Type 0 where
  starts : Options → Command
  shows_usage : Command
  refuses : Bytes → Command

-- The conversion to `uint16_t`.
abbrev pub to_u16 : ℤ → ℕ
to_u16 (pos n) = n % 2 ^ 16
to_u16 (negsuc n) = 2 ^ 16 - 1 - n % 2 ^ 16

-- The branches for an option without a value.
unfoldable pub flag : Bytes → Options → Options ⊎ Command
flag a o =
    if bytes_eq a (codes "--debug")
    then inl (record o { debug = true })
    else if bytes_eq a (codes "--help")
    then inr shows_usage
    else inr (refuses a)

unfoldable pub parse_args : List Bytes → Options → Command
unfolding flag atoi
parse_args [] o = starts o
parse_args (a ∷ []) o = elim (flag a o) [ inl o' ↦ starts o' | inr c ↦ c ]
parse_args (a ∷ v ∷ rest) o =
    if bytes_eq a (codes "--port")
    then parse_args rest (record o { port = to_u16 (atoi v) })
    else if bytes_eq a (codes "--bind-ip")
    then parse_args rest (record o { bind_ip = v })
    else elim (flag a o) [ inl o' ↦ parse_args (v ∷ rest) o' | inr c ↦ c ]
