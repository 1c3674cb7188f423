-- ===== src/Proto/Framing.antt =====
-- rpc.c: what `snprintf` and the two reply builders leave in the buffer.
use psdk_orangepi.Prelude.{
  ℕ, ◌+◌, ◌-◌, ◌<◌, ◌≡◌, ◌++◌, arith, length, length-append, length-take, take_all,
}
use psdk_orangepi.Prelude.Int.{ℤ}
use psdk_orangepi.Prelude.Text.{Bytes, codes, print_int}
use psdk_orangepi.Proto.{snprintf, result_text, error_text}

-- A text never passes its buffer, the NUL included.
pub length-snprintf : (size : ℕ) (s : Bytes) → 0 < size → length (snprintf size s).text < size
unfolding snprintf
length-snprintf size s h = omega (arith, length-take (size - 1) s)

pub snprintf_fits : (size : ℕ) (s : Bytes) → length s < size → (snprintf size s).text ≡ s
unfolding snprintf
snprintf_fits size s h = take_all (size - 1) s (omega arith)

pub length-result_text :
    (id : ℤ) (r : Bytes) → length (result_text id r) ≡ length (print_int id) + length r + 17
length-result_text id r = omega (
  arith,
  length-append (print_int id) (codes ",\"result\":" ++ (r ++ codes "}")),
  length-append r (codes "}"),
)

pub length-error_text :
    (id : ℤ) (m : Bytes) → length (error_text id m) ≡ length (print_int id) + length m + 18
length-error_text id m = omega (
  arith,
  length-append (print_int id) (codes ",\"error\":\"" ++ (m ++ codes "\"}")),
  length-append m (codes "\"}"),
)
