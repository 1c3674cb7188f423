-- ===== src/Log/Level.antt =====
-- log.c: the level that a printed line shows.
use psdk_orangepi.Prelude.{
  ℕ, zero, suc, ◌+◌, ◌-◌, ◌*◌, ◌/◌, ◌%◌, ◌≤◌, ◌<◌, ◌≡◌, refl, ap, [], ◌∷◌, ◌++◌, arith, length,
  length-append, take, drop, replicate, if◌then◌else◌,
}
use psdk_orangepi.Prelude.Text.{Bytes, codes, bytes_eq, digits, print_unsigned}
use psdk_orangepi.Log.{
  LogLevel, level_debug, level_info, level_warn, level_error, LocalTime, level_str, print_padded,
  time_text, line_text,
}

-- A time as `localtime_r` and `clock_gettime` give it, with a leap second.
pub record IsTime (t : LocalTime) : Type 0 where
  pub hour : t.hour < 24
  pub minute : t.minute < 60
  pub second : t.second ≤ 60
  pub nsec : t.nsec < 1_000_000_000

-- The level that a reader takes from the second pair of brackets; 4 for none of the four.
abbrev pub level_of_tag : Bytes → LogLevel
level_of_tag tag =
    if bytes_eq tag (codes "DBG")
    then level_debug
    else if bytes_eq tag (codes "INF")
    then level_info
    else if bytes_eq tag (codes "WRN")
    then level_warn
    else if bytes_eq tag (codes "ERR")
    then level_error
    else 4

abbrev pub level_shown : Bytes → LogLevel
level_shown text = level_of_tag (take 3 (drop 16 text))

-- A number with that many digits at most.
abbrev power : ℕ → ℕ
power zero = 1
power (suc k) = 10 * power k

length-digits_few : (f k n : ℕ) → n < power (suc k) → length (digits f n) ≤ suc k
unfolding digits
length-digits_few zero k n h = omega arith
length-digits_few (suc f) zero n h =
    ground (arith, length-append (digits f (n / 10)) ((48 + n % 10) ∷ []))
length-digits_few (suc f) (suc k) n h =
    let rest = length-digits_few f k (n / 10) (omega arith) in
    ground (arith, rest, length-append (digits f (n / 10)) ((48 + n % 10) ∷ []))

length-replicate : (n x : ℕ) → length (replicate n x) ≡ n
length-replicate zero x = refl
length-replicate (suc n) x = ap suc (length-replicate n x)

length-print_padded : (k n : ℕ) → n < power (suc k) → length (print_padded (suc k) n) ≡ suc k
unfolding print_padded print_unsigned
length-print_padded k n h = omega (
  arith,
  length-digits_few 20 k n h,
  length-replicate (suc k - length (print_unsigned n)) b'0',
  length-append (replicate (suc k - length (print_unsigned n)) b'0') (print_unsigned n),
)

two : (s : Bytes) → length s ≡ 2 → (a : ℕ) × (b : ℕ) × (s ≡ a ∷ b ∷ [])
two [] h = absurd (omega arith)
two (a ∷ []) h = absurd (omega arith)
two (a ∷ b ∷ []) h = (a, b, refl)
two (a ∷ b ∷ c ∷ s) h = absurd (omega arith)

three : (s : Bytes) → length s ≡ 3 → (a : ℕ) × (b : ℕ) × (c : ℕ) × (s ≡ a ∷ b ∷ c ∷ [])
three [] h = absurd (omega arith)
three (a ∷ []) h = absurd (omega arith)
three (a ∷ b ∷ []) h = absurd (omega arith)
three (a ∷ b ∷ c ∷ []) h = (a, b, c, refl)
three (a ∷ b ∷ c ∷ d ∷ s) h = absurd (omega arith)

level_shown_str :
    (level : LogLevel) (s : Bytes)
    → level < 4
    → level_of_tag (take 3 (level_str level ++ s)) ≡ level
unfolding level_str bytes_eq
level_shown_str zero s h = refl
level_shown_str (suc zero) s h = refl
level_shown_str (suc (suc zero)) s h = refl
level_shown_str (suc (suc (suc zero))) s h = refl
level_shown_str (suc (suc (suc (suc n)))) s h = absurd (omega arith)

-- A line shows the level that it was written at.
pub level_shown_line :
    (t : LocalTime) (level : LogLevel) (tag msg : Bytes)
    → IsTime t
    → level < 4
    → level_shown (line_text t level tag msg) ≡ level
unfolding line_text time_text
level_shown_line t level tag msg v h =
    let (h1, h2, eh) = two _ (length-print_padded 1 t.hour (omega (arith, v.hour))) in
    let (m1, m2, em) = two _ (length-print_padded 1 t.minute (omega (arith, v.minute))) in
    let (s1, s2, es) = two _ (length-print_padded 1 t.second (omega (arith, v.second))) in
    let (n1, n2, n3, en) =
      three _ (length-print_padded 2 (t.nsec / 1_000_000) (omega (arith, v.nsec))) in
    rw (eh, em, es, en) (level_shown_str level _ h)
