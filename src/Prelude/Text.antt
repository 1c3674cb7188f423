-- ===== src/Prelude/Text.antt =====
-- C strings as lists of bytes without the terminating NUL, and the library calls on them.
use Prim.Native.Char.{code}
use Prim.Native.String.{String}
use Prim.Native.Nat.{ℕ, zero, suc, ◌+◌, ◌/◌, ◌%◌, ◌≤◌, ◌<◌}
use mathlib.Core.Path.{◌≡◌, refl}
use mathlib.Core.Bool.{Bool, true, false, ◌&&◌, ◌||◌}
use mathlib.Core.List.{List, [], ◌∷◌, ◌++◌}
use native.Mathlib.Omega.{arith}
use psdk_orangepi.Prelude.Tests.{◌==◌, if◌then◌else◌}
use psdk_orangepi.Prelude.Lists.{length, length-append}
use psdk_orangepi.Prelude.Int.{ℤ, pos, negsuc}

abbrev pub Bytes : Type 0
Bytes = List ℕ

-- The bytes of a literal: its code points, since every literal of the sources is ASCII.
abbrev pub codes : String → Bytes
codes String.[] = []
codes (String.◌∷◌ c s) = code c ∷ codes s

-- `!strcmp(a, b)`
unfoldable pub bytes_eq : Bytes → Bytes → Bool
bytes_eq [] [] = true
bytes_eq [] (y ∷ ys) = false
bytes_eq (x ∷ xs) [] = false
bytes_eq (x ∷ xs) (y ∷ ys) = (x == y) && bytes_eq xs ys

-- The C string that starts a buffer: the bytes before the first NUL.
unfoldable pub c_string : Bytes → Bytes
c_string [] = []
c_string (x ∷ xs) = if x == 0 then [] else x ∷ c_string xs

-- `strchr(s, c) != NULL`
unfoldable pub has_byte : ℕ → Bytes → Bool
has_byte c [] = false
has_byte c (x ∷ xs) = (x == c) || has_byte c xs

-- Whether `p` starts the string.
unfoldable pub starts_with : Bytes → Bytes → Bool
starts_with [] s = true
starts_with (p ∷ ps) [] = false
starts_with (p ∷ ps) (x ∷ xs) = (p == x) && starts_with ps xs

-- `strstr(s, p) != NULL`
unfoldable pub has_substring : Bytes → Bytes → Bool
unfolding starts_with
has_substring p [] = starts_with p []
has_substring p (x ∷ xs) = starts_with p (x ∷ xs) || has_substring p xs

-- The decimal digits of a number that has at most as many of them as the fuel.
unfoldable pub digits : ℕ → ℕ → Bytes
digits zero n = []
digits (suc f) n =
    let rest = digits f (n / 10) in
    if n / 10 == 0 then (48 + n % 10) ∷ [] else rest ++ (48 + n % 10) ∷ []

-- `%u`, `%llu`: twenty digits hold every `unsigned long long`.
unfoldable pub print_unsigned : ℕ → Bytes
unfolding digits
print_unsigned n = digits 20 n

-- `%d`
unfoldable pub print_int : ℤ → Bytes
unfolding print_unsigned
print_int (pos n) = print_unsigned n
print_int (negsuc n) = b'-' ∷ print_unsigned (suc n)

pub bytes_eq-eq : (a b : Bytes) → bytes_eq a b ≡ true → a ≡ b
unfolding bytes_eq
bytes_eq-eq [] [] h = refl
bytes_eq-eq [] (y ∷ ys) h = ground arith
bytes_eq-eq (x ∷ xs) [] h = ground arith
bytes_eq-eq (x ∷ xs) (y ∷ ys) h = ground (arith, bytes_eq-eq xs ys)

pub bytes_eq_refl : (a : Bytes) → bytes_eq a a ≡ true
unfolding bytes_eq
bytes_eq_refl [] = refl
bytes_eq_refl (x ∷ xs) = ground (arith, bytes_eq_refl xs)

pub length-digits : (f n : ℕ) → length (digits f n) ≤ f
unfolding digits
length-digits zero n = omega arith
length-digits (suc f) n =
    ground (arith, length-digits f (n / 10), length-append (digits f (n / 10)) ((48 + n % 10) ∷ []))

pub length-print_unsigned : (n : ℕ) → length (print_unsigned n) ≤ 20
unfolding print_unsigned
length-print_unsigned n = length-digits 20 n

pub length-print_int_pos : (n : ℤ) → 0 < length (print_int n)
unfolding print_int print_unsigned digits
length-print_int_pos (pos n) =
    ground (arith, length-append (digits 19 (n / 10)) ((48 + n % 10) ∷ []))
length-print_int_pos (negsuc n) = omega arith

pub length-print_int : (n : ℤ) → length (print_int n) ≤ 21
unfolding print_int
length-print_int (pos n) = omega (arith, length-print_unsigned n)
length-print_int (negsuc n) = omega (arith, length-print_unsigned (suc n))

-- The pieces of a format string and its arguments, one after the other.
abbrev pub concat : List Bytes → Bytes
concat [] = []
concat (s ∷ ss) = s ++ concat ss

-- `b ? "true" : "false"`
abbrev pub show_bool : Bool → Bytes
show_bool true = codes "true"
show_bool false = codes "false"

-- Strings of different lengths differ.
pub bytes_eq_ne : (a b : Bytes) → length b < length a → bytes_eq a b ≡ false
unfolding bytes_eq
bytes_eq_ne [] b h = absurd (omega arith)
bytes_eq_ne (x ∷ xs) [] h = refl
bytes_eq_ne (x ∷ xs) (y ∷ ys) h = ground (arith, bytes_eq_ne xs ys)
