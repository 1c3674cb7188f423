-- ===== src/Prelude/Decimal.antt =====
-- `atoi`, and its reading of what `%u` and `%d` print.
use Prim.Native.Nat.{ℕ, zero, suc, ◌+◌, ◌-◌, ◌*◌, ◌/◌, ◌%◌, ◌≤◌, ◌<◌}
use mathlib.Core.Path.{◌≡◌, refl, sym, ap, ◌∙◌}
use mathlib.Core.Logic.{inl, inr}
use mathlib.Core.Bool.{Bool, true, false, ◌&&◌, ◌||◌}
use mathlib.Core.List.{[], ◌∷◌, ◌++◌, append-nil, append_assoc}
use native.Mathlib.Omega.{arith}
use psdk_orangepi.Prelude.Tests.{leb, ◌==◌, Bool-cases, if◌then◌else◌}
use psdk_orangepi.Prelude.Int.{ℤ, pos, negsuc, pos_part, neg_part, sub_ℕ}
use psdk_orangepi.Prelude.Text.{Bytes, digits, print_unsigned, print_int}

abbrev is_digit : ℕ → Bool
is_digit c = leb 48 c && leb c 57

-- The digits that start a string, behind a number read so far.
unfoldable pub digits_value : ℕ → Bytes → ℕ
digits_value n [] = n
digits_value n (c ∷ cs) =
    let rest = digits_value (n * 10 + (c - 48)) cs in if is_digit c then rest else n

-- `atoi`, for a value that an `int` holds.
unfoldable pub atoi : Bytes → ℤ
unfolding digits_value
atoi [] = pos 0
atoi (c ∷ cs) =
    let rest = atoi cs in
    if (c == 32) || (leb 9 c && leb c 13)
    then rest
    else if c == 45
    then sub_ℕ 0 (digits_value 0 cs)
    else if c == 43
    then pos (digits_value 0 cs)
    else pos (digits_value 0 (c ∷ cs))

-- The numbers that a count of digits holds.
abbrev bound : ℕ → ℕ
bound zero = 1
bound (suc f) = 10 * bound f

one_digit :
    (n d : ℕ) (s : Bytes) → d < 10 → digits_value n ((48 + d) ∷ s) ≡ digits_value (n * 10 + d) s
unfolding digits_value
one_digit n d s h =
    let e : is_digit (48 + d) ≡ true = ground arith in
    rw (e, digits_value) (ap (λ k. digits_value k s) (omega arith))

digits_value-digits :
    (f n : ℕ) (s : Bytes) → n < bound f → digits_value 0 (digits f n ++ s) ≡ digits_value n s
unfolding digits
digits_value-digits zero n s h = ap (λ k. digits_value k s) (omega arith)
digits_value-digits (suc f) n s h = elim (Bool-cases (n / 10 == 0)) [
  | inl e ↦ rw e (one_digit 0 (n % 10) s (omega arith) ∙ ap (λ k. digits_value k s) (ground arith))
  | inr e ↦
      rw (e, append_assoc (digits f (n / 10)) ((48 + n % 10) ∷ []) s)
        (digits_value-digits f (n / 10) ((48 + n % 10) ∷ s) (omega arith)
          ∙ one_digit (n / 10) (n % 10) s (omega arith)
          ∙ ap (λ k. digits_value k s) (omega arith))
]

-- The first byte of a printed number.
record Head (s : Bytes) : Type 0 where
  first : ℕ
  rest : Bytes
  split : s ≡ first ∷ rest
  low : 48 ≤ first
  high : first ≤ 57

Head-digits : (f n d : ℕ) (s : Bytes) → d < 10 → Head (digits f n ++ (48 + d) ∷ s)
unfolding digits
Head-digits zero n d s h = record {
  first = 48 + d;
  rest = s;
  split = refl;
  low = omega arith;
  high = omega arith;
}
Head-digits (suc f) n d s h = elim (Bool-cases (n / 10 == 0)) [
  | inl e ↦ rw e (record {
    first = 48 + n % 10;
    rest = (48 + d) ∷ s;
    split = refl;
    low = omega arith;
    high = omega arith;
  })
  | inr e ↦
      rw (e, append_assoc (digits f (n / 10)) ((48 + n % 10) ∷ []) ((48 + d) ∷ s))
        (Head-digits f (n / 10) (n % 10) ((48 + d) ∷ s) (omega arith))
]

atoi-digit : (c : ℕ) (cs : Bytes) → 48 ≤ c → c ≤ 57 → atoi (c ∷ cs) ≡ pos (digits_value 0 (c ∷ cs))
unfolding atoi
atoi-digit c cs h k = ground arith

Head-print_unsigned : (n : ℕ) → Head (print_unsigned n)
unfolding print_unsigned digits
Head-print_unsigned n = elim (Bool-cases (n / 10 == 0)) [
  | inl e ↦ rw e (record {
    first = 48 + n % 10;
    rest = [];
    split = refl;
    low = omega arith;
    high = omega arith;
  })
  | inr e ↦ rw e (Head-digits 19 (n / 10) (n % 10) [] (omega arith))
]

atoi-Head : (s : Bytes) → Head s → atoi s ≡ pos (digits_value 0 s)
atoi-Head s h = rw h.split (atoi-digit h.first h.rest h.low h.high)

pub atoi-print_unsigned : (n : ℕ) → n < bound 20 → atoi (print_unsigned n) ≡ pos n
unfolding print_unsigned digits_value
atoi-print_unsigned n h =
    atoi-Head (print_unsigned n) (Head-print_unsigned n)
    ∙ ap (λ s. pos (digits_value 0 s)) (sym (append-nil (digits 20 n)))
    ∙ ap pos (digits_value-digits 20 n [] h)

digits_value-print :
    (n c : ℕ) (s : Bytes)
    → n < bound 20
    → is_digit c ≡ false
    → digits_value 0 (print_unsigned n ++ c ∷ s) ≡ n
unfolding print_unsigned digits_value
digits_value-print n c s h e = digits_value-digits 20 n (c ∷ s) h ∙ rw (e, digits_value) refl

Head-append : (a b : Bytes) → Head a → Head (a ++ b)
Head-append a b h = record {
  first = h.first;
  rest = h.rest ++ b;
  split = ap (λ s. s ++ b) h.split;
  low = h.low;
  high = h.high;
}

-- A printed `int` is read back, up to a byte behind it that is no digit.
pub atoi-print_int :
    (n : ℤ) (c : ℕ) (s : Bytes)
    → pos_part n < bound 20
    → neg_part n < bound 20
    → is_digit c ≡ false
    → atoi (print_int n ++ c ∷ s) ≡ n
unfolding print_int atoi
atoi-print_int (pos n) c s h k e =
    atoi-Head (print_unsigned n ++ c ∷ s)
      (Head-append (print_unsigned n) (c ∷ s) (Head-print_unsigned n))
    ∙ ap pos (digits_value-print n c s h e)
atoi-print_int (negsuc n) c s h k e =
    ap (sub_ℕ 0) (digits_value-print (suc n) c s k e) ∙ ground arith
