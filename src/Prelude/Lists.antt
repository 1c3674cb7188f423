-- ===== src/Prelude/Lists.antt =====
-- Lists measured and indexed by native numbers, under the library's names.
use Prim.Native.Nat.{ℕ, zero, suc, ◌+◌, ◌≤◌, ◌<◌, min}
use mathlib.Core.Path.{◌≡◌, refl, ap}
use mathlib.Core.List.{List, [], ◌∷◌, ◌++◌}
use native.Mathlib.Omega.{arith}

module _ {ℓ} {A : Type ℓ} where
  abbrev pub length : List A → ℕ
  length [] = 0
  length (x ∷ xs) = suc (length xs)

  abbrev pub get_or : List A → ℕ → A → A
  get_or [] i d = d
  get_or (x ∷ xs) zero d = x
  get_or (x ∷ xs) (suc i) d = get_or xs i d

  abbrev pub take : ℕ → List A → List A
  take zero xs = []
  take (suc n) [] = []
  take (suc n) (x ∷ xs) = x ∷ take n xs

  abbrev pub drop : ℕ → List A → List A
  drop zero xs = xs
  drop (suc n) [] = []
  drop (suc n) (x ∷ xs) = drop n xs

  abbrev pub set_at : ℕ → A → List A → List A
  set_at i y [] = []
  set_at zero y (x ∷ xs) = y ∷ xs
  set_at (suc i) y (x ∷ xs) = x ∷ set_at i y xs

  abbrev pub sum : (A → ℕ) → List A → ℕ
  sum f [] = 0
  sum f (x ∷ xs) = f x + sum f xs

  abbrev pub replicate : ℕ → A → List A
  replicate zero x = []
  replicate (suc n) x = x ∷ replicate n x

  abbrev pub All {κ} : (A → Type κ) → List A → Type κ
  All P [] = Unit
  All P (x ∷ xs) = P x × All P xs

  pub length-append : (xs ys : List A) → length (xs ++ ys) ≡ length xs + length ys
  length-append [] ys = omega arith
  length-append (x ∷ xs) ys = omega (arith, length-append xs ys)

  pub take-append-drop : (n : ℕ) (xs : List A) → take n xs ++ drop n xs ≡ xs
  take-append-drop zero xs = refl
  take-append-drop (suc n) [] = refl
  take-append-drop (suc n) (x ∷ xs) = ap (◌∷◌ x) (take-append-drop n xs)

  pub length-take : (n : ℕ) (xs : List A) → length (take n xs) ≡ min n (length xs)
  length-take zero xs = omega arith
  length-take (suc n) [] = omega arith
  length-take (suc n) (x ∷ xs) = omega (arith, length-take n xs)

  -- A list no longer than the count is taken whole.
  pub take_all : (n : ℕ) (xs : List A) → length xs ≤ n → take n xs ≡ xs
  take_all zero [] h = refl
  take_all zero (x ∷ xs) h = absurd (omega arith)
  take_all (suc n) [] h = refl
  take_all (suc n) (x ∷ xs) h = ap (◌∷◌ x) (take_all n xs (omega arith))

  pub take-append : (xs ys : List A) → take (length xs) (xs ++ ys) ≡ xs
  take-append [] ys = refl
  take-append (x ∷ xs) ys = ap (◌∷◌ x) (take-append xs ys)

  pub length-set_at : (i : ℕ) (y : A) (xs : List A) → length (set_at i y xs) ≡ length xs
  length-set_at i y [] = refl
  length-set_at zero y (x ∷ xs) = refl
  length-set_at (suc i) y (x ∷ xs) = ap suc (length-set_at i y xs)

  pub get_or-set_at :
      (i : ℕ) (y d : A) (xs : List A) → i < length xs → get_or (set_at i y xs) i d ≡ y
  get_or-set_at i y d [] h = absurd (omega arith)
  get_or-set_at zero y d (x ∷ xs) h = refl
  get_or-set_at (suc i) y d (x ∷ xs) h = get_or-set_at i y d xs (omega arith)

  pub set_at-get_or : (i : ℕ) (d : A) (xs : List A) → set_at i (get_or xs i d) xs ≡ xs
  set_at-get_or i d [] = refl
  set_at-get_or zero d (x ∷ xs) = refl
  set_at-get_or (suc i) d (x ∷ xs) = ap (◌∷◌ x) (set_at-get_or i d xs)

  pub set_at_again : (i : ℕ) (y z : A) (xs : List A) → set_at i z (set_at i y xs) ≡ set_at i z xs
  set_at_again i y z [] = refl
  set_at_again zero y z (x ∷ xs) = refl
  set_at_again (suc i) y z (x ∷ xs) = ap (◌∷◌ x) (set_at_again i y z xs)

  pub sum-set_at :
      (f : A → ℕ) (i : ℕ) (y d : A) (xs : List A)
      → i < length xs
      → sum f (set_at i y xs) + f (get_or xs i d) ≡ sum f xs + f y
  sum-set_at f i y d [] h = absurd (omega arith)
  sum-set_at f zero y d (x ∷ xs) h = omega arith
  sum-set_at f (suc i) y d (x ∷ xs) h = omega (arith, sum-set_at f i y d xs (omega arith))

  pub All-set_at {κ} :
      (P : A → Type κ) (i : ℕ) (y : A) (xs : List A) → P y → All P xs → All P (set_at i y xs)
  All-set_at P i y [] p h = h
  All-set_at P zero y (x ∷ xs) p h = (p, h.1)
  All-set_at P (suc i) y (x ∷ xs) p h = (h.0, All-set_at P i y xs p h.1)

  pub get_or-All {κ} :
      (P : A → Type κ) (i : ℕ) (d : A) (xs : List A) → i < length xs → All P xs → P (get_or xs i d)
  get_or-All P i d [] h q = absurd (omega arith)
  get_or-All P zero d (x ∷ xs) h q = q.0
  get_or-All P (suc i) d (x ∷ xs) h q = get_or-All P i d xs (omega arith) q.1

  pub All-replicate {κ} : (P : A → Type κ) (n : ℕ) (x : A) → P x → All P (replicate n x)
  All-replicate P zero x p = tt
  All-replicate P (suc n) x p = (p, All-replicate P n x p)

  pub All-append {κ} : (P : A → Type κ) (xs ys : List A) → All P xs → All P ys → All P (xs ++ ys)
  All-append P [] ys p q = q
  All-append P (x ∷ xs) ys p q = (p.0, All-append P xs ys p.1 q)

  pub All-each {κ} : (P : A → Type κ) → ((x : A) → P x) → (xs : List A) → All P xs
  All-each P h [] = tt
  All-each P h (x ∷ xs) = (h x, All-each P h xs)
