-- ===== src/Prelude/Trim.antt =====
-- The loops that shorten a buffer over its trailing bytes of one kind.
use Prim.Native.Nat.{ℕ, zero, suc, ◌-◌, ◌≤◌, ◌<◌}
use mathlib.Core.Path.{◌≡◌, refl, sym, ap, subst}
use mathlib.Core.Logic.{◌≢◌, ◌⊎◌, inl, inr}
use mathlib.Core.Bool.{Bool, true, false}
use mathlib.Core.List.{[], ◌∷◌, ◌++◌}
use native.Mathlib.Omega.{arith}
use psdk_orangepi.Prelude.Tests.{◌==◌, ==_iff, Bool-cases, if◌then◌else◌}
use psdk_orangepi.Prelude.Lists.{length, length-take, take, drop, take-append-drop, get_or, All}
use psdk_orangepi.Prelude.Text.{Bytes}

module _ (is_dropped : ℕ → Bool) where
  -- `while (len > 0 && is_dropped(buf[len - 1])) len--;`
  unfoldable pub trim_len : Bytes → ℕ → ℕ
  trim_len buf zero = zero
  trim_len buf (suc k) =
      let rest = trim_len buf k in if is_dropped (get_or buf k 0) then rest else suc k

  -- Where the loop stops: the bytes from there on are dropped, the one before is not.
  record Stops (buf : Bytes) (len n : ℕ) : Type 0 where
    inside : n ≤ len
    after : (i : ℕ) → n ≤ i → i < len → is_dropped (get_or buf i 0) ≡ true
    before : (k : ℕ) → n ≡ suc k → is_dropped (get_or buf k 0) ≡ false

  trim_len-Stops : (buf : Bytes) (len : ℕ) → Stops buf len (trim_len buf len)
  unfolding trim_len
  trim_len-Stops buf zero = record {
    inside = omega arith;
    after = λ i h k. absurd (omega arith);
    before = λ k e. absurd (omega arith);
  }
  trim_len-Stops buf (suc k) = elim (Bool-cases (is_dropped (get_or buf k 0))) [
    | inl e ↦
        let s = trim_len-Stops buf k in
        rw (e, trim_len)
          (record {
            inside = omega (arith, s.inside);
            after = λ i h j. elim (Bool-cases (i == k)) [
              | inl q ↦ rw ((==_iff i k).0 q) e
              | inr q ↦ s.after i h (ground arith)
            ];
            before = s.before;
          })
    | inr e ↦
        rw (e, trim_len)
          (record {
            inside = omega arith;
            after = λ i h j. absurd (omega arith);
            before = λ j q. subst (λ i. is_dropped (get_or buf i 0) ≡ false) (omega arith) e;
          })
  ]

  All-drop :
      (xs : Bytes) (n : ℕ)
      → ((i : ℕ) → n ≤ i → i < length xs → is_dropped (get_or xs i 0) ≡ true)
      → All (λ c. is_dropped c ≡ true) (drop n xs)
  All-drop [] zero h = tt
  All-drop [] (suc n) h = tt
  All-drop (x ∷ xs) zero h = (
    h 0 (omega arith) (omega arith),
    All-drop xs 0 (λ i p q. h (suc i) (omega arith) (omega arith)),
  )
  All-drop (x ∷ xs) (suc n) h = All-drop xs n (λ i p q. h (suc i) (omega arith) (omega arith))

  -- The last byte is none that is dropped.
  abbrev pub EndsOther : Bytes → Type 0
  EndsOther body = (body ≢ []) × (is_dropped (get_or body (length body - 1) 0) ≡ false)

  get_or-take : (n i : ℕ) (xs : Bytes) → i < n → get_or (take n xs) i 0 ≡ get_or xs i 0
  get_or-take zero i xs h = absurd (omega arith)
  get_or-take (suc n) i [] h = refl
  get_or-take (suc n) zero (x ∷ xs) h = refl
  get_or-take (suc n) (suc i) (x ∷ xs) h = get_or-take n i xs (omega arith)

  ends_other :
      (buf : Bytes) (k : ℕ)
      → suc k ≤ length buf
      → is_dropped (get_or buf k 0) ≡ false
      → EndsOther (take (suc k) buf)
  ends_other buf k h e =
      let size = length-take (suc k) buf in
      (
        (λ q. omega (arith, size, ap length q)),
        subst (λ i. is_dropped (get_or (take (suc k) buf) i 0) ≡ false) (omega (arith, size))
            (subst (λ c. is_dropped c ≡ false) (sym (get_or-take (suc k) k buf (omega arith))) e),
      )

  -- What the loop keeps and drops of a whole buffer.
  pub record Trimmed (buf : Bytes) (n : ℕ) : Type 0 where
    pub split : buf ≡ take n buf ++ drop n buf
    pub dropped : All (λ c. is_dropped c ≡ true) (drop n buf)
    pub kept : ((n ≡ 0) × (take n buf ≡ [])) ⊎ ((0 < n) × EndsOther (take n buf))

  Trimmed-Stops : (buf : Bytes) (n : ℕ) → Stops buf (length buf) n → Trimmed buf n
  Trimmed-Stops buf zero s = record {
    split = sym (take-append-drop 0 buf);
    dropped = All-drop buf 0 s.after;
    kept = inl (refl, refl);
  }
  Trimmed-Stops buf (suc k) s = record {
    split = sym (take-append-drop (suc k) buf);
    dropped = All-drop buf (suc k) s.after;
    kept = inr (omega arith, ends_other buf k s.inside (s.before k refl));
  }

  pub trim_len-Trimmed : (buf : Bytes) → Trimmed buf (trim_len buf (length buf))
  trim_len-Trimmed buf = Trimmed-Stops buf _ (trim_len-Stops buf (length buf))
