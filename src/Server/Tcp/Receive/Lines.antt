-- ===== src/Server/Tcp/Receive/Lines.antt =====
-- tcp_server.c: the splitting of a buffer into lines, where it is cut in two, and where it is made of
-- messages that end in a newline each.
use psdk_orangepi.Prelude.{
  ℕ, ◌-◌, ◌<◌, ◌≡◌, refl, Bool, false, List, [], ◌∷◌, ◌++◌, arith, length, get_or, All, ◌==◌,
  Bool-cases, inl, inr,
}
use psdk_orangepi.Prelude.Int.{ℤ}
use psdk_orangepi.Prelude.Text.{Bytes, has_byte}
use psdk_orangepi.Server.Tcp.Receive.{cons_first, split_lines, strip_cr, serve_line, serve}

other :
    (c : ℕ) (r : List Bytes × Bytes) (b : Bytes)
    → (c == 10) ≡ false
    → cons_first c (r.0 ++ (split_lines (r.1 ++ b)).0, (split_lines (r.1 ++ b)).1) ≡ (
      (cons_first c r).0 ++ (split_lines ((cons_first c r).1 ++ b)).0,
      (split_lines ((cons_first c r).1 ++ b)).1,
    )
unfolding split_lines
other c ([], rest) b e = rw (e, split_lines) refl
other c (l ∷ ls, rest) b e = refl

pub split_lines-append :
    (a b : Bytes)
    → split_lines (a ++ b) ≡ (
      (split_lines a).0 ++ (split_lines ((split_lines a).1 ++ b)).0,
      (split_lines ((split_lines a).1 ++ b)).1,
    )
unfolding split_lines
split_lines-append [] b = refl
split_lines-append (c ∷ cs) b = elim (Bool-cases (c == 10)) [
  | inl e ↦ rw (e, split_lines-append cs b) refl
  | inr e ↦ rw (e, split_lines-append cs b) (other c (split_lines cs) b e)
]

-- A buffer without a newline holds no line.
pub split_lines_none : (s : Bytes) → has_byte 10 s ≡ false → split_lines s ≡ ([], s)
unfolding split_lines has_byte
split_lines_none [] h = refl
split_lines_none (c ∷ cs) h = elim (Bool-cases (c == 10)) [
  | inl e ↦ absurd (ground arith)
  | inr e ↦ rw (e, split_lines_none cs (ground arith)) refl
]

abbrev pub frames : List Bytes → Bytes
frames [] = []
frames (m ∷ ms) = m ++ 10 ∷ frames ms

split_lines-line :
    (m s : Bytes)
    → has_byte 10 m ≡ false
    → split_lines (m ++ 10 ∷ s) ≡ (m ∷ (split_lines s).0, (split_lines s).1)
unfolding split_lines has_byte
split_lines-line [] s h = refl
split_lines-line (c ∷ cs) s h = elim (Bool-cases (c == 10)) [
  | inl e ↦ absurd (ground arith)
  | inr e ↦ rw (e, split_lines-line cs s (ground arith)) refl
]

pub split_lines-frames :
    (ms : List Bytes) → All (λ m. has_byte 10 m ≡ false) ms → split_lines (frames ms) ≡ (ms, [])
split_lines-frames [] h = unfold split_lines in refl
split_lines-frames (m ∷ ms) h =
    rw (split_lines-line m (frames ms) h.0, split_lines-frames ms h.1) refl

strip_cr_message : (m : Bytes) → (get_or m (length m - 1) 0 == 13) ≡ false → strip_cr m ≡ m
unfolding strip_cr
strip_cr_message m h = ground (arith, h)

-- What a line that is not changed on its way is: not empty, without a newline, not ending in a
-- carriage return.
pub record IsMessage (m : Bytes) : Type 0 where
  pub some_text : 0 < length m
  pub no_newline : has_byte 10 m ≡ false
  pub no_return : (get_or m (length m - 1) 0 == 13) ≡ false

module _ {W : Type 0} (on_message : ℤ → Bytes → W → Bool × W) where
  abbrev pub NeverCloses : Type 0
  NeverCloses = (fd : ℤ) (l : Bytes) (w : W) → (on_message fd l w).0 ≡ false

  serve_line-open :
      NeverCloses → (fd : ℤ) (l : Bytes) (w : W) → (serve_line on_message fd l w).0 ≡ false
  unfolding serve_line
  serve_line-open never fd [] w = refl
  serve_line-open never fd (c ∷ cs) w = never fd (c ∷ cs) w

  pub serve-open :
      NeverCloses → (fd : ℤ) (ls : List Bytes) (w : W) → (serve on_message fd ls w).0 ≡ false
  unfolding serve
  serve-open never fd [] w = refl
  serve-open never fd (l ∷ ls) w =
      rw (serve_line-open never fd (strip_cr l) w, serve) (serve-open never fd ls _)

  -- Where the callback never asks to close, the lines are served one after the other.
  pub serve-append :
      NeverCloses
      → (fd : ℤ) (ls ls' : List Bytes) (w : W)
      → serve on_message fd (ls ++ ls') w ≡ serve on_message fd ls' (serve on_message fd ls w).1
  unfolding serve
  serve-append never fd [] ls' w = refl
  serve-append never fd (l ∷ ls) ls' w =
      rw (serve_line-open never fd (strip_cr l) w, serve) (serve-append never fd ls ls' _)

  -- The messages handed to the callback in their order.
  abbrev pub deliver_all : ℤ → List Bytes → W → W
  deliver_all fd [] w = w
  deliver_all fd (m ∷ ms) w = deliver_all fd ms (on_message fd m w).1

  serve_line-message :
      (fd : ℤ) (m : Bytes) (w : W)
      → IsMessage m
      → serve_line on_message fd (strip_cr m) w ≡ on_message fd m w
  unfolding serve_line
  serve_line-message fd [] w h = absurd (omega (arith, h.some_text))
  serve_line-message fd (c ∷ cs) w h = rw (strip_cr_message (c ∷ cs) h.no_return) refl

  pub serve-messages :
      NeverCloses
      → (fd : ℤ) (ms : List Bytes) (w : W) → All IsMessage ms
      → (serve on_message fd ms w).1 ≡ deliver_all fd ms w
  unfolding serve
  serve-messages never fd [] w h = refl
  serve-messages never fd (m ∷ ms) w h =
      rw (serve_line-open never fd (strip_cr m) w, serve)
        (rw (serve_line-message fd m w h.0) (serve-messages never fd ms _ h.1))
