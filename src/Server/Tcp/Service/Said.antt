-- ===== src/Server/Tcp/Service/Said.antt =====
-- tcp_server.c: the calls of a callback that notes them, and those for one connection.
use psdk_orangepi.Prelude.{
  ℕ, suc, ◌-◌, ◌+◌, ◌<◌, ◌≡◌, refl, sym, ap, ◌∙◌, Bool, true, false, List, [], ◌∷◌, ◌++◌,
  append-nil, append_assoc, arith, length, get_or, take, ltb, ◌==◌, if◌then◌else◌, Bool-cases, inl,
  inr,
}
use psdk_orangepi.Prelude.Int.{ℤ, pos, eq_ℤ}
use psdk_orangepi.Prelude.Text.{Bytes}
use psdk_orangepi.Server.Tcp.Receive.{Event, split_lines, strip_cr, serve_line, serve}
use psdk_orangepi.Server.Tcp.Service.{drained}

-- What the callback has been called with.
abbrev pub Said : Type 0
Said = List (ℤ × Bytes)

-- A callback that notes its calls and closes nobody.
abbrev pub note_line : ℤ → Bytes → Said → Bool × Said
note_line fd line w = (false, w ++ (fd, line) ∷ [])

-- The lines noted for one descriptor.
abbrev pub said_by : ℕ → Said → List Bytes
said_by fd [] = []
said_by fd ((g, l) ∷ r) = let rest = said_by fd r in if eq_ℤ g (pos fd) then l ∷ rest else rest

abbrev pub if_some : Bytes → List Bytes → List Bytes
if_some [] ls = ls
if_some (c ∷ cs) ls = (c ∷ cs) ∷ ls

abbrev pub without_return : Bytes → Bytes
without_return [] = []
without_return (c ∷ []) = if c == 13 then [] else c ∷ []
without_return (c ∷ d ∷ cs) = c ∷ without_return (d ∷ cs)

-- The lines without a carriage return at their end, those left out that are then empty.
abbrev pub cleaned : List Bytes → List Bytes
cleaned [] = []
cleaned (l ∷ ls) = if_some (without_return l) (cleaned ls)

-- All that a descriptor sends in the events.
abbrev pub stream : ℕ → List Event → Bytes
stream fd [] = []
stream fd (e ∷ es) =
    let rest = stream fd es in if e.fd == fd then (drained e.reads).0 ++ rest else rest

-- The connection does not hang up, and leaves room in the buffer behind its partial line.
pub data IsPolite (fd : ℕ) : Bytes → List Event → Type 0 where
  polite_nil : {line : Bytes} → IsPolite fd line []
  polite_other :
      {line : Bytes} {e : Event} {es : List Event}
      → (e.fd == fd) ≡ false
      → IsPolite fd line es
      → IsPolite fd line (e ∷ es)
  polite_own :
      {line : Bytes} {e : Event} {es : List Event}
      → (e.fd == fd) ≡ true
      → (drained e.reads).1 ≡ false
      → length line + length (drained e.reads).0 < 8191
      → IsPolite fd (split_lines (line ++ (drained e.reads).0)).1 es
      → IsPolite fd line (e ∷ es)

abbrev pub tagged : ℤ → List Bytes → Said
tagged g [] = []
tagged g (l ∷ ls) = (g, l) ∷ tagged g ls

tagged-if_some :
    (g : ℤ) (l : Bytes) (ls : List Bytes) (w : Said)
    → (serve_line note_line g l w).1 ++ tagged g ls ≡ w ++ tagged g (if_some l ls)
unfolding serve_line
tagged-if_some g [] ls w = refl
tagged-if_some g (c ∷ cs) ls w = append_assoc w ((g, c ∷ cs) ∷ []) (tagged g ls)

serve_line-false : (g : ℤ) (l : Bytes) (w : Said) → (serve_line note_line g l w).0 ≡ false
unfolding serve_line
serve_line-false g [] w = refl
serve_line-false g (c ∷ cs) w = refl

-- The code looks at the last byte and shortens the line by it.
strip_cr_at :
    (l : Bytes) (n : ℕ)
    → length l ≡ suc n
    → strip_cr l ≡ (if get_or l n 0 == 13 then take n l else l)
unfolding strip_cr
strip_cr_at l n e =
    let some_text : ltb 0 (suc n) ≡ true = ground arith in
    let before : suc n - 1 ≡ n = omega arith in rw (e, some_text, before) refl

shortened : (c d : ℕ) (cs : Bytes) → strip_cr (c ∷ d ∷ cs) ≡ c ∷ strip_cr (d ∷ cs)
shortened c d cs =
    rw (strip_cr_at (c ∷ d ∷ cs) (suc (length cs)) refl, strip_cr_at (d ∷ cs) (length cs) refl)
      (either (get_or (d ∷ cs) (length cs) 0 == 13))
  where
    either :
        (b : Bool)
        → (if b then c ∷ take (length cs) (d ∷ cs) else c ∷ d ∷ cs)
          ≡ c ∷ (if b then take (length cs) (d ∷ cs) else d ∷ cs)
    either true = refl
    either false = refl

strip_cr_lem : (l : Bytes) → strip_cr l ≡ without_return l
strip_cr_lem [] = unfold strip_cr in refl
strip_cr_lem (c ∷ []) = unfold strip_cr in refl
strip_cr_lem (c ∷ d ∷ cs) = shortened c d cs ∙ ap (λ s. c ∷ s) (strip_cr_lem (d ∷ cs))

pub serve-note_line :
    (g : ℤ) (ls : List Bytes) (w : Said)
    → serve note_line g ls w ≡ (false, w ++ tagged g (cleaned ls))
unfolding serve
serve-note_line g [] w = ap (λ s. (false, s)) (sym (append-nil w))
serve-note_line g (l ∷ ls) w =
    rw (serve_line-false g (strip_cr l) w, serve)
      (serve-note_line g ls (serve_line note_line g (strip_cr l) w).1
        ∙ ap (λ s. (false, s))
            (tagged-if_some g (strip_cr l) (cleaned ls) w
              ∙ ap (λ s. w ++ tagged g (if_some s (cleaned ls))) (strip_cr_lem l)))

pub said_by-append : (fd : ℕ) (a b : Said) → said_by fd (a ++ b) ≡ said_by fd a ++ said_by fd b
said_by-append fd [] b = refl
said_by-append fd ((g, l) ∷ r) b = elim (Bool-cases (eq_ℤ g (pos fd))) [
  | inl e ↦ rw (e, said_by-append fd r b) refl
  | inr e ↦ rw (e, said_by-append fd r b) refl
]

pub said_by-tagged :
    (fd g : ℕ) (ls : List Bytes) → said_by fd (tagged (pos g) ls) ≡ (if g == fd then ls else [])
said_by-tagged fd g [] = elim (Bool-cases (g == fd)) [ inl e ↦ rw e refl | inr e ↦ rw e refl ]
said_by-tagged fd g (l ∷ ls) =
    let e : eq_ℤ (pos g) (pos fd) ≡ (g == fd) = ground arith in
    rw (e, said_by-tagged fd g ls) (either (g == fd))
  where
    either :
        (b : Bool)
        → (if b then l ∷ (if b then ls else []) else (if b then ls else []))
          ≡ (if b then l ∷ ls else [])
    either true = refl
    either false = refl

pub cleaned-append : (a b : List Bytes) → cleaned (a ++ b) ≡ cleaned a ++ cleaned b
cleaned-append [] b = refl
cleaned-append (l ∷ ls) b = rw (cleaned-append ls b) (step (without_return l))
  where
    step : (s : Bytes) → if_some s (cleaned ls ++ cleaned b) ≡ if_some s (cleaned ls) ++ cleaned b
    step [] = refl
    step (c ∷ cs) = refl
