-- ===== src/Log/Run.antt =====
-- log.c: what the level changes in the lines that a run of calls prints.
use psdk_orangepi.Prelude.{
  ◌≤◌, ◌≡◌, refl, sym, ap, ◌∙◌, Bool, true, false, List, [], ◌∷◌, ◌++◌, append_assoc, append-nil,
  arith, All, ltb, leb, if◌then◌else◌, Bool-cases, inl, inr,
}
use psdk_orangepi.Prelude.Text.{Bytes}
use psdk_orangepi.Log.{
  LogLevel, level_debug, level_info, level_warn, level_error, stdout, stderr, Written, Log,
  LocalTime, line_text, log_write, log_debug, log_info, log_warn, log_error, log_set_level,
}
use psdk_orangepi.Log.Level.{IsTime, level_shown, level_shown_line}

pub data LogCall : Type 0 where
  debugs infos warns errors : LocalTime → Bytes → Bytes → LogCall

abbrev pub time_of : LogCall → LocalTime
time_of (debugs t tag msg) = t
time_of (infos t tag msg) = t
time_of (warns t tag msg) = t
time_of (errors t tag msg) = t

abbrev pub call : LogCall → Log → Log
call (debugs t tag msg) log = log_debug t tag msg log
call (infos t tag msg) log = log_info t tag msg log
call (warns t tag msg) log = log_warn t tag msg log
call (errors t tag msg) log = log_error t tag msg log

abbrev pub run_calls : List LogCall → Log → Log
run_calls [] log = log
run_calls (c ∷ cs) log = run_calls cs (call c log)

-- The lines that show at least a level.
abbrev pub from_level : LogLevel → List Written → List Written
from_level b [] = []
from_level b (w ∷ ws) =
    let rest = from_level b ws in if leb b (level_shown w.text) then w ∷ rest else rest

-- The stream that a line belongs on.
abbrev pub IsOnItsStream : Written → Type 0
IsOnItsStream w = w.stream ≡ (if leb level_warn (level_shown w.text) then stderr else stdout)

-- The severity of a call, its tag and its message.
abbrev severity : LogCall → LogLevel
severity (debugs t tag msg) = level_debug
severity (infos t tag msg) = level_info
severity (warns t tag msg) = level_warn
severity (errors t tag msg) = level_error

abbrev text_of : LogCall → Bytes
text_of (debugs t tag msg) = line_text t level_debug tag msg
text_of (infos t tag msg) = line_text t level_info tag msg
text_of (warns t tag msg) = line_text t level_warn tag msg
text_of (errors t tag msg) = line_text t level_error tag msg

abbrev line : LogCall → Written
line c = record {
  stream = if leb level_warn (severity c) then stderr else stdout;
  text = text_of c;
}

abbrev new_lines : LogLevel → LogCall → List Written
new_lines g c = if ltb (severity c) g then [] else line c ∷ []

abbrev all_lines : LogLevel → List LogCall → List Written
all_lines g [] = []
all_lines g (c ∷ cs) = new_lines g c ++ all_lines g cs

abbrev at_level : LogLevel → List Written → Log
at_level g ws = record { g_level = g; written = ws }

written_if :
    (b : Bool) (g : LogLevel) (w : Written) (ws : List Written)
    → (if b then at_level g ws else at_level g (ws ++ w ∷ []))
      ≡ at_level g (ws ++ (if b then [] else w ∷ []))
written_if true g w ws = ap (at_level g) (sym (append-nil ws))
written_if false g w ws = refl

call_lem :
    (c : LogCall) (g : LogLevel) (ws : List Written)
    → call c (at_level g ws) ≡ at_level g (ws ++ new_lines g c)
unfolding log_debug log_info log_warn log_error log_write
call_lem (debugs t tag msg) g ws = written_if (ltb level_debug g) g (line (debugs t tag msg)) ws
call_lem (infos t tag msg) g ws = written_if (ltb level_info g) g (line (infos t tag msg)) ws
call_lem (warns t tag msg) g ws = written_if (ltb level_warn g) g (line (warns t tag msg)) ws
call_lem (errors t tag msg) g ws = written_if (ltb level_error g) g (line (errors t tag msg)) ws

run_calls_lem :
    (cs : List LogCall) (g : LogLevel) (ws : List Written)
    → run_calls cs (at_level g ws) ≡ at_level g (ws ++ all_lines g cs)
run_calls_lem [] g ws = ap (at_level g) (sym (append-nil ws))
run_calls_lem (c ∷ cs) g ws =
    ap (run_calls cs) (call_lem c g ws)
    ∙ run_calls_lem cs g (ws ++ new_lines g c)
    ∙ ap (at_level g) (append_assoc ws (new_lines g c) (all_lines g cs))

level_shown_call : (c : LogCall) → IsTime (time_of c) → level_shown (text_of c) ≡ severity c
level_shown_call (debugs t tag msg) v = level_shown_line t level_debug tag msg v (omega arith)
level_shown_call (infos t tag msg) v = level_shown_line t level_info tag msg v (omega arith)
level_shown_call (warns t tag msg) v = level_shown_line t level_warn tag msg v (omega arith)
level_shown_call (errors t tag msg) v = level_shown_line t level_error tag msg v (omega arith)

from_level-append :
    (b : LogLevel) (xs ys : List Written)
    → from_level b (xs ++ ys) ≡ from_level b xs ++ from_level b ys
from_level-append b [] ys = refl
from_level-append b (x ∷ xs) ys = elim (Bool-cases (leb b (level_shown x.text))) [
  | inl e ↦ rw (e, from_level-append b xs ys) refl
  | inr e ↦ rw (e, from_level-append b xs ys) refl
]

from_level-new :
    (a b : LogLevel) (c : LogCall)
    → a ≤ b
    → IsTime (time_of c)
    → from_level b (new_lines a c) ≡ new_lines b c
from_level-new a b c h v =
    let e = level_shown_call c v in
    elim (Bool-cases (ltb (severity c) a)) [
      | inl p ↦ let q : ltb (severity c) b ≡ true = ground arith in rw (p, q) refl
      | inr p ↦ elim (Bool-cases (ltb (severity c) b)) [
        | inl q ↦ let r : leb b (severity c) ≡ false = ground arith in rw (p, q, e, r) refl
        | inr q ↦ let r : leb b (severity c) ≡ true = ground arith in rw (p, q, e, r) refl
      ]
    ]

All-append : (P : Written → Type 0) (xs ys : List Written) → All P xs → All P ys → All P (xs ++ ys)
All-append P [] ys p q = q
All-append P (x ∷ xs) ys p q = (p.0, All-append P xs ys p.1 q)

IsOnItsStream-new :
    (a : LogLevel) (c : LogCall) → IsTime (time_of c) → All IsOnItsStream (new_lines a c)
IsOnItsStream-new a c v = elim (Bool-cases (ltb (severity c) a)) [
  | inl p ↦ rw p tt
  | inr p ↦ rw p (rw (level_shown_call c v) refl, tt)
]

module _ (a b : LogLevel) (h : a ≤ b) where
  from_level-all_lines :
      (cs : List LogCall)
      → All (λ c. IsTime (time_of c)) cs
      → (from_level b (all_lines a cs) ≡ all_lines b cs) × All IsOnItsStream (all_lines a cs)
  from_level-all_lines [] v = (refl, tt)
  from_level-all_lines (c ∷ cs) v =
      let (same, streams) = from_level-all_lines cs v.1 in
      (
        rw (from_level-append b (new_lines a c) (all_lines a cs), from_level-new a b c h v.0, same)
            refl,
        All-append IsOnItsStream (new_lines a c) (all_lines a cs) (IsOnItsStream-new a c v.0)
            streams,
      )

  -- Two runs of the same calls, from a log that has printed nothing: at the higher level exactly
  -- the lines of the lower level are printed that show at least the higher one, in the same order;
  -- and a line stands on stderr exactly where it shows a warning or an error.
  pub log_set_level_lem :
      (cs : List LogCall) (log : Log)
      → All (λ c. IsTime (time_of c)) cs
      → log.written ≡ []
      → let low = run_calls cs (log_set_level a log) in
        let high = run_calls cs (log_set_level b log) in
        (high.written ≡ from_level b low.written) × All IsOnItsStream low.written
  unfolding log_set_level
  log_set_level_lem cs log v e =
      rw (e, run_calls_lem cs a [], run_calls_lem cs b [])
        (sym (from_level-all_lines cs v).0, (from_level-all_lines cs v).1)
