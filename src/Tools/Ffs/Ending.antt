-- ===== src/Tools/Ffs/Ending.antt =====
-- tools/ffs_init.c: how the program ends.
use psdk_orangepi.Prelude.{
  ◌≡◌, refl, sym, ap, ◌∙◌, Bool, true, false, ◌&&◌, Option, some, List, [], ◌∷◌, ◌++◌, append_assoc,
  append-nil, if◌then◌else◌,
}
use psdk_orangepi.Prelude.Int.{pos}
use psdk_orangepi.Prelude.Text.{Bytes, codes}
use psdk_orangepi.Proto.{snprintf}
use psdk_orangepi.Tools.Ffs.{
  bind, unbind, enable, disable, setup, other, EventRead, interrupted, failed, event, EpCall,
  open_ep, write_ep, close_ep, event_loop, ffs_main, ffs_dir, descriptors, strings,
}

-- A stall, an empty write, for each SETUP event before the loop ends.
abbrev pub stalls : List EventRead → List EpCall
stalls [] = []
stalls (interrupted ∷ rs) = stalls rs
stalls (failed ∷ rs) = []
stalls (event setup ∷ rs) = write_ep [] ∷ stalls rs
stalls (event unbind ∷ rs) = []
stalls (event _ ∷ rs) = stalls rs

event_loop_ends :
    (rs : List EventRead) (made : List EpCall)
    → event_loop (rs ++ event unbind ∷ []) made ≡ (true, made ++ stalls rs)
unfolding event_loop
event_loop_ends [] made = ap (λ m. (true, m)) (sym (append-nil made))
event_loop_ends (interrupted ∷ rs) made = event_loop_ends rs made
event_loop_ends (failed ∷ rs) made = ap (λ m. (true, m)) (sym (append-nil made))
event_loop_ends (event setup ∷ rs) made =
    event_loop_ends rs (made ++ write_ep [] ∷ [])
    ∙ ap (λ m. (true, m)) (append_assoc made (write_ep [] ∷ []) (stalls rs))
event_loop_ends (event unbind ∷ rs) made = ap (λ m. (true, m)) (sym (append-nil made))
event_loop_ends (event bind ∷ rs) made = event_loop_ends rs made
event_loop_ends (event enable ∷ rs) made = event_loop_ends rs made
event_loop_ends (event disable ∷ rs) made = event_loop_ends rs made
event_loop_ends (event (other n) ∷ rs) made = event_loop_ends rs made

-- The calls of a run that ends, by what `open` and the writes answered.
abbrev pub whole_run :
    Bytes → (opened written strings_written : Bool) → List EventRead → List EpCall
whole_run path false written strings_written rs = open_ep path ∷ []
whole_run path true false strings_written rs = open_ep path ∷ write_ep descriptors ∷ close_ep ∷ []
whole_run path true true false rs =
    open_ep path ∷ write_ep descriptors ∷ write_ep strings ∷ close_ep ∷ []
whole_run path true true true rs =
    open_ep path ∷ write_ep descriptors ∷ write_ep strings ∷ (stalls rs ++ close_ep ∷ [])

-- Whatever the events before it, ffs_init ends at an UNBIND: it returns 0 where ep0 was opened and
-- both writes succeeded, and 1 otherwise; it has written the descriptors, the strings and one
-- stall for each SETUP before the loop ended, as far as it got, and has closed ep0 once wherever
-- it was opened.
pub ffs_main-unbind :
    (dir : Option Bytes) (opened written strings_written : Bool) (rs : List EventRead)
    → let path = (snprintf 256 (ffs_dir dir ++ codes "/ep0")).text in
      ffs_main dir opened written strings_written (rs ++ event unbind ∷ []) ≡ (
        some (if opened && (written && strings_written) then pos 0 else pos 1),
        whole_run path opened written strings_written rs,
      )
unfolding ffs_main
ffs_main-unbind dir false written strings_written rs = refl
ffs_main-unbind dir true false strings_written rs = refl
ffs_main-unbind dir true true false rs = refl
ffs_main-unbind dir true true true rs = rw (event_loop_ends rs, ffs_main) refl
