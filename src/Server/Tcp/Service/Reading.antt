-- ===== src/Server/Tcp/Service/Reading.antt =====
-- tcp_server.c: the loop that fills a buffer, against the bytes that a connection has sent.
use psdk_orangepi.Prelude.{
  ℕ, ◌+◌, ◌-◌, ◌<◌, ◌≤◌, ◌≡◌, refl, Bool, true, false, ◌||◌, Option, none, some, List, [], ◌∷◌,
  ◌++◌, append-nil, append_assoc, arith, length, length-append, length-take, take, take_all, subst,
  ltb, leb, ◌==◌, if◌then◌else◌, Bool-cases, inl, inr,
}
use psdk_orangepi.Prelude.Text.{Bytes}
use psdk_orangepi.Types.{recv_buf_len}
use psdk_orangepi.Server.Tcp.Receive.{ReadResult, got, would_block, read_error, space, fill}
use psdk_orangepi.Server.Tcp.Receive.Preserved.{space_lem}
use psdk_orangepi.Server.Tcp.Service.{drained, heard}

fill_full : (buf : Bytes) (rs : List ReadResult) → (space buf == 0) ≡ true → fill buf rs ≡ none
unfolding fill
fill_full buf [] e = rw (e, fill) refl
fill_full buf (would_block ∷ rs) e = rw (e, fill) refl
fill_full buf (read_error ∷ rs) e = refl
fill_full buf (got [] ∷ rs) e = refl
fill_full buf (got (c ∷ cs) ∷ rs) e = rw (e, fill) refl

heard_full :
    (line : Bytes) (rs : List ReadResult)
    → recv_buf_len - 1 ≤ length line + length (drained rs).0
    → heard line rs ≡ none
heard_full line rs h = ground arith

heard_more :
    (line s : Bytes) (c : ℕ) (cs : Bytes) (over : Bool)
    → (if over || leb (recv_buf_len - 1) (length (line ++ c ∷ cs) + length s)
        then none
        else some ((line ++ c ∷ cs) ++ s))
      ≡ (if over || leb (recv_buf_len - 1) (length line + length (c ∷ cs ++ s))
          then none
          else some (line ++ (c ∷ cs ++ s)))
heard_more line s c cs over =
    let e : length (line ++ c ∷ cs) + length s ≡ length line + length (c ∷ cs ++ s) =
      omega (arith, length-append line (c ∷ cs), length-append cs s) in
    rw (e, append_assoc line (c ∷ cs) s) refl

full_behind :
    (buf s : Bytes)
    → length buf < recv_buf_len
    → recv_buf_len - 1 ≤ length buf + length s
    → (space (buf ++ take (space buf) s) == 0) ≡ true
full_behind buf s h k =
    ground
      (arith, space_lem buf h, length-append buf (take (space buf) s), length-take (space buf) s)

if_same : (b : Bool) (o : Option Bytes) → (if b then o else o) ≡ o
if_same true o = refl
if_same false o = refl

filled :
    (buf : Bytes) (c : ℕ) (cs : Bytes) (rs : List ReadResult)
    → length buf < recv_buf_len
    → (length (buf ++ take (space buf) (c ∷ cs)) < recv_buf_len
        → fill (buf ++ take (space buf) (c ∷ cs)) rs ≡ heard (buf ++ take (space buf) (c ∷ cs)) rs)
    → fill buf (got (c ∷ cs) ∷ rs) ≡ heard buf (got (c ∷ cs) ∷ rs)
unfolding fill
filled buf c cs rs h ih =
    let room = space_lem buf h in
    elim (Bool-cases (ltb (length buf + length (c ∷ cs)) (recv_buf_len - 1))) [
      | inl e ↦
          let open_ : (space buf == 0) ≡ false = ground arith in
          let whole : take (space buf) (c ∷ cs) ≡ c ∷ cs =
            take_all (space buf) (c ∷ cs) (ground arith) in
          let ih' : fill (buf ++ c ∷ cs) rs ≡ heard (buf ++ c ∷ cs) rs =
            subst
              (λ (s : Bytes).
                length (buf ++ s) < recv_buf_len → fill (buf ++ s) rs ≡ heard (buf ++ s) rs)
              whole ih (ground (arith, length-append buf (c ∷ cs))) in
          rw (open_, whole, ih') (heard_more buf (drained rs).0 c cs (drained rs).1)
      | inr e ↦
          let none_heard : heard buf (got (c ∷ cs) ∷ rs) ≡ none =
            heard_full buf (got (c ∷ cs) ∷ rs)
              (ground (arith, length-append (c ∷ cs) (drained rs).0)) in
          let full = full_behind buf (c ∷ cs) h (ground arith) in
          rw (none_heard, fill_full (buf ++ take (space buf) (c ∷ cs)) rs full)
            (if_same (space buf == 0) none)
    ]

full_or_kept :
    (buf : Bytes)
    → length buf < recv_buf_len
    → (if space buf == 0 then none else some buf)
      ≡ (if leb (recv_buf_len - 1) (length buf + 0) then none else some (buf ++ []))
full_or_kept buf h = rw (append-nil buf) (ground (arith, space_lem buf h))

-- For a partial line below the end of the buffer, the loop gives what a reader of the stream hears.
pub fill-heard :
    (rs : List ReadResult) (buf : Bytes) → length buf < recv_buf_len → fill buf rs ≡ heard buf rs
unfolding fill
fill-heard [] buf h = full_or_kept buf h
fill-heard (would_block ∷ rs) buf h = full_or_kept buf h
fill-heard (read_error ∷ rs) buf h = refl
fill-heard (got [] ∷ rs) buf h = refl
fill-heard (got (c ∷ cs) ∷ rs) buf h =
    filled buf c cs rs h (λ k. fill-heard rs (buf ++ take (space buf) (c ∷ cs)) k)
