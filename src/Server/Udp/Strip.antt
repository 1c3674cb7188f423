-- ===== src/Server/Udp/Strip.antt =====
-- udp_server.c: the trailing white space of a datagram, and what reaches the callback.
use psdk_orangepi.Prelude.{
  ℕ, zero, suc, ◌-◌, ◌≤◌, ◌<◌, ◌≡◌, ◌≢◌, refl, sym, ap, ◌∙◌, ◌⊎◌, inl, inr, true, false, some, [],
  ◌∷◌, ◌++◌, arith, length, length-append, take_all, take-append, get_or, All, ltb, Bool-cases,
  ◌==◌, ==_iff, subst,
}
use psdk_orangepi.Prelude.Text.{Bytes}
use psdk_orangepi.Prelude.Trim.{trim_len, EndsOther}
use psdk_orangepi.Types.{max_msg_len}
use psdk_orangepi.Server.Udp.{Peer, is_trailing, strip_len, udp_server_poll}

-- The byte before the count is kept.
kept :
    (buf : Bytes) (n k : ℕ)
    → n ≡ suc k
    → (n ≡ 0) ⊎ (is_trailing (get_or buf (n - 1) 0) ≡ false)
    → is_trailing (get_or buf k 0) ≡ false
kept buf n k e (inl z) = absurd (omega arith)
kept buf n k e (inr q) = subst (λ j. is_trailing (get_or buf j 0) ≡ false) (omega arith) q

strip_len-eq :
    (buf : Bytes) (n len : ℕ)
    → n ≤ len
    → ((i : ℕ) → n ≤ i → i < len → is_trailing (get_or buf i 0) ≡ true)
    → (n ≡ 0) ⊎ (is_trailing (get_or buf (n - 1) 0) ≡ false)
    → strip_len buf len ≡ n
unfolding strip_len trim_len
strip_len-eq buf n zero h t l = omega arith
strip_len-eq buf n (suc k) h t l = elim (Bool-cases (n == suc k)) [
  | inl e ↦ rw (kept buf n k ((==_iff n (suc k)).0 e) l) (sym ((==_iff n (suc k)).0 e))
  | inr e ↦
      let below : n ≤ k = ground arith in
      rw (t k below (omega arith)) (strip_len-eq buf n k below (λ i p q. t i p (omega arith)) l)
]

get_or-append :
    (xs ys : Bytes) (i : ℕ) → length xs ≤ i → get_or (xs ++ ys) i 0 ≡ get_or ys (i - length xs) 0
get_or-append [] ys i h = ap (λ k. get_or ys k 0) (omega arith)
get_or-append (x ∷ xs) ys zero h = absurd (omega arith)
get_or-append (x ∷ xs) ys (suc i) h =
    get_or-append xs ys i (omega arith) ∙ ap (λ k. get_or ys k 0) (omega arith)

All-get_or :
    (ws : Bytes) (i : ℕ)
    → All (λ c. is_trailing c ≡ true) ws
    → i < length ws
    → is_trailing (get_or ws i 0) ≡ true
All-get_or [] i h k = absurd (omega arith)
All-get_or (x ∷ xs) zero h k = h.0
All-get_or (x ∷ xs) (suc i) h k = All-get_or xs i h.1 (omega arith)

-- The last byte is no white space.
abbrev pub EndsInText : Bytes → Type 0
EndsInText = EndsOther is_trailing

get_or-append_left : (xs ys : Bytes) (i : ℕ) → i < length xs → get_or (xs ++ ys) i 0 ≡ get_or xs i 0
get_or-append_left [] ys i h = absurd (omega arith)
get_or-append_left (x ∷ xs) ys zero h = refl
get_or-append_left (x ∷ xs) ys (suc i) h = get_or-append_left xs ys i (omega arith)

not_empty : (body : Bytes) → body ≢ [] → 0 < length body
not_empty [] h = absurd (h refl)
not_empty (x ∷ xs) h = omega arith

module _ (body ws : Bytes) (blank : All (λ c. is_trailing c ≡ true) ws) where
  trailing :
      (i : ℕ)
      → length body ≤ i
      → i < length (body ++ ws)
      → is_trailing (get_or (body ++ ws) i 0) ≡ true
  trailing i h k =
      rw (get_or-append body ws i h)
        (All-get_or ws (i - length body) blank (omega (arith, length-append body ws)))

  strip_len-append :
      (length body ≡ 0) ⊎ (is_trailing (get_or body (length body - 1) 0) ≡ false)
      → strip_len (body ++ ws) (length (body ++ ws)) ≡ length body
  strip_len-append l =
      strip_len-eq (body ++ ws) (length body) (length (body ++ ws))
        (omega (arith, length-append body ws)) trailing (last l)
    where
      last :
          (length body ≡ 0) ⊎ (is_trailing (get_or body (length body - 1) 0) ≡ false)
          → (length body ≡ 0) ⊎ (is_trailing (get_or (body ++ ws) (length body - 1) 0) ≡ false)
      last (inl z) = inl z
      last (inr q) = elim (Bool-cases (ltb 0 (length body))) [
        | inl some_text ↦ inr (rw (get_or-append_left body ws (length body - 1) (ground arith)) q)
        | inr no_text ↦ inl (ground arith)
      ]

  module _ {W : Type 0} (on_message : Peer → Bytes → W → W) (peer : Peer) (w : W) where
    -- A datagram shorter than the buffer that is a text, which does not end in white space,
    -- followed by any newlines, carriage returns and spaces, reaches the callback as that text.
    pub udp_server_poll-message :
        EndsInText body
        → length (body ++ ws) < max_msg_len
        → udp_server_poll on_message true (some (peer, body ++ ws)) w ≡ on_message peer body w
    unfolding udp_server_poll
    udp_server_poll-message text fits =
        rw (take_all 4095 (body ++ ws) (omega arith), strip_len-append (inr text.1))
          (rw (take-append body ws, some_text) refl)
      where
        some_text : (length body == 0) ≡ false
        some_text = ground (arith, not_empty body text.0)
