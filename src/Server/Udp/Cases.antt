-- ===== src/Server/Udp/Cases.antt =====
-- udp_server.c: every datagram, by what is left of it without its trailing white space.
use psdk_orangepi.Prelude.{
  ℕ, ◌<◌, ◌≡◌, refl, ◌⊎◌, inl, inr, true, false, some, [], ◌++◌, arith, length, take, drop, All,
  ◌==◌,
}
use psdk_orangepi.Prelude.Text.{Bytes}
use psdk_orangepi.Prelude.Trim.{trim_len-Trimmed}
use psdk_orangepi.Server.Udp.{Peer, is_trailing, strip_len, deliver, udp_server_poll}
use psdk_orangepi.Server.Udp.Strip.{EndsInText}

module _ {W : Type 0} (on_message : Peer → Bytes → W → W) (peer : Peer) (w : W) where
  delivered :
      (buf : Bytes) (n : ℕ)
      → strip_len buf (length buf) ≡ n
      → ((n ≡ 0) × (take n buf ≡ [])) ⊎ ((0 < n) × EndsInText (take n buf))
      → ((take n buf ≡ []) × (deliver on_message peer buf w ≡ w))
        ⊎ (EndsInText (take n buf)
            × (deliver on_message peer buf w ≡ on_message peer (take n buf) w))
  unfolding deliver
  delivered buf n e (inl (z, nothing)) = inl (nothing, rw (e, z) refl)
  delivered buf n e (inr (h, text)) =
      inr (text, let some_text : (n == 0) ≡ false = ground arith in rw (e, some_text) refl)

  -- Every datagram, cut to the 4095 bytes that the buffer takes, is a text followed by newlines,
  -- carriage returns and spaces; where the text is empty nothing reaches the callback, and
  -- otherwise it does not end in such a byte and the callback gets exactly the text.
  pub udp_server_poll_lem :
      (data_in : Bytes)
      → (body ws : Bytes) × (take 4095 data_in ≡ body ++ ws)
        × All (λ c. is_trailing c ≡ true) ws
        × (((body ≡ []) × (udp_server_poll on_message true (some (peer, data_in)) w ≡ w))
            ⊎ (EndsInText body
                × (udp_server_poll on_message true (some (peer, data_in)) w
                    ≡ on_message peer body w)))
  unfolding udp_server_poll strip_len
  udp_server_poll_lem data_in =
      let buf = take 4095 data_in in
      let t = trim_len-Trimmed is_trailing buf in
      let n = strip_len buf (length buf) in
      (take n buf, drop n buf, t.split, t.dropped, delivered buf n refl t.kept)
