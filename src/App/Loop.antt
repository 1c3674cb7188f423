-- ===== src/App/Loop.antt =====
-- app/main.c: `g_running`, which the signal handler clears, and the loop that tests it. The rounds that
-- the kernel would give go on for ever; the fuel is the number of tests of `g_running` that are made.
use psdk_orangepi.Prelude.{
  ℕ, zero, suc, ◌<◌, ◌≡◌, ◌≢◌, refl, Bool, true, false, Option, none, some, List, [], ◌∷◌, arith,
  if◌then◌else◌,
}
use psdk_orangepi.Prelude.Int.{ℤ}
use psdk_orangepi.Floating.{Floating}
use psdk_orangepi.Proto.{JsonC}
use psdk_orangepi.Ctrl.{DroneCtrl}
use psdk_orangepi.Server.Udp.{udp_server_poll}
use psdk_orangepi.Handler.{World}
use psdk_orangepi.Handler.Dispatch.{handle_rpc}
use psdk_orangepi.App.{Poll, poll_all}

-- The handler of SIGINT and SIGTERM.
unfoldable pub sig_handler : ℤ → Bool → Bool
sig_handler sig g_running = false

-- The signals that arrive in a round, one after the other.
unfoldable pub interrupt : List ℤ → Bool → Bool
unfolding sig_handler
interrupt [] g_running = g_running
interrupt (sig ∷ sigs) g_running = interrupt sigs (sig_handler sig g_running)

-- A round of the loop, and the signals that arrive in it.
pub record Round : Type 0 where
  pub poll : Poll
  pub signals : List ℤ

abbrev pub later : (ℕ → Round) → ℕ → Round
later rounds n = rounds (suc n)

abbrev pub first : ℕ → (ℕ → Round) → List Poll
first zero rounds = []
first (suc n) rounds = (rounds 0).poll ∷ first n (later rounds)

module _ {fp : Floating} (json : JsonC fp) {S : Type 0} (ctrl : DroneCtrl fp S) where
  -- `while (g_running) udp_server_poll(srv, 500)`: the world behind the loop, none where it still runs.
  unfoldable pub while_running : ℕ → Bool → (ℕ → Round) → World S → Option (World S)
  unfolding interrupt udp_server_poll handle_rpc
  while_running zero g_running rounds w = if g_running then none else some w
  while_running (suc fuel) g_running rounds w =
      let round = rounds 0 in
      let w' =
        udp_server_poll (handle_rpc json ctrl round.poll.clock) round.poll.ready round.poll.received
          w in
      let rest = while_running fuel (interrupt round.signals g_running) (later rounds) w' in
      if g_running then rest else some w

  interrupt-false : (sigs : List ℤ) → interrupt sigs false ≡ false
  unfolding interrupt sig_handler
  interrupt-false [] = refl
  interrupt-false (sig ∷ sigs) = interrupt-false sigs

  interrupt-some : (sigs : List ℤ) → sigs ≢ [] → interrupt sigs true ≡ false
  unfolding interrupt sig_handler
  interrupt-some [] h = absurd (h refl)
  interrupt-some (sig ∷ sigs) h = interrupt-false sigs

  stopped :
      (fuel : ℕ) (rounds : ℕ → Round) (w : World S) → while_running fuel false rounds w ≡ some w
  unfolding while_running
  stopped zero rounds w = refl
  stopped (suc fuel) rounds w = refl

  -- Any greater number of tests than `n` ends the loop behind `n` and one rounds; `n` tests do not.
  abbrev pub EndsWith : ℕ → (ℕ → Round) → World S → Type 0
  EndsWith n rounds w =
      ((fuel : ℕ)
        → n < fuel
        → while_running fuel true rounds w ≡ some (poll_all json ctrl (first (suc n) rounds) w))
      × (while_running n true rounds w ≡ none)

  abbrev behind_first : (ℕ → Round) → World S → World S
  behind_first rounds w =
      udp_server_poll (handle_rpc json ctrl (rounds 0).poll.clock) (rounds 0).poll.ready
        (rounds 0).poll.received w

  EndsWith-zero : (rounds : ℕ → Round) (w : World S) → (rounds 0).signals ≢ [] → EndsWith 0 rounds w
  unfolding while_running poll_all
  EndsWith-zero rounds w comes = (ends, refl)
    where
      ends :
          (fuel : ℕ)
          → 0 < fuel
          → while_running fuel true rounds w ≡ some (poll_all json ctrl (first 1 rounds) w)
      ends zero h = absurd (omega arith)
      ends (suc fuel) h =
          rw (interrupt-some (rounds 0).signals comes) (stopped fuel (later rounds) _)

  EndsWith-suc :
      (n : ℕ) (rounds : ℕ → Round) (w : World S)
      → (rounds 0).signals ≡ []
      → EndsWith n (later rounds) (behind_first rounds w)
      → EndsWith (suc n) rounds w
  unfolding while_running poll_all interrupt
  EndsWith-suc n rounds w quiet ih = (ends, rw quiet ih.1)
    where
      ends :
          (fuel : ℕ)
          → suc n < fuel
          → while_running fuel true rounds w
            ≡ some (poll_all json ctrl (first (suc (suc n)) rounds) w)
      ends zero h = absurd (omega arith)
      ends (suc fuel) h = rw quiet (ih.0 fuel (omega arith))

  -- The loop ends exactly with the round in which the first signal arrives: with any number of
  -- tests that is greater than the number of that round, it has made the rounds up to and with it,
  -- and no other; and with as many tests as there are rounds before it, it still runs.
  pub while_running_lem :
      (n : ℕ) (rounds : ℕ → Round) (w : World S)
      → ((k : ℕ) → k < n → (rounds k).signals ≡ [])
      → (rounds n).signals ≢ []
      → EndsWith n rounds w
  while_running_lem zero rounds w quiet comes = EndsWith-zero rounds w comes
  while_running_lem (suc n) rounds w quiet comes = EndsWith-suc n rounds w (quiet 0 (omega arith)) (
      while_running_lem n (later rounds) (behind_first rounds w)
        (λ k h. quiet (suc k) (omega arith)) comes)
