-- ===== src/Server/Tcp/Table.antt =====
-- tcp_server.c: the client table, the slots that the searches find, and the changes of its counts.
use psdk_orangepi.Prelude.{
  ℕ, suc, ◌+◌, ◌<◌, ◌≡◌, refl, ap, subst, Bool, true, false, Option, none, some, List, [], ◌∷◌,
  arith, length, get_or, sum, if◌then◌else◌, ◌==◌,
}
use psdk_orangepi.Prelude.Int.{ℤ, pos, negsuc, eq_ℤ, is_neg}
use psdk_orangepi.Server.Calls.{bit}
use psdk_orangepi.Server.Tcp.{Client, free_slot, find_client, first_free}

-- The slots in use, and those that hold a descriptor.
abbrev used_fd : ℤ → ℕ
used_fd (pos n) = 1
used_fd (negsuc n) = 0

abbrev pub used : Client → ℕ
used c = used_fd c.fd

abbrev holds_fd : ℕ → ℤ → ℕ
holds_fd fd (pos n) = bit (n == fd)
holds_fd fd (negsuc n) = 0

abbrev pub holds : ℕ → Client → ℕ
holds fd c = holds_fd fd c.fd

pub used_free : (a : ℤ) → is_neg a ≡ true → used_fd a ≡ 0
used_free (pos n) h = absurd (cc)
used_free (negsuc n) h = refl

pub holds_free : (fd : ℕ) (a : ℤ) → is_neg a ≡ true → holds_fd fd a ≡ 0
holds_free fd (pos n) h = absurd (cc)
holds_free fd (negsuc n) h = refl

-- A search that has found a slot, with what it looks for.
pub record Found (P : Client → Type 0) (cs : List Client) (i : ℕ) : Type 0 where
  pub inside : i < length cs
  pub at : P (get_or cs i free_slot)

-- One step of a search, by its test and by the search of the rest.
searched :
    (P : Client → Type 0) (c : Client) (cs : List Client) (i : ℕ) (b : Bool) (o : Option ℕ)
    → (b ≡ true → P c)
    → ((j : ℕ) → o ≡ some j → Found P cs j)
    → (if b then some 0 else elim o [ none ↦ none | some j ↦ some (suc j) ]) ≡ some i
    → Found P (c ∷ cs) i
searched P c cs i true o p q h =
    let e : 0 ≡ i = cc in subst (Found P (c ∷ cs)) e (record { inside = omega arith; at = p refl })
searched P c cs i false none p q h = absurd (cc)
searched P c cs i false (some j) p q h =
    let e : suc j ≡ i = cc in
    subst (Found P (c ∷ cs)) e
      (record { inside = omega (arith, (q j refl).inside); at = (q j refl).at })

eq_ℤ_pos : (a : ℤ) (n : ℕ) → eq_ℤ a (pos n) ≡ true → a ≡ pos n
eq_ℤ_pos (pos m) n h = ap pos (ground arith)
eq_ℤ_pos (negsuc m) n h = ground arith

pub find_client-Found :
    (cs : List Client) (n i : ℕ) → find_client cs (pos n) ≡ some i → Found (λ c. c.fd ≡ pos n) cs i
unfolding find_client
find_client-Found [] n i h = absurd (cc)
find_client-Found (c ∷ cs) n i h =
    searched (λ d. d.fd ≡ pos n) c cs i (eq_ℤ c.fd (pos n)) (find_client cs (pos n))
      (eq_ℤ_pos c.fd n) (λ j e. find_client-Found cs n j e) h

pub first_free-Found :
    (cs : List Client) (i : ℕ) → first_free cs ≡ some i → Found (λ c. is_neg c.fd ≡ true) cs i
unfolding first_free
first_free-Found [] i h = absurd (cc)
first_free-Found (c ∷ cs) i h =
    searched (λ d. is_neg d.fd ≡ true) c cs i (is_neg c.fd) (first_free cs) (λ e. e)
      (λ j e. first_free-Found cs j e) h

free_here :
    (fd : ℤ) (o : Option ℕ) (n len : ℕ)
    → used_fd fd + n < suc len
    → (n < len → (i : ℕ) × (o ≡ some i))
    → (i : ℕ) × ((if is_neg fd then some 0 else elim o [ none ↦ none | some j ↦ some (suc j) ])
        ≡ some i)
free_here (negsuc m) o n len h rest = (0, refl)
free_here (pos m) o n len h rest = let (j, f) = rest (omega arith) in (suc j, rw f refl)

-- A table with fewer slots in use than slots has a free one.
pub first_free-some :
    (cs : List Client) → sum used cs < length cs → (i : ℕ) × (first_free cs ≡ some i)
unfolding first_free
first_free-some [] h = absurd (omega arith)
first_free-some (c ∷ cs) h =
    free_here c.fd (first_free cs) (sum used cs) (length cs) h (first_free-some cs)
