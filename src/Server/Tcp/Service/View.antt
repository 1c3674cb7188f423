-- ===== src/Server/Tcp/Service/View.antt =====
-- tcp_server.c: the client table as connections, and what a change of a slot is there.
use psdk_orangepi.Prelude.{
  ℕ, suc, ◌≤◌, ◌≡◌, refl, sym, ap, subst, ◌∙◌, Bool, true, false, Option, none, some, List, [], ◌∷◌,
  arith, get_or, set_at, sum, ◌==◌, ==_iff, if◌then◌else◌, Bool-cases, inl, inr,
}
use psdk_orangepi.Prelude.Int.{ℤ, pos, negsuc, eq_ℤ, is_neg}
use psdk_orangepi.Prelude.Text.{Bytes}
use psdk_orangepi.Server.Calls.{bit}
use psdk_orangepi.Server.Tcp.{Client, free_slot, find_client, first_free}
use psdk_orangepi.Server.Tcp.Table.{holds}
use psdk_orangepi.Server.Tcp.Service.{Connections, with_line, without}

-- The connections that stand in the table.
abbrev pub view : List Client → Connections
view [] n = none
view (c ∷ cs) n = let rest = view cs n in if eq_ℤ c.fd (pos n) then some c.buf else rest

-- No descriptor stands in two slots.
abbrev pub AreDistinct : List Client → Type 0
AreDistinct cs = (n : ℕ) → sum (holds n) cs ≤ 1

holds_eq :
    (a : ℤ) (n : ℕ) (buf : Bytes) → holds n (record { fd = a; buf = buf }) ≡ bit (eq_ℤ a (pos n))
holds_eq (pos m) n buf = ground arith
holds_eq (negsuc m) n buf = ground arith

-- A descriptor that stands in no slot is no connection, and the other way round.
pub view-none : (cs : List Client) (n : ℕ) → sum (holds n) cs ≡ 0 → view cs n ≡ none
view-none [] n h = refl
view-none (c ∷ cs) n h = elim (Bool-cases (eq_ℤ c.fd (pos n))) [
  | inl e ↦ let k : holds n c ≡ 1 = holds_eq c.fd n c.buf ∙ ap bit e in absurd (omega (arith, k))
  | inr e ↦ rw e (view-none cs n (omega arith))
]

pub holds-none : (cs : List Client) (n : ℕ) → view cs n ≡ none → sum (holds n) cs ≡ 0
holds-none [] n h = refl
holds-none (c ∷ cs) n h = elim (Bool-cases (eq_ℤ c.fd (pos n))) [
  | inl e ↦ absurd (ground arith)
  | inr e ↦
      let k : holds n c ≡ 0 = holds_eq c.fd n c.buf ∙ ap bit e in
      omega (arith, k, holds-none cs n (ground arith))
]

-- The search finds exactly the connections.
abbrev pub line_at : List Client → Option ℕ → Option Bytes
line_at cs none = none
line_at cs (some i) = some (get_or cs i free_slot).buf

pub view-find_client : (cs : List Client) (n : ℕ) → view cs n ≡ line_at cs (find_client cs (pos n))
unfolding find_client
view-find_client [] n = refl
view-find_client (c ∷ cs) n = elim (Bool-cases (eq_ℤ c.fd (pos n))) [
  | inl e ↦ rw e refl
  | inr e ↦ rw e (view-find_client cs n ∙ later (find_client cs (pos n)))
]
  where
    later :
        (o : Option ℕ)
        → line_at cs o
          ≡ line_at (c ∷ cs) (elim o as (λ _. Option ℕ) [ none ↦ none | some i ↦ some (suc i) ])
    later none = refl
    later (some i) = refl

-- How a search found a slot: the first one, or one of the rest.
data Searched (b : Bool) (o : Option ℕ) (i : ℕ) : Type 0 where
  here : b ≡ true → i ≡ 0 → Searched b o i
  there : (j : ℕ) → b ≡ false → o ≡ some j → i ≡ suc j → Searched b o i

searched :
    (b : Bool) (o : Option ℕ) (i : ℕ)
    → (if b then some 0 else elim o [ none ↦ none | some j ↦ some (suc j) ]) ≡ some i
    → Searched b o i
searched true o i h = Searched.here refl (cc)
searched false none i h = absurd (cc)
searched false (some j) i h = Searched.there j refl refl (cc)

eq_pos : (n m : ℕ) → eq_ℤ (pos n) (pos m) ≡ (m == n)
eq_pos n m = ground arith

same_fd : (a : ℤ) (n m : ℕ) → eq_ℤ a (pos n) ≡ true → eq_ℤ a (pos m) ≡ (m == n)
same_fd (pos k) n m h = ground arith
same_fd (negsuc k) n m h = absurd (ground arith)

free_fd : (a : ℤ) (m : ℕ) → is_neg a ≡ true → eq_ℤ a (pos m) ≡ false
free_fd (pos k) m h = absurd (cc)
free_fd (negsuc k) m h = ground arith

-- A change of a slot behind the first one.
behind :
    (a : ℤ) (buf : Bytes) (t u : Option Bytes) (n m : ℕ) (o : Option Bytes)
    → eq_ℤ a (pos n) ≡ false
    → t ≡ (if m == n then o else u)
    → (if eq_ℤ a (pos m) then some buf else t)
      ≡ (if m == n then o else (if eq_ℤ a (pos m) then some buf else u))
behind a buf t u n m o h e = elim (Bool-cases (m == n)) [
  | inl q ↦
      let f : eq_ℤ a (pos m) ≡ false =
        subst (λ k. eq_ℤ a (pos k) ≡ false) (sym ((==_iff m n).0 q)) h in
      rw (e, q, f) refl
  | inr q ↦ rw (e, q) refl
]

module _ (n m : ℕ) where
  pub view_stored :
      (buf : Bytes) (cs : List Client) (i : ℕ)
      → find_client cs (pos n) ≡ some i
      → view (set_at i (record { fd = pos n; buf = buf }) cs) m ≡ with_line n buf (view cs) m
  unfolding find_client
  view_stored buf [] i h = absurd (cc)
  view_stored buf (c ∷ cs) i h = elim (searched (eq_ℤ c.fd (pos n)) (find_client cs (pos n)) i h) [
    | here e z ↦ rw (z, eq_pos n m, same_fd c.fd n m e) (ground arith)
    | there j e f z ↦ rw z (behind c.fd c.buf _ (view cs m) n m _ e (view_stored buf cs j f))
  ]

  pub view_freed :
      (cs : List Client) (i : ℕ)
      → sum (holds n) cs ≤ 1
      → find_client cs (pos n) ≡ some i
      → view (set_at i free_slot cs) m ≡ without n (view cs) m
  unfolding find_client
  view_freed [] i d h = absurd (cc)
  view_freed (c ∷ cs) i d h = elim (searched (eq_ℤ c.fd (pos n)) (find_client cs (pos n)) i h) [
    | here e z ↦
        let k : holds n c ≡ 1 = holds_eq c.fd n c.buf ∙ ap bit e in
        let alone : view cs n ≡ none = view-none cs n (omega arith) in
        rw (z, free_fd (negsuc 0) m refl, same_fd c.fd n m e) (gone (m == n) refl alone)
    | there j e f z ↦
        rw z (behind c.fd c.buf _ (view cs m) n m _ e (view_freed cs j (omega arith) f))
  ]
    where
      gone :
          (b : Bool)
          → (m == n) ≡ b
          → view cs n ≡ none
          → view cs m ≡ (if b then none else (if b then some c.buf else view cs m))
      gone true q alone = subst (λ k. view cs k ≡ none) (sym ((==_iff m n).0 q)) alone
      gone false q alone = refl

  pub view_placed :
      (cs : List Client) (i : ℕ)
      → view cs n ≡ none
      → first_free cs ≡ some i
      → view (set_at i (record { fd = pos n; buf = [] }) cs) m ≡ with_line n [] (view cs) m
  unfolding first_free
  view_placed [] i d h = absurd (cc)
  view_placed (c ∷ cs) i d h = elim (searched (is_neg c.fd) (first_free cs) i h) [
    | here e z ↦ rw (z, eq_pos n m, free_fd c.fd m e) refl
    | there j e f z ↦ elim (Bool-cases (eq_ℤ c.fd (pos n))) [
      | inl q ↦ absurd (ground arith)
      | inr q ↦ rw z (behind c.fd c.buf _ (view cs m) n m _ q (view_placed cs j (ground arith) f))
    ]
  ]

-- A descriptor that was nowhere is found in the slot that it is put in.
pub find_client_placed :
    (n : ℕ) (cs : List Client) (i : ℕ)
    → view cs n ≡ none
    → first_free cs ≡ some i
    → find_client (set_at i (record { fd = pos n; buf = [] }) cs) (pos n) ≡ some i
unfolding first_free find_client
find_client_placed n [] i d h = absurd (cc)
find_client_placed n (c ∷ cs) i d h = elim (searched (is_neg c.fd) (first_free cs) i h) [
  | here e z ↦ let same : eq_ℤ (pos n) (pos n) ≡ true = ground arith in rw (z, same) refl
  | there j e f z ↦ elim (Bool-cases (eq_ℤ c.fd (pos n))) [
    | inl q ↦ absurd (ground arith)
    | inr q ↦ let ih = find_client_placed n cs j (ground arith) f in rw (z, q, ih) refl
  ]
]
