-- ===== src/Server/Calls.antt =====
-- core/server: the system calls that the two servers make, as a trace with the newest call first, and
-- the resources that a trace opens and releases.
use psdk_orangepi.Prelude.{ℕ, ◌≡◌, Bool, Option, List, sum, ◌==◌, if◌then◌else◌}
use psdk_orangepi.Prelude.Int.{ℤ, pos}
use psdk_orangepi.Prelude.Text.{Bytes}

pub data Syscall : Type 0 where
  -- a descriptor that `socket`, `epoll_create1` or `accept` gave
  opens : ℕ → Syscall
  -- `close`
  closes : ℤ → Syscall
  -- `calloc` of the server record, and `free` of it
  allocates frees : Syscall
  -- `bind` to an address in text form, none for INADDR_ANY, and a port
  binds : ℕ → Option Bytes → ℕ → Syscall
  listens : ℕ → ℕ → Syscall
  -- `epoll_ctl` with EPOLL_CTL_ADD and EPOLL_CTL_DEL
  watches unwatches : ℤ → Syscall
  writes : ℤ → Bytes → Syscall

abbrev pub bit : Bool → ℕ
bit b = if b then 1 else 0

-- How often a trace opened and closed a descriptor.
abbrev pub opened : ℕ → List Syscall → ℕ
opened fd = sum (λ (c : Syscall). elim c [ opens n ↦ bit (n == fd) | _ ↦ 0 ])

abbrev pub closed : ℕ → List Syscall → ℕ
closed fd = sum (λ (c : Syscall). elim c [ closes (pos n) ↦ bit (n == fd) | _ ↦ 0 ])

-- The server records that a trace has allocated and released.
abbrev pub allocated : List Syscall → ℕ
allocated = sum (λ (c : Syscall). elim c [ allocates ↦ 1 | _ ↦ 0 ])

abbrev pub freed : List Syscall → ℕ
freed = sum (λ (c : Syscall). elim c [ frees ↦ 1 | _ ↦ 0 ])

-- Everything that the trace took has been given back.
pub record IsReleased (calls : List Syscall) : Type 0 where
  pub descriptors : (fd : ℕ) → opened fd calls ≡ closed fd calls
  pub memory : allocated calls ≡ freed calls
