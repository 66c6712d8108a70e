-- ===== src/NetDaemon/Objects/System.antt =====
-- epoll and fcntl, which src/netdaemon.cpp calls: a state of the kernel, and what is documented of the
-- calls on it. `none` is the result -1.
use libmaycloud.Common.{ℕ, ◌≡◌, Bool, true, false, Option, some, ◌==◌, if◌then◌else◌}

pub record Kernel : Type 1 where
  pub Epoll : Type 0
  -- Whether a descriptor is in the interest list.
  pub watched : ℕ → Epoll → Bool
  -- Whether fcntl leaves the descriptor usable: F_GETFL fails, or F_SETFL does not.
  pub nonblock : ℕ → Bool
  -- EPOLL_CTL_ADD, EPOLL_CTL_MOD and EPOLL_CTL_DEL.
  pub add : ℕ → ℕ → Epoll → Option Epoll
  pub modify : ℕ → ℕ → Epoll → Option Epoll
  pub delete : ℕ → Epoll → Option Epoll
  pub add-watched :
      (n m i : ℕ) (e e' : Epoll)
      → add n m e ≡ some e'
      → watched i e' ≡ (if i == n then true else watched i e)
  pub modify-watched :
      (n m i : ℕ) (e e' : Epoll) → modify n m e ≡ some e' → watched i e' ≡ watched i e
  pub delete-watched :
      (n i : ℕ) (e e' : Epoll)
      → delete n e ≡ some e'
      → watched i e' ≡ (if i == n then false else watched i e)
