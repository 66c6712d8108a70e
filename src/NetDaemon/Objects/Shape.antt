-- ===== src/NetDaemon/Objects/Shape.antt =====
-- What a well-formed table of objects of src/netdaemon.cpp is.
use libmaycloud.Common.{
  ℕ, zero, suc, ◌+◌, ◌^◌, ◌≤◌, ◌<◌, ◌≡◌, refl, ◌≢◌, inl, inr, true, not, arith, ◌==◌, if◌then◌else◌,
  ==_iff, Bool-cases, pos,
}
use libmaycloud.NetDaemon.Buffer.{FdInfo}
use libmaycloud.NetDaemon.Objects.{NetDaemon, set_fd_info}
use libmaycloud.NetDaemon.Objects.System.{Kernel}

-- How many of the first `n` descriptors have an object.
abbrev pub occupied : ℕ → (ℕ → FdInfo) → ℕ
occupied zero fds = 0
occupied (suc n) fds = occupied n fds + (if (fds n).obj == 0 then 0 else 1)

pub occupied-le : (n : ℕ) (fds : ℕ → FdInfo) → occupied n fds ≤ n
occupied-le zero fds = omega arith
occupied-le (suc n) fds = ground (arith, occupied-le n fds)

occupied-set_above :
    (k : Kernel) (l n : ℕ) (fds : ℕ → FdInfo) (fb : FdInfo)
    → l ≤ n
    → occupied l (set_fd_info k fds n fb) ≡ occupied l fds
occupied-set_above k zero n fds fb h = refl
occupied-set_above k (suc l) n fds fb h = ground (arith, occupied-set_above k l n fds fb)

-- Taking a free descriptor adds one, and giving up a taken one takes one away.
pub occupied-set :
    (k : Kernel) (l n : ℕ) (fds : ℕ → FdInfo) (fb : FdInfo)
    → n < l
    → occupied l (set_fd_info k fds n fb) + (if (fds n).obj == 0 then 0 else 1)
      ≡ occupied l fds + (if fb.obj == 0 then 0 else 1)
occupied-set k zero n fds fb h = absurd (omega arith)
occupied-set k (suc l) n fds fb h = elim (Bool-cases (n == l)) [
  | inl e ↦ let e' = (==_iff n l).0 e in rw e' (ground (arith, occupied-set_above k l l fds fb))
  | inr ne ↦ ground (arith, occupied-set k l n fds fb)
]

module _ (k : Kernel) where
  open k use {watched}

  -- An object in the table belongs to the daemon, stands at its own descriptor and is held by both;
  -- the kernel watches exactly the descriptors that have an object, and `count` counts them.
  pub record IsTable (d : NetDaemon k) : Type 0 where
    pub small : d.limit < 2 ^ 31
    pub mine : (n : ℕ) → n < d.limit → (d.fds n).obj ≢ 0 → (d.objects (d.fds n).obj).attached ≡ true
    pub place : (n : ℕ) → n < d.limit → (d.fds n).obj ≢ 0 → (d.objects (d.fds n).obj).fd ≡ pos n
    pub twice_held : (n : ℕ) → n < d.limit → (d.fds n).obj ≢ 0 → 2 ≤ (d.objects (d.fds n).obj).refs
    pub held : (o : ℕ) → (d.objects o).attached ≡ true → 1 ≤ (d.objects o).refs
    pub watch : (n : ℕ) → n < d.limit → watched n d.epoll ≡ not ((d.fds n).obj == 0)
    pub counted : d.count ≡ occupied d.limit d.fds
