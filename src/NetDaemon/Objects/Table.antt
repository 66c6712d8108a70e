-- ===== src/NetDaemon/Objects/Table.antt =====
-- enableObject and modifyObject of src/netdaemon.cpp keep the table of objects well-formed.
use libmaycloud.Common.{
  ℕ, ◌<◌, ◌≡◌, refl, ◌≢◌, inl, inr, Bool, true, false, Option, none, some, arith, ◌==◌, ne→==_false,
  ==_iff, Bool-cases, inc64, ℤ, pos, negsuc,
}
use libmaycloud.NetDaemon.Objects.{
  NetDaemon, fd_index, set_fd_info, lock, event_mask, enable_new, enable_object,
}
use libmaycloud.NetDaemon.Objects.System.{Kernel}
use libmaycloud.NetDaemon.Objects.Shape.{occupied-le, occupied-set, IsTable}

module _ (k : Kernel) (d : NetDaemon k) (t : IsTable k d) (o n : ℕ) (some_o : o ≢ 0)
    (mine : (d.objects o).attached ≡ true) (here : (d.objects o).fd ≡ pos n)
    (lt : n < d.limit) where
  open k use {Epoll, watched, nonblock, add}

  -- The table after the free descriptor `n` got the object `o`.
  abbrev pub entered : Epoll → NetDaemon k
  entered e = record d {
    epoll = e;
    fds = set_fd_info k d.fds n (record (d.fds n) { obj = o });
    count = inc64 d.count;
    objects = lock k o d.objects;
  }

  entered-IsTable :
      (m : ℕ) (e : Epoll) → (d.fds n).obj ≡ 0 → add n m d.epoll ≡ some e → IsTable k (entered e)
  entered-IsTable m e free_slot added = record {
    small = t.small;
    mine = λ i l ne. ground (arith, t.mine i l);
    place = λ i l ne. ground (arith, t.place i l);
    twice_held = λ i l ne. ground (arith, t.twice_held i l, t.held o);
    held = λ p a. ground (arith, t.held p);
    watch = λ i l. ground (arith, t.watch i l, k.add-watched n m i d.epoll e added);
    counted = ground (
      arith,
      t.counted,
      t.small,
      occupied-le d.limit d.fds,
      occupied-set k d.limit n d.fds (record (d.fds n) { obj = o }) lt,
    );
  }

  abbrev pub enter_or : Option Epoll → Bool × NetDaemon k
  enter_or none = (false, d)
  enter_or (some e) = (true, entered e)

  enter_or-IsTable :
      (m : ℕ) (r : Option Epoll)
      → (d.fds n).obj ≡ 0
      → add n m d.epoll ≡ r
      → IsTable k (enter_or r).1
  enter_or-IsTable m none free_slot added = t
  enter_or-IsTable m (some e) free_slot added = entered-IsTable m e free_slot added

  pub enable_new-IsTable : (d.fds n).obj ≡ 0 → IsTable k (enable_new k o n d).1
  unfolding enable_new
  enable_new-IsTable free_slot =
      let m = event_mask k (d.fds n) (d.objects o) in
      elim (Bool-cases (nonblock n)) [
        | inl y ↦ rw y (enter_or-IsTable m (add n m d.epoll) free_slot refl)
        | inr bad ↦ rw bad t
      ]

pub fd_index-some : (k : Kernel) (l n : ℕ) (i : ℤ) → fd_index k l i ≡ some n → (i ≡ pos n) × (n < l)
unfolding fd_index
fd_index-some k l n (pos m) w = ground arith
fd_index-some k l n (negsuc m) w = ground arith

module _ (k : Kernel) (d : NetDaemon k) (t : IsTable k d) (o : ℕ) where
  enable_at-IsTable :
      (r : Option ℕ)
      → o ≢ 0
      → (d.objects o).attached ≡ true
      → fd_index k d.limit (d.objects o).fd ≡ r
      → IsTable k (enable_object k o d).1
  unfolding enable_object
  enable_at-IsTable none ne mine w = rw (ne→==_false o 0 ne, mine, w) t
  enable_at-IsTable (some n) ne mine w =
      let q = fd_index-some k d.limit n (d.objects o).fd w in
      elim (Bool-cases ((d.fds n).obj == 0)) [
        | inl y ↦
            rw (ne→==_false o 0 ne, mine, w, y)
              (enable_new-IsTable k d t o n ne mine q.0 q.1 ((==_iff (d.fds n).obj 0).0 y))
        | inr z ↦ elim (Bool-cases ((d.fds n).obj == o)) [
          | inl y ↦ rw (ne→==_false o 0 ne, mine, w, z, y) t
          | inr y ↦ rw (ne→==_false o 0 ne, mine, w, z, y) t
        ]
      ]

  -- enableObject keeps the table of objects well-formed, whatever object it is given.
  pub enable_object-IsTable : IsTable k (enable_object k o d).1
  unfolding enable_object
  enable_object-IsTable = elim (Bool-cases (o == 0)) [
    | inl y ↦ rw y t
    | inr z ↦ elim (Bool-cases (d.objects o).attached) [
      | inl a ↦ enable_at-IsTable (fd_index k d.limit (d.objects o).fd) (λ e. ground arith) a refl
      | inr a ↦ rw (z, a) t
    ]
  ]
