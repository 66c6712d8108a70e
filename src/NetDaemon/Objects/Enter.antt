-- ===== src/NetDaemon/Objects/Enter.antt =====
-- What the result of enableObject of src/netdaemon.cpp says.
use libmaycloud.Common.{
  ℕ, ◌<◌, ◌≡◌, refl, ◌≢◌, inl, inr, Bool, true, false, Option, none, some, arith, ◌==◌, ne→==_false,
  ==_iff, Bool-cases, pos,
}
use libmaycloud.NetDaemon.Objects.{NetDaemon, fd_index, event_mask, enable_new, enable_object}
use libmaycloud.NetDaemon.Objects.System.{Kernel}
use libmaycloud.NetDaemon.Objects.Shape.{IsTable}
use libmaycloud.NetDaemon.Objects.Table.{enter_or, fd_index-some}

-- The object stands in the table at its own descriptor, and the kernel watches that.
pub record IsEntered (k : Kernel) (d : NetDaemon k) (o n : ℕ) : Type 0 where
  pub inside : n < d.limit
  pub here : (d.objects o).fd ≡ pos n
  pub at : (d.fds n).obj ≡ o
  pub seen : k.watched n d.epoll ≡ true

-- True where the object is entered, false where nothing changed.
abbrev pub Answer : (k : Kernel) → NetDaemon k → ℕ → Bool × NetDaemon k → Type 0
Answer k d o (true, d') = (n : ℕ) × IsEntered k d' o n
Answer k d o (false, d') = d' ≡ d

module _ (k : Kernel) (d : NetDaemon k) (t : IsTable k d) (o n : ℕ) (ne : o ≢ 0)
    (here : (d.objects o).fd ≡ pos n) (lt : n < d.limit) where
  open k use {Epoll, nonblock, add}

  enter_or-Answer :
      (mine : (d.objects o).attached ≡ true) (m : ℕ) (r : Option Epoll)
      → add n m d.epoll ≡ r
      → Answer k d o (enter_or k d t o n ne mine here lt r)
  enter_or-Answer mine m none added = refl
  enter_or-Answer mine m (some e) added = (
    n,
    record {
      inside = lt;
      here = ground arith;
      at = ground arith;
      seen = ground (arith, k.add-watched n m n d.epoll e added);
    },
  )

  taken-Answer : (d.fds n).obj ≡ o → Answer k d o (true, d)
  taken-Answer at =
      (n, record { inside = lt; here = here; at = at; seen = ground (arith, t.watch n lt) })

  enable_new-Answer : (mine : (d.objects o).attached ≡ true) → Answer k d o (enable_new k o n d)
  unfolding enable_new
  enable_new-Answer mine =
      let m = event_mask k (d.fds n) (d.objects o) in
      elim (Bool-cases (nonblock n)) [
        | inl y ↦ rw y (enter_or-Answer mine m (add n m d.epoll) refl)
        | inr bad ↦ rw bad refl
      ]

module _ (k : Kernel) (d : NetDaemon k) (t : IsTable k d) (o : ℕ) where
  enable_at-Answer :
      (r : Option ℕ)
      → o ≢ 0
      → (d.objects o).attached ≡ true
      → fd_index k d.limit (d.objects o).fd ≡ r
      → Answer k d o (enable_object k o d)
  unfolding enable_object
  enable_at-Answer none ne mine w = rw (ne→==_false o 0 ne, mine, w) refl
  enable_at-Answer (some n) ne mine w =
      let q = fd_index-some k d.limit n (d.objects o).fd w in
      elim (Bool-cases ((d.fds n).obj == 0)) [
        | inl y ↦ rw (ne→==_false o 0 ne, mine, w, y) (enable_new-Answer k d t o n ne q.0 q.1 mine)
        | inr z ↦ elim (Bool-cases ((d.fds n).obj == o)) [
          | inl y ↦
              rw (ne→==_false o 0 ne, mine, w, z, y)
                (taken-Answer k d t o n ne q.0 q.1 ((==_iff (d.fds n).obj o).0 y))
          | inr y ↦ rw (ne→==_false o 0 ne, mine, w, z, y) refl
        ]
      ]

  -- On a well-formed table, where enableObject answers true, the object then stands in the table at its
  -- own descriptor, within the limit, and the kernel watches that; where it answers false, the daemon is
  -- as it was.
  pub enable_object-Answer : Answer k d o (enable_object k o d)
  unfolding enable_object
  enable_object-Answer = elim (Bool-cases (o == 0)) [
    | inl y ↦ rw y refl
    | inr z ↦ elim (Bool-cases (d.objects o).attached) [
      | inl a ↦ enable_at-Answer (fd_index k d.limit (d.objects o).fd) (λ e. ground arith) a refl
      | inr a ↦ rw (z, a) refl
    ]
  ]
