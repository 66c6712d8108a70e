-- ===== src/NetDaemon/Objects/Disable.antt =====
-- disableObject of src/netdaemon.cpp keeps the table of objects well-formed.
use libmaycloud.Common.{
  ℕ, ◌≤◌, ◌<◌, ◌≡◌, refl, subst, ◌≢◌, inl, inr, Bool, true, false, Option, none, some,
  some-injective, none-ne-some, List, arith, ◌==◌, ne→==_false, ==_iff, Bool-cases, length, dec64,
  pos,
}
use libmaycloud.NetDaemon.Buffer.Cleanup.{cleanup_fd-obj, cleanup_fd-nil, IsBuffer-obj}
use libmaycloud.NetDaemon.Buffer.Trace.{IsReady}
use libmaycloud.Blocks.{BlockPool}
use libmaycloud.NetDaemon.Buffer.{FdInfo, cleanup_fd}
use libmaycloud.NetDaemon.Objects.{
  NetDaemon, fd_index, set_fd_info, release, forget, disable_object,
}
use libmaycloud.NetDaemon.Objects.System.{Kernel}
use libmaycloud.NetDaemon.Objects.Table.{fd_index-some}
use libmaycloud.NetDaemon.Objects.Shape.{occupied-le, occupied-set, IsTable}

module _ (k : Kernel) (d : NetDaemon k) (t : IsTable k d) (o n : ℕ) (some_o : o ≢ 0)
    (here : (d.objects o).fd ≡ pos n) (lt : n < d.limit) (at : (d.fds n).obj ≡ o) where
  open k use {Epoll, watched, delete}

  -- The table after the descriptor `n` lost its object `o`.
  abbrev left : Epoll → FdInfo × BlockPool → NetDaemon k
  left e r = record d {
    epoll = e;
    fds = set_fd_info k d.fds n r.0;
    bp = r.1;
    count = dec64 d.count;
    objects = release k o d.objects;
  }

  left-IsTable :
      (e : Epoll) (r : FdInfo × BlockPool)
      → r.0.obj ≡ 0
      → delete n d.epoll ≡ some e
      → IsTable k (left e r)
  left-IsTable e r free_slot deleted = record {
    small = t.small;
    mine = λ i l ne. ground (arith, t.mine i l);
    place = λ i l ne. ground (arith, t.place i l);
    twice_held = λ i l ne. ground (arith, t.twice_held i l, t.place i l);
    held = λ p a. ground (arith, t.held p, t.twice_held n lt);
    watch = λ i l. ground (arith, t.watch i l, k.delete-watched n i d.epoll e deleted);
    counted = ground (
      arith,
      t.counted,
      t.small,
      occupied-le d.limit d.fds,
      occupied-set k d.limit n d.fds r.0 lt,
    );
  }

  left_or-IsTable :
      (fuel : ℕ) (e : Epoll) (r : Bool × NetDaemon k)
      → delete n d.epoll ≡ some e
      → forget k fuel o n e d ≡ some r
      → IsTable k r.1
  unfolding forget
  left_or-IsTable fuel e r deleted w = go (cleanup_fd fuel (record (d.fds n) { obj = 0 }) d.bp) refl
    where
      go :
          (q : Option (FdInfo × BlockPool))
          → cleanup_fd fuel (record (d.fds n) { obj = 0 }) d.bp ≡ q
          → IsTable k r.1
      go none v = absurd (none-ne-some r (rw v at w))
      go (some q) v =
          let x = rw v at w in
          subst (λ y. IsTable k y.1) (some-injective (true, left e q) r x)
            (left-IsTable e q (cleanup_fd-obj fuel (record (d.fds n) { obj = 0 }) d.bp q v) deleted)

module _ (k : Kernel) (fuel : ℕ) (d : NetDaemon k) (t : IsTable k d) (o : ℕ)
    (r : Bool × NetDaemon k) where
  same-IsTable : (b : Bool) → some (b, d) ≡ some r → IsTable k r.1
  same-IsTable b x = subst (λ y. IsTable k y.1) (some-injective (b, d) r x) t

  disable_at-IsTable :
      (i : Option ℕ)
      → o ≢ 0
      → (d.objects o).attached ≡ true
      → fd_index k d.limit (d.objects o).fd ≡ i
      → disable_object k fuel o d ≡ some r
      → IsTable k r.1
  unfolding disable_object
  disable_at-IsTable none ne mine w run =
      same-IsTable false (rw (ne→==_false o 0 ne, mine, w) at run)
  disable_at-IsTable (some n) ne mine w run = elim (Bool-cases ((d.fds n).obj == 0)) [
    | inl y ↦ same-IsTable true (rw (ne→==_false o 0 ne, mine, w, y) at run)
    | inr z ↦ elim (Bool-cases ((d.fds n).obj == o)) [
      | inl y ↦
          found ((==_iff (d.fds n).obj o).0 y) (k.delete n d.epoll) refl
            (rw (ne→==_false o 0 ne, mine, w, z, y) at run)
      | inr y ↦ same-IsTable false (rw (ne→==_false o 0 ne, mine, w, z, y) at run)
    ]
  ]
    where
      found :
          (d.fds n).obj ≡ o
          → (e : Option k.Epoll) → k.delete n d.epoll ≡ e
          → elim (k.delete n d.epoll) as (λ _. Option (Bool × NetDaemon k)) [
            | none ↦ some (false, d)
            | some e' ↦ forget k fuel o n e' d
          ]
            ≡ some r
          → IsTable k r.1
      found at none v x = same-IsTable false (rw v at x)
      found at (some e) v x =
          let q = fd_index-some k d.limit n (d.objects o).fd w in
          left_or-IsTable k d t o n ne q.0 q.1 at fuel e r v (rw v at x)

  -- Where disableObject returns, the table is well-formed.
  disable_object-kept : disable_object k fuel o d ≡ some r → IsTable k r.1
  unfolding disable_object
  disable_object-kept run = elim (Bool-cases (o == 0)) [
    | inl y ↦ same-IsTable false (rw y at run)
    | inr z ↦ elim (Bool-cases (d.objects o).attached) [
      | inl a ↦
          disable_at-IsTable (fd_index k d.limit (d.objects o).fd) (λ e. ground arith) a refl run
      | inr a ↦ same-IsTable false (rw (z, a) at run)
    ]
  ]

-- The buffers of all descriptors are well-formed, with at most `fuel` blocks.
abbrev pub AreBuffers : (k : Kernel) → ℕ → NetDaemon k → Type 0
AreBuffers k fuel d =
    (n : ℕ)
    → n < d.limit
    → (content : List ℕ) × (v : IsReady (d.fds n) d.bp content) × (length v.cs ≤ fuel)

module _ (k : Kernel) (fuel : ℕ) (d : NetDaemon k) (buffers : AreBuffers k fuel d) (o : ℕ) where
  forget-some :
      (n : ℕ) (e : k.Epoll)
      → n < d.limit
      → (r : Bool × NetDaemon k) × (forget k fuel o n e d ≡ some r)
  unfolding forget
  forget-some n e l =
      let (content, v, enough) = buffers n l in
      let (fb', bp', run, empty, no_quota, same) =
        cleanup_fd-nil fuel (record (d.fds n) { obj = 0 }) d.bp v.cs v.fs content
          (IsBuffer-obj (d.fds n) d.bp v.cs v.fs content 0 v.buffer) v.room enough in
      (
        (
          true,
          record d {
            epoll = e;
            fds = set_fd_info k d.fds n fb';
            bp = bp';
            count = dec64 d.count;
            objects = release k o d.objects;
          },
        ),
        rw run refl,
      )

  disable_deleted-some :
      (n : ℕ) (e : Option k.Epoll)
      → n < d.limit
      → (r : Bool × NetDaemon k) × (elim e as (λ _. Option (Bool × NetDaemon k)) [
        | none ↦ some (false, d)
        | some e' ↦ forget k fuel o n e' d
      ]
          ≡ some r)
  disable_deleted-some n none l = ((false, d), refl)
  disable_deleted-some n (some e) l = forget-some n e l

  disable_at-some :
      (i : Option ℕ)
      → (o == 0) ≡ false
      → (d.objects o).attached ≡ true
      → fd_index k d.limit (d.objects o).fd ≡ i
      → (r : Bool × NetDaemon k) × (disable_object k fuel o d ≡ some r)
  unfolding disable_object
  disable_at-some none z a w = ((false, d), rw (z, a, w) refl)
  disable_at-some (some n) z a w = elim (Bool-cases ((d.fds n).obj == 0)) [
    | inl y ↦ ((true, d), rw (z, a, w, y) refl)
    | inr y ↦ elim (Bool-cases ((d.fds n).obj == o)) [
      | inl x ↦
          let low = (fd_index-some k d.limit n (d.objects o).fd w).1 in
          let (r, run) = disable_deleted-some n (k.delete n d.epoll) low in
          (r, rw (z, a, w, y, x) run)
      | inr x ↦ ((false, d), rw (z, a, w, y, x) refl)
    ]
  ]

  disable_object-some : (r : Bool × NetDaemon k) × (disable_object k fuel o d ≡ some r)
  unfolding disable_object
  disable_object-some = elim (Bool-cases (o == 0)) [
    | inl z ↦ ((false, d), rw z refl)
    | inr z ↦ elim (Bool-cases (d.objects o).attached) [
      | inl a ↦ disable_at-some (fd_index k d.limit (d.objects o).fd) z a refl
      | inr a ↦ ((false, d), rw (z, a) refl)
    ]
  ]

  -- disableObject returns, whatever object it is given, if the table of objects and the buffers of all descriptors are
  -- well-formed, with at most as many blocks as there is fuel; and it keeps the table of objects well-formed.
  pub disable_object-IsTable :
      IsTable k d → (r : Bool × NetDaemon k) × (disable_object k fuel o d ≡ some r) × IsTable k r.1
  disable_object-IsTable t =
      let (r, run) = disable_object-some in (r, run, disable_object-kept k fuel d t o r run)
