-- ===== src/NetDaemon/Objects.antt =====
-- The table of objects of src/netdaemon.cpp (addObject, enableObject, disableObject, modifyObject,
-- removeObject, resetObject), with the parts of src/asyncobject.cpp and src/object.cpp that they call.
-- There is one daemon, as the source says, so `attached` stands for `daemon == this`. A ptr<> that is
-- passed as an argument is released when the call returns; `refs` counts the holders that stay, and is at
-- least 1 wherever it is counted down.
pub mod System
pub mod Shape
pub mod Table
pub mod Disable
pub mod Enter
pub mod Tests
use libmaycloud.Common.{
  ℕ, ◌+◌, ◌-◌, ◌/◌, ◌%◌, Bool, true, false, not, Option, none, some, ltb, ◌==◌, if◌then◌else◌,
  ◌>>=◌, inc64, dec64, ℤ, pos, negsuc,
}
use libmaycloud.Blocks.{BlockPool}
use libmaycloud.NetDaemon.Buffer.{FdInfo, cleanup_fd}
use libmaycloud.NetDaemon.Objects.System.{Kernel}

-- AsyncObject: its file descriptor, whether it belongs to the daemon, its event mask (getEventsMask)
-- and the reference count of Object.
pub record AsyncObject : Type 0 where
  pub fd : ℤ
  pub attached : Bool
  pub mask : ℕ
  pub refs : ℕ

abbrev pub epollout : ℕ
epollout = 4

-- `mask | EPOLLOUT`, where the mask may hold the bit already.
abbrev pub with_epollout : ℕ → ℕ
with_epollout m = if (m / epollout) % 2 == 1 then m else m + epollout

module _ (k : Kernel) where
  open k use {Epoll, nonblock, add, modify, delete}

  -- `objects o` is the object at the address `o`; 0 is NULL.
  pub record NetDaemon : Type 0 where
    pub limit : ℕ
    pub count : ℕ
    pub epoll : Epoll
    pub fds : ℕ → FdInfo
    pub bp : BlockPool
    pub objects : ℕ → AsyncObject

  -- The index into `fds` of a correct file descriptor.
  unfoldable pub fd_index : ℕ → ℤ → Option ℕ
  fd_index limit (pos n) = if ltb n limit then some n else none
  fd_index limit (negsuc n) = none

  abbrev pub set_fd_info : (ℕ → FdInfo) → ℕ → FdInfo → ℕ → FdInfo
  set_fd_info fds n fb i = if i == n then fb else fds i

  abbrev pub set_object : (ℕ → AsyncObject) → ℕ → AsyncObject → ℕ → AsyncObject
  set_object objects o x i = if i == o then x else objects i

  -- Object::lock and Object::release on the object `o`.
  abbrev pub lock : ℕ → (ℕ → AsyncObject) → ℕ → AsyncObject
  lock o objects = set_object objects o (record (objects o) { refs = (objects o).refs + 1 })

  abbrev pub release : ℕ → (ℕ → AsyncObject) → ℕ → AsyncObject
  release o objects = set_object objects o (record (objects o) { refs = (objects o).refs - 1 })

  -- The events to watch: the object's mask, with EPOLLOUT while the buffer of its descriptor holds data.
  abbrev pub event_mask : FdInfo → AsyncObject → ℕ
  event_mask fb x = if ltb 0 fb.size then with_epollout x.mask else x.mask

  pub enable_new : ℕ → ℕ → NetDaemon → Bool × NetDaemon
  enable_new o n d =
      let fb = d.fds n in
      if nonblock n
      then elim (add n (event_mask fb (d.objects o)) d.epoll) [
        | none ↦ (false, d)
        | some e ↦ (
          true,
          record d {
            epoll = e;
            fds = set_fd_info d.fds n (record fb { obj = o });
            count = inc64 d.count;
            objects = lock o d.objects;
          },
        )
      ]
      else (false, d)

  pub enable_object : ℕ → NetDaemon → Bool × NetDaemon
  unfolding fd_index enable_new
  enable_object o d =
      if o == 0
      then (false, d)
      else if not (d.objects o).attached
      then (false, d)
      else elim (fd_index d.limit (d.objects o).fd) [
        | none ↦ (false, d)
        | some n ↦
            if (d.fds n).obj == 0
            then enable_new o n d
            else if (d.fds n).obj == o
            then (true, d)
            else (false, d)
      ]

  -- `fb->obj = 0; cleanup(object->fd); count--`, where the kernel gave the descriptor back.
  pub forget : ℕ → ℕ → ℕ → Epoll → NetDaemon → Option (Bool × NetDaemon)
  forget fuel o n e d = cleanup_fd fuel (record (d.fds n) { obj = 0 }) d.bp >>= λ r. some (
    true,
    record d {
      epoll = e;
      fds = set_fd_info d.fds n r.0;
      bp = r.1;
      count = dec64 d.count;
      objects = release o d.objects;
    },
  )

  pub disable_object : ℕ → ℕ → NetDaemon → Option (Bool × NetDaemon)
  unfolding fd_index forget
  disable_object fuel o d =
      if o == 0
      then some (false, d)
      else if not (d.objects o).attached
      then some (false, d)
      else elim (fd_index d.limit (d.objects o).fd) [
        | none ↦ some (false, d)
        | some n ↦
            if (d.fds n).obj == 0
            then some (true, d)
            else if (d.fds n).obj == o
            then elim (delete n d.epoll) [ none ↦ some (false, d) | some e ↦ forget fuel o n e d ]
            else some (false, d)
      ]

  -- resetObject(object): the mask of the object, with EPOLLOUT while its buffer holds data.
  unfoldable pub reset_object : ℕ → ℕ → NetDaemon → Bool × NetDaemon
  reset_object o n d = elim (modify n (event_mask (d.fds n) (d.objects o)) d.epoll) [
    | none ↦ (false, d)
    | some e ↦ (true, record d { epoll = e })
  ]

  unfoldable pub modify_object : ℕ → NetDaemon → Bool × NetDaemon
  unfolding fd_index reset_object
  modify_object o d = elim (fd_index d.limit (d.objects o).fd) [
    | none ↦ (false, d)
    | some n ↦ if (d.fds n).obj == o then reset_object o n d else (false, d)
  ]

  -- AsyncObject::setDaemon(this) and AsyncObject::setDaemon(0).
  pub attach : ℕ → NetDaemon → NetDaemon
  attach o d =
      if (d.objects o).attached
      then d
      else let x = d.objects o in
        record d {
          objects = set_object d.objects o (record x { attached = true; refs = x.refs + 1 });
        }

  abbrev unset : ℕ → NetDaemon → NetDaemon
  unset o d =
      let x = d.objects o in
      record d {
        objects = set_object d.objects o (record x { attached = false; refs = x.refs - 1 });
      }

  pub detach : ℕ → ℕ → NetDaemon → Option NetDaemon
  unfolding disable_object
  detach fuel o d = if not (d.objects o).attached then some d else elim (d.objects o).fd [
    | negsuc m ↦
        if m == 0 then some (unset o d) else (disable_object fuel o d >>= λ r. some (unset o r.1))
    | pos n ↦ disable_object fuel o d >>= λ r. some (unset o r.1)
  ]

  pub add_object : ℕ → Bool → NetDaemon → Bool × NetDaemon
  unfolding attach enable_object
  add_object o enabled d =
      if o == 0
      then (false, d)
      else if enabled
      then enable_object o (attach o d)
      else (true, attach o d)

  pub remove_object : ℕ → ℕ → NetDaemon → Option (Bool × NetDaemon)
  unfolding disable_object detach
  remove_object fuel o d =
      if o == 0
      then some (false, d)
      else if not (d.objects o).attached
      then some (false, d)
      else disable_object fuel o d >>= λ r.
          if r.0 then (detach fuel o r.1 >>= λ d'. some (true, d')) else some (false, r.1)
