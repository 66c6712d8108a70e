-- ===== src/NetDaemon/Descriptors.antt =====
-- The functions of src/netdaemon.cpp that take a file descriptor, with their checks of it, and those of
-- src/asyncobject.cpp that go to the daemon of an object.
use libmaycloud.Common.{
  ℕ, ◌%◌, ◌^◌, Bool, true, false, Option, none, some, List, [], ◌==◌, if◌then◌else◌, ◌>>=◌, length,
  ℤ, pos, negsuc,
}
use libmaycloud.NetDaemon.Buffer.{put_fd, Written, push_fd, cleanup_fd}
use libmaycloud.NetDaemon.Objects.{
  NetDaemon, fd_index, set_fd_info, set_object, enable_object, disable_object, remove_object,
}
use libmaycloud.NetDaemon.Objects.System.{Kernel}

abbrev pub int_eq : ℤ → ℤ → Bool
int_eq (pos a) (pos b) = a == b
int_eq (negsuc a) (negsuc b) = a == b
int_eq (pos a) (negsuc b) = false
int_eq (negsuc a) (pos b) = false

module _ (k : Kernel) where
  -- getObjectCount, whose int is the low 32 bits of the count.
  pub get_object_count : NetDaemon k → ℕ
  get_object_count d = d.count % 2 ^ 32

  pub get_buffered_size : ℤ → NetDaemon k → ℕ
  get_buffered_size fd d = elim (fd_index k d.limit fd) [ none ↦ 0 | some n ↦ (d.fds n).size ]

  pub get_quota : ℤ → NetDaemon k → ℕ
  get_quota fd d = elim (fd_index k d.limit fd) [ none ↦ 0 | some n ↦ (d.fds n).quota ]

  pub set_quota : ℤ → ℕ → NetDaemon k → Bool × NetDaemon k
  set_quota fd quota d = elim (fd_index k d.limit fd) [
    | none ↦ (false, d)
    | some n ↦ (true, record d { fds = set_fd_info k d.fds n (record (d.fds n) { quota = quota }) })
  ]

  -- put(fd, data, len).
  unfoldable pub put : ℤ → List ℕ → NetDaemon k → Option (Bool × NetDaemon k)
  put fd src d = elim (fd_index k d.limit fd) [
    | none ↦ some (false, d)
    | some n ↦
        if length src == 0
        then some (true, d)
        else put_fd (d.fds n) src d.bp >>= λ r.
            some (r.0, record d { fds = set_fd_info k d.fds n r.1; bp = r.2 })
  ]

  -- push(fd), with the bytes that were written.
  unfoldable pub push : (ℕ → ℕ → Written) → ℤ → NetDaemon k → Option (Bool × NetDaemon k × List ℕ)
  push write fd d = elim (fd_index k d.limit fd) [
    | none ↦ some (false, d, [])
    | some n ↦ push_fd write (d.fds n) d.bp >>= λ r.
        some (r.0, record d { fds = set_fd_info k d.fds n r.1; bp = r.2 }, r.3)
  ]

  -- cleanup(fd).
  pub cleanup : ℕ → ℤ → NetDaemon k → Option (NetDaemon k)
  cleanup fuel fd d = elim (fd_index k d.limit fd) [
    | none ↦ some d
    | some n ↦ cleanup_fd fuel (d.fds n) d.bp >>= λ r.
        some (record d { fds = set_fd_info k d.fds n r.0; bp = r.1 })
  ]

  -- AsyncObject::enableObject, AsyncObject::disableObject and AsyncObject::leaveDaemon of the object `o`.
  pub enable_self : ℕ → NetDaemon k → Bool × NetDaemon k
  enable_self o d = if (d.objects o).attached then enable_object k o d else (false, d)

  pub disable_self : ℕ → ℕ → NetDaemon k → Option (Bool × NetDaemon k)
  disable_self fuel o d =
      if (d.objects o).attached then disable_object k fuel o d else some (false, d)

  pub leave_daemon : ℕ → ℕ → NetDaemon k → Option (NetDaemon k)
  leave_daemon fuel o d =
      if (d.objects o).attached then (remove_object k fuel o d >>= λ r. some r.1) else some d

  -- AsyncObject::setFd: the object leaves the table before its descriptor changes.
  pub set_fd : ℕ → ℕ → ℤ → NetDaemon k → Option (NetDaemon k)
  set_fd fuel o new_fd d =
      let change = λ (e : NetDaemon k).
        some (record e {
          objects = set_object k e.objects o (record (e.objects o) { fd = new_fd });
        }) in
      if int_eq (d.objects o).fd new_fd
      then some d
      else if int_eq (d.objects o).fd (negsuc 0)
      then change d
      else disable_self fuel o d >>= λ r. change r.1
