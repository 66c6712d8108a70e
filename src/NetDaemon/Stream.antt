-- ===== src/NetDaemon/Stream.antt =====
-- AsyncStream of src/asyncstream.cpp on the daemon: its events, and the buffer that it writes to. The system
-- calls read, write and getsockopt are what they return; the virtual handlers of a client are a parameter, as
-- they may call the stream and the daemon again.
pub mod Composition
mod Tests
use libmaycloud.Common.{
  ℕ, ◌+◌, ◌/◌, ◌%◌, Bool, true, false, not, ◌&&◌, ◌||◌, Option, none, some, List, [], ◌∷◌, ◌++◌,
  ◌==◌, if◌then◌else◌, ◌>>=◌, ℤ, negsuc,
}
use libmaycloud.NetDaemon.Objects.{epollout, NetDaemon, modify_object}
use libmaycloud.NetDaemon.Objects.System.{Kernel}
use libmaycloud.NetDaemon.Descriptors.{int_eq, put, push, disable_self, set_fd}
use libmaycloud.NetDaemon.Buffer.{Written}

-- The calls of the virtual handlers.
pub data Handler : Type 0 where
  on_read : List ℕ → Handler
  on_empty : Handler
  on_peer_down : Handler
  on_async_error : ℤ → Handler

-- EPOLLIN, EPOLLOUT, EPOLLERR, EPOLLHUP and EPOLLRDHUP.
abbrev pub epollin : ℕ
epollin = 1

abbrev pub epollerr : ℕ
epollerr = 8

abbrev pub epollhup : ℕ
epollhup = 16

abbrev pub epollrdhup : ℕ
epollrdhup = 8192

abbrev pub epolloneshot : ℕ
epolloneshot = 1073741824

-- `events & bit`.
abbrev pub has_event : ℕ → ℕ → Bool
has_event events bit = events / bit % 2 == 1

abbrev pub get_events_mask : ℕ
get_events_mask = epollin + epollrdhup + epolloneshot + epollhup + epollerr

-- shutdown: the new `flags`, and the directions that are shut down, 0 for reading and 1 for writing.
pub shutdown : (how flags : ℕ) → ℕ × List ℕ
shutdown how flags =
    let reading = has_event how 1 && not (has_event flags 1) in
    let flags1 = if reading then flags + 1 else flags in
    let writing = has_event how 2 && not (has_event flags1 2) in
    (
      if writing then flags1 + 2 else flags1,
      (if reading then 0 ∷ [] else []) ++ (if writing then 1 ∷ [] else []),
    )

module _ (k : Kernel) where
  -- What a handler does to the daemon.
  abbrev pub Client : Type 0
  Client = Handler → NetDaemon k → Option (NetDaemon k)

  -- putInBuffer of the stream `o`.
  pub put_in_buffer : ℕ → List ℕ → NetDaemon k → Option (Bool × NetDaemon k)
  put_in_buffer o src d =
      if (d.objects o).attached
      then (put k (d.objects o).fd src d >>= λ r.
          if r.0 then some (true, (modify_object k o r.1).1) else some (false, r.1))
      else some (false, d)

  -- handleRead: `reads` are what the calls of read return, the empty string for its end and for an error.
  pub handle_read : Client → List (List ℕ) → NetDaemon k → Option (NetDaemon k)
  handle_read client [] d = some d
  handle_read client ([] ∷ reads) d = some d
  handle_read client ((x ∷ chunk) ∷ reads) d =
      client (on_read (x ∷ chunk)) d >>= λ d'. handle_read client reads d'

  -- handleWrite, with the bytes that were written.
  pub handle_write : Client → (ℕ → ℕ → Written) → ℕ → NetDaemon k → Option (NetDaemon k × List ℕ)
  handle_write client write o d =
      if (d.objects o).attached
      then (push k write (d.objects o).fd d >>= λ r.
          if r.0 then (client on_empty r.1 >>= λ d'. some (d', r.2)) else some (r.1, r.2))
      else some (d, [])

  -- handleError: `error` is what getsockopt returns, if it does.
  pub handle_error : Client → Option ℤ → NetDaemon k → Option (NetDaemon k)
  handle_error client none d = some d
  handle_error client (some error) d = client (on_async_error error) d

  -- onEvent, with the bytes that were written.
  pub on_event :
      Client
      → Option ℤ
      → List (List ℕ)
      → (ℕ → ℕ → Written)
      → ℕ
      → ℕ
      → NetDaemon k
      → Option (NetDaemon k × List ℕ)
  unfolding handle_read handle_write handle_error
  on_event client error reads write o events d =
      let fail = handle_error client error d >>= λ d'. some (d', []) in
      let work = (if has_event events epollin then handle_read client reads d else some d) >>= λ d1.
      (if has_event events epollout then handle_write client write o d1 else some (d1, [])) >>= λ r.
      (if has_event events epollrdhup || has_event events epollhup
        then (client on_peer_down r.0 >>= λ d2. some (d2, r.1))
        else some r) in
      if has_event events epollerr then fail else work

  -- close, behind the test of the descriptor.
  pub close_open : ℕ → ℕ → NetDaemon k → Option (NetDaemon k)
  close_open fuel o d = disable_self k fuel o d >>= λ r. set_fd k fuel o (negsuc 0) r.1

  pub close : ℕ → ℕ → NetDaemon k → Option (NetDaemon k)
  unfolding close_open
  close fuel o d = if int_eq (d.objects o).fd (negsuc 0) then some d else close_open fuel o d
