-- ===== src/NetDaemon/Stream/Tests.antt =====
-- The theorems on src/asyncstream.cpp, applied to a stream with two bytes in its buffer.
use libmaycloud.Common.{
  ℕ, ◌≡◌, refl, Bool, true, some, List, [], ◌∷◌, ◌++◌, arith, ◌==◌, if◌then◌else◌, ◌>>=◌, length,
  pos,
}
use libmaycloud.NetDaemon.Buffer.{FdInfo}
use libmaycloud.NetDaemon.Buffer.Tests.{pool, two_bytes, slow, slow-IsWrite, two_bytes-IsReady}
use libmaycloud.NetDaemon.Objects.Tests.{kind_kernel}
use libmaycloud.NetDaemon.Objects.{NetDaemon}
use libmaycloud.NetDaemon.Stream.{on_empty, get_events_mask, Client, put_in_buffer, handle_write}
use libmaycloud.NetDaemon.Stream.Composition.{
  IsAttached, Holds, put_in_buffer-append, handle_write-order,
}

-- A descriptor without an object and without data.
abbrev unused : FdInfo
unused = record { obj = 0; size = 0; offset = 0; quota = 0; first = 0; last = 0 }

abbrev loaded : NetDaemon kind_kernel
loaded = record {
  limit = 4;
  count = 1;
  epoll = λ i. i == 2;
  fds = λ i. if i == 2 then two_bytes else unused;
  bp = pool;
  objects = λ i. record { fd = pos 2; attached = true; mask = get_events_mask; refs = 2 };
}

loaded-IsAttached : IsAttached kind_kernel 1 2 loaded
loaded-IsAttached = record { attached = refl; fd = refl; low = omega arith }

-- A client whose handlers do nothing.
abbrev idle : Client kind_kernel
idle h d = some d

put_in_buffer-append_example :
    (b : Bool) × (d : NetDaemon kind_kernel) × (put_in_buffer kind_kernel 1 (9 ∷ []) loaded
      ≡ some (b, d))
    × Holds kind_kernel loaded d 2 two_bytes-IsReady.cs two_bytes-IsReady.fs
        (if b then 7 ∷ 8 ∷ 9 ∷ [] else 7 ∷ 8 ∷ [])
put_in_buffer-append_example =
    put_in_buffer-append kind_kernel 1 2 loaded (7 ∷ 8 ∷ []) (9 ∷ []) loaded-IsAttached
      two_bytes-IsReady (omega arith) (omega arith)

handle_write-order_example :
    (now : List ℕ) × (rest : List ℕ) × (d1 : NetDaemon kind_kernel) × (7 ∷ 8 ∷ [] ≡ now ++ rest)
    × Holds kind_kernel loaded d1 2 two_bytes-IsReady.cs two_bytes-IsReady.fs rest
    × (handle_write kind_kernel idle slow 1 loaded ≡ (
        if length rest == 0 then (idle on_empty d1 >>= λ d'. some (d', now)) else some (d1, now)))
handle_write-order_example =
    handle_write-order kind_kernel idle slow 1 2 loaded (7 ∷ 8 ∷ []) loaded-IsAttached
      two_bytes-IsReady slow-IsWrite
