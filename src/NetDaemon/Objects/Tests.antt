-- ===== src/NetDaemon/Objects/Tests.antt =====
-- The theorems on the table of objects of src/netdaemon.cpp, applied to a daemon with one object.
use libmaycloud.Common.{
  ℕ, ◌≡◌, refl, sym, ap, Bool, true, false, none, some, some-injective, [], arith, ◌==◌,
  if◌then◌else◌, pos,
}
use libmaycloud.Pool.{null}
use libmaycloud.Blocks.{BlockPool, create}
use libmaycloud.NetDaemon.Objects.{NetDaemon, enable_object, disable_object}
use libmaycloud.NetDaemon.Objects.System.{Kernel}
use libmaycloud.NetDaemon.Objects.Shape.{IsTable}
use libmaycloud.NetDaemon.Objects.Table.{enable_object-IsTable}
use libmaycloud.NetDaemon.Objects.Disable.{AreBuffers, disable_object-IsTable}
use libmaycloud.NetDaemon.Objects.Enter.{Answer, enable_object-Answer}

-- A kernel on which every call succeeds.
abbrev pub kind_kernel : Kernel
kind_kernel = record {
  Epoll = ℕ → Bool;
  watched = λ n e. e n;
  nonblock = λ n. true;
  add = λ n m e. some (λ i. if i == n then true else e i);
  modify = λ n m e. some e;
  delete = λ n e. some (λ i. if i == n then false else e i);
  add-watched =
      λ n m i e e' w. ap (λ f. f i) (sym (some-injective (λ i. if i == n then true else e i) e' w));
  modify-watched = λ n m i e e' w. ap (λ f. f i) (sym (some-injective e e' w));
  delete-watched =
      λ n i e e' w. ap (λ f. f i) (sym (some-injective (λ i. if i == n then false else e i) e' w));
}

-- Four descriptors without objects, and the object 1 of the descriptor 2, which belongs to the daemon.
abbrev idle_daemon : NetDaemon kind_kernel
idle_daemon = record {
  limit = 4;
  count = 0;
  epoll = λ i. false;
  fds = λ i. record { obj = 0; size = 0; offset = 0; quota = 0; first = null; last = null };
  bp = create (λ a. none);
  objects = λ i. record { fd = pos 2; attached = i == 1; mask = 1; refs = 1 };
}

idle_daemon-IsTable : IsTable kind_kernel idle_daemon
idle_daemon-IsTable = record {
  small = omega arith;
  mine = λ i l ne. absurd (ne refl);
  place = λ i l ne. absurd (ne refl);
  twice_held = λ i l ne. absurd (ne refl);
  held = λ o a. omega arith;
  watch = λ i l. refl;
  counted = refl;
}

enable_object-Answer_example :
    Answer kind_kernel idle_daemon 1 (enable_object kind_kernel 1 idle_daemon)
enable_object-Answer_example = enable_object-Answer kind_kernel idle_daemon idle_daemon-IsTable 1

enable_object-IsTable_example : IsTable kind_kernel (enable_object kind_kernel 1 idle_daemon).1
enable_object-IsTable_example = enable_object-IsTable kind_kernel idle_daemon idle_daemon-IsTable 1

abbrev no_blocks : BlockPool
no_blocks = record {
  heap = λ a. none;
  total_count = 0;
  free_count = 0;
  pool_size = 0;
  stack = null;
  pools = [];
}

abbrev busy_daemon : NetDaemon kind_kernel
busy_daemon = record {
  limit = 4;
  count = 1;
  epoll = λ i. i == 2;
  fds = λ i. record {
    obj = if i == 2 then 1 else 0;
    size = 0;
    offset = 0;
    quota = 0;
    first = null;
    last = null;
  };
  bp = no_blocks;
  objects = λ i. record { fd = pos 2; attached = i == 1; mask = 1; refs = 2 };
}

busy_daemon-IsTable : IsTable kind_kernel busy_daemon
busy_daemon-IsTable = record {
  small = omega arith;
  mine = λ i l ne. ground arith;
  place = λ i l ne. ground arith;
  twice_held = λ i l ne. omega arith;
  held = λ o a. omega arith;
  watch = λ i l. ground arith;
  counted = refl;
}

busy_daemon-AreBuffers : AreBuffers kind_kernel 3 busy_daemon
busy_daemon-AreBuffers n l = (
  [],
  record {
    cs = [];
    fs = [];
    buffer = record {
      pool = record {
        spare = refl;
        apart = tt;
        count = refl;
        within = omega arith;
        fits = omega arith;
        guard = refl;
      };
      chain = refl;
      apart = tt;
      full = tt;
      spare_full = tt;
      tail = λ k. absurd (omega arith);
      live = λ k. absurd (omega arith);
      low = omega arith;
      bound = omega arith;
      tight = omega arith;
      size = refl;
      before = [];
      behind = [];
      start_at = refl;
      split = refl;
    };
    room = omega arith;
  },
  omega arith,
)

disable_object-IsTable_example :
    (r : Bool × NetDaemon kind_kernel) × (disable_object kind_kernel 3 1 busy_daemon ≡ some r)
    × IsTable kind_kernel r.1
disable_object-IsTable_example =
    disable_object-IsTable kind_kernel 3 busy_daemon busy_daemon-AreBuffers 1 busy_daemon-IsTable
