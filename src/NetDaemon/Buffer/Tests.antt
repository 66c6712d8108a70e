-- ===== src/NetDaemon/Buffer/Tests.antt =====
-- Small buffers, and the theorems about put, push and cleanup of src/netdaemon.cpp at them.
use libmaycloud.Common.{
  ℕ, zero, suc, ◌≤◌, ◌≡◌, refl, none, some, List, [], ◌∷◌, ◌++◌, append-nil, arith, ◌==◌,
  if◌then◌else◌, length,
}
use libmaycloud.Pool.{item}
use libmaycloud.Pool.Chain.{Cells}
use libmaycloud.Blocks.{Block, BlockPool}
use libmaycloud.Blocks.Shape.{IsPool}
use libmaycloud.NetDaemon.Buffer.{FdInfo, put_fd, Written, push_fd}
use libmaycloud.NetDaemon.Buffer.Shape.{IsBuffer, addrs}
use libmaycloud.NetDaemon.Buffer.Grow.{Put}
use libmaycloud.NetDaemon.Buffer.Fifo.{put_fd-append, put_fd-refused}
use libmaycloud.NetDaemon.Buffer.Push.{Pushed, push_fd-Pushed}
use libmaycloud.NetDaemon.Buffer.Trace.{Trace, begun, refusing, pushing, IsReady, Trace-IsReady}
use libmaycloud.NetDaemon.Buffer.Liveness.{push_all, push_all-empties}

pub zeros : ℕ → List ℕ
zeros zero = []
zeros (suc n) = 0 ∷ zeros n

length-zeros : (n : ℕ) → length (zeros n) ≡ n
unfolding zeros
length-zeros zero = refl
length-zeros (suc n) = omega (arith, length-zeros n)

abbrev pub blank : Block
blank = record { addr = 12288; bytes = zeros 4096 }

abbrev pub filled : Block
filled = record { addr = 16384; bytes = 7 ∷ 8 ∷ zeros 4094 }

abbrev pub spare_cells : Cells Block
spare_cells = (8192, blank) ∷ []

abbrev pub used_cells : Cells Block
used_cells = (8208, filled) ∷ []

-- One block is free, the other one waits in a buffer.
abbrev pub pool : BlockPool
pool = record {
  heap = λ a.
      if a == 8208 then some (item filled 0) else if a == 8192 then some (item blank 0) else none;
  total_count = 2;
  free_count = 1;
  pool_size = 8192;
  stack = 8192;
  pools = record { data_at = 8192; blocks = 2 } ∷ [];
}

pool-IsPool : IsPool pool spare_cells
pool-IsPool = record {
  spare = (0, refl, ground arith, refl, refl);
  apart = (refl, tt);
  count = refl;
  within = omega arith;
  fits = omega arith;
  guard = refl;
}

abbrev empty_fd : FdInfo
empty_fd = record { obj = 1; size = 0; offset = 0; quota = 0; first = 0; last = 0 }

empty-IsBuffer : IsBuffer empty_fd pool [] spare_cells []
empty-IsBuffer = record {
  pool = pool-IsPool;
  chain = refl;
  apart = (refl, tt);
  full = tt;
  spare_full = (length-zeros 4096, tt);
  tail = λ k. absurd (omega arith);
  live = λ k. absurd (omega arith);
  low = omega arith;
  bound = omega arith;
  tight = omega arith;
  size = refl;
  before = [];
  behind = [];
  start_at = refl;
  split = refl;
}

abbrev pub two_bytes : FdInfo
two_bytes = record { obj = 1; size = 2; offset = 0; quota = 4; first = 8208; last = 8208 }

two_bytes-IsBuffer : IsBuffer two_bytes pool used_cells spare_cells (7 ∷ 8 ∷ [])
two_bytes-IsBuffer = record {
  pool = pool-IsPool;
  chain = (0, refl, ground arith, refl, refl);
  apart = (refl, (refl, tt));
  full = (omega (arith, length-zeros 4094), tt);
  spare_full = (length-zeros 4096, tt);
  tail = λ k. refl;
  live = λ k. omega arith;
  low = omega arith;
  bound = omega arith;
  tight = omega arith;
  size = refl;
  before = [];
  behind = zeros 4094;
  start_at = refl;
  split = append-nil (7 ∷ 8 ∷ zeros 4094);
}

put_fd-append_example :
    (xs : Cells Block) × (ys : Cells Block) × (spare_cells ≡ xs ++ ys)
    × Put pool ys
        (7 ∷ 8 ∷ 9 ∷ [])
        (8208 ∷ addrs xs)
        (used_cells ++ xs)
        (put_fd two_bytes (9 ∷ []) pool)
put_fd-append_example =
    put_fd-append two_bytes pool used_cells spare_cells (7 ∷ 8 ∷ []) (9 ∷ []) two_bytes-IsBuffer
      (omega arith) (omega arith) refl

-- A socket that takes one byte at a time.
abbrev pub slow : ℕ → ℕ → Written
slow i n = if n == 0 then none else some 1

pub slow-IsWrite : (i n r : ℕ) → slow i n ≡ some r → r ≤ n
slow-IsWrite i n r e = ground arith

push_fd-Pushed_example :
    Pushed two_bytes pool used_cells spare_cells (7 ∷ 8 ∷ []) (push_fd slow two_bytes pool)
push_fd-Pushed_example =
    push_fd-Pushed slow two_bytes pool used_cells spare_cells (7 ∷ 8 ∷ []) slow-IsWrite
      two_bytes-IsBuffer (omega arith)

pub two_bytes-IsReady : IsReady two_bytes pool (7 ∷ 8 ∷ [])
two_bytes-IsReady = record {
  cs = used_cells;
  fs = spare_cells;
  buffer = two_bytes-IsBuffer;
  room = omega arith;
}

-- Three bytes are refused, and then the slow socket is written to.
pushed_once :
    Pushed two_bytes pool used_cells spare_cells (7 ∷ 8 ∷ []) (push_fd slow two_bytes pool)
pushed_once =
    push_fd-Pushed slow two_bytes pool used_cells spare_cells (7 ∷ 8 ∷ []) slow-IsWrite
      two_bytes-IsBuffer (omega arith)

trace : Trace two_bytes pool pushed_once.fb' pushed_once.bp' [] ([] ++ pushed_once.now)
trace =
    pushing slow
      (refusing (1 ∷ 2 ∷ 3 ∷ []) begun (omega arith) (omega arith) (
        put_fd-refused two_bytes pool used_cells spare_cells (7 ∷ 8 ∷ []) (1 ∷ 2 ∷ 3 ∷ [])
          two_bytes-IsBuffer (omega arith) (omega arith) refl))
      slow-IsWrite pushed_once.run

Trace-IsReady_example :
    (rest : List ℕ) × IsReady pushed_once.fb' pushed_once.bp' rest
    × ((7 ∷ 8 ∷ []) ++ [] ≡ ([] ++ pushed_once.now) ++ rest)
Trace-IsReady_example = Trace-IsReady (7 ∷ 8 ∷ []) two_bytes-IsReady trace

push_all-empties_example :
    (fb' : FdInfo) × (bp' : BlockPool) × (push_all (λ i. slow) 2 0 two_bytes pool []
      ≡ some (fb', bp', 7 ∷ 8 ∷ []))
    × IsReady fb' bp' []
push_all-empties_example =
    push_all-empties (λ i. slow) two_bytes pool (7 ∷ 8 ∷ [])
      (λ i. (slow-IsWrite, λ n l. (0, ground arith))) two_bytes-IsReady
