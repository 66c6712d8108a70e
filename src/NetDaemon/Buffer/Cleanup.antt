-- ===== src/NetDaemon/Buffer/Cleanup.antt =====
-- cleanup of src/netdaemon.cpp on well-formed buffers.
use libmaycloud.Common.{
  ℕ, ◌+◌, ◌≤◌, ◌≡◌, refl, sym, ap, false, Option, none, some, none-ne-some, List, [], ◌++◌, arith,
  length,
}
use libmaycloud.Pool.{Ptr, null}
use libmaycloud.Pool.Chain.{Cells, has}
use libmaycloud.Blocks.{Block, BlockPool, free}
use libmaycloud.Blocks.Free.{free-append}
use libmaycloud.NetDaemon.Buffer.{FdInfo, cleanup_fd}
use libmaycloud.NetDaemon.Buffer.Bytes.{IsFull-append}
use libmaycloud.NetDaemon.Buffer.Shape.{IsBuffer}

-- cleanup does not touch the object of the descriptor.
pub cleanup_fd-obj :
    (fuel : ℕ) (fb : FdInfo) (bp : BlockPool) (r : FdInfo × BlockPool)
    → cleanup_fd fuel fb bp ≡ some r
    → r.0.obj ≡ fb.obj
unfolding cleanup_fd
cleanup_fd-obj fuel fb bp r w = go (free fuel fb.first bp) refl
  where
    go : (q : Option BlockPool) → free fuel fb.first bp ≡ q → r.0.obj ≡ fb.obj
    go none v = absurd (none-ne-some r (rw v at w))
    go (some bp') v =
        let x = rw v at w in
        ap (λ (q : Option (FdInfo × BlockPool)). elim q [ none ↦ fb.obj | some y ↦ y.0.obj ])
          (sym x)

-- cleanup gives all blocks of a well-formed buffer back to the pool, in order, and leaves an empty
-- buffer without a quota; the bytes that waited are dropped.
pub cleanup_fd-nil :
    (fuel : ℕ) (fb : FdInfo) (bp : BlockPool) (cs fs : Cells Block) (content : List ℕ)
    → IsBuffer fb bp cs fs content
    → length cs + length fs ≤ bp.total_count
    → length cs ≤ fuel
    → (fb' : FdInfo) × (bp' : BlockPool) × (cleanup_fd fuel fb bp ≡ some (fb', bp'))
      × IsBuffer fb' bp' [] (cs ++ fs) []
      × (fb'.quota ≡ 0)
      × ((c : Ptr) → has c cs ≡ false → bp'.heap c ≡ bp.heap c)
unfolding cleanup_fd
cleanup_fd-nil fuel fb bp cs fs content b room f =
    let (bp', run, pool, total, same) =
      free-append bp fuel fb.first cs fs b.pool b.chain b.apart (omega (arith, b.pool.count)) f in
    (
      record { obj = fb.obj; size = 0; offset = 0; quota = 0; first = null; last = null },
      bp',
      rw run refl,
      record {
        pool = pool;
        chain = refl;
        apart = b.apart;
        full = tt;
        spare_full = IsFull-append cs fs b.full b.spare_full;
        tail = λ k. absurd (omega arith);
        live = λ k. absurd (omega arith);
        low = omega arith;
        bound = omega arith;
        tight = omega arith;
        size = refl;
        before = [];
        behind = [];
        start_at = refl;
        split = refl;
      },
      refl,
      same,
    )

-- The same buffer of a descriptor without its object.
pub IsBuffer-obj :
    (fb : FdInfo) (bp : BlockPool) (cs fs : Cells Block) (content : List ℕ) (o : ℕ)
    → IsBuffer fb bp cs fs content
    → IsBuffer (record fb { obj = o }) bp cs fs content
IsBuffer-obj fb bp cs fs content o b = record {
  pool = b.pool;
  chain = b.chain;
  apart = b.apart;
  full = b.full;
  spare_full = b.spare_full;
  tail = b.tail;
  live = b.live;
  low = b.low;
  bound = b.bound;
  tight = b.tight;
  size = b.size;
  before = b.before;
  behind = b.behind;
  start_at = b.start_at;
  split = b.split;
}
