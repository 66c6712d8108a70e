-- ===== src/Blocks/Global.antt =====
-- The global pool of src/blockpool.cpp: bpInitPool and bpPool.
use libmaycloud.Common.{ℕ, ◌-◌, ◌<◌, ◌≡◌, Option, none, some, List, arith, add64, mul64, ℤ, negsuc}
use libmaycloud.Pool.{Heap}
use libmaycloud.Blocks.{block_size, Block, BlockPool, info_size, reserve, bp_pool}

-- reserve returns the same code, -1, whether the memory was given or not.
pub reserve-code :
    (memalign : ℕ → Option ℕ) (garbage : List ℕ) (count : ℕ) (p : BlockPool) {r : ℤ}
    {p' : BlockPool}
    → reserve memalign garbage count p ≡ some (r, p')
    → r ≡ negsuc 0
unfolding reserve
reserve-code memalign garbage count p e = ground arith

-- bpPool(min_size) gives the pool also when it has fewer blocks than asked for and posix_memalign
-- fails: bpInitPool takes the -1 of reserve for true.
pub bp_pool-not_grown :
    (memalign : ℕ → Option ℕ) (garbage : List ℕ) (h : Heap Block) (min_size : ℕ) (p : BlockPool)
    → p.total_count < min_size
    → ((size : ℕ) → memalign size ≡ none)
    → bp_pool memalign garbage h min_size (some p) ≡ some (some p)
unfolding bp_pool
bp_pool-not_grown memalign garbage h min_size p less fails =
    let c : ℕ = min_size - p.total_count in
    ground (arith, fails (add64 (info_size c) (mul64 c block_size)))
