-- ===== src/Blocks/Reserve.antt =====
-- reserve and clear of src/blockpool.cpp on well-formed pools.
use libmaycloud.Common.{
  ℕ, zero, suc, ◌+◌, ◌*◌, ◌%◌, ◌^◌, ◌≤◌, ◌<◌, ◌≡◌, refl, Bool, false, ◌&&◌, ◌||◌, Option, none,
  some, List, [], ◌∷◌, ◌++◌, append_assoc, arith, ltb, leb, if◌then◌else◌, length, All, All-append,
  length-append, add64, mul64, negsuc,
}
use libmaycloud.Pool.{Ptr, null, item, Heap, assign}
use libmaycloud.Pool.Chain.{Cells, has, Distinct, Chain, Seg-assign}
use libmaycloud.Blocks.{
  block_size, Block, sizeof_block_t, Macro, BlockPool, info_size, reserve_loop, reserve,
  release_macro, clear_loop, clear,
}
use libmaycloud.Blocks.Shape.{IsPool}

abbrev IsAligned : (Ptr × Block) → Type 0
IsAligned c = c.1.addr % block_size ≡ 0

-- The memory and the stack after `n` new blocks `ns` went on top of the free blocks `fs`.
pub record Grown (n : ℕ) (fs : Cells Block) (h : Heap Block) (stack : Ptr) : Type 0 where
  pub ns : Cells Block
  pub count : length ns ≡ n
  pub aligned : All IsAligned ns
  pub spare : Chain h stack (ns ++ fs)
  pub apart : Distinct (ns ++ fs)
  pub guard : h null ≡ none

reserve_loop-Grown :
    (garbage : List ℕ) (n info addr stack : ℕ) (h : Heap Block) (fs : Cells Block)
    → 0 < info
    → addr % block_size ≡ 0
    → ((a : Ptr) → info ≤ a → a < info + n * sizeof_block_t → has a fs ≡ false)
    → Chain h stack fs
    → Distinct fs
    → h null ≡ none
    → (h' : Heap Block) × (stack' : Ptr) × (reserve_loop garbage n info addr stack h
        ≡ some (h', stack'))
      × Grown n fs h' stack'
unfolding reserve_loop
reserve_loop-Grown garbage zero info addr stack h fs above al out s d g = (
  h,
  stack,
  refl,
  record { ns = []; count = refl; aligned = tt; spare = s; apart = d; guard = g },
)
reserve_loop-Grown garbage (suc n) info addr stack h fs above al out s d g =
    let b : Block = record { addr = addr; bytes = garbage } in
    let here = out info (omega arith) (omega arith) in
    let h1 : Heap Block = assign h info (item b stack) in
    let (h', stack', run, r) =
      reserve_loop-Grown garbage n (info + sizeof_block_t) (addr + block_size) info h1
        ((info, b) ∷ fs) (omega arith) (omega arith)
        (λ a p q. ground (arith, out a (omega arith) (omega arith)))
        (
          stack,
          refl,
          ground arith,
          ground arith,
          Seg-assign h stack null info (item b stack) fs here s,
        )
        (here, d) (ground arith) in
    let one : Cells Block = (info, b) ∷ [] in
    (
      h',
      stack',
      ground (arith, run),
      record {
        ns = r.ns ++ one;
        count = omega (arith, r.count, length-append r.ns one);
        aligned = All-append _ r.ns one r.aligned (al, tt);
        spare = rw append_assoc r.spare;
        apart = rw append_assoc r.apart;
        guard = r.guard;
      },
    )

-- reserve, on a well-formed pool and with memory that is aligned, not NULL and new, puts `count` new
-- blocks on top of the free ones, each with its data at a block boundary (assertAlign passes), and
-- counts them. It returns -1.
pub reserve-grow :
    (memalign : ℕ → Option ℕ) (garbage : List ℕ) (count q : ℕ) (p : BlockPool) (fs : Cells Block)
    → IsPool p fs
    → memalign (add64 (info_size count) (mul64 count block_size)) ≡ some q
    → 0 < q
    → q % block_size ≡ 0
    → ((a : Ptr) → q ≤ a → a < q + count * sizeof_block_t → has a fs ≡ false)
    → p.total_count + count < 2 ^ 50
    → (p' : BlockPool) × (ns : Cells Block) × (reserve memalign garbage count p
        ≡ some (negsuc 0, p'))
      × IsPool p' (ns ++ fs)
      × (length ns ≡ count)
      × All IsAligned ns
      × (p'.total_count ≡ p.total_count + count)
unfolding reserve
reserve-grow memalign garbage count q p fs s m above al out lim =
    let (h', stack', run, r) =
      reserve_loop-Grown garbage count q (q + info_size count) p.stack p.heap fs above (omega arith)
        out s.spare s.apart s.guard in
    (
      record {
        heap = h';
        total_count = add64 p.total_count count;
        free_count = add64 p.free_count count;
        pool_size = add64 p.pool_size (mul64 count block_size);
        stack = stack';
        pools = record { data_at = q; blocks = count } ∷ p.pools;
      },
      r.ns,
      rw (m, reserve, run) refl,
      record {
        spare = r.spare;
        apart = r.apart;
        count = omega (arith, s.count, s.within, r.count, length-append r.ns fs);
        within = omega (arith, s.within);
        fits = omega arith;
        guard = r.guard;
      },
      r.count,
      r.aligned,
      omega arith,
    )

-- Whether an address lies in the block_t array of one of the macro blocks.
abbrev pub covers : ℕ → List Macro → Bool
covers a [] = false
covers a (m ∷ ms) =
    (leb m.data_at a && ltb a (m.data_at + m.blocks * sizeof_block_t)) || covers a ms

clear_loop-covers :
    (ms : List Macro) (h : Heap Block) (a : Ptr)
    → clear_loop ms h a ≡ (if covers a ms then none else h a)
unfolding clear_loop
clear_loop-covers [] h a = refl
clear_loop-covers (m ∷ ms) h a = ground (arith, clear_loop-covers ms (release_macro m h) a)

-- After clear of a well-formed pool the pool is well-formed and has no block, free or not, and of the
-- memory exactly the macro blocks' is gone.
pub clear-covers :
    (p : BlockPool) (fs : Cells Block) (a : Ptr)
    → IsPool p fs
    → IsPool (clear p) []
      × ((clear p).total_count ≡ 0)
      × ((clear p).pools ≡ [])
      × ((clear p).heap a ≡ (if covers a p.pools then none else p.heap a))
unfolding clear
clear-covers p fs a s = (
  record {
    spare = refl;
    apart = tt;
    count = refl;
    within = omega arith;
    fits = omega arith;
    guard = ground (arith, clear_loop-covers p.pools p.heap null, s.guard);
  },
  refl,
  refl,
  clear_loop-covers p.pools p.heap a,
)
