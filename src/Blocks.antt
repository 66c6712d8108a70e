-- ===== src/Blocks.antt =====
-- src/blockpool.cpp and src/headers/maycloud/blockpool.h: the pool of fixed-size memory blocks behind
-- the file buffers. A block_t stands in the heap under its address, with the bytes that its `data`
-- points to. posix_memalign is a parameter; it gives the address of the memory, or fails.
pub mod Shape
pub mod Reserve
pub mod Alloc
pub mod Free
pub mod Global
mod Tests
use libmaycloud.Common.{
  ℕ, zero, suc, ◌+◌, ◌-◌, ◌*◌, ◌/◌, ◌%◌, Bool, true, not, ◌&&◌, Option, none, some, List, [], ◌∷◌,
  ltb, leb, ◌==◌, if◌then◌else◌, ◌>>=◌, inc64, add64, sub64, mul64, ℤ, pos, negsuc,
}
use libmaycloud.Pool.{Ptr, null, item, Heap, assign, set_next}

abbrev pub block_size : ℕ
block_size = 4096

-- The value of a block_t: the address of its data and the bytes there.
pub record Block : Type 0 where
  pub addr : ℕ
  pub bytes : List ℕ

abbrev pub sizeof_block_t : ℕ
sizeof_block_t = 16

-- A macro block: its address, and how many block_t it holds, which the allocator knows.
pub record Macro : Type 0 where
  pub data_at : ℕ
  pub blocks : ℕ

pub record BlockPool : Type 0 where
  pub heap : Heap Block
  pub total_count : ℕ
  pub free_count : ℕ
  pub pool_size : ℕ
  pub stack : Ptr
  pub pools : List Macro

-- The constructor, in a memory `h`.
pub create : Heap Block → BlockPool
create h = record {
  heap = h;
  total_count = 0;
  free_count = 0;
  pool_size = 0;
  stack = null;
  pools = [];
}

pub get_busy_count : BlockPool → ℕ
get_busy_count p = sub64 p.total_count p.free_count

-- How many blocks `size` bytes take.
abbrev pub blocks_for : ℕ → ℕ
blocks_for size = add64 size (block_size - 1) / block_size

abbrev info_size : ℕ → ℕ
info_size count = mul64 (blocks_for (mul64 count sizeof_block_t)) block_size

-- The loop of `reserve`; assertAlign ends the process, which is a fault here.
pub reserve_loop : List ℕ → ℕ → (info addr stack : ℕ) → Heap Block → Option (Heap Block × Ptr)
reserve_loop garbage zero info addr stack h = some (h, stack)
reserve_loop garbage (suc n) info addr stack h =
    if addr % block_size == 0
    then reserve_loop garbage n (info + sizeof_block_t) (addr + block_size) info
        (assign h info (item (record { addr = addr; bytes = garbage }) stack))
    else none

-- reserve(count); both the failure and the success return -1.
pub reserve : (ℕ → Option ℕ) → List ℕ → ℕ → BlockPool → Option (ℤ × BlockPool)
unfolding reserve_loop
reserve memalign garbage count p =
    elim (memalign (add64 (info_size count) (mul64 count block_size))) [
      | none ↦ some (negsuc 0, p)
      | some q ↦ reserve_loop garbage count q (q + info_size count) p.stack p.heap >>= λ r. some (
        negsuc 0,
        record {
          heap = r.0;
          total_count = add64 p.total_count count;
          free_count = add64 p.free_count count;
          pool_size = add64 p.pool_size (mul64 count block_size);
          stack = r.1;
          pools = record { data_at = q; blocks = count } ∷ p.pools;
        },
      )
    ]

pub reserve_by_size : (ℕ → Option ℕ) → List ℕ → ℕ → BlockPool → Option (ℤ × BlockPool)
unfolding reserve
reserve_by_size memalign garbage size p = reserve memalign garbage (blocks_for size) p

-- `::free(pool->data)`: the macro block's memory is gone.
abbrev pub release_macro : Macro → Heap Block → Heap Block
release_macro m h a =
    if leb m.data_at a && ltb a (m.data_at + m.blocks * sizeof_block_t) then none else h a

pub clear_loop : List Macro → Heap Block → Heap Block
clear_loop [] h = h
clear_loop (m ∷ ms) h = clear_loop ms (release_macro m h)

pub clear : BlockPool → BlockPool
unfolding clear_loop
clear p = record {
  heap = clear_loop p.pools p.heap;
  total_count = 0;
  free_count = 0;
  pool_size = 0;
  stack = null;
  pools = [];
}

-- `stack = stack->next`, `n` times.
pub advance : ℕ → Heap Block → Ptr → Option Ptr
advance zero h p = some p
advance (suc n) h p = h p >>= λ c. advance n h c.next

pub alloc_by_blocks : ℕ → BlockPool → Option (Ptr × BlockPool)
unfolding advance
alloc_by_blocks count p =
    if count == 0
    then some (null, p)
    else if ltb p.free_count count
    then some (null, p)
    else advance (count - 1) p.heap p.stack >>= λ last. p.heap last >>= λ c.
        set_next p.heap last null >>= λ h.
        some (p.stack, record p { heap = h; stack = c.next; free_count = p.free_count - count })

pub alloc_by_size : ℕ → BlockPool → Option (Ptr × BlockPool)
unfolding alloc_by_blocks
alloc_by_size size p = alloc_by_blocks (blocks_for size) p

-- The loop of `free`: the last block of the list at `last`, and the number of blocks. Without fuel
-- it is `none`.
pub free_walk : ℕ → Heap Block → (last count : ℕ) → Option (Ptr × ℕ)
free_walk zero h last count = none
free_walk (suc fuel) h last count =
    let rest = h last >>= λ c. free_walk fuel h c.next (inc64 count) in
    h last >>= λ c. if c.next == null then some (last, count) else rest

-- free(list). The fuel bounds the length of the list.
unfoldable pub free : ℕ → Ptr → BlockPool → Option BlockPool
unfolding free_walk
free fuel list p =
    if list == null
    then some p
    else free_walk fuel p.heap list 1 >>= λ r. set_next p.heap r.0 p.stack >>= λ h.
        some (record p { heap = h; stack = list; free_count = add64 p.free_count r.1 })

-- bpInitPool(min_size) on the global pool, `none` where it is not created yet. An int is true in C++
-- if it is not 0.
pub is_true : ℤ → Bool
is_true (pos n) = not (n == 0)
is_true (negsuc n) = true

pub bp_init_pool :
    (ℕ → Option ℕ) → List ℕ → Heap Block → ℕ → Option BlockPool → Option (Bool × BlockPool)
unfolding create reserve is_true
bp_init_pool memalign garbage h min_size global =
    let p : BlockPool = elim global [ none ↦ create h | some q ↦ q ] in
    let grown =
      reserve memalign garbage (min_size - p.total_count) p >>= λ r. some (is_true r.0, r.1) in
    if ltb p.total_count min_size then grown else some (true, p)

-- bpPool(min_size): the pool, NULL (`none` inside) where it cannot be given.
pub bp_pool :
    (ℕ → Option ℕ) → List ℕ → Heap Block → ℕ → Option BlockPool → Option (Option BlockPool)
unfolding bp_init_pool
bp_pool memalign garbage h min_size global =
    bp_init_pool memalign garbage h min_size global >>= λ r. some (if r.0 then some r.1 else none)
