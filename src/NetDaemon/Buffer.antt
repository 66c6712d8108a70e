-- ===== src/NetDaemon/Buffer.antt =====
-- The file buffers of src/netdaemon.cpp: put, push and cleanup. A descriptor's buffer is a chain of
-- blocks of the pool `bp`. memcpy past the end of a block is a fault, like a read through NULL.
pub mod Bytes
pub mod Shape
pub mod Write
pub mod Tail
pub mod Link
pub mod Grow
pub mod More
pub mod Accept
pub mod Fifo
pub mod Put
pub mod Drain
pub mod Steps
pub mod Loop
pub mod Push
pub mod Cleanup
pub mod Trace
pub mod Progress
pub mod Liveness
pub mod Tests
use libmaycloud.Common.{
  ℕ, zero, suc, ◌+◌, ◌-◌, ◌%◌, Bool, true, false, not, ◌&&◌, Option, none, some, List, [], ◌++◌,
  ltb, leb, ◌==◌, if◌then◌else◌, ◌>>=◌, length, take, drop, add64,
}
use libmaycloud.Pool.{Ptr, null, item, Heap, assign, set_next}
use libmaycloud.Blocks.{block_size, Block, BlockPool, alloc_by_size, free}

-- `obj` is the address of the object, 0 for NULL.
pub record FdInfo : Type 0 where
  pub obj : ℕ
  pub size : ℕ
  pub offset : ℕ
  pub quota : ℕ
  pub first : Ptr
  pub last : Ptr

-- `memcpy(p->data + off, src, length src)`.
abbrev pub write_at : ℕ → List ℕ → List ℕ → List ℕ
write_at off src dst = take off dst ++ (src ++ drop (off + length src) dst)

pub memcpy_block : Heap Block → Ptr → ℕ → List ℕ → Option (Heap Block)
memcpy_block h p off src =
    if leb (off + length src) block_size
    then (h p >>= λ c. some (
        assign h p
          (item (record { addr = c.value.addr; bytes = write_at off src c.value.bytes }) c.next)))
    else none

-- The loop that fills whole blocks, and the partial block after it. Without fuel it is `none`.
pub write_blocks : ℕ → Heap Block → Ptr → List ℕ → FdInfo → Option (Heap Block × FdInfo)
unfolding memcpy_block
write_blocks zero h block src fb = none
write_blocks (suc fuel) h block src fb =
    let more = memcpy_block h block 0 (take block_size src) >>= λ h1. h1 block >>= λ c.
    write_blocks fuel h1 c.next (drop block_size src)
      (record fb { size = add64 fb.size block_size; last = block }) in
    let partial = memcpy_block h block 0 src >>= λ h1.
    some (h1, record fb { size = add64 fb.size (length src); last = block }) in
    if leb block_size (length src)
    then more
    else if ltb 0 (length src)
    then partial
    else some (h, fb)

-- The end of put: the data goes into the new blocks from `block` on.
pub put_blocks : BlockPool → Ptr → List ℕ → FdInfo → Option (Bool × FdInfo × BlockPool)
unfolding write_blocks
put_blocks bp block src fb = write_blocks (length src + 1) bp.heap block src fb >>= λ r.
    some (true, r.1, record bp { heap = r.0 })

-- put where the buffer is empty.
pub put_first : FdInfo → List ℕ → BlockPool → Option (Bool × FdInfo × BlockPool)
unfolding put_blocks
put_first fb src bp = alloc_by_size (length src) bp >>= λ r.
    if r.0 == null
    then some (false, fb, bp)
    else put_blocks r.1 r.0 src (record fb { first = r.0; offset = 0 })

-- put behind the data of the last block: `offset` is where its free part starts, 0 if there is none,
-- `rest` the bytes that go there and `block` the first new block.
pub put_behind :
    FdInfo → List ℕ → (offset rest : ℕ) → Ptr → BlockPool → Option (Bool × FdInfo × BlockPool)
unfolding put_blocks memcpy_block
put_behind fb src offset rest block bp =
    let link = λ (h : Heap Block) (fb' : FdInfo) (src' : List ℕ).
      set_next h fb'.last block >>= λ h1.
      put_blocks (record bp { heap = h1 }) block src' (record fb' { last = block }) in
    if ltb 0 offset
    then (memcpy_block bp.heap fb.last offset (take rest src) >>= λ h.
        let fb' : FdInfo = record fb { size = add64 fb.size rest } in
        if length src - rest == 0
        then some (true, fb', record bp { heap = h })
        else link h fb' (drop rest src))
    else link bp.heap fb src

pub put_more : FdInfo → List ℕ → BlockPool → Option (Bool × FdInfo × BlockPool)
unfolding put_behind
put_more fb src bp =
    let offset = add64 fb.offset fb.size % block_size in
    let rest = if ltb 0 offset then block_size - offset else 0 in
    if leb (length src) rest
    then put_behind fb src offset (length src) null bp
    else (alloc_by_size (length src - rest) bp >>= λ r.
        if r.0 == null then some (false, fb, bp) else put_behind fb src offset rest r.0 r.1)

-- put(fd, fb, data, len), with the new file buffer and pool.
pub put_fd : FdInfo → List ℕ → BlockPool → Option (Bool × FdInfo × BlockPool)
unfolding put_first put_more
put_fd fb src bp =
    if not (fb.quota == 0) && ltb fb.quota (add64 fb.size (length src))
    then some (false, fb, bp)
    else if ltb 0 fb.size
    then put_more fb src bp
    else put_first fb src bp

-- What a call of write returns: how many bytes it took, `none` for an error.
abbrev pub Written : Type 0
Written = Option ℕ

-- One round of push after `r` bytes of the `rest` at the front were written: the file buffer, the
-- memory and the list of used-up blocks, and whether the loop goes on.
pub after_write :
    FdInfo → Heap Block → Ptr → (rest r : ℕ) → Option (FdInfo × Heap Block × Ptr × Bool)
after_write fb h unused rest r =
    let fb' : FdInfo = record fb { size = fb.size - r; offset = fb.offset + r } in
    if r == rest
    then (h fb.first >>= λ c. set_next h fb.first unused >>= λ h1.
        some (record fb' { first = c.next; offset = 0 }, h1, fb.first, true))
    else some (fb', h, unused, false)

-- The loop of push. `write i n` is what the i-th call of write returns for `n` bytes; `sent` are the
-- bytes that were given to it and taken so far. Without fuel it is `none`.
pub push_loop :
    (ℕ → ℕ → Written)
    → ℕ
    → (i : ℕ) → FdInfo
    → Heap Block
    → Ptr
    → (sent : List ℕ) → Option (FdInfo × Heap Block × Ptr × List ℕ)
unfolding after_write
push_loop write zero i fb h unused sent = none
push_loop write (suc fuel) i fb h unused sent =
    let free_part = block_size - fb.offset in
    let rest = if ltb fb.size free_part then fb.size else free_part in
    let stop = some (fb, h, unused, sent) in
    let round = λ (r : ℕ). h fb.first >>= λ b. after_write fb h unused rest r >>= λ s.
    let sent' : List ℕ = sent ++ take r (drop fb.offset b.value.bytes) in
    let more = push_loop write fuel (i + 1) s.0 s.1 s.2 sent' in
    if s.3 then more else some (s.0, s.1, s.2, sent') in
    if ltb 0 fb.size
    then elim (write i rest) [ none ↦ stop | some r ↦ if r == 0 then stop else round r ]
    else stop

-- push(fd) on a descriptor's buffer: true if it is empty now, with the bytes that were written.
pub push_fd : (ℕ → ℕ → Written) → FdInfo → BlockPool → Option (Bool × FdInfo × BlockPool × List ℕ)
unfolding push_loop
push_fd write fb bp = push_loop write (fb.size + 1) 0 fb bp.heap null [] >>= λ r.
    free (fb.size + 1) r.2 (record bp { heap = r.1 }) >>= λ bp'. some (r.0.size == 0, r.0, bp', r.3)

-- cleanup(fd) on a descriptor's buffer; it keeps `obj`.
unfoldable pub cleanup_fd : ℕ → FdInfo → BlockPool → Option (FdInfo × BlockPool)
cleanup_fd fuel fb bp = free fuel fb.first bp >>= λ bp'.
    some (record { obj = fb.obj; size = 0; offset = 0; quota = 0; first = null; last = null }, bp')
