-- ===== src/NetDaemon/Buffer/More.antt =====
-- put of src/netdaemon.cpp into a buffer that is not empty.
use libmaycloud.Common.{
  ℕ, ◌+◌, ◌-◌, ◌%◌, ◌^◌, ◌<◌, ◌≡◌, refl, inl, inr, true, false, some, List, arith, ltb, ◌==◌,
  if◌then◌else◌, ltb→lt, ltb→le, Bool-cases, length, take, drop, add64,
}
use libmaycloud.Pool.{Ptr, Heap, set_next}
use libmaycloud.Pool.Chain.{Cells}
use libmaycloud.Blocks.{block_size, Block, BlockPool}
use libmaycloud.NetDaemon.Buffer.{FdInfo, memcpy_block, put_blocks, put_behind}
use libmaycloud.NetDaemon.Buffer.Shape.{IsBuffer}
use libmaycloud.NetDaemon.Buffer.Link.{length-behind}

module _ (fb : FdInfo) (src : List ℕ) (off rest : ℕ) (block : Ptr) (bp : BlockPool)
    (h : Heap Block) where
  pub put_behind-fits :
      ltb 0 off ≡ true
      → memcpy_block bp.heap fb.last off (take rest src) ≡ some h
      → length src - rest ≡ 0
      → put_behind fb src off rest block bp
        ≡ some (true, record fb { size = add64 fb.size rest }, record bp { heap = h })
  unfolding put_behind
  put_behind-fits o m e = rw (o, m, e) refl

  pub put_behind-more :
      (h1 : Heap Block)
      → ltb 0 off ≡ true
      → memcpy_block bp.heap fb.last off (take rest src) ≡ some h
      → (length src - rest == 0) ≡ false
      → set_next h fb.last block ≡ some h1
      → put_behind fb src off rest block bp
        ≡ put_blocks
            (record bp { heap = h1 })
            block
            (drop rest src)
            (record fb { size = add64 fb.size rest; last = block })
  unfolding put_behind
  put_behind-more h1 o m e l = rw (o, m, e, l) refl

  pub put_behind-none :
      ltb 0 off ≡ false
      → set_next bp.heap fb.last block ≡ some h
      → put_behind fb src off rest block bp
        ≡ put_blocks (record bp { heap = h }) block src (record fb { last = block })
  unfolding put_behind
  put_behind-none o l = rw (o, l) refl

-- Where the free part of the last block starts, and how long it is.
abbrev pub tail_offset : FdInfo → ℕ
tail_offset fb = add64 fb.offset fb.size % block_size

abbrev pub tail_room : FdInfo → ℕ
tail_room fb = if ltb 0 (tail_offset fb) then block_size - tail_offset fb else 0

module _ {fb : FdInfo} {bp : BlockPool} {cs fs : Cells Block} {content : List ℕ}
    (b : IsBuffer fb bp cs fs content) (lim : fb.size < 2 ^ 63) where
  tail_offset-mod : tail_offset fb ≡ (fb.offset + fb.size) % block_size
  tail_offset-mod = omega (arith, b.low)

  -- The room that put computes is that behind the data.
  pub tail_room-behind : tail_room fb ≡ length b.behind
  tail_room-behind = elim (Bool-cases (ltb 0 (tail_offset fb))) [
    | inl e ↦ rw e (omega (arith, ltb→lt _ _ e, tail_offset-mod, length-behind b, b.bound, b.tight))
    | inr e ↦ rw e (omega (arith, ltb→le _ _ e, tail_offset-mod, length-behind b, b.bound, b.tight))
  ]

  pub tail_offset-add : 0 < length b.behind → tail_offset fb + length b.behind ≡ block_size
  tail_offset-add k = omega (arith, tail_offset-mod, length-behind b, b.bound, b.tight)

  pub tail_offset-zero : length b.behind ≡ 0 → tail_offset fb ≡ 0
  tail_offset-zero k = omega (arith, tail_offset-mod, length-behind b)
